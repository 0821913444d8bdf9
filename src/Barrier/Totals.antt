-- ===== src/Barrier/Totals.antt =====
-- The count of bsg_barrier.h as a sum over the tiles.
use bsg_manycore.Prelude.{ℕ, zero, suc, ◌+◌, ◌≤◌, ◌<◌, ◌≡◌, ◌≢◌, refl, ap₂, arith, ℕ_discrete}
use bsg_manycore.Barrier.Defs.{total}

pub total_eq : (n : ℕ) (f g : ℕ → ℕ) → ((t : ℕ) → t < n → f t ≡ g t) → total n f ≡ total n g
total_eq zero f g h = refl
total_eq (suc n) f g h = ap₂ ◌+◌ (h n (omega arith)) (total_eq n f g (λ t k. h t (omega arith)))

pub total_zero : (n : ℕ) (f : ℕ → ℕ) → ((t : ℕ) → t < n → f t ≡ 0) → total n f ≡ 0
total_zero zero f h = refl
total_zero (suc n) f h = omega (arith, h n (omega arith), total_zero n f (λ t k. h t (omega arith)))

pub total_le : (n : ℕ) (f : ℕ → ℕ) → ((t : ℕ) → t < n → f t ≤ 1) → total n f ≤ n
total_le zero f h = omega arith
total_le (suc n) f h = omega (arith, h n (omega arith), total_le n f (λ t k. h t (omega arith)))

pub total_full :
    (n : ℕ) (f : ℕ → ℕ) → ((t : ℕ) → t < n → f t ≤ 1) → total n f ≡ n → (t : ℕ) → t < n → f t ≡ 1
total_full zero f h e t k = absurd (omega arith)
total_full (suc n) f h e t k =
    let top = h n (omega arith) in
    let rest = total_le n f (λ u ku. h u (omega arith)) in
    elim (ℕ_discrete t n) [
      | yes tn ↦ rw tn (omega (arith, top, rest))
      | no tn ↦
          total_full n f (λ u ku. h u (omega arith)) (omega (arith, top, rest)) t (omega arith)
    ]

-- One more at one tile.
pub total_add :
    (n t : ℕ) (f g : ℕ → ℕ)
    → t < n
    → g t ≡ f t + 1
    → ((u : ℕ) → u < n → u ≢ t → g u ≡ f u)
    → total n g ≡ total n f + 1
total_add zero t f g k e h = absurd (omega arith)
total_add (suc n) t f g k e h = elim (ℕ_discrete n t) [
  | yes nt ↦
      let here : g n ≡ f n + 1 = rw nt e in
      omega (arith, here, total_eq n f g (λ u ku. symm (h u (omega arith) (λ ut. omega arith))))
  | no nt ↦
      let rest = total_add n t f g (omega arith) e (λ u ku. h u (omega arith)) in
      omega (arith, h n (omega arith) nt, rest)
]
  where
    symm : {a b : ℕ} → a ≡ b → b ≡ a
    symm p = omega arith
