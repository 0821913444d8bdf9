-- ===== src/Kernels/Stores.antt =====
-- Loops that make stores, and what an array is after them in any order.
use mathlib.Core.List.{Mem, not-mem-nil, mem-cons, mem-append, mem-append_left, mem-append_right}
use mathlib.Core.Logic.Or
use native.Mathlib.Nat.{ℕ_set}
use bsg_manycore.Prelude.{
  ℕ, zero, suc, ◌+◌, ◌-◌, ◌*◌, ◌≤◌, ◌<◌, ◌≡◌, ◌≢◌, ◌⊎◌, inl, inr, refl, ap, sym, ◌∙◌, arith, List,
  [], ◌∷◌, ◌++◌, ltb, ◌==◌, if◌then◌else◌, ℕ_discrete, Bool-cases, true, subst,
}
use bsg_manycore.Kernels.{Array, Store, for_step, for_strided}

abbrev pub put : Array → ℕ → ℕ → Array
put a p v q = if q == p then v else a q

-- The array after a list of stores.
unfoldable pub perform : List Store → Array → Array
perform [] a = a
perform ((p, v) ∷ ws) a = perform ws (put a p v)

-- Every store of the list has the value that `f` gives its index.
abbrev pub Sound : (ℕ → ℕ) → List Store → Type 0
Sound f ws = (p v : ℕ) → Mem (p, v) ws → v ≡ f p

-- No store of the list is at the index.
abbrev pub Spares : ℕ → List Store → Type 0
Spares q ws = (v : ℕ) → Mem (q, v) ws → ⊥

pub put_self : (a : Array) (p v q : ℕ) → q ≡ p → put a p v q ≡ v
put_self a p v q e = ground arith

pub put_ne : (a : Array) (p v q : ℕ) → q ≢ p → put a p v q ≡ a q
put_ne a p v q n = ground arith

elsewhere :
    (f : ℕ → ℕ) (p v : ℕ) (ws : List Store) (a : Array) (q : ℕ)
    → q ≢ p
    → ((put a p v q ≡ f q) ⊎ Mem (q, f q) ws → perform ws (put a p v) q ≡ f q)
    → (a q ≡ f q) ⊎ Mem (q, f q) ((p, v) ∷ ws)
    → perform ws (put a p v) q ≡ f q
elsewhere f p v ws a q n later (inl e) = later (inl (put_ne a p v q n ∙ e))
elsewhere f p v ws a q n later (inr m) =
    Or.elim (ℕ_set _ _) (mem-cons.0 m) (λ e. absurd (n (ap (λ (w : Store). w.0) e)))
      (λ m. later (inr m))

pub perform-Sound :
    (f : ℕ → ℕ) (ws : List Store) (a : Array) (q : ℕ)
    → Sound f ws
    → (a q ≡ f q) ⊎ Mem (q, f q) ws
    → perform ws a q ≡ f q
unfolding perform
perform-Sound f [] a q s (inl e) = e
perform-Sound f [] a q s (inr m) = absurd (not-mem-nil m)
perform-Sound f ((p, v) ∷ ws) a q s h =
    let later : (put a p v q ≡ f q) ⊎ Mem (q, f q) ws → perform ws (put a p v) q ≡ f q =
      perform-Sound f ws (put a p v) q (λ p' v' m. s p' v' (mem-cons.1 (Or.inr m))) in
    elim (ℕ_discrete q p) [
      | yes e ↦ later (inl (put_self a p v q e ∙ s p v (mem-cons.1 (Or.inl refl)) ∙ ap f (sym e)))
      | no n ↦ elsewhere f p v ws a q n later h
    ]

pub perform-Spares : (ws : List Store) (a : Array) (q : ℕ) → Spares q ws → perform ws a q ≡ a q
unfolding perform
perform-Spares [] a q s = refl
perform-Spares ((p, v) ∷ ws) a q s =
    perform-Spares ws (put a p v) q (λ v' m. s v' (mem-cons.1 (Or.inr m)))
    ∙ put_ne a p v q (λ e. s v (mem-cons.1 (Or.inl (ap (λ t. (t, v)) e))))

-- the indices from which a loop with the stride comes to `j`
pub data Visits (stride j : ℕ) : ℕ → Type 0 where
  here : Visits stride j j
  next : {i : ℕ} → i < j → Visits stride j (i + stride) → Visits stride j i

pub visits : (stride j i k : ℕ) → 0 < stride → i + k * stride ≡ j → Visits stride j i
visits stride j i zero pos e = subst (Visits stride j) {x = j} (omega arith) here
visits stride j i (suc k) pos e =
    next (grind arith) (visits stride j (i + stride) k pos (grind arith))

Visits-le : {stride j i : ℕ} → Visits stride j i → i ≤ j
Visits-le here = omega arith
Visits-le (next h v) = omega arith

module _ (stop stride : ℕ) (body : ℕ → List Store) where
  -- what holds of the stores of every round holds of the stores of the loop
  for_step-every :
      (P : Store → Type 0) (prop : (w : Store) → IsProp (P w)) (fuel i : ℕ)
      → ((k : ℕ) → i + k * stride < stop → (w : Store) → Mem w (body (i + k * stride)) → P w)
      → (w : Store) → Mem w (for_step fuel i stop stride body)
      → P w
  unfolding for_step
  for_step-every P prop zero i h w m = absurd (not-mem-nil m)
  for_step-every P prop (suc fuel) i h w m =
      let first : (j : ℕ) → j ≡ i + 0 * stride → j < stop → Mem w (body j) → P w =
        λ j e lt m. h 0 (omega (arith, e, lt)) w (subst (λ j. Mem w (body j)) e m) in
      let later : (k : ℕ) → i + stride + k * stride ≡ i + suc k * stride = λ k. grind arith in
      elim (Bool-cases (ltb i stop)) [
        | inl lt ↦
            let m' : Mem w (body i ++ for_step fuel (i + stride) stop stride body) = rw lt at m in
            Or.elim (prop w) (mem-append.0 m') (first i (omega arith) (ground arith)) (
              for_step-every P prop fuel (i + stride)
                (λ k lt w m.
                  h (suc k) (subst (λ j. j < stop) (later k) lt) w
                    (subst (λ j. Mem w (body j)) (later k) m))
                w)
        | inr ge ↦ let m' : Mem w [] = rw ge at m in absurd (not-mem-nil m')
      ]

  for_step-Mem :
      (fuel i j : ℕ) (w : Store)
      → 0 < stride
      → stop ≤ i + fuel
      → Visits stride j i
      → j < stop
      → Mem w (body j)
      → Mem w (for_step fuel i stop stride body)
  unfolding for_step
  for_step-Mem zero i j w pos enough v h m = absurd (omega (arith, Visits-le v))
  for_step-Mem (suc fuel) i j w pos enough here h m =
      let lt : ltb i stop ≡ true = ground arith in rw lt (mem-append_left _ m)
  for_step-Mem (suc fuel) i j w pos enough (next k v) h m =
      let lt : ltb i stop ≡ true = ground (arith, Visits-le v) in
      rw lt (mem-append_right _ (for_step-Mem fuel (i + stride) j w pos (omega arith) v h m))

  pub for_strided-rounds :
      (P : Store → Type 0) (prop : (w : Store) → IsProp (P w)) (i : ℕ)
      → ((k : ℕ) → i + k * stride < stop → (w : Store) → Mem w (body (i + k * stride)) → P w)
      → (w : Store) → Mem w (for_strided i stop stride body)
      → P w
  unfolding for_strided
  for_strided-rounds P prop i = for_step-every P prop (stop - i) i

  pub for_strided-every :
      (P : Store → Type 0) (prop : (w : Store) → IsProp (P w)) (i : ℕ)
      → ((j : ℕ) → i ≤ j → j < stop → (w : Store) → Mem w (body j) → P w)
      → (w : Store) → Mem w (for_strided i stop stride body)
      → P w
  for_strided-every P prop i h =
      for_strided-rounds P prop i (λ k lt. h (i + k * stride) (grind arith) lt)

  pub for_strided-Mem :
      (i j : ℕ) (w : Store)
      → 0 < stride
      → Visits stride j i
      → j < stop
      → Mem w (body j)
      → Mem w (for_strided i stop stride body)
  unfolding for_strided
  for_strided-Mem i j w pos = for_step-Mem (stop - i) i j w pos (omega arith)
