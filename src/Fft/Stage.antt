-- ===== src/Fft/Stage.antt =====
-- Which butterflies the tiles take in a round of Fft.
use mathlib.Core.List.{Mem, not-mem-nil, mem-append, mem-append_left, mem-append_right}
use mathlib.Core.Logic.Or
use native.Mathlib.Nat.{mod-add-mod, mod-eq_of_lt}
use bsg_manycore.Prelude.{
  ℕ, zero, suc, ◌+◌, ◌*◌, ◌/◌, ◌%◌, ◌≤◌, ◌<◌, ◌≡◌, ap, sym, ◌∙◌, arith, List, ◌++◌, ltb, ◌==◌, Bool,
  true, false, if◌then◌else◌, Bool-cases, inl, inr, subst,
}
use bsg_manycore.Kernels.{Array, Store}
use bsg_manycore.Fft.{butterfly, butterflies, blocks}

guarded-every :
    (P : Store → Type 0) (prop : (w : Store) → IsProp (P w)) (b : Bool) (xs ys : List Store)
    → ((w : Store) → Mem w xs → P w)
    → ((w : Store) → Mem w ys → P w)
    → (w : Store) → Mem w (if b then xs ++ ys else ys)
    → P w
guarded-every P prop true xs ys hx hy w m = Or.elim (prop w) (mem-append.0 m) (hx w) (hy w)
guarded-every P prop false xs ys hx hy w m = hy w m

guarded-later :
    (b : Bool) (xs ys : List Store) (w : Store) → Mem w ys → Mem w (if b then xs ++ ys else ys)
guarded-later true xs ys w m = mem-append_right _ m
guarded-later false xs ys w m = m

module _ (plus minus times twiddle : ℕ → ℕ → ℕ) (N group_size id n : ℕ) (X : Array)
    (some : 0 < group_size) where
  abbrev row : (i rounds k work_id : ℕ) → List Store × ℕ
  row i rounds k work_id =
      butterflies plus minus times twiddle N group_size id n i X rounds k work_id

  abbrev one : (i k : ℕ) → List Store
  one i k = butterfly plus minus times twiddle N group_size n i k X

  row-work_id :
      (i rounds k work_id : ℕ)
      → work_id < group_size
      → (row i rounds k work_id).1 ≡ (work_id + rounds) % group_size
  unfolding butterflies
  row-work_id i zero k work_id lt =
      sym (ap (λ t. t % group_size) {y = work_id} (omega arith) ∙ mod-eq_of_lt lt)
  row-work_id i (suc rounds) k work_id lt =
      row-work_id i rounds (k + 1) ((work_id + 1) % group_size) (omega arith)
      ∙ mod-add-mod (work_id + 1) group_size rounds
      ∙ ap (λ t. t % group_size) (omega arith)

  row-every :
      (P : Store → Type 0) (prop : (w : Store) → IsProp (P w)) (i rounds k work_id : ℕ)
      → ((j : ℕ) → j < k + rounds → (w : Store) → Mem w (one i j) → P w)
      → (w : Store) → Mem w (row i rounds k work_id).0
      → P w
  unfolding butterflies
  row-every P prop i zero k work_id h w m = absurd (not-mem-nil m)
  row-every P prop i (suc rounds) k work_id h w m =
      guarded-every P prop (work_id == id) _ _ (h k (omega arith))
        (row-every P prop i rounds (k + 1) ((work_id + 1) % group_size) (λ j lt. h j (omega arith)))
        w m

  row-Mem :
      (i rounds k work_id j : ℕ) (w : Store)
      → work_id < group_size
      → j < rounds
      → (work_id + j) % group_size ≡ id
      → Mem w (one i (k + j))
      → Mem w (row i rounds k work_id).0
  unfolding butterflies
  row-Mem i zero k work_id j w lt below e m = absurd (omega arith)
  row-Mem i (suc rounds) k work_id zero w lt below e m =
      let here : (work_id == id) ≡ true = ground (arith, mod-eq_of_lt lt, e) in
      rw here (mem-append_left _ (subst (λ k. Mem w (one i k)) {x = k + 0} (omega arith) m))
  row-Mem i (suc rounds) k work_id (suc j) w lt below e m =
      guarded-later (work_id == id) (one i k) _ w (
        row-Mem i rounds (k + 1) ((work_id + 1) % group_size) j w (omega arith) (omega arith)
          (mod-add-mod (work_id + 1) group_size j
            ∙ ap (λ t. t % group_size) {y = work_id + suc j} (omega arith)
            ∙ e)
          (subst (λ k. Mem w (one i k)) {x = k + suc j} (omega arith) m))

  abbrev half : ℕ
  half = n / 2

  -- the place of block `c` from i on
  abbrev start : (i c : ℕ) → ℕ
  start i c = i + c * n

  pub blocks-every :
      (P : Store → Type 0) (prop : (w : Store) → IsProp (P w)) (fuel i work_id : ℕ)
      → ((c k : ℕ) → start i c < N → k < half → (w : Store) → Mem w (one (start i c) k) → P w)
      → (w : Store) → Mem w (blocks plus minus times twiddle N group_size id n X fuel i work_id)
      → P w
  unfolding blocks
  blocks-every P prop zero i work_id h w m = absurd (not-mem-nil m)
  blocks-every P prop (suc fuel) i work_id h w m =
      let next : (c : ℕ) → start (i + n) c ≡ start i (suc c) = λ c. grind arith in
      let first : start i 0 ≡ i = omega arith in
      elim (Bool-cases (ltb i N)) [
        | inl lt ↦
            let m1 = rw lt at m in
            Or.elim (prop w) (mem-append.0 m1)
              (row-every P prop i half 0 work_id
                (λ j below w m.
                  h 0 j (ground arith) (omega arith) w (subst (λ i. Mem w (one i j)) (sym first) m))
                w)
              (blocks-every P prop fuel (i + n) (row i half 0 work_id).1
                (λ c k below lt w m.
                  h (suc c) k (subst (λ i. i < N) (next c) below) lt w
                    (subst (λ i. Mem w (one i k)) (next c) m))
                w)
        | inr ge ↦ absurd (not-mem-nil (rw ge at m))
      ]

  pub blocks-Mem :
      (fuel i work_id c k : ℕ) (w : Store)
      → 0 < n
      → N ≤ i + fuel
      → work_id < group_size
      → start i c < N
      → k < half
      → (work_id + (c * half + k)) % group_size ≡ id
      → Mem w (one (start i c) k)
      → Mem w (blocks plus minus times twiddle N group_size id n X fuel i work_id)
  unfolding blocks
  blocks-Mem zero i work_id c k w pos enough lt below hk e m = absurd (omega arith)
  blocks-Mem (suc fuel) i work_id zero k w pos enough lt below hk e m =
      let here : ltb i N ≡ true = ground arith in
      rw here (
        mem-append_left _ (
          row-Mem i half 0 work_id k w lt hk
            (ap (λ t. (work_id + t) % group_size) {y = 0 * half + k} (omega arith) ∙ e)
            (subst (λ k. Mem w (one i k)) {x = k} (omega arith)
              (subst (λ i. Mem w (one i k)) {x = start i 0} (omega arith) m))))
  blocks-Mem (suc fuel) i work_id (suc c) k w pos enough lt below hk e m =
      let next : start i (suc c) ≡ start (i + n) c = grind arith in
      let here : ltb i N ≡ true = ground arith in
      let after = row-work_id i half 0 work_id lt in
      rw here (
        mem-append_right _ (
          blocks-Mem fuel (i + n) (row i half 0 work_id).1 c k w pos (omega arith)
            (subst (λ t. t < group_size) (sym after) (omega arith)) (subst (λ i. i < N) next below)
            hk
            (ap (λ t. (t + (c * half + k)) % group_size) after
              ∙ mod-add-mod (work_id + half) group_size (c * half + k)
              ∙ ap (λ t. t % group_size) {y = work_id + (suc c * half + k)} (grind arith)
              ∙ e)
            (subst (λ i. Mem w (one i k)) next m)))
