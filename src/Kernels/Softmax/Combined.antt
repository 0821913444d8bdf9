-- ===== src/Kernels/Softmax/Combined.antt =====
-- Which elements of the matrix a reduction of Kernels/Softmax has taken in.
use native.Mathlib.Nat.{div-add-mod', add-mod_right, mod-eq_of_lt}
use bsg_manycore.Prelude.{
  ℕ, zero, suc, ◌+◌, ◌-◌, ◌*◌, ◌%◌, ◌≤◌, ◌<◌, ◌≡◌, ap, ◌∙◌, arith, ltb, leb, ◌==◌, ◌&&◌,
  if◌then◌else◌, Bool-cases, inl, inr,
}
use bsg_manycore.Kernels.Softmax.{for_fold, fold_step}

-- What holds before a loop, and is kept by a round, holds after it.
module _ {ℓ} (Inv : ℕ → ℕ → Type ℓ) (stop stride : ℕ) (body : ℕ → ℕ → ℕ) where
  fold_step-keeps :
      (fuel i acc : ℕ)
      → 0 < stride
      → stop ≤ i + fuel
      → ((i acc : ℕ) → i < stop → Inv i acc → Inv (i + stride) (body i acc))
      → Inv i acc
      → (j : ℕ) × (stop ≤ j) × Inv j (fold_step fuel i stop stride body acc)
  unfolding fold_step
  fold_step-keeps zero i acc pos enough keeps inv = (i, omega arith, inv)
  fold_step-keeps (suc fuel) i acc pos enough keeps inv = elim (Bool-cases (ltb i stop)) [
    | inl lt ↦ rw lt (
        fold_step-keeps fuel (i + stride) (body i acc) pos (omega arith) keeps
          (keeps i acc (ground arith) inv))
    | inr ge ↦ rw ge (i, ground arith, inv)
  ]

  pub for_fold-keeps :
      (i acc : ℕ)
      → 0 < stride
      → ((i acc : ℕ) → i < stop → Inv i acc → Inv (i + stride) (body i acc))
      → Inv i acc
      → (j : ℕ) × (stop ≤ j) × Inv j (for_fold i stop stride body acc)
  unfolding for_fold
  for_fold-keeps i acc pos = fold_step-keeps (stop - i) i acc pos (omega arith)

-- 1 at one index
abbrev pub one_at : (i j : ℕ) → ℕ
one_at i j = if j == i then 1 else 0

-- A value that is made by `op` from `unit` and elements of the matrix, in some order and grouping, which
-- takes in the element of row y and column x `count y x` times.
pub data Combined (op : ℕ → ℕ → ℕ) (unit : ℕ) (f : ℕ → ℕ → ℕ)
    : (count : ℕ → ℕ → ℕ) → ℕ → Type 0 where
  nothing : (count : ℕ → ℕ → ℕ) → ((y x : ℕ) → count y x ≡ 0) → Combined op unit f count unit
  element :
      (count : ℕ → ℕ → ℕ) (y x : ℕ)
      → ((i j : ℕ) → count i j ≡ one_at y i * one_at x j)
      → Combined op unit f count (f y x)
  both :
      (count left right : ℕ → ℕ → ℕ) (a b : ℕ)
      → Combined op unit f left a
      → Combined op unit f right b
      → ((y x : ℕ) → count y x ≡ left y x + right y x)
      → Combined op unit f count (op a b)

-- Indicators of indices in the range from `start` to `stop`, of which a tile takes those with its residue:
-- those below `limit`, all of them, and those of all tiles with a residue below `limit`.
module _ (start stop stride : ℕ) where
  abbrev pub taken : (t limit j : ℕ) → ℕ
  taken t limit j =
      if (leb start j && ltb j stop) && (((j - start) % stride == t) && ltb j limit) then 1 else 0

  abbrev pub taken_all : (t j : ℕ) → ℕ
  taken_all t j = taken t stop j

  abbrev pub taken_by : (limit j : ℕ) → ℕ
  taken_by limit j =
      if (leb start j && ltb j stop) && ltb ((j - start) % stride) limit then 1 else 0

  abbrev pub within : (j : ℕ) → ℕ
  within j = if leb start j && ltb j stop then 1 else 0

  pub residue-next : (i : ℕ) → start ≤ i → (i + stride - start) % stride ≡ (i - start) % stride
  residue-next i le =
      ap (λ t. t % stride) {y = i - start + stride} (omega arith) ∙ add-mod_right (i - start) stride

  pub residue-first : (t : ℕ) → t < stride → (start + t - start) % stride ≡ t
  residue-first t lt = ap (λ t. t % stride) (omega arith) ∙ mod-eq_of_lt lt

  same_residue : (a b : ℕ) → 0 < stride → a % stride ≡ b % stride → a ≤ b → b < a + stride → a ≡ b
  same_residue a b pos e le lt = grind (arith, div-add-mod' a stride, div-add-mod' b stride)

  pub taken-next :
      (t i j : ℕ)
      → 0 < stride
      → start ≤ i
      → (i - start) % stride ≡ t
      → i < stop
      → taken t (i + stride) j ≡ taken t i j + one_at i j
  taken-next t i j pos le e lt = let f = same_residue (i - start) (j - start) pos in grind arith

  pub taken-first : (t j : ℕ) → t < stride → taken t (start + t) j ≡ 0
  taken-first t j lt =
      let le : (j - start) % stride ≤ j - start = omega (arith, div-add-mod' (j - start) stride) in
      grind arith

  pub taken-last : (t i j : ℕ) → stop ≤ i → taken t i j ≡ taken_all t j
  taken-last t i j le = grind arith

  pub taken_by-one : (j : ℕ) → taken_by 1 j ≡ taken_all 0 j
  taken_by-one j = grind arith

  pub taken_by-next : (k j : ℕ) → taken_by (k + 1) j ≡ taken_by k j + taken_all k j
  taken_by-next k j = grind arith

  pub taken_by-last : (j : ℕ) → 0 < stride → taken_by stride j ≡ within j
  taken_by-last j pos = grind arith
