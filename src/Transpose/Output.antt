-- ===== src/Transpose/Output.antt =====
-- What software/spmd/bsg_transpose/main.c prints.
use bsg_manycore.Prelude.{
  ℕ, zero, suc, ◌*◌, ◌/◌, true, List, ◌%◌, ◌<◌, ◌≡◌, bit_or, refl, ap, ap₂, ◌∙◌, arith, [], ◌∷◌,
  ◌++◌, ◌==◌, ◌&&◌, ltb, ℕ_discrete, if◌then◌else◌,
}
use native.Mathlib.Nat.{div-add-mod', div-lt_iff_lt-mul}
use bsg_manycore.Arch.{shl}
use bsg_manycore.Transpose.{
  Array, takes_part, store_at, for_below, init_source, transpose, print_result, main_transpose,
}

for_below_eq {ℓ} :
    {S : Type ℓ} (n : ℕ) (f g : ℕ → S → S) (s : S)
    → ((i : ℕ) (t : S) → i < n → f i t ≡ g i t)
    → for_below n f s ≡ for_below n g s
for_below_eq zero f g s h = refl
for_below_eq (suc n) f g s h =
    ap (f n) (for_below_eq n f g s (λ i t k. h i t (omega arith))) ∙ h n _ (omega arith)

-- Writing a row, or a column, of an array.
row_written :
    (n i : ℕ) (v : ℕ → ℕ) (a : Array) (i' j' : ℕ)
    → for_below n (λ j a. store_at a i j (v j)) a i' j'
      ≡ (if i' == i && ltb j' n then v j' else a i' j')
row_written zero i v a i' j' = ground arith
row_written (suc n) i v a i' j' = ground (arith, row_written n i v a i' j')

column_written :
    (n i : ℕ) (v : ℕ → ℕ) (a : Array) (j' i' : ℕ)
    → for_below n (λ j a. store_at a j i (v j)) a j' i'
      ≡ (if i' == i && ltb j' n then v j' else a j' i')
column_written zero i v a j' i' = ground arith
column_written (suc n) i v a j' i' = ground (arith, column_written n i v a j' i')

rows_written :
    (m n : ℕ) (v : ℕ → ℕ → ℕ) (a : Array) (i j : ℕ)
    → i < m
    → j < n
    → for_below m (λ i. for_below n (λ j a. store_at a i j (v i j))) a i j ≡ v i j
rows_written zero n v a i j hi hj = absurd (omega arith)
rows_written (suc m) n v a i j hi hj = row_written n m (v m) _ i j ∙ elim (ℕ_discrete i m) [
  | yes e ↦ rw e (ground arith)
  | no ne ↦ ground (arith, rows_written m n v a i j (omega arith) hj)
]

columns_written :
    (m n : ℕ) (v : ℕ → ℕ → ℕ) (a : Array) (i j : ℕ)
    → i < m
    → j < n
    → for_below m (λ i. for_below n (λ j a. store_at a j i (v i j))) a j i ≡ v i j
columns_written zero n v a i j hi hj = absurd (omega arith)
columns_written (suc m) n v a i j hi hj = column_written n m (v m) _ j i ∙ elim (ℕ_discrete i m) [
  | yes e ↦ rw e (ground arith)
  | no ne ↦ ground (arith, columns_written m n v a i j (omega arith) hj)
]

for_below-append :
    (m n : ℕ) (out : List ℕ) (w : ℕ → ℕ → ℕ) (x : ℕ → ℕ → ℕ)
    → ((i j : ℕ) → i < m → j < n → w i j ≡ x i j)
    → for_below m (λ i. for_below n (λ j out. out ++ (w i j ∷ []))) out
      ≡ for_below m (λ i. for_below n (λ j out. out ++ (x i j ∷ []))) out
for_below-append m n out w x h =
    for_below_eq m _ _ out
      (λ i out hi. for_below_eq n _ _ out (λ j out' hj. ap (λ v. out' ++ (v ∷ [])) (h i j hi hj)))

-- the tile that holds a row or column
block-lt : (i rows n : ℕ) → 0 < rows → i < rows * n → i / rows < n
block-lt i rows n pos h = (div-lt_iff_lt-mul {k = rows} {x = i} {y = n} pos).1 (grind arith)

inside : (tile_dim x y : ℕ) → x < tile_dim → y < tile_dim → takes_part tile_dim x y ≡ true
inside tile_dim x y hx hy = ground arith

-- With blocks of at least one row and column on a square of at least one tile: main sends the io node
-- 0xcab0, then 0xcab1, and then for every row and column of the matrix, in order, a word with the row
-- in the upper half and the column in the lower: the word that the tile which holds the element made
-- of its place.
pub main_transpose_lem :
    (rows cols tile_dim : ℕ) (local_source local_dest : ℕ → ℕ → Array)
    → 0 < rows
    → 0 < cols
    → 0 < tile_dim
    → main_transpose rows cols tile_dim local_source local_dest
      ≡ for_below
          (rows * tile_dim)
          (λ i. for_below (cols * tile_dim) (λ j out. out ++ (bit_or (shl i 16) j ∷ [])))
          (0xcab0 ∷ 0xcab1 ∷ [])
unfolding main_transpose print_result transpose init_source
main_transpose_lem rows cols tile_dim local_source local_dest hr hc hd =
    rw (inside tile_dim 0 0 hd hd) (
      for_below-append (rows * tile_dim) (cols * tile_dim) (0xcab0 ∷ 0xcab1 ∷ []) _ _ (λ i j hi hj.
        let hx : i / rows < tile_dim = block-lt i rows tile_dim hr hi in
        let hy : j / cols < tile_dim = block-lt j cols tile_dim hc hj in
        rw (inside tile_dim (i / rows) (j / cols) hx hy) (
          columns_written rows cols _ _ (i % rows) (j % cols) (omega arith) (omega arith)
          ∙ rw (inside tile_dim (j / cols) (i / rows) hy hx) (
              rows_written rows cols _ _ (i % rows) (j % cols) (omega arith) (omega arith)
              ∙ ap₂ (λ a b. bit_or (shl a 16) b) (omega (arith, div-add-mod' i rows))
                  (omega (arith, div-add-mod' j cols))))))
