-- ===== src/Kernels/Matrix/Multiply.antt =====
-- kernel_matrix_mul and kernel_float_matrix_mul of software/spmd/bsg_cuda_lite_runtime.
use mathlib.Core.List.{Perm}
use bsg_manycore.Prelude.{ℕ, zero, suc, ◌+◌, ◌*◌, ◌%◌, ◌^◌, ◌≤◌, ◌<◌, ◌≡◌, ◌⊎◌, ◌∙◌, arith, List}
use bsg_manycore.Kernels.{Array, Store, grid_stores}
use bsg_manycore.Kernels.Stores.{perform}
use bsg_manycore.Kernels.Matrix.{
  accumulate, multiply_add, kernel_matrix_mul, kernel_float_matrix_mul,
}
use bsg_manycore.Kernels.Matrix.Blocks.{blocks-perform, blocks_outside}

-- f first + f (first + 1) + … of `count` terms
abbrev pub sum_from : (count first : ℕ) → (ℕ → ℕ) → ℕ
sum_from zero first f = 0
sum_from (suc count) first f = f first + sum_from count (first + 1) f

-- Adding up products in 32-bit words gives their sum in 32-bit words.
pub accumulate-sum_from :
    (n i v : ℕ) (a b : ℕ → ℕ)
    → v < 2 ^ 32
    → accumulate n i (λ k s. multiply_add s (a k) (b k)) v
      ≡ (v + sum_from n i (λ k. a k * b k)) % 2 ^ 32
accumulate-sum_from zero i v a b h = omega arith
accumulate-sum_from (suc n) i v a b h =
    accumulate-sum_from n (i + 1) (multiply_add v (a i) (b i)) a b (omega arith) ∙ omega arith

-- the product of matrices of ints in row y and column x
abbrev pub product : (A B : Array) (N P y x : ℕ) → ℕ
product A B N P y x = sum_from N 0 (λ k. A (y * N + k) * B (k * P + x)) % 2 ^ 32

-- the same of floats, added in the order of the index
abbrev pub float_product : (fadd fmul : ℕ → ℕ → ℕ) (A B : Array) (N P y x : ℕ) → ℕ
float_product fadd fmul A B N P y x =
    accumulate N 0 (λ k sum. fadd sum (fmul (A (y * N + k)) (B (k * P + x)))) 0

module _ (tiles_x tiles_y grid_x grid_y P block_size_y block_size_x : ℕ) (some_x : 0 < tiles_x)
    (some_y : 0 < tiles_y) (fits : grid_x * block_size_x ≤ P) (A B C : Array) (N : ℕ) where
  int_cell :
      (y x : ℕ)
      → accumulate N 0 (λ k sum. multiply_add sum (A (y * N + k)) (B (k * P + x))) 0
        ≡ product A B N P y x
  int_cell y x =
      accumulate-sum_from N 0 0 (λ k. A (y * N + k)) (λ k. B (k * P + x)) (omega arith)
      ∙ omega arith

  -- In a group of at least one tile, with the columns of the blocks of all groups within the matrix, in
  -- any order of the stores: each place of the blocks has the product of its row and column, on ints the
  -- sum of the products in 32-bit words, on floats the sum in the order of the index by the given
  -- operations.
  pub matrix_mul-perform :
      (fadd fmul : ℕ → ℕ → ℕ) (ws ws_float : List Store) (y x : ℕ)
      → Perm ws (
          grid_stores tiles_x tiles_y grid_x grid_y
            (kernel_matrix_mul tiles_x tiles_y A B N P block_size_y block_size_x))
      → Perm ws_float (
          grid_stores tiles_x tiles_y grid_x grid_y
            (kernel_float_matrix_mul tiles_x tiles_y fadd fmul A B N P block_size_y block_size_x))
      → y < grid_y * block_size_y
      → x < grid_x * block_size_x
      → (perform ws C (y * P + x) ≡ product A B N P y x)
        × (perform ws_float C (y * P + x) ≡ float_product fadd fmul A B N P y x)
  unfolding kernel_matrix_mul kernel_float_matrix_mul
  matrix_mul-perform fadd fmul ws ws_float y x p q hy hx = (
    blocks-perform tiles_x tiles_y grid_x grid_y P block_size_y block_size_x some_x some_y fits
          (λ y x. accumulate N 0 (λ k sum. multiply_add sum (A (y * N + k)) (B (k * P + x))) 0) ws C
          y x p hy hx
        ∙ int_cell y x,
    blocks-perform tiles_x tiles_y grid_x grid_y P block_size_y block_size_x some_x some_y fits
        (float_product fadd fmul A B N P) ws_float C y x q hy hx,
  )

  -- Under the same conditions no place outside the blocks of the groups is changed.
  pub matrix_mul_outside :
      (ws : List Store) (y x : ℕ)
      → Perm ws (
          grid_stores tiles_x tiles_y grid_x grid_y
            (kernel_matrix_mul tiles_x tiles_y A B N P block_size_y block_size_x))
      → x < P
      → (grid_y * block_size_y ≤ y) ⊎ (grid_x * block_size_x ≤ x)
      → perform ws C (y * P + x) ≡ C (y * P + x)
  unfolding kernel_matrix_mul
  matrix_mul_outside ws y x p =
      blocks_outside tiles_x tiles_y grid_x grid_y P block_size_y block_size_x some_x some_y fits
        (λ y x. accumulate N 0 (λ k sum. multiply_add sum (A (y * N + k)) (B (k * P + x))) 0) ws C y
        x p
