-- ===== src/Kernels/Matrix.antt =====
-- The kernels on matrices in software/spmd/bsg_cuda_lite_runtime: each tile group has a block of rows and
-- columns of the result, which its tiles take in turn in both directions. Matrices are stored by rows.
pub mod Blocks
pub mod Multiply
pub mod Pool
use bsg_manycore.Prelude.{
  ℕ, zero, suc, ◌+◌, ◌*◌, ◌/◌, ◌%◌, ◌^◌, Bool, not, List, [], ◌∷◌, ltb, leb, if◌then◌else◌,
}
use bsg_manycore.Kernels.{Array, Store, Tile, for_strided}

-- `for (k = first; k < first + rounds; k++) value = step(k, value)`
abbrev pub accumulate : (rounds first : ℕ) → (ℕ → ℕ → ℕ) → (value : ℕ) → ℕ
accumulate zero first step value = value
accumulate (suc rounds) first step value = accumulate rounds (first + 1) step (step first value)

-- `sum += a * b` on ints
abbrev pub multiply_add : (sum a b : ℕ) → ℕ
multiply_add sum a b = (sum + a * b % 2 ^ 32) % 2 ^ 32

-- `a > b` on ints
abbrev pub gt_int : ℕ → ℕ → Bool
gt_int a b = not (leb ((a + 2 ^ 31) % 2 ^ 32) ((b + 2 ^ 31) % 2 ^ 32))

module _ (tiles_x tiles_y : ℕ) where
  unfoldable pub kernel_matrix_mul :
      (A B : Array) (N P block_size_y block_size_x : ℕ) → Tile → List Store
  unfolding for_strided
  kernel_matrix_mul A B N P block_size_y block_size_x t =
      let start_y = t.tile_group_id_y * block_size_y in
      let start_x = t.tile_group_id_x * block_size_x in
      let end_y = start_y + block_size_y in
      let end_x = start_x + block_size_x in
      for_strided (start_y + t.bsg_y) end_y tiles_y (λ iter_y.
        for_strided (start_x + t.bsg_x) end_x tiles_x (λ iter_x.
          let sum =
            accumulate N 0 (λ k sum. multiply_add sum (A (iter_y * N + k)) (B (k * P + iter_x)))
              0 in
          (iter_y * P + iter_x, sum) ∷ []))

  -- `fadd` and `fmul` are the operations on floats, and 0 is the word of the float 0.
  unfoldable pub kernel_float_matrix_mul :
      (fadd fmul : ℕ → ℕ → ℕ) (A B : Array) (N P block_size_y block_size_x : ℕ) → Tile → List Store
  unfolding for_strided
  kernel_float_matrix_mul fadd fmul A B N P block_size_y block_size_x t =
      let start_y = t.tile_group_id_y * block_size_y in
      let start_x = t.tile_group_id_x * block_size_x in
      let end_y = start_y + block_size_y in
      let end_x = start_x + block_size_x in
      for_strided (start_y + t.bsg_y) end_y tiles_y (λ iter_y.
        for_strided (start_x + t.bsg_x) end_x tiles_x (λ iter_x.
          let sum =
            accumulate N 0 (λ k sum. fadd sum (fmul (A (iter_y * N + k)) (B (k * P + iter_x)))) 0 in
          (iter_y * P + iter_x, sum) ∷ []))

  unfoldable pub kernel_max_pool2d :
      (A : Array) (M N P W block_size_y block_size_x : ℕ) → Tile → List Store
  unfolding for_strided
  kernel_max_pool2d A M N P W block_size_y block_size_x t =
      let sub_block_y = M / P in
      let sub_block_x = N / W in
      let start_y = t.tile_group_id_y * block_size_y in
      let start_x = t.tile_group_id_x * block_size_x in
      let end_y = start_y + block_size_y in
      let end_x = start_x + block_size_x in
      for_strided (start_y + t.bsg_y) end_y tiles_y (λ iter_y.
        for_strided (start_x + t.bsg_x) end_x tiles_x (λ iter_x.
          let src_start_y = iter_y * sub_block_y in
          let src_start_x = iter_x * sub_block_x in
          let sub_max =
            accumulate sub_block_y src_start_y
              (λ y.
                accumulate sub_block_x src_start_x
                  (λ x sub_max. if gt_int (A (y * N + x)) sub_max then A (y * N + x) else sub_max))
              (A (src_start_y * N + src_start_x)) in
          (iter_y * W + iter_x, sub_max) ∷ []))
