-- ===== src/Kernels/Vector.antt =====
-- The kernels on vectors in software/spmd/bsg_cuda_lite_runtime: each tile group has a block of the
-- result, whose elements its tiles take in turn. The operations on floats are arguments.
pub mod Blocks
pub mod Results
use bsg_manycore.Prelude.{ℕ, ◌+◌, ◌*◌, ◌/◌, ◌%◌, ◌^◌, List, [], ◌∷◌}
use bsg_manycore.Kernels.{Array, Store, Tile, for_strided}

-- the sum of two ints
abbrev pub add32 : ℕ → ℕ → ℕ
add32 a b = (a + b) % 2 ^ 32

abbrev pub start_of : (block_size : ℕ) → Tile → ℕ
start_of block_size t = block_size * (t.tile_group_id_y * t.grid_dim_x + t.tile_group_id_x)

module _ (tiles_x tiles_y : ℕ) where
  unfoldable pub kernel_vec_add : (A B : Array) (block_size_x : ℕ) → Tile → List Store
  unfolding for_strided
  kernel_vec_add A B block_size_x t =
      let start_x = start_of block_size_x t in
      for_strided t.bsg_id block_size_x (tiles_x * tiles_y)
        (λ iter_x. (start_x + iter_x, add32 (A (start_x + iter_x)) (B (start_x + iter_x))) ∷ [])

  unfoldable pub kernel_vec_add_parallel : (A B : Array) (block_size_x : ℕ) → Tile → List Store
  unfolding for_strided
  kernel_vec_add_parallel A B block_size_x t =
      let start_x = start_of block_size_x t in
      for_strided t.bsg_id block_size_x (tiles_x * tiles_y)
        (λ iter_x. (start_x + iter_x, add32 (A (start_x + iter_x)) (B (start_x + iter_x))) ∷ [])

  unfoldable pub kernel_vec_add_parallel_multi_grid :
      (A B : Array) (block_size_x : ℕ) → Tile → List Store
  unfolding for_strided
  kernel_vec_add_parallel_multi_grid A B block_size_x t =
      let start_x = start_of block_size_x t in
      for_strided t.bsg_id block_size_x (tiles_x * tiles_y)
        (λ iter_x. (start_x + iter_x, add32 (A (start_x + iter_x)) (B (start_x + iter_x))) ∷ [])

  unfoldable pub kernel_vec_add_serial_multi_grid :
      (A B : Array) (block_size_x : ℕ) → Tile → List Store
  unfolding for_strided
  kernel_vec_add_serial_multi_grid A B block_size_x t =
      let start_x = start_of block_size_x t in
      for_strided t.bsg_id block_size_x (tiles_x * tiles_y)
        (λ iter_x. (start_x + iter_x, add32 (A (start_x + iter_x)) (B (start_x + iter_x))) ∷ [])

  -- kernel_float_vec_add, kernel_float_vec_mul and kernel_float_vec_div, by the operation
  unfoldable pub kernel_float_vec :
      (op : ℕ → ℕ → ℕ) (A B : Array) (block_size_x : ℕ) → Tile → List Store
  unfolding for_strided
  kernel_float_vec op A B block_size_x t =
      let start_x = start_of block_size_x t in
      for_strided t.bsg_id block_size_x (tiles_x * tiles_y)
        (λ iter_x. (start_x + iter_x, op (A (start_x + iter_x)) (B (start_x + iter_x))) ∷ [])

  -- kernel_float_vec_sqrt, kernel_float_vec_exp and kernel_float_vec_log, by the function of math.h
  unfoldable pub kernel_float_map : (fun : ℕ → ℕ) (A : Array) (block_size_x : ℕ) → Tile → List Store
  unfolding for_strided
  kernel_float_map fun A block_size_x t =
      let start_x = start_of block_size_x t in
      for_strided t.bsg_id block_size_x (tiles_x * tiles_y)
        (λ iter_x. (start_x + iter_x, fun (A (start_x + iter_x))) ∷ [])

  unfoldable pub kernel_device_memcpy : (src : Array) (size : ℕ) → Tile → List Store
  unfolding for_strided
  kernel_device_memcpy src size t =
      let block_size_x = size / (t.grid_dim_y * t.grid_dim_x) in
      let start_x = start_of block_size_x t in
      let end_x = start_x + block_size_x in
      for_strided (start_x + t.bsg_id) end_x (tiles_x * tiles_y)
        (λ iter_x. (iter_x, src iter_x) ∷ [])

  unfoldable pub kernel_device_memset : (val size : ℕ) → Tile → List Store
  unfolding for_strided
  kernel_device_memset val size t =
      let block_size_x = size / (t.grid_dim_y * t.grid_dim_x) in
      let start_x = start_of block_size_x t in
      let end_x = start_x + block_size_x in
      for_strided (start_x + t.bsg_id) end_x (tiles_x * tiles_y) (λ iter_x. (iter_x, val) ∷ [])
