-- ===== src/Kernels/Shared.antt =====
-- The kernels in software/spmd/bsg_cuda_lite_runtime that pass data through tile-group shared memory, in
-- phases between barriers. A shared array is a function of the index, since bsg_tile_group_shared_ptr
-- gives each index its own place (Arch/Shared). In a phase no tile loads what another stores, so the
-- stores of a phase are computed from the arrays at its start.
pub mod Defs
pub mod Vectors
pub mod Stripes
pub mod Product
use bsg_manycore.Prelude.{ℕ, zero, suc, ◌+◌, ◌*◌, ◌/◌, ◌%◌, ◌^◌, List, [], ◌∷◌, ◌==◌, if◌then◌else◌}
use bsg_manycore.Kernels.{Array, Store, Tile, for_strided}
use bsg_manycore.Kernels.Vector.{add32, start_of}
use bsg_manycore.Kernels.Matrix.{accumulate, multiply_add}

abbrev pub block_width : ℕ
block_width = 4

module _ (tiles_x tiles_y : ℕ) where
  -- kernel_vec_add_shared_mem: the loads of A, or B, into sh_A, or sh_B
  unfoldable pub load_vector : (A : Array) (block_size_x : ℕ) → Tile → List Store
  unfolding for_strided
  load_vector A block_size_x t =
      for_strided t.bsg_id block_size_x (tiles_x * tiles_y)
        (λ iter_x. (iter_x, A (start_of block_size_x t + iter_x)) ∷ [])

  -- the stores to sh_C; `plus` is the addition of ints or floats
  unfoldable pub add_vectors :
      (plus : ℕ → ℕ → ℕ) (sh_A sh_B : Array) (block_size_x : ℕ) → Tile → List Store
  unfolding for_strided
  add_vectors plus sh_A sh_B block_size_x t =
      for_strided t.bsg_id block_size_x (tiles_x * tiles_y)
        (λ iter_x. (iter_x, plus (sh_A iter_x) (sh_B iter_x)) ∷ [])

  -- the stores to C in DRAM
  unfoldable pub store_vector : (sh_C : Array) (block_size_x : ℕ) → Tile → List Store
  unfolding for_strided
  store_vector sh_C block_size_x t =
      for_strided t.bsg_id block_size_x (tiles_x * tiles_y)
        (λ iter_x. (start_of block_size_x t + iter_x, sh_C iter_x) ∷ [])

  -- kernel_shared_mem: the phase that fills sh_arr, and the one that copies it to A by blocks
  unfoldable pub fill_array : (N : ℕ) → Tile → List Store
  unfolding for_strided
  fill_array N t = for_strided t.bsg_id N (tiles_x * tiles_y) (λ iter_x. (iter_x, iter_x) ∷ [])

  unfoldable pub copy_blocks : (sh_arr : Array) (N : ℕ) → Tile → List Store
  unfolding for_strided
  copy_blocks sh_arr N t =
      let block_size = N / (tiles_x * tiles_y) in
      for_strided (t.bsg_id * block_size) ((t.bsg_id + 1) * block_size) 1
        (λ iter_x. (iter_x, sh_arr iter_x) ∷ [])

  -- kernel_shared_mem_load_store: the phase that fills sh_A and the phase that empties it
  unfoldable pub load_block : (A_in : Array) (N block_size_y block_size_x : ℕ) → Tile → List Store
  unfolding for_strided
  load_block A_in N block_size_y block_size_x t =
      let start_y = t.tile_group_id_y * block_size_y in
      let start_x = t.tile_group_id_x * block_size_x in
      for_strided t.bsg_y block_size_y tiles_y (λ iter_y.
        for_strided t.bsg_x block_size_x tiles_x (λ iter_x.
          (iter_y * block_size_x + iter_x, A_in ((start_y + iter_y) * N + (start_x + iter_x)))
          ∷ []))

  unfoldable pub store_block : (sh_A : Array) (N block_size_y block_size_x : ℕ) → Tile → List Store
  unfolding for_strided
  store_block sh_A N block_size_y block_size_x t =
      let start_y = t.tile_group_id_y * block_size_y in
      let start_x = t.tile_group_id_x * block_size_x in
      for_strided t.bsg_y block_size_y tiles_y (λ iter_y.
        for_strided t.bsg_x block_size_x tiles_x (λ iter_x.
          ((start_y + iter_y) * N + (start_x + iter_x), sh_A (iter_y * block_size_x + iter_x))
          ∷ []))

  -- The functions of kernel_matrix_mul_shared_mem.c; `N` is the number of columns of the matrix.
  unfoldable pub subblock2shmem :
      (A : Array) (N block_size_y block_size_x sub_block_y sub_block_x : ℕ) → Tile → List Store
  unfolding for_strided
  subblock2shmem A N block_size_y block_size_x sub_block_y sub_block_x t =
      let start_y = sub_block_y * block_size_y in
      let start_x = sub_block_x * block_size_x in
      for_strided t.bsg_y block_size_y tiles_y (λ iter_y.
        for_strided t.bsg_x block_size_x tiles_x (λ iter_x.
          (iter_y * block_size_x + iter_x, A ((iter_y + start_y) * N + iter_x + start_x)) ∷ []))

  unfoldable pub subblock2shmem_xposed :
      (A : Array) (N block_size_y block_size_x sub_block_y sub_block_x : ℕ) → Tile → List Store
  unfolding for_strided
  subblock2shmem_xposed A N block_size_y block_size_x sub_block_y sub_block_x t =
      let start_y = sub_block_y * block_size_y in
      let start_x = sub_block_x * block_size_x in
      for_strided t.bsg_y block_size_y tiles_y (λ iter_y.
        for_strided t.bsg_x block_size_x tiles_x (λ iter_x.
          (iter_x * block_size_y + iter_y, A ((iter_y + start_y) * N + iter_x + start_x)) ∷ []))

  unfoldable pub shmem2subblock :
      (sh_src : Array) (N block_size_y block_size_x sub_block_y sub_block_x : ℕ) → Tile → List Store
  unfolding for_strided
  shmem2subblock sh_src N block_size_y block_size_x sub_block_y sub_block_x t =
      let start_y = sub_block_y * block_size_y in
      let start_x = sub_block_x * block_size_x in
      for_strided t.bsg_y block_size_y tiles_y (λ iter_y.
        for_strided t.bsg_x block_size_x tiles_x (λ iter_x.
          ((iter_y + start_y) * N + iter_x + start_x, sh_src (iter_y * block_size_x + iter_x))
          ∷ []))

  -- A tile loads an element of sh_C only where it stores it.
  unfoldable pub subblock_shmem_matrix_mul_xposed :
      (sh_A sh_B sh_C : Array) (block_size_y block_size_x block_num : ℕ) → Tile → List Store
  unfolding for_strided
  subblock_shmem_matrix_mul_xposed sh_A sh_B sh_C block_size_y block_size_x block_num t =
      for_strided t.bsg_y block_size_y tiles_y (λ iter_y.
        for_strided t.bsg_x block_size_x tiles_x (λ iter_x.
          let sum =
            accumulate block_width 0
              (λ k sum.
                multiply_add sum (sh_A (iter_y * block_width + k))
                  (sh_B (iter_x * block_width + k)))
              0 in
          let place = iter_y * block_size_x + iter_x in
          (place, if block_num == 0 then sum else add32 (sh_C place) sum) ∷ []))
