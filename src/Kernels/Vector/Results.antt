-- ===== src/Kernels/Vector/Results.antt =====
-- The results of the kernels on vectors in software/spmd/bsg_cuda_lite_runtime.
use mathlib.Core.List.{Perm}
use bsg_manycore.Prelude.{
  ℕ, ◌+◌, ◌*◌, ◌/◌, ◌<◌, ◌≡◌, refl, ap, ap₂, arith, List, [], ◌∷◌, ltb, if◌then◌else◌, subst,
  fun_ext,
}
use bsg_manycore.Kernels.{Array, Store, Tile, grid_stores, for_strided}
use bsg_manycore.Kernels.Stores.{perform}
use bsg_manycore.Kernels.Grid.{grid_stores_eq}
use bsg_manycore.Kernels.Vector.{
  add32, start_of, kernel_vec_add, kernel_vec_add_parallel, kernel_vec_add_parallel_multi_grid,
  kernel_vec_add_serial_multi_grid, kernel_float_vec, kernel_float_map, kernel_device_memcpy,
  kernel_device_memset,
}
use bsg_manycore.Kernels.Vector.Blocks.{part, part-perform}

-- The result of a call, at every index: `g` in the blocks of all groups, and what was there elsewhere.
abbrev pub in_blocks : (count : ℕ) (g C : Array) → Array
in_blocks count g C q = if ltb q count then g q else C q

module _ (tiles_x tiles_y grid_x grid_y : ℕ) (some_x : 0 < tiles_x) (some_y : 0 < tiles_y) where
  -- A loop over the indices within the block is the tile's part of the block.
  vector-perform :
      (block_size : ℕ) (g : Array) (ws : List Store) (C : Array) (q : ℕ)
      → Perm ws (
          grid_stores tiles_x tiles_y grid_x grid_y (λ t.
            for_strided t.bsg_id block_size
              (tiles_x * tiles_y)
              (λ i. (start_of block_size t + i, g (start_of block_size t + i)) ∷ [])))
      → perform ws C q ≡ in_blocks (grid_x * grid_y * block_size) g C q
  vector-perform block_size g ws C q p =
      part-perform tiles_x tiles_y grid_x grid_y block_size some_x some_y (λ t. 0)
        (start_of block_size) (λ t. omega arith) g ws C q
        (subst (λ k. Perm ws (grid_stores tiles_x tiles_y grid_x grid_y k))
          (fun_ext (λ t. loop_eq t)) p)
    where
      loop_eq :
          (t : Tile)
          → for_strided t.bsg_id block_size
              (tiles_x * tiles_y)
              (λ i. (start_of block_size t + i, g (start_of block_size t + i)) ∷ [])
            ≡ part (tiles_x * tiles_y) 0 (start_of block_size t) g block_size t
      loop_eq t =
          ap₂
            (λ a b.
              for_strided a b (tiles_x * tiles_y)
                (λ i. (start_of block_size t + i, g (start_of block_size t + i)) ∷ []))
            (omega arith) (omega arith)

  -- In a group of at least one tile, whatever the order in which the stores of all tiles of all groups
  -- happen, each of the four kernels that add vectors of ints leaves the 32-bit sums in the blocks of
  -- the groups of the grid and nothing new elsewhere.
  pub vec_add-perform :
      (A B C : Array) (block_size_x q : ℕ) (ws ws_parallel ws_multi ws_serial : List Store)
      → Perm ws (
          grid_stores tiles_x tiles_y grid_x grid_y
            (kernel_vec_add tiles_x tiles_y A B block_size_x))
      → Perm ws_parallel (
          grid_stores tiles_x tiles_y grid_x grid_y
            (kernel_vec_add_parallel tiles_x tiles_y A B block_size_x))
      → Perm ws_multi (
          grid_stores tiles_x tiles_y grid_x grid_y
            (kernel_vec_add_parallel_multi_grid tiles_x tiles_y A B block_size_x))
      → Perm ws_serial (
          grid_stores tiles_x tiles_y grid_x grid_y
            (kernel_vec_add_serial_multi_grid tiles_x tiles_y A B block_size_x))
      → let sums = in_blocks (grid_x * grid_y * block_size_x) (λ i. add32 (A i) (B i)) C in
        (perform ws C q ≡ sums q)
        × (perform ws_parallel C q ≡ sums q)
        × (perform ws_multi C q ≡ sums q)
        × (perform ws_serial C q ≡ sums q)
  unfolding kernel_vec_add kernel_vec_add_parallel kernel_vec_add_parallel_multi_grid
      kernel_vec_add_serial_multi_grid
  vec_add-perform A B C block_size_x q ws ws_parallel ws_multi ws_serial p1 p2 p3 p4 =
      let sum : Array = λ i. add32 (A i) (B i) in
      (
        vector-perform block_size_x sum ws C q p1,
        vector-perform block_size_x sum ws_parallel C q p2,
        vector-perform block_size_x sum ws_multi C q p3,
        vector-perform block_size_x sum ws_serial C q p4,
      )

  -- In a group of at least one tile, in any order of the stores, the kernels on vectors of floats leave
  -- `op` of the two elements, or `fun` of the one, in the blocks of the groups of the grid and nothing
  -- new elsewhere, whatever the operations are.
  pub float_vec-perform :
      (op : ℕ → ℕ → ℕ) (fun : ℕ → ℕ) (A B C : Array) (block_size_x q : ℕ) (ws ws_map : List Store)
      → Perm ws (
          grid_stores tiles_x tiles_y grid_x grid_y
            (kernel_float_vec tiles_x tiles_y op A B block_size_x))
      → Perm ws_map (
          grid_stores tiles_x tiles_y grid_x grid_y
            (kernel_float_map tiles_x tiles_y fun A block_size_x))
      → (perform ws C q ≡ in_blocks (grid_x * grid_y * block_size_x) (λ i. op (A i) (B i)) C q)
        × (perform ws_map B q ≡ in_blocks (grid_x * grid_y * block_size_x) (λ i. fun (A i)) B q)
  unfolding kernel_float_vec kernel_float_map
  float_vec-perform op fun A B C block_size_x q ws ws_map p1 p2 = (
    vector-perform block_size_x (λ i. op (A i) (B i)) ws C q p1,
    vector-perform block_size_x (λ i. fun (A i)) ws_map B q p2,
  )

  -- A loop over the indices of the block is so too.
  pub slice-perform :
      (block_size : ℕ) (g : Array) (ws : List Store) (C : Array) (q : ℕ)
      → Perm ws (
          grid_stores tiles_x tiles_y grid_x grid_y (λ t.
            for_strided
              (start_of block_size t + t.bsg_id)
              (start_of block_size t + block_size)
              (tiles_x * tiles_y)
              (λ i. (i, g i) ∷ [])))
      → perform ws C q ≡ in_blocks (grid_x * grid_y * block_size) g C q
  slice-perform block_size g ws C q p =
      part-perform tiles_x tiles_y grid_x grid_y block_size some_x some_y (start_of block_size)
        (λ t. 0) (λ t. omega arith) g ws C q
        (subst (λ k. Perm ws (grid_stores tiles_x tiles_y grid_x grid_y k))
          (fun_ext (λ t. loop_eq t)) p)
    where
      loop_eq :
          (t : Tile)
          → for_strided
              (start_of block_size t + t.bsg_id)
              (start_of block_size t + block_size)
              (tiles_x * tiles_y)
              (λ i. (i, g i) ∷ [])
            ≡ part (tiles_x * tiles_y) (start_of block_size t) 0 g block_size t
      loop_eq t =
          ap
            (λ (b : ℕ → List Store).
              for_strided (start_of block_size t + t.bsg_id) (start_of block_size t + block_size)
                (tiles_x * tiles_y) b)
            (fun_ext (λ i. ap (λ j. (j, g j) ∷ []) {y = 0 + i} (omega arith)))

  -- In a group of at least one tile, in any order of the stores, kernel_device_memcpy and
  -- kernel_device_memset of `size` words set the words below the largest multiple of the number of
  -- groups that is at most `size`, and no other word: the words that are left over are not set.
  pub device_memcpy-perform :
      (src dst : Array) (val size q : ℕ) (ws ws_set : List Store)
      → Perm ws (
          grid_stores tiles_x tiles_y grid_x grid_y (kernel_device_memcpy tiles_x tiles_y src size))
      → Perm ws_set (
          grid_stores tiles_x tiles_y grid_x grid_y (kernel_device_memset tiles_x tiles_y val size))
      → let count = grid_x * grid_y * (size / (grid_y * grid_x)) in
        (perform ws dst q ≡ in_blocks count src dst q)
        × (perform ws_set dst q ≡ in_blocks count (λ i. val) dst q)
  unfolding kernel_device_memcpy kernel_device_memset
  device_memcpy-perform src dst val size q ws ws_set p1 p2 = (
    slice-perform (size / (grid_y * grid_x)) src ws dst q (at_grid src ws p1),
    slice-perform (size / (grid_y * grid_x)) (λ i. val) ws_set dst q (at_grid (λ i. val) ws_set p2),
  )
    where
      at_grid :
          (g : Array) (l : List Store)
          → Perm l (
              grid_stores tiles_x tiles_y grid_x grid_y (λ t.
                let block = size / (t.grid_dim_y * t.grid_dim_x) in
                for_strided
                  (start_of block t + t.bsg_id)
                  (start_of block t + block)
                  (tiles_x * tiles_y)
                  (λ i. (i, g i) ∷ [])))
          → Perm l (
              grid_stores tiles_x tiles_y grid_x grid_y (λ t.
                let block = size / (grid_y * grid_x) in
                for_strided
                  (start_of block t + t.bsg_id)
                  (start_of block t + block)
                  (tiles_x * tiles_y)
                  (λ i. (i, g i) ∷ [])))
      at_grid g l =
          subst (Perm l) (grid_stores_eq tiles_x tiles_y grid_x grid_y _ _ (λ gx gy x y. refl))
