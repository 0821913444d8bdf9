-- ===== src/Kernels/Shared/Vectors.antt =====
-- kernel_vec_add_shared_mem, kernel_float_vec_add_shared_mem and kernel_shared_mem_load_store of
-- software/spmd/bsg_cuda_lite_runtime, in one tile group.
use mathlib.Core.List.{Perm}
use bsg_manycore.Prelude.{
  ℕ, ◌+◌, ◌-◌, ◌*◌, ◌/◌, ◌%◌, ◌≤◌, ◌<◌, ◌≡◌, refl, ap, ap₂, sym, ◌∙◌, arith, List,
}
use bsg_manycore.Kernels.{Array, Store, Tile, group_stores}
use bsg_manycore.Kernels.Stores.{perform}
use bsg_manycore.Kernels.Group.{line-perform, plane-perform}
use bsg_manycore.Kernels.Matrix.Blocks.{flat-div}
use bsg_manycore.Kernels.Shared.{load_vector, add_vectors, store_vector, load_block, store_block}

module _ (tiles_x tiles_y grid_x grid_y : ℕ) (some_x : 0 < tiles_x) (some_y : 0 < tiles_y)
    (group_x group_y : ℕ) where
  -- the stores of the tiles of the group
  abbrev pub phase : (Tile → List Store) → List Store
  phase kernel = group_stores tiles_x tiles_y grid_x grid_y kernel group_x group_y

  -- Through shared memory, in a group of at least one tile and any order of the stores within each
  -- phase, element i of the group's block of C becomes the sum of those of A and B, for any addition.
  pub vec_add_shared_mem-perform :
      (plus : ℕ → ℕ → ℕ) (A B C sh_A sh_B sh_C : Array) (block_size_x i : ℕ)
      (wa wb wc ws : List Store)
      → Perm wa (phase (load_vector tiles_x tiles_y A block_size_x))
      → Perm wb (phase (load_vector tiles_x tiles_y B block_size_x))
      → Perm wc (
          phase (add_vectors tiles_x tiles_y plus (perform wa sh_A) (perform wb sh_B) block_size_x))
      → Perm ws (phase (store_vector tiles_x tiles_y (perform wc sh_C) block_size_x))
      → i < block_size_x
      → let q = block_size_x * (group_y * grid_x + group_x) + i in perform ws C q ≡ plus (A q) (B q)
  unfolding load_vector add_vectors store_vector
  vec_add_shared_mem-perform plus A B C sh_A sh_B sh_C block i wa wb wc ws pa pb pc ps h =
      let start = block * (group_y * grid_x + group_x) in
      let line = line-perform tiles_x tiles_y grid_x grid_y some_x some_y group_x group_y block in
      line (λ j. start + j) (perform wc sh_C) (λ q. perform wc sh_C (q - start))
        (λ j _. ap (perform wc sh_C) (omega arith)) _ (λ tx ty. refl) ws C i ps h
      ∙ line (λ j. j) (λ j. plus (perform wa sh_A j) (perform wb sh_B j)) _ (λ j _. refl) _
          (λ tx ty. refl) wc sh_C i pc h
      ∙ ap₂ plus
          (line (λ j. j) (λ j. A (start + j)) _ (λ j _. refl) _ (λ tx ty. refl) wa sh_A i pa h)
          (line (λ j. j) (λ j. B (start + j)) _ (λ j _. refl) _ (λ tx ty. refl) wb sh_B i pb h)

  -- Under the same conditions kernel_shared_mem_load_store copies the group's block of the matrix, if
  -- the columns of the block are within the matrix.
  pub shared_mem_load_store-perform :
      (A_in A_out sh_A : Array) (N block_size_y block_size_x y x : ℕ) (wa ws : List Store)
      → group_x * block_size_x + block_size_x ≤ N
      → Perm wa (phase (load_block tiles_x tiles_y A_in N block_size_y block_size_x))
      → Perm ws (phase (store_block tiles_x tiles_y (perform wa sh_A) N block_size_y block_size_x))
      → y < block_size_y
      → x < block_size_x
      → let q = (group_y * block_size_y + y) * N + (group_x * block_size_x + x) in
        perform ws A_out q ≡ A_in q
  unfolding load_block store_block
  shared_mem_load_store-perform A_in A_out sh_A N by bx y x wa ws fits pa ps hy hx =
      let sy = group_y * by in
      let sx = group_x * bx in
      let plane = plane-perform tiles_x tiles_y grid_x grid_y some_x some_y group_x group_y by bx in
      let sh : Array = perform wa sh_A in
      plane (λ y x. (sy + y) * N + (sx + x)) (λ y x. sh (y * bx + x))
        (λ q. sh ((q / N - sy) * bx + (q % N - sx)))
        (λ y x hy hx.
          let (eq, er) = flat-div N (sy + y) (sx + x) (omega (arith, fits)) in
          ap₂ (λ a b. sh (a * bx + b)) (omega (arith, eq)) (omega (arith, er)))
        _ (λ tx ty. refl) ws A_out y x ps hy hx
      ∙ plane (λ y x. y * bx + x) (λ y x. A_in ((sy + y) * N + (sx + x)))
          (λ q. A_in ((sy + q / bx) * N + (sx + q % bx)))
          (λ y x hy hx.
            let (eq, er) = flat-div bx y x hx in
            ap₂ (λ a b. A_in ((sy + a) * N + (sx + b))) (sym eq) (sym er))
          _ (λ tx ty. refl) wa sh_A y x pa hy hx
