-- ===== src/Kernels/Shared/Stripes.antt =====
-- kernel_shared_mem of software/spmd/bsg_cuda_lite_runtime, which fills an array by turns and reads it by blocks.
use mathlib.Core.List.{Mem, Perm, mem-cons}
use mathlib.Core.List.Perm
use mathlib.Core.Logic.Or
use native.Mathlib.Nat.{ℕ_set, div-add-mod', div-lt_iff_lt-mul}
use bsg_manycore.Prelude.{
  ℕ, ◌+◌, ◌*◌, ◌/◌, ◌%◌, ◌≤◌, ◌<◌, ◌≡◌, inr, refl, ap, sym, ◌∙◌, arith, List, [], ◌∷◌, subst,
}
use bsg_manycore.Kernels.{Array, Store, Tile, group_stores}
use bsg_manycore.Kernels.Stores.{perform, perform-Sound, for_strided-every, for_strided-Mem, visits}
use bsg_manycore.Kernels.Grid.{group_stores-every, group_stores-Mem}
use bsg_manycore.Kernels.Group.{line-perform}
use bsg_manycore.Kernels.Vector.Blocks.{one_store}
use bsg_manycore.Kernels.Shared.{fill_array, copy_blocks}

module _ (tiles_x tiles_y grid_x grid_y : ℕ) (some_x : 0 < tiles_x) (some_y : 0 < tiles_y)
    (group_x group_y N : ℕ) where
  abbrev phase : (Tile → List Store) → List Store
  phase kernel = group_stores tiles_x tiles_y grid_x grid_y kernel group_x group_y

  abbrev block_size : ℕ
  block_size = N / (tiles_x * tiles_y)

  copy_blocks-Mem :
      (sh_arr : Array) (q : ℕ)
      → q < tiles_x * tiles_y * block_size
      → Mem (q, sh_arr q) (phase (copy_blocks tiles_x tiles_y sh_arr N))
  unfolding copy_blocks
  copy_blocks-Mem sh_arr q h =
      let id = q / block_size in
      let some : 0 < block_size = grind arith in
      let id_lt : id < tiles_x * tiles_y =
        (div-lt_iff_lt-mul {k = block_size} {x = q} {y = tiles_x * tiles_y} some).1
          (omega (arith, h)) in
      let row : id / tiles_x < tiles_y =
        (div-lt_iff_lt-mul {k = tiles_x} {x = id} {y = tiles_y} some_x).1 (omega (arith, id_lt)) in
      let same : id / tiles_x * tiles_x + id % tiles_x ≡ id = div-add-mod' id tiles_x in
      let place : id * block_size + q % block_size ≡ q = div-add-mod' q block_size in
      let below : q < (id + 1) * block_size = grind arith in
      group_stores-Mem tiles_x tiles_y grid_x grid_y _ group_x group_y (id % tiles_x) (id / tiles_x)
        _ (omega arith) row
        (for_strided-Mem _ 1 _ ((id / tiles_x * tiles_x + id % tiles_x) * block_size) q _
          (omega arith)
          (visits 1 q _ (q % block_size) (omega arith)
            (ap (λ a. a * block_size + q % block_size * 1) same ∙ omega (arith, place)))
          (subst (λ a. q < (a + 1) * block_size) (sym same) below) (mem-cons.1 (Or.inl refl)))

  -- In a group of at least one tile, in any order of the stores within each phase, kernel_shared_mem
  -- leaves in A, at every index below the largest multiple of the number of tiles that is at most N,
  -- the index itself.
  pub shared_mem-perform :
      (A sh_arr : Array) (wa ws : List Store) (q : ℕ)
      → Perm wa (phase (fill_array tiles_x tiles_y N))
      → Perm ws (phase (copy_blocks tiles_x tiles_y (perform wa sh_arr) N))
      → q < tiles_x * tiles_y * block_size
      → perform ws A q ≡ q
  unfolding fill_array copy_blocks
  shared_mem-perform A sh_arr wa ws q pa ps h =
      let sh : Array = perform wa sh_arr in
      let size : 0 < tiles_x * tiles_y = grind arith in
      let within : tiles_x * tiles_y * block_size ≤ N =
        grind (arith, div-add-mod' N (tiles_x * tiles_y)) in
      perform-Sound sh ws A q
        (λ p v m.
          group_stores-every tiles_x tiles_y grid_x grid_y _ (λ w. w.1 ≡ sh w.0) (λ w. ℕ_set _ _)
            group_x group_y
            (λ x y hx hy.
              let id = y * tiles_x + x in
              for_strided-every ((id + 1) * block_size) 1 (λ j. (j, sh j) ∷ []) (λ w. w.1 ≡ sh w.0)
                (λ w. ℕ_set _ _) (id * block_size)
                (λ j lo hi w. one_store (λ w. w.1 ≡ sh w.0) (λ w. ℕ_set _ _) (j, sh j) w refl))
            (p, v) ((Perm.mem_iff ps).0 m))
        (inr ((Perm.mem_iff ps).1 (copy_blocks-Mem sh q h)))
      ∙ line-perform tiles_x tiles_y grid_x grid_y some_x some_y group_x group_y N (λ j. j) (λ j. j)
          (λ j. j) (λ j _. refl) _ (λ tx ty. refl) wa sh_arr q pa (omega (arith, h, within))
