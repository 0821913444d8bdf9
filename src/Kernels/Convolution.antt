-- ===== src/Kernels/Convolution.antt =====
-- software/spmd/bsg_cuda_lite_runtime/conv1d/kernel_conv1d.c: the convolution of a vector with a filter. The
-- operations on floats are arguments, and 0 is the word of the float 0.
pub mod Padded
use bsg_manycore.Prelude.{ℕ, ◌+◌, ◌-◌, ◌*◌, List, [], ◌∷◌, ltb, leb, ◌&&◌, if◌then◌else◌}
use bsg_manycore.Kernels.{Array, Store, Tile, for_strided}
use bsg_manycore.Kernels.Matrix.{accumulate}

-- `filter[j] * a` is added up for the window that starts at window_idx; `a_idx` is not below 0 exactly
-- if window_idx + j is not below P.
abbrev pub window_sum : (fadd fmul : ℕ → ℕ → ℕ) (A filter : Array) (N F P window_idx : ℕ) → ℕ
window_sum fadd fmul A filter N F P window_idx =
    accumulate F 0
      (λ j res.
        let a_idx = window_idx + j - P in
        let a = if leb P (window_idx + j) && ltb a_idx N then A a_idx else 0 in
        fadd res (fmul (filter j) a))
      0

module _ (tiles_x tiles_y : ℕ) where
  unfoldable pub kernel_conv1d :
      (fadd fmul : ℕ → ℕ → ℕ) (A : Array) (N : ℕ) (filter : Array) (F P S block_size : ℕ)
      → Tile
      → List Store
  unfolding for_strided
  kernel_conv1d fadd fmul A N filter F P S block_size t =
      let tile_group_idx = t.grid_dim_x * t.tile_group_id_y + t.tile_group_id_x in
      let start = tile_group_idx * block_size in
      for_strided (start + t.bsg_id) (start + block_size) (tiles_x * tiles_y)
        (λ i. (i, window_sum fadd fmul A filter N F P (i * S)) ∷ [])
