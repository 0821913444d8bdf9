-- ===== src/Kernels.antt =====
-- Kernels of software/spmd/bsg_cuda_lite_runtime: the tiles of a grid of tile groups share a loop nest,
-- and each stores its part of a result in DRAM. A kernel is given by the stores that a tile makes, in
-- order; an int or a float is its 32-bit word, and an array is a function of the index. The arrays of
-- a call do not overlap.
pub mod Stores
pub mod Grid
pub mod Vector
pub mod Matrix
pub mod Group
pub mod Shared
pub mod Convolution
pub mod Softmax
use bsg_manycore.Prelude.{ℕ, zero, suc, ◌+◌, ◌-◌, ◌*◌, List, [], ◌++◌, ltb, if◌then◌else◌}

abbrev pub Array : Type 0
Array = ℕ → ℕ

-- a store: the index and the value
abbrev pub Store : Type 0
Store = ℕ × ℕ

-- `for (iter = i; iter < stop; iter += stride) body`, in at most `fuel` rounds
unfoldable pub for_step : (fuel i stop stride : ℕ) → (ℕ → List Store) → List Store
for_step zero i stop stride body = []
for_step (suc fuel) i stop stride body =
    let rest = for_step fuel (i + stride) stop stride body in
    if ltb i stop then body i ++ rest else []

-- With a stride above 0 the loop has no more rounds than there are indices below `stop`.
unfoldable pub for_strided : (i stop stride : ℕ) → (ℕ → List Store) → List Store
unfolding for_step
for_strided i stop stride body = for_step (stop - i) i stop stride body

-- the variables of bsg_set_tile_x_y.h at a tile
pub record Tile : Type 0 where
  pub bsg_x : ℕ
  pub bsg_y : ℕ
  pub bsg_id : ℕ
  pub tile_group_id_x : ℕ
  pub tile_group_id_y : ℕ
  pub grid_dim_x : ℕ
  pub grid_dim_y : ℕ

-- The stores of all tiles: `tiles_x` by `tiles_y` tiles in each of `grid_x` by `grid_y` groups.
module _ (tiles_x tiles_y grid_x grid_y : ℕ) where
  abbrev pub tile_at : (group_x group_y x y : ℕ) → Tile
  tile_at group_x group_y x y = record {
    bsg_x = x;
    bsg_y = y;
    bsg_id = y * tiles_x + x;
    tile_group_id_x = group_x;
    tile_group_id_y = group_y;
    grid_dim_x = grid_x;
    grid_dim_y = grid_y;
  }

  unfoldable pub group_stores : (Tile → List Store) → (group_x group_y : ℕ) → List Store
  unfolding for_strided
  group_stores kernel group_x group_y =
      for_strided 0 tiles_y 1
        (λ y. for_strided 0 tiles_x 1 (λ x. kernel (tile_at group_x group_y x y)))

  unfoldable pub grid_stores : (Tile → List Store) → List Store
  unfolding group_stores
  grid_stores kernel =
      for_strided 0 grid_y 1
        (λ group_y. for_strided 0 grid_x 1 (λ group_x. group_stores kernel group_x group_y))
