-- ===== src/Kernels/Grid.antt =====
-- The stores of all tiles of a grid: what holds of each, and which are among them.
use mathlib.Core.List.{Mem}
use bsg_manycore.Prelude.{ℕ, ◌<◌, ◌≡◌, arith, ap, List, fun_ext}
use bsg_manycore.Kernels.{Store, Tile, tile_at, group_stores, grid_stores, for_strided}
use bsg_manycore.Kernels.Stores.{for_strided-every, for_strided-Mem, visits}

-- A loop of stride 1 from 0 makes the stores of every round below its bound.
pub for_strided-one :
    (stop j : ℕ) (body : ℕ → List Store) (w : Store)
    → j < stop
    → Mem w (body j)
    → Mem w (for_strided 0 stop 1 body)
for_strided-one stop j body w h =
    for_strided-Mem stop 1 body 0 j w (omega arith) (visits 1 j 0 j (omega arith) (omega arith)) h

module _ (tiles_x tiles_y grid_x grid_y : ℕ) (kernel : Tile → List Store) where
  pub group_stores-every :
      (P : Store → Type 0)
      → ((w : Store) → IsProp (P w))
      → (group_x group_y : ℕ)
      → ((x y : ℕ)
          → x < tiles_x
          → y < tiles_y
          → (w : Store) → Mem w (kernel (tile_at tiles_x tiles_y grid_x grid_y group_x group_y x y))
          → P w)
      → (w : Store) → Mem w (group_stores tiles_x tiles_y grid_x grid_y kernel group_x group_y)
      → P w
  unfolding group_stores
  group_stores-every P prop group_x group_y h =
      for_strided-every tiles_y 1 _ P prop 0
        (λ y _ hy. for_strided-every tiles_x 1 _ P prop 0 (λ x _ hx. h x y hx hy))

  pub group_stores-Mem :
      (group_x group_y x y : ℕ) (w : Store)
      → x < tiles_x
      → y < tiles_y
      → Mem w (kernel (tile_at tiles_x tiles_y grid_x grid_y group_x group_y x y))
      → Mem w (group_stores tiles_x tiles_y grid_x grid_y kernel group_x group_y)
  unfolding group_stores
  group_stores-Mem group_x group_y x y w hx hy m =
      for_strided-one tiles_y y _ w hy (for_strided-one tiles_x x _ w hx m)

  pub grid_stores-every :
      (P : Store → Type 0)
      → ((w : Store) → IsProp (P w))
      → ((group_x group_y x y : ℕ)
          → group_x < grid_x
          → group_y < grid_y
          → x < tiles_x
          → y < tiles_y
          → (w : Store) → Mem w (kernel (tile_at tiles_x tiles_y grid_x grid_y group_x group_y x y))
          → P w)
      → (w : Store) → Mem w (grid_stores tiles_x tiles_y grid_x grid_y kernel)
      → P w
  unfolding grid_stores
  grid_stores-every P prop h = for_strided-every grid_y 1 _ P prop 0 (λ group_y _ hgy.
      for_strided-every grid_x 1 _ P prop 0 (λ group_x _ hgx.
        group_stores-every P prop group_x group_y (λ x y. h group_x group_y x y hgx hgy)))

  pub grid_stores-Mem :
      (group_x group_y x y : ℕ) (w : Store)
      → (group_x < grid_x) × (group_y < grid_y)
      → (x < tiles_x) × (y < tiles_y)
      → Mem w (kernel (tile_at tiles_x tiles_y grid_x grid_y group_x group_y x y))
      → Mem w (grid_stores tiles_x tiles_y grid_x grid_y kernel)
  unfolding grid_stores
  grid_stores-Mem group_x group_y x y w (hgx, hgy) (hx, hy) m =
      for_strided-one grid_y group_y _ w hgy
        (for_strided-one grid_x group_x _ w hgx (group_stores-Mem group_x group_y x y w hx hy m))

-- Kernels that make the same stores at the tiles of a group, or of the grid, make the same in all.
module _ (tiles_x tiles_y grid_x grid_y : ℕ) (k k' : Tile → List Store) where
  pub group_stores_eq :
      (group_x group_y : ℕ)
      → ((x y : ℕ)
          → k (tile_at tiles_x tiles_y grid_x grid_y group_x group_y x y)
            ≡ k' (tile_at tiles_x tiles_y grid_x grid_y group_x group_y x y))
      → group_stores tiles_x tiles_y grid_x grid_y k group_x group_y
        ≡ group_stores tiles_x tiles_y grid_x grid_y k' group_x group_y
  unfolding group_stores
  group_stores_eq gx gy h =
      ap (for_strided 0 tiles_y 1)
        (fun_ext (λ y. ap (for_strided 0 tiles_x 1) (fun_ext (λ x. h x y))))

  pub grid_stores_eq :
      ((group_x group_y x y : ℕ)
        → k (tile_at tiles_x tiles_y grid_x grid_y group_x group_y x y)
          ≡ k' (tile_at tiles_x tiles_y grid_x grid_y group_x group_y x y))
      → grid_stores tiles_x tiles_y grid_x grid_y k ≡ grid_stores tiles_x tiles_y grid_x grid_y k'
  unfolding grid_stores
  grid_stores_eq h = ap (for_strided 0 grid_y 1) (
      fun_ext (λ gy. ap (for_strided 0 grid_x 1) (fun_ext (λ gx. group_stores_eq gx gy (h gx gy)))))
