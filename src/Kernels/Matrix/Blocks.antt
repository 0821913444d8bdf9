-- ===== src/Kernels/Matrix/Blocks.antt =====
-- What a grid of tile groups leaves in the result of a kernel on matrices.
use mathlib.Core.List.{Mem, Perm, mem-cons}
use mathlib.Core.List.Perm
use mathlib.Core.Logic.Or
use native.Mathlib.Nat.{ℕ_set, div-add-mod', div-lt_iff_lt-mul}
use bsg_manycore.Prelude.{
  ℕ, ◌+◌, ◌*◌, ◌/◌, ◌%◌, ◌≤◌, ◌<◌, ◌≡◌, ◌≢◌, ◌⊎◌, inr, refl, ap, ap₂, sym, ◌∙◌, arith, List, [],
  ◌∷◌, subst,
}
use bsg_manycore.Kernels.{Array, Store, Tile, grid_stores, for_strided}
use bsg_manycore.Kernels.Stores.{
  perform, perform-Sound, perform-Spares, for_strided-every, for_strided-Mem, visits,
}
use bsg_manycore.Kernels.Grid.{grid_stores-every, grid_stores-Mem}
use bsg_manycore.Kernels.Vector.Blocks.{one_store}

pub flat-div : (P y x : ℕ) → x < P → ((y * P + x) / P ≡ y) × ((y * P + x) % P ≡ x)
flat-div P y x h = (grind arith, grind arith)

-- Place (y, x) of a matrix of P columns determines y and x.
pub flat-injective :
    (P y x y' x' : ℕ) → x < P → x' < P → y * P + x ≡ y' * P + x' → (y ≡ y') × (x ≡ x')
flat-injective P y x y' x' hx hx' e =
    let (q, r) = flat-div P y x hx in
    let (q', r') = flat-div P y' x' hx' in
    (sym q ∙ ap (λ t. t / P) e ∙ q', sym r ∙ ap (λ t. t % P) e ∙ r')

module _ (tiles_x tiles_y grid_x grid_y P block_y block_x : ℕ) (some_x : 0 < tiles_x)
    (some_y : 0 < tiles_y) (fits : grid_x * block_x ≤ P) (g : ℕ → ℕ → ℕ) where
  abbrev pub tile_stores : Tile → List Store
  tile_stores t =
      let start_y = t.tile_group_id_y * block_y in
      let start_x = t.tile_group_id_x * block_x in
      for_strided (start_y + t.bsg_y) (start_y + block_y) tiles_y (λ y.
        for_strided (start_x + t.bsg_x) (start_x + block_x) tiles_x (λ x. (y * P + x, g y x) ∷ []))

  abbrev stores : List Store
  stores = grid_stores tiles_x tiles_y grid_x grid_y tile_stores

  block_end : (grid block group j : ℕ) → group < grid → j < group * block + block → j < grid * block
  block_end grid block group j h hj = grind arith

  stores-every :
      (T : Store → Type 0)
      → ((w : Store) → IsProp (T w))
      → ((y x : ℕ) → y < grid_y * block_y → x < grid_x * block_x → T (y * P + x, g y x))
      → (w : Store) → Mem w stores
      → T w
  stores-every T prop h =
      grid_stores-every tiles_x tiles_y grid_x grid_y _ T prop (λ gx gy tx ty hgx hgy htx hty.
        for_strided-every _ tiles_y _ T prop _ (λ y _ hy.
          for_strided-every _ tiles_x _ T prop _ (λ x _ hx w.
            one_store T prop _ w (
              h y x (block_end grid_y block_y gy y hgy hy)
                (block_end grid_x block_x gx x hgx hx)))))

  steps :
      (block tiles j : ℕ) → j / block * block + j % block % tiles + j % block / tiles * tiles ≡ j
  steps block tiles j = omega (arith, div-add-mod' j block, div-add-mod' (j % block) tiles)

  stores-Mem :
      (y x : ℕ) → y < grid_y * block_y → x < grid_x * block_x → Mem (y * P + x, g y x) stores
  stores-Mem y x hy hx =
      let pos_y : 0 < block_y = grind arith in
      let pos_x : 0 < block_x = grind arith in
      let gy : y / block_y < grid_y =
        (div-lt_iff_lt-mul {k = block_y} {x = y} {y = grid_y} pos_y).1 hy in
      let gx : x / block_x < grid_x =
        (div-lt_iff_lt-mul {k = block_x} {x = x} {y = grid_x} pos_x).1 hx in
      grid_stores-Mem tiles_x tiles_y grid_x grid_y _ (x / block_x) (y / block_y)
        (x % block_x % tiles_x) (y % block_y % tiles_y) (y * P + x, g y x) (gx, gy)
        (omega arith, omega arith)
        (for_strided-Mem _ tiles_y _ _ y _ some_y
          (visits tiles_y y _ (y % block_y / tiles_y) some_y (steps block_y tiles_y y))
          (omega (arith, div-add-mod' y block_y))
          (for_strided-Mem _ tiles_x _ _ x _ some_x
            (visits tiles_x x _ (x % block_x / tiles_x) some_x (steps block_x tiles_x x))
            (omega (arith, div-add-mod' x block_x)) (mem-cons.1 (Or.inl refl))))

  -- After the stores of all tiles in any order, the places of the blocks of all groups have the values
  -- of `g`, and no other place of the matrix has changed.
  pub blocks-perform :
      (ws : List Store) (C : Array) (y x : ℕ)
      → Perm ws stores
      → y < grid_y * block_y
      → x < grid_x * block_x
      → perform ws C (y * P + x) ≡ g y x
  blocks-perform ws C y x p hy hx =
      let f : ℕ → ℕ = λ q. g (q / P) (q % P) in
      let value : (y x : ℕ) → x < P → g y x ≡ f (y * P + x) =
        λ y x h. ap₂ g (sym (flat-div P y x h).0) (sym (flat-div P y x h).1) in
      perform-Sound f ws C (y * P + x)
        (λ q v m.
          stores-every (λ w. w.1 ≡ f w.0) (λ w. ℕ_set _ _)
            (λ y x hy hx. value y x (omega (arith, fits))) (q, v) ((Perm.mem_iff p).0 m))
        (inr (
          subst (λ v. Mem (y * P + x, v) ws) (value y x (omega (arith, fits)))
            ((Perm.mem_iff p).1 (stores-Mem y x hy hx))))
      ∙ sym (value y x (omega (arith, fits)))

  pub blocks_outside :
      (ws : List Store) (C : Array) (y x : ℕ)
      → Perm ws stores
      → x < P
      → (grid_y * block_y ≤ y) ⊎ (grid_x * block_x ≤ x)
      → perform ws C (y * P + x) ≡ C (y * P + x)
  blocks_outside ws C y x p hx out = perform-Spares ws C (y * P + x) (λ v m.
      stores-every (λ w. w.0 ≢ y * P + x) (λ w. hlevel)
        (λ y' x' hy' hx' e.
          let (ey, ex) = flat-injective P y' x' y x (omega (arith, fits)) hx e in
          omega (arith, out))
        (y * P + x, v) ((Perm.mem_iff p).0 m) refl)
