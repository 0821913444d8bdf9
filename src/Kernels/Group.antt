-- ===== src/Kernels/Group.antt =====
-- What one tile group leaves in an array, in shared memory or in DRAM, that its tiles fill in one phase
-- between two barriers.
use mathlib.Core.List.{Mem, Perm, mem-cons}
use mathlib.Core.List.Perm
use mathlib.Core.Logic.Or
use native.Mathlib.Nat.{ℕ_set, div-add-mod', div-lt_iff_lt-mul}
use bsg_manycore.Prelude.{
  ℕ, ◌+◌, ◌*◌, ◌/◌, ◌%◌, ◌<◌, ◌≡◌, inr, refl, sym, ◌∙◌, arith, List, [], ◌∷◌, subst,
}
use bsg_manycore.Kernels.{Array, Store, Tile, tile_at, group_stores, for_strided}
use bsg_manycore.Kernels.Stores.{perform, perform-Sound, for_strided-every, for_strided-Mem, visits}
use bsg_manycore.Kernels.Grid.{group_stores-every, group_stores-Mem, group_stores_eq}
use bsg_manycore.Kernels.Vector.Blocks.{one_store}

module _ (tiles_x tiles_y grid_x grid_y : ℕ) (some_x : 0 < tiles_x) (some_y : 0 < tiles_y)
    (group_x group_y : ℕ) where
  -- The tiles take the indices of a block in turn; `f` is the array that results.
  module _ (block : ℕ) (place value f : ℕ → ℕ)
      (agrees : (i : ℕ) → i < block → value i ≡ f (place i)) where
    abbrev pub line : Tile → List Store
    line t = for_strided t.bsg_id block (tiles_x * tiles_y) (λ i. (place i, value i) ∷ [])

    abbrev line_stores : List Store
    line_stores = group_stores tiles_x tiles_y grid_x grid_y line group_x group_y

    line-Mem : (i : ℕ) → i < block → Mem (place i, value i) line_stores
    line-Mem i h =
        let size : 0 < tiles_x * tiles_y = grind arith in
        let id = i % (tiles_x * tiles_y) in
        let row : id / tiles_x < tiles_y =
          (div-lt_iff_lt-mul {k = tiles_x} {x = id} {y = tiles_y} some_x).1 (omega (arith, size)) in
        group_stores-Mem tiles_x tiles_y grid_x grid_y _ group_x group_y (id % tiles_x)
          (id / tiles_x) _ (omega arith) row
          (for_strided-Mem block (tiles_x * tiles_y) _ (id / tiles_x * tiles_x + id % tiles_x) i _
            size
            (visits (tiles_x * tiles_y) i _ (i / (tiles_x * tiles_y)) size
              (omega (arith, div-add-mod' id tiles_x, div-add-mod' i (tiles_x * tiles_y))))
            h (mem-cons.1 (Or.inl refl)))

    pub line-perform :
        (kernel : Tile → List Store)
        → ((x y : ℕ)
            → kernel (tile_at tiles_x tiles_y grid_x grid_y group_x group_y x y)
              ≡ line (tile_at tiles_x tiles_y grid_x grid_y group_x group_y x y))
        → (ws : List Store) (C : Array) (i : ℕ)
        → Perm ws (group_stores tiles_x tiles_y grid_x grid_y kernel group_x group_y)
        → i < block
        → perform ws C (place i) ≡ value i
    line-perform kernel same ws C i pk h =
        let p : Perm ws line_stores =
          subst (Perm ws)
            (group_stores_eq tiles_x tiles_y grid_x grid_y kernel line group_x group_y same) pk in
        perform-Sound f ws C (place i)
          (λ q v m.
            group_stores-every tiles_x tiles_y grid_x grid_y _ (λ w. w.1 ≡ f w.0) (λ w. ℕ_set _ _)
              group_x group_y
              (λ x y hx hy.
                for_strided-every block (tiles_x * tiles_y) _ (λ w. w.1 ≡ f w.0) (λ w. ℕ_set _ _) _
                  (λ j _ hj w. one_store (λ w. w.1 ≡ f w.0) (λ w. ℕ_set _ _) _ w (agrees j hj)))
              (q, v) ((Perm.mem_iff p).0 m))
          (inr (subst (λ v. Mem (place i, v) ws) (agrees i h) ((Perm.mem_iff p).1 (line-Mem i h))))
        ∙ sym (agrees i h)

  -- The same in two directions.
  module _ (block_y block_x : ℕ) (place value : ℕ → ℕ → ℕ) (f : ℕ → ℕ)
      (agrees : (y x : ℕ) → y < block_y → x < block_x → value y x ≡ f (place y x)) where
    abbrev pub plane : Tile → List Store
    plane t =
        for_strided t.bsg_y block_y tiles_y
          (λ y. for_strided t.bsg_x block_x tiles_x (λ x. (place y x, value y x) ∷ []))

    abbrev plane_stores : List Store
    plane_stores = group_stores tiles_x tiles_y grid_x grid_y plane group_x group_y

    plane-Mem : (y x : ℕ) → y < block_y → x < block_x → Mem (place y x, value y x) plane_stores
    plane-Mem y x hy hx =
        group_stores-Mem tiles_x tiles_y grid_x grid_y _ group_x group_y (x % tiles_x) (y % tiles_y)
          _ (omega arith) (omega arith)
          (for_strided-Mem block_y tiles_y _ (y % tiles_y) y _ some_y
            (visits tiles_y y _ (y / tiles_y) some_y (omega (arith, div-add-mod' y tiles_y))) hy
            (for_strided-Mem block_x tiles_x _ (x % tiles_x) x _ some_x
              (visits tiles_x x _ (x / tiles_x) some_x (omega (arith, div-add-mod' x tiles_x))) hx
              (mem-cons.1 (Or.inl refl))))

    pub plane-perform :
        (kernel : Tile → List Store)
        → ((x y : ℕ)
            → kernel (tile_at tiles_x tiles_y grid_x grid_y group_x group_y x y)
              ≡ plane (tile_at tiles_x tiles_y grid_x grid_y group_x group_y x y))
        → (ws : List Store) (C : Array) (y x : ℕ)
        → Perm ws (group_stores tiles_x tiles_y grid_x grid_y kernel group_x group_y)
        → y < block_y
        → x < block_x
        → perform ws C (place y x) ≡ value y x
    plane-perform kernel same ws C y x pk hy hx =
        let p : Perm ws plane_stores =
          subst (Perm ws)
            (group_stores_eq tiles_x tiles_y grid_x grid_y kernel plane group_x group_y same) pk in
        perform-Sound f ws C (place y x)
          (λ q v m.
            group_stores-every tiles_x tiles_y grid_x grid_y _ (λ w. w.1 ≡ f w.0) (λ w. ℕ_set _ _)
              group_x group_y
              (λ tx ty htx hty.
                for_strided-every block_y tiles_y _ (λ w. w.1 ≡ f w.0) (λ w. ℕ_set _ _) _
                  (λ j _ hj.
                    for_strided-every block_x tiles_x _ (λ w. w.1 ≡ f w.0) (λ w. ℕ_set _ _) _
                      (λ k _ hk w.
                        one_store (λ w. w.1 ≡ f w.0) (λ w. ℕ_set _ _) _ w (agrees j k hj hk))))
              (q, v) ((Perm.mem_iff p).0 m))
          (inr (
            subst (λ v. Mem (place y x, v) ws) (agrees y x hy hx)
              ((Perm.mem_iff p).1 (plane-Mem y x hy hx))))
        ∙ sym (agrees y x hy hx)
