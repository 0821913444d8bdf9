-- ===== src/Kernels/Vector/Blocks.antt =====
-- What a grid of tile groups leaves in the result of a kernel on vectors.
use mathlib.Core.List.{Mem, Perm, mem-cons, not-mem-nil}
use mathlib.Core.List.Perm
use mathlib.Core.Logic.Or
use native.Mathlib.Nat.{ℕ_set, div-add-mod', div-lt_iff_lt-mul}
use bsg_manycore.Prelude.{
  ℕ, ◌+◌, ◌*◌, ◌/◌, ◌%◌, ◌≤◌, ◌<◌, ◌≡◌, ◌≢◌, inl, inr, refl, ap, sym, arith, List, [], ◌∷◌, ltb,
  if◌then◌else◌, Bool-cases, subst,
}
use bsg_manycore.Kernels.{Array, Store, Tile, tile_at, grid_stores, for_strided}
use bsg_manycore.Kernels.Stores.{
  perform, perform-Sound, perform-Spares, for_strided-every, for_strided-Mem, visits,
}
use bsg_manycore.Kernels.Grid.{grid_stores-every, grid_stores-Mem}
use bsg_manycore.Kernels.Vector.{start_of}

pub one_store :
    (P : Store → Type 0) → ((w : Store) → IsProp (P w)) → (v w : Store) → P v → Mem w (v ∷ []) → P w
one_store P prop v w h m =
    Or.elim (prop w) (mem-cons.0 m) (λ e. subst P (sym e) h) (λ m. absurd (not-mem-nil m))

-- A tile's part of a block: the loop goes from `base` in the tile's steps, and stores at `off` more.
abbrev pub part : (size : ℕ) (base off : ℕ) (g : Array) (block_size : ℕ) → Tile → List Store
part size base off g block_size t =
    for_strided (base + t.bsg_id) (base + block_size) size (λ i. (off + i, g (off + i)) ∷ [])

module _ (tiles_x tiles_y grid_x grid_y block_size : ℕ) (some_x : 0 < tiles_x)
    (some_y : 0 < tiles_y) (base off : Tile → ℕ)
    (place : (t : Tile) → base t + off t ≡ start_of block_size t) (g : Array) where
  abbrev stores : List Store
  stores =
      grid_stores tiles_x tiles_y grid_x grid_y
        (λ t. part (tiles_x * tiles_y) (base t) (off t) g block_size t)

  within :
      (b o gx gy j : ℕ)
      → gx < grid_x
      → gy < grid_y
      → b + o ≡ block_size * (gy * grid_x + gx)
      → j < b + block_size
      → o + j < grid_x * grid_y * block_size
  within b o gx gy j hgx hgy e hi =
      let group : gy * grid_x + gx + 1 ≤ grid_x * grid_y = grind arith in
      let blocks : block_size * (gy * grid_x + gx) + block_size ≤ grid_x * grid_y * block_size =
        grind arith in
      omega (arith, e, blocks)

  part-every :
      (P : Store → Type 0)
      → ((w : Store) → IsProp (P w))
      → ((q : ℕ) → q < grid_x * grid_y * block_size → P (q, g q))
      → (w : Store) → Mem w stores
      → P w
  part-every P prop h =
      grid_stores-every tiles_x tiles_y grid_x grid_y _ P prop (λ gx gy x y hgx hgy hx hy.
        let t = tile_at tiles_x tiles_y grid_x grid_y gx gy x y in
        for_strided-every _ (tiles_x * tiles_y) _ P prop _ (λ j lo hi w.
          one_store P prop _ w (h _ (within (base t) (off t) gx gy j hgx hgy (place t) hi))))

  module _ (q : ℕ) (below : q < grid_x * grid_y * block_size) where
    abbrev group : ℕ
    group = q / block_size

    abbrev index : ℕ
    index = q % block_size

    abbrev id : ℕ
    id = index % (tiles_x * tiles_y)

    abbrev tile : Tile
    tile =
        tile_at tiles_x tiles_y grid_x grid_y (group % grid_x) (group / grid_x) (id % tiles_x)
          (id / tiles_x)

    some_block : 0 < block_size
    some_block = grind arith

    some_group : 0 < grid_x
    some_group = grind arith

    size_pos : 0 < tiles_x * tiles_y
    size_pos = grind arith

    group-lt : group / grid_x < grid_y
    group-lt = (div-lt_iff_lt-mul {k = grid_x} {x = group} {y = grid_y} some_group).1 (
        omega (
          arith,
          (div-lt_iff_lt-mul {k = block_size} {x = q} {y = grid_x * grid_y} some_block).1 below,
        ))

    row-lt : id / tiles_x < tiles_y
    row-lt =
        (div-lt_iff_lt-mul {k = tiles_x} {x = id} {y = tiles_y} some_x).1 (omega (arith, size_pos))

    index-eq : off tile + (base tile + index) ≡ q
    index-eq = omega (
      arith,
      place tile,
      div-add-mod' q block_size,
      div-add-mod' group grid_x,
      ap (λ (t : ℕ). block_size * t) (div-add-mod' group grid_x),
    )

    steps :
        base tile + tile.bsg_id + index / (tiles_x * tiles_y) * (tiles_x * tiles_y)
        ≡ base tile + index
    steps = omega (arith, div-add-mod' id tiles_x, div-add-mod' index (tiles_x * tiles_y))

    part-Mem : Mem (q, g q) stores
    part-Mem =
        grid_stores-Mem tiles_x tiles_y grid_x grid_y _ (group % grid_x) (group / grid_x)
          (id % tiles_x) (id / tiles_x) (q, g q) (omega (arith, some_group), group-lt)
          (omega arith, row-lt)
          (for_strided-Mem _ (tiles_x * tiles_y) _ (base tile + tile.bsg_id) (base tile + index)
            (q, g q) size_pos
            (visits (tiles_x * tiles_y) (base tile + index) (base tile + tile.bsg_id)
              (index / (tiles_x * tiles_y)) size_pos steps)
            (omega (arith, some_block)) (mem-cons.1 (Or.inl (ap (λ t. (t, g t)) (sym index-eq)))))

  -- After the stores of all tiles in any order, the elements of the blocks of all groups are those of
  -- `g`, and no other has changed.
  pub part-perform :
      (ws : List Store) (C : Array) (q : ℕ)
      → Perm ws stores
      → perform ws C q ≡ (if ltb q (grid_x * grid_y * block_size) then g q else C q)
  part-perform ws C q p = elim (Bool-cases (ltb q (grid_x * grid_y * block_size))) [
    | inl lt ↦ rw lt (
        perform-Sound g ws C q
          (λ p' v m.
            part-every (λ w. w.1 ≡ g w.0) (λ w. ℕ_set _ _) (λ q' h. refl) (p', v)
              ((Perm.mem_iff p).0 m))
          (inr ((Perm.mem_iff p).1 (part-Mem q (ground arith)))))
    | inr ge ↦ rw ge (
        perform-Spares ws C q (λ v m.
          part-every (λ w. w.0 ≢ q) (λ w. hlevel) (λ q' h e. ground arith) (q, v)
            ((Perm.mem_iff p).0 m) refl))
  ]
