-- ===== src/Kernels/Softmax/Tiles.antt =====
-- The elements that the variable of a tile, of a column and of row 0 has taken in, in a reduction of
-- Kernels/Softmax.
use bsg_manycore.Prelude.{ℕ, ◌+◌, ◌-◌, ◌*◌, ◌%◌, ◌≤◌, ◌<◌, ◌≡◌, ap, sym, ◌∙◌, arith}
use bsg_manycore.Kernels.Softmax.{for_fold}
use bsg_manycore.Kernels.Softmax.Combined.{
  for_fold-keeps, Combined, one_at, taken, taken_all, taken-next, taken-first, taken-last,
  residue-next, residue-first,
}

mul_add : (a b c d : ℕ) → a + b * (c + d) ≡ a + b * c + b * d
mul_add a b c d = grind arith

pub add_mul : (a b c : ℕ) → (a + b) * c ≡ a * c + b * c
add_mul a b c = grind arith

pub mul_sum : (b c d : ℕ) → b * (c + d) ≡ b * c + b * d
mul_sum b c d = grind arith

module _ (op : ℕ → ℕ → ℕ) (unit : ℕ) (f : ℕ → ℕ → ℕ) where
  pub recount :
      (count c : ℕ → ℕ → ℕ) (v : ℕ)
      → Combined op unit f count v
      → ((y x : ℕ) → c y x ≡ count y x)
      → Combined op unit f c v
  recount count c _ (Combined.nothing _ h) e = Combined.nothing c (λ y x. e y x ∙ h y x)
  recount count c _ (Combined.element _ y x h) e = Combined.element c y x (λ i j. e i j ∙ h i j)
  recount count c _ (Combined.both _ l r a b p q h) e =
      Combined.both c l r a b p q (λ y x. e y x ∙ h y x)

  -- `step` takes in the element at a place.
  abbrev pub Adds : (place : ℕ → ℕ → ℕ) → (step : ℕ → ℕ → ℕ) → Type 0
  Adds place step =
      (count c : ℕ → ℕ → ℕ) (y x acc : ℕ)
      → Combined op unit f count acc
      → ((i j : ℕ) → c i j ≡ count i j + one_at y i * one_at x j)
      → Combined op unit f c (step (place y x) acc)

  module _ (tiles_x tiles_y : ℕ) (some_x : 0 < tiles_x) (some_y : 0 < tiles_y)
      (start_y end_y start_x end_x : ℕ) where
    -- the elements of a tile
    abbrev pub tile_count : (tx ty : ℕ) → ℕ → ℕ → ℕ
    tile_count tx ty i j =
        taken_all start_y end_y tiles_y ty i * taken_all start_x end_x tiles_x tx j

    abbrev row_count : (tx ty y x : ℕ) → ℕ → ℕ → ℕ
    row_count tx ty y x i j =
        taken start_y end_y tiles_y ty y i * taken_all start_x end_x tiles_x tx j
        + one_at y i * taken start_x end_x tiles_x tx x j

    module _ (place : ℕ → ℕ → ℕ) (step : ℕ → ℕ → ℕ) (adds : Adds place step) where
      -- the inner loop
      row_fold-Combined :
          (tx ty y acc : ℕ)
          → tx < tiles_x
          → Combined op unit f
              (λ i j. taken start_y end_y tiles_y ty y i * taken_all start_x end_x tiles_x tx j)
              acc
          → Combined op unit f
              (λ i j.
                (taken start_y end_y tiles_y ty y i + one_at y i)
                * taken_all start_x end_x tiles_x tx j)
              (for_fold (start_x + tx) end_x tiles_x (λ x acc. step (place y x) acc) acc)
      row_fold-Combined tx ty y acc htx before =
          let before_row : ℕ → ℕ → ℕ =
            λ i j. taken start_y end_y tiles_y ty y i * taken_all start_x end_x tiles_x tx j in
          let Inv : ℕ → ℕ → Type 0 = λ x acc.
            (start_x ≤ x)
            × ((x - start_x) % tiles_x ≡ tx)
            × Combined op unit f (row_count tx ty y x) acc in
          let (x, past, (le, res, c)) =
            for_fold-keeps Inv end_x tiles_x (λ x acc. step (place y x) acc) (start_x + tx) acc
              some_x
              (λ x acc lt (le, res, c). (
                omega arith,
                residue-next start_x end_x tiles_x x le ∙ res,
                adds (row_count tx ty y x) _ y x acc c (λ i j.
                    ap (λ t. before_row i j + one_at y i * t)
                      (taken-next start_x end_x tiles_x tx x j some_x le res lt)
                    ∙ mul_add (before_row i j) (one_at y i) _ _),
              ))
              (
                omega arith,
                residue-first start_x end_x tiles_x tx htx,
                recount _ _ acc before (λ i j.
                    ap (λ t. before_row i j + one_at y i * t)
                      (taken-first start_x end_x tiles_x tx j htx)
                    ∙ omega arith),
              ) in
          recount _ _ _ c (λ i j.
            add_mul (taken start_y end_y tiles_y ty y i) (one_at y i) _
            ∙ ap (λ t. before_row i j + one_at y i * t)
                (sym (taken-last start_x end_x tiles_x tx x j past)))

      -- the loop nest
      pub tile_fold-Combined :
          (tx ty acc : ℕ)
          → tx < tiles_x
          → ty < tiles_y
          → Combined op unit f (λ i j. 0) acc
          → Combined op unit f (tile_count tx ty) (
              for_fold
                (start_y + ty)
                end_y
                tiles_y
                (λ y acc. for_fold (start_x + tx) end_x tiles_x (λ x acc. step (place y x) acc) acc)
                acc)
      tile_fold-Combined tx ty acc htx hty before =
          let Inv : ℕ → ℕ → Type 0 = λ y acc.
            (start_y ≤ y)
            × ((y - start_y) % tiles_y ≡ ty)
            × Combined op unit f
                (λ i j. taken start_y end_y tiles_y ty y i * taken_all start_x end_x tiles_x tx j)
                acc in
          let (y, past, (le, res, c)) =
            for_fold-keeps Inv end_y tiles_y
              (λ y acc. for_fold (start_x + tx) end_x tiles_x (λ x acc. step (place y x) acc) acc)
              (start_y + ty) acc some_y
              (λ y acc lt (le, res, c). (
                omega arith,
                residue-next start_y end_y tiles_y y le ∙ res,
                recount _ _ _ (row_fold-Combined tx ty y acc htx c) (λ i j.
                    ap (λ t. t * taken_all start_x end_x tiles_x tx j)
                      (taken-next start_y end_y tiles_y ty y i some_y le res lt)),
              ))
              (
                omega arith,
                residue-first start_y end_y tiles_y ty hty,
                recount _ _ acc before (λ i j.
                    ap (λ t. t * taken_all start_x end_x tiles_x tx j)
                      (taken-first start_y end_y tiles_y ty i hty)
                    ∙ omega arith),
              ) in
          recount _ _ _ c (λ i j.
            ap (λ t. t * taken_all start_x end_x tiles_x tx j)
              (sym (taken-last start_y end_y tiles_y ty y i past)))
