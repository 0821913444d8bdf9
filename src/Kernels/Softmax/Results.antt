-- ===== src/Kernels/Softmax/Results.antt =====
-- The phases of Kernels/Softmax in one tile group, each in any order of its stores.
use mathlib.Core.List.{Perm}
use bsg_manycore.Prelude.{
  ℕ, zero, suc, ◌+◌, ◌-◌, ◌*◌, ◌<◌, ◌≡◌, refl, ap, ap₂, sym, ◌∙◌, arith, Bool, List, [], ◌++◌, ltb,
  if◌then◌else◌, fun_ext, subst,
}
use bsg_manycore.Kernels.{Array, Store, Tile, for_step, for_strided}
use bsg_manycore.Kernels.Stores.{perform}
use bsg_manycore.Kernels.Group.{plane-perform}
use bsg_manycore.Kernels.Softmax.{max_by, tile_fold, partial_max, partial_sum, tile_stores}
use bsg_manycore.Kernels.Softmax.Combined
use bsg_manycore.Kernels.Softmax.Combined.{Combined, within}
use bsg_manycore.Kernels.Softmax.Tiles.{Adds, tile_fold-Combined}
use bsg_manycore.Kernels.Softmax.Reduction.{Reduction, phase}
use bsg_manycore.Kernels.Softmax.Totals.{reduction-Combined}

-- A loop from `s + i` is one from `i`.
for_step-shift :
    (s fuel i stop stride : ℕ) (body : ℕ → List Store)
    → for_step fuel (s + i) (s + stop) stride body ≡ for_step fuel i stop stride (λ j. body (s + j))
unfolding for_step
for_step-shift s zero i stop stride body = refl
for_step-shift s (suc fuel) i stop stride body =
    let below : ltb (s + i) (s + stop) ≡ ltb i stop = ground arith in
    let rest =
      ap (λ k. for_step fuel k (s + stop) stride body) {x = s + i + stride} (omega arith)
      ∙ for_step-shift s fuel (i + stride) stop stride body in
    ap₂ (λ b l. if b then body (s + i) ++ l else []) below rest

for_strided-shift :
    (s i stop stride : ℕ) (body : ℕ → List Store)
    → for_strided (s + i) (s + stop) stride body ≡ for_strided i stop stride (λ j. body (s + j))
unfolding for_strided
for_strided-shift s i stop stride body =
    ap (λ n. for_step n (s + i) (s + stop) stride body) {y = stop - i} (omega arith)
    ∙ for_step-shift s (stop - i) i stop stride body

-- The elements may be given by any function that agrees on those that are taken in.
pub Combined-eq :
    (op : ℕ → ℕ → ℕ) (unit : ℕ) (f g count : ℕ → ℕ → ℕ) (v : ℕ)
    → Combined op unit f count v
    → ((y x : ℕ) → 0 < count y x → f y x ≡ g y x)
    → Combined op unit g count v
Combined-eq op unit f g count _ (Combined.Combined.nothing _ h) e =
    Combined.Combined.nothing count h
Combined-eq op unit f g count _ (Combined.Combined.element _ y x h) e =
    subst (Combined op unit g count) (sym (e y x (ground (arith, h y x))))
      (Combined.Combined.element count y x h)
Combined-eq op unit f g count _ (Combined.Combined.both _ l r a b p q h) e =
    Combined.Combined.both count l r a b
      (Combined-eq op unit f g l a p (λ y x some. e y x (omega (arith, h y x))))
      (Combined-eq op unit f g r b q (λ y x some. e y x (omega (arith, h y x)))) h

module _ (tiles_x tiles_y grid_x grid_y : ℕ) (some_x : 0 < tiles_x) (some_y : 0 < tiles_y)
    (group_x group_y N block_size_y block_size_x : ℕ) where
  -- row y and column x of the block
  abbrev pub place : (y x : ℕ) → ℕ
  place y x = (group_y * block_size_y + y) * N + (group_x * block_size_x + x)

  -- 1 for the elements of the block, by their row and column in the matrix
  abbrev pub in_block : (i j : ℕ) → ℕ
  in_block i j =
      within (group_y * block_size_y) (group_y * block_size_y + block_size_y) tiles_y i
      * within (group_x * block_size_x) (group_x * block_size_x + block_size_x) tiles_x j

  abbrev pub group : (Tile → List Store) → List Store
  group = phase tiles_x tiles_y grid_x grid_y group_x group_y

  -- A phase that stores to B leaves the value of each index.
  pub tile_stores-perform :
      (value : ℕ → ℕ) (ws : List Store) (B : Array) (y x : ℕ)
      → Perm ws (group (tile_stores tiles_x tiles_y N block_size_y block_size_x value))
      → y < block_size_y
      → x < block_size_x
      → perform ws B (place y x) ≡ value (place y x)
  tile_stores-perform value ws B y x p hy hx =
      plane-perform tiles_x tiles_y grid_x grid_y some_x some_y group_x group_y block_size_y
        block_size_x place (λ y x. value (place y x)) value (λ y x hy hx. refl) _
        (λ tx ty.
          for_strided-shift (group_y * block_size_y) ty block_size_y tiles_y _
          ∙ ap (for_strided ty block_size_y tiles_y)
              (fun_ext (λ y. for_strided-shift (group_x * block_size_x) tx block_size_x tiles_x _)))
        ws B y x p hy hx

  -- The variable of each tile takes in the elements of the tile, and the result all of the block.
  fold-Combined :
      (op : ℕ → ℕ → ℕ) (unit : ℕ) (A : Array) (step : ℕ → ℕ → ℕ) (last : ℕ → ℕ) (agg : Array)
      → Adds op unit (λ i j. A (i * N + j)) (λ i j. i * N + j) step
      → (r : Reduction tiles_x tiles_y grid_x grid_y group_x group_y op
          (tile_fold tiles_x tiles_y N block_size_y block_size_x step unit)
          last
          agg)
      → (v : ℕ) × (r.result ≡ last v) × Combined op unit (λ i j. A (i * N + j)) in_block v
  unfolding tile_fold
  fold-Combined op unit A step last agg adds r =
      let start_y = group_y * block_size_y in
      let start_x = group_x * block_size_x in
      reduction-Combined tiles_x tiles_y grid_x grid_y group_x group_y some_x some_y op unit
        (λ i j. A (i * N + j)) start_y (start_y + block_size_y) start_x (start_x + block_size_x) _
        (λ x y hx hy.
          tile_fold-Combined op unit (λ i j. A (i * N + j)) tiles_x tiles_y some_x some_y start_y
            (start_y + block_size_y) start_x (start_x + block_size_x) (λ i j. i * N + j) step adds x
            y unit hx hy (Combined.Combined.nothing (λ i j. 0) (λ i j. refl)))
        last agg r

  pub max-Combined :
      (gt : ℕ → ℕ → Bool) (minus_infinity : ℕ) (A agg : Array)
      → (r : Reduction tiles_x tiles_y grid_x grid_y group_x group_y
          (max_by gt)
          (partial_max tiles_x tiles_y N block_size_y block_size_x gt minus_infinity A)
          (λ v. v)
          agg)
      → Combined (max_by gt) minus_infinity (λ i j. A (i * N + j)) in_block r.result
  unfolding partial_max
  max-Combined gt minus_infinity A agg r =
      let (v, e, c) =
        fold-Combined (max_by gt) minus_infinity A (λ q partial. max_by gt (A q) partial) (λ v. v)
          agg
          (λ count c y x acc before h.
            Combined.Combined.both c _ count (A (y * N + x)) acc
              (Combined.Combined.element _ y x (λ i j. refl)) before (λ i j. h i j ∙ omega arith))
          r in
      subst (Combined (max_by gt) minus_infinity (λ i j. A (i * N + j)) in_block) (sym e) c

  pub sum-Combined :
      (plus : ℕ → ℕ → ℕ) (B agg : Array) (last : ℕ → ℕ)
      → (r : Reduction tiles_x tiles_y grid_x grid_y group_x group_y plus
          (partial_sum tiles_x tiles_y N block_size_y block_size_x plus B)
          last
          agg)
      → (v : ℕ) × (r.result ≡ last v) × Combined plus 0 (λ i j. B (i * N + j)) in_block v
  unfolding partial_sum
  sum-Combined plus B agg last r =
      fold-Combined plus 0 B (λ q partial. plus partial (B q)) last agg
        (λ count c y x acc before h.
          Combined.Combined.both c count _ acc (B (y * N + x)) before
            (Combined.Combined.element _ y x (λ i j. refl)) h)
        r
