-- ===== src/Kernels/Softmax/Totals.antt =====
-- What a reduction of Kernels/Softmax takes in: every element of the block once.
use bsg_manycore.Prelude.{ℕ, ◌+◌, ◌*◌, ◌≤◌, ◌<◌, ◌≡◌, ap, sym, ◌∙◌, arith, subst}
use bsg_manycore.Kernels.{Array, Tile}
use bsg_manycore.Kernels.Softmax.{column_total, row_total}
use bsg_manycore.Kernels.Softmax.Combined.{
  for_fold-keeps, Combined, taken_all, taken_by, within, taken_by-one, taken_by-next, taken_by-last,
}
use bsg_manycore.Kernels.Softmax.Combined
use bsg_manycore.Kernels.Softmax.Tiles.{recount, tile_count, add_mul, mul_sum}
use bsg_manycore.Kernels.Softmax.Reduction.{Reduction, at, partials_eq, columns_eq, result_eq}

module _ (tiles_x tiles_y grid_x grid_y group_x group_y : ℕ) (some_x : 0 < tiles_x)
    (some_y : 0 < tiles_y) (op : ℕ → ℕ → ℕ) (unit : ℕ) (f : ℕ → ℕ → ℕ)
    (start_y end_y start_x end_x : ℕ) (partial : Tile → ℕ)
    (parts : (x y : ℕ)
      → x < tiles_x
      → y < tiles_y
      → Combined op unit f
          (tile_count op unit f tiles_x tiles_y some_x some_y start_y end_y start_x end_x x y)
          (partial (at tiles_x tiles_y grid_x grid_y group_x group_y x y))) where
  -- the elements of the first `k` rows of tiles, in the columns of tile column x
  abbrev column_count : (k x : ℕ) → ℕ → ℕ → ℕ
  column_count k x i j = taken_by start_y end_y tiles_y k i * taken_all start_x end_x tiles_x x j

  column_total-Combined :
      (partials : Array) (x : ℕ)
      → x < tiles_x
      → ((y : ℕ)
          → y < tiles_y
          → partials (y * tiles_x + x)
            ≡ partial (at tiles_x tiles_y grid_x grid_y group_x group_y x y))
      → Combined op unit f
          (λ i j. within start_y end_y tiles_y i * taken_all start_x end_x tiles_x x j)
          (column_total tiles_x tiles_y op partial partials
            (at tiles_x tiles_y grid_x grid_y group_x group_y x 0))
  unfolding column_total
  column_total-Combined partials x hx same =
      let Inv : ℕ → ℕ → Type 0 =
        λ k acc. (k ≤ tiles_y) × Combined op unit f (column_count k x) acc in
      let (k, past, (le, c)) =
        for_fold-keeps Inv tiles_y 1 (λ y acc. op acc (partials (y * tiles_x + x))) 1
          (partial (at tiles_x tiles_y grid_x grid_y group_x group_y x 0)) (omega arith)
          (λ k acc lt (le, c). (
            omega arith,
            Combined.Combined.both (column_count (k + 1) x) (column_count k x)
                (tile_count op unit f tiles_x tiles_y some_x some_y start_y end_y start_x end_x x k)
                acc (partials (k * tiles_x + x)) c
                (subst (Combined op unit f _) (sym (same k lt)) (parts x k hx lt))
                (λ i j.
                  ap (λ t. t * taken_all start_x end_x tiles_x x j)
                    (taken_by-next start_y end_y tiles_y k i)
                  ∙ add_mul _ _ _),
          ))
          (
            omega arith,
            recount op unit f _ _ _ (parts x 0 hx some_y) (λ i j.
                ap (λ t. t * taken_all start_x end_x tiles_x x j)
                  (taken_by-one start_y end_y tiles_y i)),
          ) in
      let all : k ≡ tiles_y = omega arith in
      recount op unit f _ _ _ c (λ i j.
        ap (λ t. t * taken_all start_x end_x tiles_x x j)
          (sym (taken_by-last start_y end_y tiles_y i some_y)
            ∙ ap (λ k. taken_by start_y end_y tiles_y k i) (sym all)))

  row_total-Combined :
      (partials columns : Array)
      → ((x y : ℕ)
          → x < tiles_x
          → y < tiles_y
          → partials (y * tiles_x + x)
            ≡ partial (at tiles_x tiles_y grid_x grid_y group_x group_y x y))
      → ((x : ℕ)
          → x < tiles_x
          → columns x
            ≡ column_total tiles_x tiles_y op partial partials
                (at tiles_x tiles_y grid_x grid_y group_x group_y x 0))
      → Combined op unit f
          (λ i j. within start_y end_y tiles_y i * within start_x end_x tiles_x j)
          (row_total tiles_x tiles_y op partial partials columns
            (at tiles_x tiles_y grid_x grid_y group_x group_y 0 0))
  unfolding row_total
  row_total-Combined partials columns same sums =
      let column : (x : ℕ)
          → x < tiles_x
          → Combined op unit f
              (λ i j. within start_y end_y tiles_y i * taken_all start_x end_x tiles_x x j)
              (column_total tiles_x tiles_y op partial partials
                (at tiles_x tiles_y grid_x grid_y group_x group_y x 0)) =
        λ x hx. column_total-Combined partials x hx (λ y. same x y hx) in
      let row_count : ℕ → ℕ → ℕ → ℕ =
        λ k i j. within start_y end_y tiles_y i * taken_by start_x end_x tiles_x k j in
      let Inv : ℕ → ℕ → Type 0 = λ k acc. (k ≤ tiles_x) × Combined op unit f (row_count k) acc in
      let (k, past, (le, c)) =
        for_fold-keeps Inv tiles_x 1 (λ x acc. op acc (columns x)) 1
          (column_total tiles_x tiles_y op partial partials
            (at tiles_x tiles_y grid_x grid_y group_x group_y 0 0))
          (omega arith)
          (λ k acc lt (le, c). (
            omega arith,
            Combined.Combined.both (row_count (k + 1)) (row_count k)
                (λ i j. within start_y end_y tiles_y i * taken_all start_x end_x tiles_x k j) acc
                (columns k) c (subst (Combined op unit f _) (sym (sums k lt)) (column k lt))
                (λ i j.
                  ap (λ t. within start_y end_y tiles_y i * t)
                    (taken_by-next start_x end_x tiles_x k j)
                  ∙ mul_sum _ _ _),
          ))
          (
            omega arith,
            recount op unit f _ _ _ (column 0 some_x) (λ i j.
                ap (λ t. within start_y end_y tiles_y i * t)
                  (taken_by-one start_x end_x tiles_x j)),
          ) in
      let all : k ≡ tiles_x = omega arith in
      recount op unit f _ _ _ c (λ i j.
        ap (λ t. within start_y end_y tiles_y i * t)
          (sym (taken_by-last start_x end_x tiles_x j some_x)
            ∙ ap (λ k. taken_by start_x end_x tiles_x k j) (sym all)))

  -- The result of a reduction is made of every element of the block, each taken in once.
  pub reduction-Combined :
      (last : ℕ → ℕ) (agg : Array)
      (r : Reduction tiles_x tiles_y grid_x grid_y group_x group_y op partial last agg)
      → (v : ℕ) × (r.result ≡ last v)
        × Combined op unit f
            (λ i j. within start_y end_y tiles_y i * within start_x end_x tiles_x j)
            v
  reduction-Combined last agg r = (
    _,
    result_eq tiles_x tiles_y grid_x grid_y group_x group_y op partial last agg r some_x some_y,
    row_total-Combined r.partials r.columns
        (partials_eq tiles_x tiles_y grid_x grid_y group_x group_y op partial last agg r)
        (λ x hx.
          columns_eq tiles_x tiles_y grid_x grid_y group_x group_y op partial last agg r x hx
            some_y),
  )
