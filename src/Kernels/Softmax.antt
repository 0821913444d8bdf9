-- ===== src/Kernels/Softmax.antt =====
-- kernel_softmax.c and kernel_log_softmax.c of software/spmd/bsg_cuda_lite_runtime, in one tile group: in
-- phases between barriers, the tiles reduce the elements of a block to one value through the shared
-- array agg, and store the results in DRAM. A float is its word, and the operations on floats are
-- arguments. In a phase no tile loads what another stores.
pub mod Combined
pub mod Tiles
pub mod Reduction
pub mod Totals
pub mod Maximum
pub mod Results
pub mod Outputs
use bsg_manycore.Prelude.{
  ℕ, zero, suc, ◌+◌, ◌-◌, ◌*◌, Bool, List, [], ◌∷◌, ltb, ◌==◌, ◌&&◌, if◌then◌else◌,
}
use bsg_manycore.Kernels.{Array, Store, Tile, for_strided}

-- `for (iter = i; iter < stop; iter += stride) acc = body(iter, acc)`, in at most `fuel` rounds
unfoldable pub fold_step : (fuel i stop stride : ℕ) → (ℕ → ℕ → ℕ) → ℕ → ℕ
fold_step zero i stop stride body acc = acc
fold_step (suc fuel) i stop stride body acc =
    let rest = fold_step fuel (i + stride) stop stride body (body i acc) in
    if ltb i stop then rest else acc

-- With a stride above 0 the loop has no more rounds than there are indices below `stop`.
unfoldable pub for_fold : (i stop stride : ℕ) → (ℕ → ℕ → ℕ) → ℕ → ℕ
unfolding fold_step
for_fold i stop stride body acc = fold_step (stop - i) i stop stride body acc

-- the macro max, by the comparison of floats
abbrev pub max_by : (gt : ℕ → ℕ → Bool) → ℕ → ℕ → ℕ
max_by gt x y = if gt x y then x else y

module _ (tiles_x tiles_y N block_size_y block_size_x : ℕ) where
  -- the loops over the elements of the tile; `step` is what they do at an index
  unfoldable pub tile_fold : (step : ℕ → ℕ → ℕ) → ℕ → Tile → ℕ
  unfolding for_fold
  tile_fold step acc t =
      let start_y = t.tile_group_id_y * block_size_y in
      let start_x = t.tile_group_id_x * block_size_x in
      let end_y = start_y + block_size_y in
      let end_x = start_x + block_size_x in
      for_fold (start_y + t.bsg_y) end_y tiles_y
        (λ y acc. for_fold (start_x + t.bsg_x) end_x tiles_x (λ x acc. step (y * N + x) acc) acc)
        acc

  unfoldable pub partial_max : (gt : ℕ → ℕ → Bool) (minus_infinity : ℕ) (A : Array) → Tile → ℕ
  unfolding tile_fold
  partial_max gt minus_infinity A = tile_fold (λ q partial. max_by gt (A q) partial) minus_infinity

  -- the float 0 is the word 0
  unfoldable pub partial_sum : (plus : ℕ → ℕ → ℕ) (B : Array) → Tile → ℕ
  unfolding tile_fold
  partial_sum plus B = tile_fold (λ q partial. plus partial (B q)) 0

  -- the loops that store to B; `value` is what they store at an index
  abbrev pub tile_stores : (value : ℕ → ℕ) → Tile → List Store
  tile_stores value t =
      let start_y = t.tile_group_id_y * block_size_y in
      let start_x = t.tile_group_id_x * block_size_x in
      let end_y = start_y + block_size_y in
      let end_x = start_x + block_size_x in
      for_strided (start_y + t.bsg_y) end_y tiles_y (λ y.
        for_strided (start_x + t.bsg_x) end_x tiles_x (λ x. (y * N + x, value (y * N + x)) ∷ []))

  unfoldable pub exp_block :
      (expf : ℕ → ℕ) (minus : ℕ → ℕ → ℕ) (A : Array) (m : ℕ) → Tile → List Store
  exp_block expf minus A m = tile_stores (λ q. expf (minus (A q) m))

  -- A tile loads an element of B only where it stores it.
  unfoldable pub divide_block : (divide : ℕ → ℕ → ℕ) (B : Array) (sum : ℕ) → Tile → List Store
  divide_block divide B sum = tile_stores (λ q. divide (B q) sum)

  unfoldable pub subtract_block : (minus : ℕ → ℕ → ℕ) (A : Array) (sum : ℕ) → Tile → List Store
  subtract_block minus A sum = tile_stores (λ q. minus (A q) sum)

-- The reduction through agg, by max or by `+`. `partial` is the variable partial_max, or partial_sum,
-- of each tile.
module _ (tiles_x tiles_y : ℕ) (op : ℕ → ℕ → ℕ) (partial : Tile → ℕ) where
  unfoldable pub store_partial : Tile → List Store
  store_partial t = (t.bsg_y * tiles_x + t.bsg_x, partial t) ∷ []

  -- the variable after the loop over the column
  unfoldable pub column_total : (agg : Array) → Tile → ℕ
  unfolding for_fold
  column_total agg t =
      for_fold 1 tiles_y 1 (λ y acc. op acc (agg (y * tiles_x + t.bsg_x))) (partial t)

  unfoldable pub store_column : (agg : Array) → Tile → List Store
  unfolding column_total
  store_column agg t = if t.bsg_y == 0 then (t.bsg_x, column_total agg t) ∷ [] else []

  -- the variable after the loop over row 0; `column_agg` is agg in the phase before
  unfoldable pub row_total : (column_agg agg : Array) → Tile → ℕ
  unfolding for_fold column_total
  row_total column_agg agg t =
      for_fold 1 tiles_x 1 (λ x acc. op acc (agg x)) (column_total column_agg t)

  -- `last` is logf for the sum of kernel_log_softmax
  unfoldable pub store_row : (last : ℕ → ℕ) (column_agg agg : Array) → Tile → List Store
  unfolding row_total
  store_row last column_agg agg t =
      if (t.bsg_y == 0) && (t.bsg_x == 0) then (0, last (row_total column_agg agg t)) ∷ [] else []
