-- ===== src/Kernels/Softmax/Outputs.antt =====
-- kernel_softmax and kernel_log_softmax of software/spmd/bsg_cuda_lite_runtime, in one tile group.
use mathlib.Core.List.{Perm}
use bsg_manycore.Prelude.{
  ℕ, ◌+◌, ◌-◌, ◌*◌, ◌≤◌, ◌<◌, ◌≡◌, ap, ap₂, sym, ◌∙◌, arith, Bool, List, subst,
}
use bsg_manycore.Kernels.{Array, Store}
use bsg_manycore.Kernels.Stores.{perform}
use bsg_manycore.Kernels.Softmax.{
  max_by, partial_max, partial_sum, exp_block, divide_block, subtract_block,
}
use bsg_manycore.Kernels.Softmax.Combined.{Combined, within}
use bsg_manycore.Kernels.Softmax.Reduction.{Reduction}
use bsg_manycore.Kernels.Softmax.Maximum.{OrdersNumbers, IsMaximum, Combined-IsMaximum}
use bsg_manycore.Kernels.Softmax.Results.{
  Combined-eq, place, in_block, group, tile_stores-perform, max-Combined, sum-Combined,
}

both_within :
    (start_y end_y stride_y start_x end_x stride_x i j : ℕ)
    → 0 < within start_y end_y stride_y i * within start_x end_x stride_x j
    → (start_y ≤ i) × (i < end_y) × (start_x ≤ j) × (j < end_x)
both_within start_y end_y stride_y start_x end_x stride_x i j some =
    (grind arith, grind arith, grind arith, grind arith)

module _ (tiles_x tiles_y grid_x grid_y : ℕ) (some_x : 0 < tiles_x) (some_y : 0 < tiles_y)
    (group_x group_y N block_size_y block_size_x : ℕ) (number : ℕ → Type 0) (gt : ℕ → ℕ → Bool)
    (minus_infinity : ℕ) (order : OrdersNumbers number gt minus_infinity) (expf : ℕ → ℕ)
    (minus plus : ℕ → ℕ → ℕ) where
  abbrev at_place : (y x : ℕ) → ℕ
  at_place =
      place tiles_x tiles_y grid_x grid_y some_x some_y group_x group_y N block_size_y block_size_x

  abbrev block : (i j : ℕ) → ℕ
  block =
      in_block tiles_x tiles_y grid_x grid_y some_x some_y group_x group_y N block_size_y
        block_size_x

  -- The phases up to the sum: the maximum is computed, its exponentials are stored, and summed up.
  pub record Summed (A B agg : Array) (last : ℕ → ℕ) : Type 0 where
    pub max_phases :
        Reduction tiles_x tiles_y grid_x grid_y group_x group_y
          (max_by gt)
          (partial_max tiles_x tiles_y N block_size_y block_size_x gt minus_infinity A)
          (λ v. v)
          agg
    pub exp_stores : List Store
    pub exp_phase : Perm exp_stores (
        group tiles_x tiles_y grid_x grid_y some_x some_y group_x group_y N block_size_y
          block_size_x
          (exp_block tiles_x tiles_y N block_size_y block_size_x expf minus A max_phases.result))
    pub sum_phases :
        Reduction tiles_x tiles_y grid_x grid_y group_x group_y plus
          (partial_sum tiles_x tiles_y N block_size_y block_size_x plus (perform exp_stores B))
          last
          (perform max_phases.row_stores max_phases.columns)

  module _ (A B agg : Array) (last : ℕ → ℕ) (s : Summed A B agg last) where
    abbrev m : ℕ
    m = s.max_phases.result

    abbrev exponentials : ℕ → ℕ
    exponentials q = expf (minus (A q) m)

    -- an element of the block by its place there
    block-place :
        (i j : ℕ)
        → 0 < block i j
        → (y : ℕ) × (x : ℕ) × (y < block_size_y) × (x < block_size_x) × (at_place y x ≡ i * N + j)
    block-place i j some =
        let start_y = group_y * block_size_y in
        let start_x = group_x * block_size_x in
        let (ly, uy, lx, ux) =
          both_within start_y (start_y + block_size_y) tiles_y start_x (start_x + block_size_x)
            tiles_x i j some in
        (
          i - start_y,
          j - start_x,
          omega arith,
          omega arith,
          ap₂ (λ a b. a * N + b) (omega arith) (omega arith),
        )

    exp_stored :
        (y x : ℕ)
        → y < block_size_y
        → x < block_size_x
        → perform s.exp_stores B (at_place y x) ≡ exponentials (at_place y x)
    unfolding exp_block
    exp_stored y x hy hx =
        tile_stores-perform tiles_x tiles_y grid_x grid_y some_x some_y group_x group_y N
          block_size_y block_size_x exponentials s.exp_stores B y x s.exp_phase hy hx

    -- the maximum
    max_found :
        ((y x : ℕ) → y < block_size_y → x < block_size_x → number (A (at_place y x)))
        → IsMaximum number gt minus_infinity order (λ i j. A (i * N + j)) block m
    max_found numbers =
        Combined-IsMaximum number gt minus_infinity order (λ i j. A (i * N + j)) block m
          (λ i j some.
            let (y, x, hy, hx, e) = block-place i j some in
            subst (λ q. number (A q)) e (numbers y x hy hx))
          (max-Combined tiles_x tiles_y grid_x grid_y some_x some_y group_x group_y N block_size_y
            block_size_x gt minus_infinity A agg s.max_phases)

    -- the sum, before `last`
    sum_found :
        (v : ℕ) × (s.sum_phases.result ≡ last v)
        × Combined plus 0 (λ i j. exponentials (i * N + j)) block v
    sum_found =
        let (v, e, c) =
          sum-Combined tiles_x tiles_y grid_x grid_y some_x some_y group_x group_y N block_size_y
            block_size_x plus (perform s.exp_stores B)
            (perform s.max_phases.row_stores s.max_phases.columns) last s.sum_phases in
        (
          v,
          e,
          Combined-eq plus 0 _ _ block v c (λ i j some.
              let (y, x, hy, hx, e) = block-place i j some in
              ap (perform s.exp_stores B) (sym e) ∙ exp_stored y x hy hx ∙ ap exponentials e),
        )

  -- In a group of at least one tile, with the columns of the block within the matrix and no NaN in the
  -- block, in any order of the stores within each phase, kernel_softmax finds a maximum m of the block
  -- and the sum of expf(A - m) over the elements of the block, each once, in some order and grouping.
  -- It leaves in each element of the block expf(A - m) divided by this sum.
  pub softmax-perform :
      (divide : ℕ → ℕ → ℕ) (A B agg : Array) (s : Summed A B agg (λ v. v)) (ws : List Store)
      (y x : ℕ)
      → group_x * block_size_x + block_size_x ≤ N
      → ((y x : ℕ) → y < block_size_y → x < block_size_x → number (A (at_place y x)))
      → Perm ws (
          group tiles_x tiles_y grid_x grid_y some_x some_y group_x group_y N block_size_y
            block_size_x
            (divide_block tiles_x tiles_y N block_size_y block_size_x divide
              (perform s.exp_stores B)
              s.sum_phases.result))
      → y < block_size_y
      → x < block_size_x
      → let m = s.max_phases.result in
        let sum = s.sum_phases.result in
        IsMaximum number gt minus_infinity order (λ i j. A (i * N + j)) block m
        × Combined plus 0 (λ i j. expf (minus (A (i * N + j)) m)) block sum
        × (perform ws (perform s.exp_stores B) (at_place y x)
            ≡ divide (expf (minus (A (at_place y x)) m)) sum)
  unfolding divide_block
  softmax-perform divide A B agg s ws y x fits numbers p hy hx =
      let (sum, e, c) = sum_found A B agg (λ v. v) s in
      let value : ℕ → ℕ = λ q. divide (perform s.exp_stores B q) s.sum_phases.result in
      (
        max_found A B agg (λ v. v) s numbers,
        subst (Combined plus 0 _ block) (sym e) c,
        tile_stores-perform tiles_x tiles_y grid_x grid_y some_x some_y group_x group_y N
              block_size_y block_size_x value ws (perform s.exp_stores B) y x p hy hx
            ∙ ap (λ t. divide t s.sum_phases.result) (exp_stored A B agg (λ v. v) s y x hy hx),
      )

  -- Under the same conditions, with m and the sum of expf(A - m) found in the same way,
  -- kernel_log_softmax leaves in each element of the block A minus the logf of this sum: it does not
  -- subtract m.
  pub log_softmax-perform :
      (logf : ℕ → ℕ) (A B agg : Array) (s : Summed A B agg logf) (ws : List Store) (y x : ℕ)
      → group_x * block_size_x + block_size_x ≤ N
      → ((y x : ℕ) → y < block_size_y → x < block_size_x → number (A (at_place y x)))
      → Perm ws (
          group tiles_x tiles_y grid_x grid_y some_x some_y group_x group_y N block_size_y
            block_size_x
            (subtract_block tiles_x tiles_y N block_size_y block_size_x minus A
              s.sum_phases.result))
      → y < block_size_y
      → x < block_size_x
      → let m = s.max_phases.result in
        (sum : ℕ) × IsMaximum number gt minus_infinity order (λ i j. A (i * N + j)) block m
        × Combined plus 0 (λ i j. expf (minus (A (i * N + j)) m)) block sum
        × (s.sum_phases.result ≡ logf sum)
        × (perform ws (perform s.exp_stores B) (at_place y x) ≡ minus (A (at_place y x)) (logf sum))
  unfolding subtract_block
  log_softmax-perform logf A B agg s ws y x fits numbers p hy hx =
      let (sum, e, c) = sum_found A B agg logf s in
      let value : ℕ → ℕ = λ q. minus (A q) s.sum_phases.result in
      (
        sum,
        max_found A B agg logf s numbers,
        c,
        e,
        tile_stores-perform tiles_x tiles_y grid_x grid_y some_x some_y group_x group_y N
              block_size_y block_size_x value ws (perform s.exp_stores B) y x p hy hx
            ∙ ap (minus (A (at_place y x))) e,
      )
