-- ===== src/Tests/Softmax.antt =====
-- Kernels/Softmax in a group of two tiles in a row, where a float is a natural number.
use mathlib.Core.List.Perm
use bsg_manycore.Prelude.{ℕ, ◌+◌, ◌-◌, ◌*◌, ◌/◌, ◌≤◌, ◌<◌, ◌≡◌, refl, arith, Bool, ltb}
use bsg_manycore.Kernels.{Array, Tile}
use bsg_manycore.Kernels.Stores.{perform}
use bsg_manycore.Kernels.Softmax.{
  max_by, partial_max, partial_sum, store_partial, store_column, store_row, exp_block, divide_block,
  subtract_block,
}
use bsg_manycore.Kernels.Softmax.Combined.{Combined}
use bsg_manycore.Kernels.Softmax.Reduction.{Reduction, phase}
use bsg_manycore.Kernels.Softmax.Maximum.{OrdersNumbers, IsMaximum}
use bsg_manycore.Kernels.Softmax.Results.{in_block, group}
use bsg_manycore.Kernels.Softmax.Outputs.{Summed, softmax-perform, log_softmax-perform}

abbrev one : 0 < 1
one = omega arith

abbrev two : 0 < 2
two = omega arith

abbrev Number : ℕ → Type 0
Number v = 0 ≤ v

abbrev gt : ℕ → ℕ → Bool
gt v w = ltb w v

order : OrdersNumbers Number gt 0
order = record {
  irreflexive = λ a _. ground arith;
  asymmetric = λ a b _ _ e. ground arith;
  transitive = λ a b c _ _ _ e e1. ground arith;
  least = omega arith;
}

abbrev ramp : Array
ramp i = 3 * i + 5

abbrev zeros : Array
zeros i = 0

-- the phases of a reduction, each in the order of the tiles
abbrev reduce :
    (op : ℕ → ℕ → ℕ) (partial : Tile → ℕ) (last : ℕ → ℕ) (agg : Array)
    → Reduction 2 1 1 1 0 0 op partial last agg
reduce op partial last agg =
    let wa = phase 2 1 1 1 0 0 (store_partial 2 1 op partial) in
    let partials = perform wa agg in
    let wb = phase 2 1 1 1 0 0 (store_column 2 1 op partial partials) in
    let columns = perform wb partials in
    let wc = phase 2 1 1 1 0 0 (store_row 2 1 op partial last partials columns) in
    record {
      partial_stores = wa;
      column_stores = wb;
      row_stores = wc;
      partials = partials;
      columns = columns;
      result = perform wc columns 0;
      after_partials = refl;
      after_columns = refl;
      loaded = refl;
      partial_phase = Perm.refl _;
      column_phase = Perm.refl _;
      row_phase = Perm.refl _;
    }

abbrev successor : ℕ → ℕ
successor v = v + 1

abbrev difference : ℕ → ℕ → ℕ
difference v w = v - w

abbrev total : ℕ → ℕ → ℕ
total v w = v + w

abbrev quotient : ℕ → ℕ → ℕ
quotient v w = v / w

-- a block of 2 by 2 in rows of 4
abbrev summed :
    (last : ℕ → ℕ)
    → Summed 2 1 1 1 two one 0 0 4 2 2 Number gt 0 order successor difference total ramp zeros zeros
        last
summed last =
    let maximum = reduce (max_by gt) (partial_max 2 1 4 2 2 gt 0 ramp) (λ v. v) zeros in
    let we =
      group 2 1 1 1 two one 0 0 4 2 2
        (exp_block 2 1 4 2 2 successor difference ramp maximum.result) in
    record {
      max_phases = maximum;
      exp_stores = we;
      exp_phase = Perm.refl _;
      sum_phases =
          reduce total (partial_sum 2 1 4 2 2 total (perform we zeros)) last
            (perform maximum.row_stores maximum.columns);
    }

abbrev softmax_state :
    Summed 2 1 1 1 two one 0 0 4 2 2 Number gt 0 order successor difference total ramp zeros zeros
      (λ v. v)
softmax_state = summed (λ v. v)

abbrev log_state :
    Summed 2 1 1 1 two one 0 0 4 2 2 Number gt 0 order successor difference total ramp zeros zeros
      successor
log_state = summed successor

abbrev after_exp : Array
after_exp = perform softmax_state.exp_stores zeros

softmax-perform_example :
    let m = softmax_state.max_phases.result in
    let sum = softmax_state.sum_phases.result in
    IsMaximum Number gt 0 order (λ i j. ramp (i * 4 + j)) (in_block 2 1 1 1 two one 0 0 4 2 2) m
    × Combined total 0
        (λ i j. successor (difference (ramp (i * 4 + j)) m))
        (in_block 2 1 1 1 two one 0 0 4 2 2)
        sum
    × (perform
          (group 2 1 1 1 two one 0 0 4 2 2 (divide_block 2 1 4 2 2 quotient after_exp sum))
          after_exp
          5
        ≡ quotient (successor (difference (ramp 5) m)) sum)
softmax-perform_example =
    softmax-perform 2 1 1 1 two one 0 0 4 2 2 Number gt 0 order successor difference total quotient
      ramp zeros zeros softmax_state _ 1 1 (omega arith) (λ y x _ _. omega arith) (Perm.refl _)
      (omega arith) (omega arith)

log_softmax-perform_example :
    let m = log_state.max_phases.result in
    (sum : ℕ) × IsMaximum Number gt 0 order
      (λ i j. ramp (i * 4 + j))
      (in_block 2 1 1 1 two one 0 0 4 2 2)
      m
    × Combined total 0
        (λ i j. successor (difference (ramp (i * 4 + j)) m))
        (in_block 2 1 1 1 two one 0 0 4 2 2)
        sum
    × (log_state.sum_phases.result ≡ successor sum)
    × (perform
          (group 2 1 1 1 two one 0 0 4 2 2
            (subtract_block 2 1 4 2 2 difference ramp log_state.sum_phases.result))
          (perform log_state.exp_stores zeros)
          5
        ≡ difference (ramp 5) (successor sum))
log_softmax-perform_example =
    log_softmax-perform 2 1 1 1 two one 0 0 4 2 2 Number gt 0 order successor difference total
      successor ramp zeros zeros log_state _ 1 1 (omega arith) (λ y x _ _. omega arith)
      (Perm.refl _) (omega arith) (omega arith)
