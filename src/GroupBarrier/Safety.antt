-- ===== src/GroupBarrier/Safety.antt =====
-- What bsg_tile_group_barrier promises in every reachable state.
use bsg_manycore.Prelude.{ℕ, ◌≤◌, arith}
use bsg_manycore.GroupBarrier.{Pc, outside, State, initial}
use bsg_manycore.GroupBarrier.Steps
use bsg_manycore.GroupBarrier.Defs.{Inv, inside}
use bsg_manycore.GroupBarrier.Steps.{InX, InY, Step, Reach}
use bsg_manycore.GroupBarrier.Rows.{
  call-Inv, poll_row-Inv, row_polled_all-Inv, clear_row_next-Inv, row_cleared-Inv,
  row_done_arrives-Inv,
}
use bsg_manycore.GroupBarrier.RowAlerts.{
  alert_row_next-Inv, row_alerted-Inv, alert_seen-Inv, leave-Inv, row_alert_arrives-Inv,
}
use bsg_manycore.GroupBarrier.Columns.{
  poll_col-Inv, gather-Inv, clear_col_next-Inv, col_cleared-Inv, col_done_arrives-Inv,
}
use bsg_manycore.GroupBarrier.ColumnAlerts.{
  alert_col_next-Inv, col_alerted-Inv, release_row-Inv, clear_col_alert-Inv, col_alert_arrives-Inv,
}

pub inside_le : (p : Pc) → inside p ≤ 1
inside_le outside = omega arith
inside_le p = omega arith

module _ (x_start x_end y_start y_end : ℕ) where
  initial-Inv : Inv x_start x_end y_start y_end initial
  initial-Inv = record {
    row_done = λ x y hx hy. omega arith;
    row_polled_by = λ i y. omega arith;
    col_done = λ y hy. omega arith;
    col_polled_by = λ i. omega arith;
    col_alert = λ y hy. omega arith;
    row_alert = λ x y hx hy. omega arith;
    account = λ x y. omega arith;
  }

  pub step-Inv :
      (s s' : State)
      → Inv x_start x_end y_start y_end s
      → Step x_start x_end y_start y_end s s'
      → Inv x_start x_end y_start y_end s'
  step-Inv s _ inv (Steps.Step.call x y hx hy e) =
      call-Inv x_start x_end y_start y_end s inv x y hx hy e
  step-Inv s _ inv (Steps.Step.poll_row y i hy e h) =
      poll_row-Inv x_start x_end y_start y_end s inv y i e
  step-Inv s _ inv (Steps.Step.row_polled_all y i hy e h) =
      row_polled_all-Inv x_start x_end y_start y_end s inv y i hy e h
  step-Inv s _ inv (Steps.Step.poll_col i e h) = poll_col-Inv x_start x_end y_start y_end s inv i e
  step-Inv s _ inv (Steps.Step.col_polled_all i e h) =
      gather-Inv x_start x_end y_start y_end s inv i e h
  step-Inv s _ inv (Steps.Step.alert_col_next i e h) =
      alert_col_next-Inv x_start x_end y_start y_end s inv i e
  step-Inv s _ inv (Steps.Step.col_alerted i e h) =
      col_alerted-Inv x_start x_end y_start y_end s inv i e
  step-Inv s _ inv (Steps.Step.clear_col_next i e h) =
      clear_col_next-Inv x_start x_end y_start y_end s inv i e
  step-Inv s _ inv (Steps.Step.col_cleared i e h) =
      col_cleared-Inv x_start x_end y_start y_end s inv i e h
  step-Inv s _ inv (Steps.Step.col_alert_seen y hy e h) =
      release_row-Inv x_start x_end y_start y_end s inv y e h
  step-Inv s _ inv (Steps.Step.alert_row_next y i hy e h) =
      alert_row_next-Inv x_start x_end y_start y_end s inv y i e
  step-Inv s _ inv (Steps.Step.row_alerted y i hy e h) =
      row_alerted-Inv x_start x_end y_start y_end s inv y i e
  step-Inv s _ inv (Steps.Step.clear_row_next y i hy e h) =
      clear_row_next-Inv x_start x_end y_start y_end s inv y i e
  step-Inv s _ inv (Steps.Step.row_cleared y i hy e h) =
      row_cleared-Inv x_start x_end y_start y_end s inv y i e h
  step-Inv s _ inv (Steps.Step.col_alert_cleared y hy e) =
      clear_col_alert-Inv x_start x_end y_start y_end s inv y e
  step-Inv s _ inv (Steps.Step.alert_seen x y hx hy e h) =
      alert_seen-Inv x_start x_end y_start y_end s inv x y e h
  step-Inv s _ inv (Steps.Step.leave x y hx hy e) =
      leave-Inv x_start x_end y_start y_end s inv x y e
  step-Inv s _ inv (Steps.Step.row_done_arrives i y h) =
      row_done_arrives-Inv x_start x_end y_start y_end s inv i y h
  step-Inv s _ inv (Steps.Step.col_done_arrives x i h) =
      col_done_arrives-Inv x_start x_end y_start y_end s inv x i h
  step-Inv s _ inv (Steps.Step.col_alert_arrives x y h) =
      col_alert_arrives-Inv x_start x_end y_start y_end s inv x y h
  step-Inv s _ inv (Steps.Step.row_alert_arrives x y h) =
      row_alert_arrives-Inv x_start x_end y_start y_end s inv x y h

  pub Reach-Inv :
      (s : State) → Reach x_start x_end y_start y_end s → Inv x_start x_end y_start y_end s
  Reach-Inv _ Steps.Reach.start = initial-Inv
  Reach-Inv _ (Steps.Reach.step s s' r d) = step-Inv s s' (Reach-Inv s r) d

  -- In every reachable state a tile of the group that has returned from bsg_tile_group_barrier n times
  -- finds that every tile of the group has called it at least n times, whatever the order in which the
  -- stores arrive.
  pub group_barrier_safe :
      (s : State)
      → Reach x_start x_end y_start y_end s
      → (x y x1 y1 : ℕ) → InX x_start x_end y_start y_end x
      → InY x_start x_end y_start y_end y
      → InX x_start x_end y_start y_end x1
      → InY x_start x_end y_start y_end y1
      → s.returns x y ≤ s.calls x1 y1
  group_barrier_safe s r x y x1 y1 hx hy hx1 hy1 =
      let inv = Reach-Inv s r in
      omega (
        arith,
        inv.row_alert x y hx hy,
        inv.col_alert y hy,
        inv.col_done y1 hy1,
        inv.row_done x1 y1 hx1 hy1,
      )
