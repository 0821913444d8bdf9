-- ===== src/GroupBarrier/Columns.antt =====
-- The arrivals of the rows at the center of the group keep the invariant of GroupBarrier.
use bsg_manycore.Prelude.{ℕ, ◌+◌, ◌-◌, ◌<◌, ◌≡◌, ap, arith}
use bsg_manycore.GroupBarrier.{
  polling_col, alerting_col, clearing_col, waiting_col, State, move, with_words, arrive, poll_entry,
  gather, clear_col_done,
}
use bsg_manycore.GroupBarrier.Defs.{col_live, col_polled, col_unsent, col_alert_live, Inv}
use bsg_manycore.GroupBarrier.Steps.{cx, cy, last_y}
use bsg_manycore.GroupBarrier.Hops.{
  RowDone-move, RowPolled-move, ColDone-move, ColPolled-move, ColAlert-move, RowAlert-move,
  Account-move,
}

module _ (x_start x_end y_start y_end : ℕ) (s : State)
    (inv : Inv x_start x_end y_start y_end s) where
  abbrev mid_x : ℕ
  mid_x = cx x_start x_end y_start y_end

  abbrev mid_y : ℕ
  mid_y = cy x_start x_end y_start y_end

  pub poll_col-Inv :
      (i : ℕ)
      → s.pc mid_x mid_y ≡ polling_col i
      → Inv x_start x_end y_start y_end
          (move s mid_x mid_y (polling_col (poll_entry (s.col_done.value mid_x i) i)))
  poll_col-Inv i e = record {
    row_done =
        RowDone-move x_start x_end y_start y_end s mid_x mid_y (polling_col i)
          (polling_col (poll_entry (s.col_done.value mid_x i) i)) e (λ i v. ground arith)
          inv.row_done;
    row_polled_by =
        RowPolled-move x_start x_end y_start y_end s mid_x mid_y (polling_col i)
          (polling_col (poll_entry (s.col_done.value mid_x i) i)) e (λ i. ground arith)
          inv.row_polled_by;
    col_done =
        ColDone-move x_start x_end y_start y_end s mid_x mid_y (polling_col i)
          (polling_col (poll_entry (s.col_done.value mid_x i) i)) e (λ i v. ground arith)
          inv.col_done;
    col_polled_by =
        λ i1. let h = inv.col_polled_by i1 in let e0 = ap (λ p. col_polled p i1) e in grind arith;
    col_alert =
        ColAlert-move x_start x_end y_start y_end s mid_x mid_y (polling_col i)
          (polling_col (poll_entry (s.col_done.value mid_x i) i)) e (λ v. ground arith)
          (λ y. ground arith) inv.col_alert;
    row_alert =
        RowAlert-move x_start x_end y_start y_end s mid_x mid_y (polling_col i)
          (polling_col (poll_entry (s.col_done.value mid_x i) i)) e (λ v. ground arith)
          (λ x. ground arith) inv.row_alert;
    account =
        Account-move x_start x_end y_start y_end s mid_x mid_y (polling_col i)
          (polling_col (poll_entry (s.col_done.value mid_x i) i)) e (ground arith) inv.account;
  }

  pub gather-Inv :
      (i : ℕ)
      → s.pc mid_x mid_y ≡ polling_col i
      → last_y x_start x_end y_start y_end < i
      → Inv x_start x_end y_start y_end (gather x_start x_end y_start y_end s)
  gather-Inv i e all = record {
    row_done =
        RowDone-move x_start x_end y_start y_end s mid_x mid_y (polling_col i)
          (alerting_col y_start) e (λ i v. ground arith) inv.row_done;
    row_polled_by =
        RowPolled-move x_start x_end y_start y_end s mid_x mid_y (polling_col i)
          (alerting_col y_start) e (λ i. ground arith) inv.row_polled_by;
    col_done = λ y1 hy1.
        let h = inv.col_done y1 hy1 in
        let e0 = ap (λ p. col_live p (y1 - y_start) (s.col_done.value mid_x (y1 - y_start))) e in
        let polled = inv.col_polled_by (y1 - y_start) in
        let e9 = ap (λ p. col_polled p (y1 - y_start)) e in grind arith;
    col_polled_by =
        ColPolled-move x_start x_end y_start y_end s mid_x mid_y (polling_col i)
          (alerting_col y_start) e (λ i. ground arith) inv.col_polled_by;
    col_alert = λ y1 hy1.
        let h = inv.col_alert y1 hy1 in
        let e0 = ap (λ p. col_alert_live p (s.col_alert.value mid_x y1)) e in
        let e1 = ap (λ p. col_unsent p y1) e in grind arith;
    row_alert =
        RowAlert-move x_start x_end y_start y_end s mid_x mid_y (polling_col i)
          (alerting_col y_start) e (λ v. ground arith) (λ x. ground arith) inv.row_alert;
    account =
        Account-move x_start x_end y_start y_end s mid_x mid_y (polling_col i)
          (alerting_col y_start) e (ground arith) inv.account;
  }

  pub clear_col_next-Inv :
      (i : ℕ)
      → s.pc mid_x mid_y ≡ clearing_col i
      → Inv x_start x_end y_start y_end (clear_col_done x_start x_end y_start y_end s i)
  clear_col_next-Inv i e = record {
    row_done =
        RowDone-move x_start x_end y_start y_end s mid_x mid_y (clearing_col i)
          (clearing_col (i + 1)) e (λ i v. ground arith) inv.row_done;
    row_polled_by =
        RowPolled-move x_start x_end y_start y_end s mid_x mid_y (clearing_col i)
          (clearing_col (i + 1)) e (λ i. ground arith) inv.row_polled_by;
    col_done = λ y1 hy1.
        let h = inv.col_done y1 hy1 in
        let e0 = ap (λ p. col_live p (y1 - y_start) (s.col_done.value mid_x (y1 - y_start))) e in
        grind arith;
    col_polled_by =
        λ i1. let h = inv.col_polled_by i1 in let e0 = ap (λ p. col_polled p i1) e in grind arith;
    col_alert =
        ColAlert-move x_start x_end y_start y_end s mid_x mid_y (clearing_col i)
          (clearing_col (i + 1)) e (λ v. ground arith) (λ y. ground arith) inv.col_alert;
    row_alert =
        RowAlert-move x_start x_end y_start y_end s mid_x mid_y (clearing_col i)
          (clearing_col (i + 1)) e (λ v. ground arith) (λ x. ground arith) inv.row_alert;
    account =
        Account-move x_start x_end y_start y_end s mid_x mid_y (clearing_col i)
          (clearing_col (i + 1)) e (ground arith) inv.account;
  }

  pub col_cleared-Inv :
      (i : ℕ)
      → s.pc mid_x mid_y ≡ clearing_col i
      → last_y x_start x_end y_start y_end < i
      → Inv x_start x_end y_start y_end (move s mid_x mid_y waiting_col)
  col_cleared-Inv i e all = record {
    row_done =
        RowDone-move x_start x_end y_start y_end s mid_x mid_y (clearing_col i) waiting_col e
          (λ i v. ground arith) inv.row_done;
    row_polled_by =
        RowPolled-move x_start x_end y_start y_end s mid_x mid_y (clearing_col i) waiting_col e
          (λ i. ground arith) inv.row_polled_by;
    col_done = λ y1 hy1.
        let h = inv.col_done y1 hy1 in
        let e0 = ap (λ p. col_live p (y1 - y_start) (s.col_done.value mid_x (y1 - y_start))) e in
        grind arith;
    col_polled_by =
        ColPolled-move x_start x_end y_start y_end s mid_x mid_y (clearing_col i) waiting_col e
          (λ i. ground arith) inv.col_polled_by;
    col_alert =
        ColAlert-move x_start x_end y_start y_end s mid_x mid_y (clearing_col i) waiting_col e
          (λ v. ground arith) (λ y. ground arith) inv.col_alert;
    row_alert =
        RowAlert-move x_start x_end y_start y_end s mid_x mid_y (clearing_col i) waiting_col e
          (λ v. ground arith) (λ x. ground arith) inv.row_alert;
    account =
        Account-move x_start x_end y_start y_end s mid_x mid_y (clearing_col i) waiting_col e
          (ground arith) inv.account;
  }

  pub col_done_arrives-Inv :
      (x i : ℕ)
      → 0 < s.col_done.flight x i
      → Inv x_start x_end y_start y_end
          (with_words s s.row_done (arrive s.col_done x i) s.col_alert s.row_alert)
  col_done_arrives-Inv x i some = record {
    row_done = inv.row_done;
    row_polled_by = inv.row_polled_by;
    col_done = λ y1 hy1. let h = inv.col_done y1 hy1 in grind arith;
    col_polled_by = λ i1. let h = inv.col_polled_by i1 in grind arith;
    col_alert = inv.col_alert;
    row_alert = inv.row_alert;
    account = inv.account;
  }
