-- ===== src/GroupBarrier/ColumnAlerts.antt =====
-- The alerts to the rows keep the invariant of GroupBarrier.
use bsg_manycore.Prelude.{ℕ, ◌+◌, ◌<◌, ◌≡◌, ap, arith}
use bsg_manycore.GroupBarrier.{
  alerting_col, clearing_col, waiting_col, alerting_row, clearing_col_alert, waiting, State, move,
  with_words, arrive, alert_col, release_row, clear_col_alert,
}
use bsg_manycore.GroupBarrier.Defs.{col_unsent, row_unsent, col_alert_live, alert_live, Inv}
use bsg_manycore.GroupBarrier.Steps.{cx, cy}
use bsg_manycore.GroupBarrier.Hops.{
  RowDone-move, RowPolled-move, ColDone-move, ColPolled-move, ColAlert-move, RowAlert-move,
  Account-move,
}

module _ (x_start x_end y_start y_end : ℕ) (s : State)
    (inv : Inv x_start x_end y_start y_end s) where
  abbrev mid_x : ℕ
  mid_x = cx x_start x_end y_start y_end

  abbrev mid_y : ℕ
  mid_y = cy x_start x_end y_start y_end

  pub alert_col_next-Inv :
      (i : ℕ)
      → s.pc mid_x mid_y ≡ alerting_col i
      → Inv x_start x_end y_start y_end (alert_col x_start x_end y_start y_end s i)
  alert_col_next-Inv i e = record {
    row_done =
        RowDone-move x_start x_end y_start y_end s mid_x mid_y (alerting_col i)
          (alerting_col (i + 1)) e (λ i v. ground arith) inv.row_done;
    row_polled_by =
        RowPolled-move x_start x_end y_start y_end s mid_x mid_y (alerting_col i)
          (alerting_col (i + 1)) e (λ i. ground arith) inv.row_polled_by;
    col_done =
        ColDone-move x_start x_end y_start y_end s mid_x mid_y (alerting_col i)
          (alerting_col (i + 1)) e (λ i v. ground arith) inv.col_done;
    col_polled_by =
        ColPolled-move x_start x_end y_start y_end s mid_x mid_y (alerting_col i)
          (alerting_col (i + 1)) e (λ i. ground arith) inv.col_polled_by;
    col_alert = λ y1 hy1.
        let h = inv.col_alert y1 hy1 in
        let e0 = ap (λ p. col_alert_live p (s.col_alert.value mid_x y1)) e in
        let e1 = ap (λ p. col_unsent p y1) e in grind arith;
    row_alert =
        RowAlert-move x_start x_end y_start y_end s mid_x mid_y (alerting_col i)
          (alerting_col (i + 1)) e (λ v. ground arith) (λ x. ground arith) inv.row_alert;
    account =
        Account-move x_start x_end y_start y_end s mid_x mid_y (alerting_col i)
          (alerting_col (i + 1)) e (ground arith) inv.account;
  }

  pub col_alerted-Inv :
      (i : ℕ)
      → s.pc mid_x mid_y ≡ alerting_col i
      → Inv x_start x_end y_start y_end (move s mid_x mid_y (clearing_col 0))
  col_alerted-Inv i e = record {
    row_done =
        RowDone-move x_start x_end y_start y_end s mid_x mid_y (alerting_col i) (clearing_col 0) e
          (λ i v. ground arith) inv.row_done;
    row_polled_by =
        RowPolled-move x_start x_end y_start y_end s mid_x mid_y (alerting_col i) (clearing_col 0) e
          (λ i. ground arith) inv.row_polled_by;
    col_done =
        ColDone-move x_start x_end y_start y_end s mid_x mid_y (alerting_col i) (clearing_col 0) e
          (λ i v. ground arith) inv.col_done;
    col_polled_by =
        ColPolled-move x_start x_end y_start y_end s mid_x mid_y (alerting_col i) (clearing_col 0) e
          (λ i. ground arith) inv.col_polled_by;
    col_alert =
        ColAlert-move x_start x_end y_start y_end s mid_x mid_y (alerting_col i) (clearing_col 0) e
          (λ v. ground arith) (λ y. ground arith) inv.col_alert;
    row_alert =
        RowAlert-move x_start x_end y_start y_end s mid_x mid_y (alerting_col i) (clearing_col 0) e
          (λ v. ground arith) (λ x. ground arith) inv.row_alert;
    account =
        Account-move x_start x_end y_start y_end s mid_x mid_y (alerting_col i) (clearing_col 0) e
          (ground arith) inv.account;
  }

  pub release_row-Inv :
      (y : ℕ)
      → s.pc mid_x y ≡ waiting_col
      → s.col_alert.value mid_x y ≡ 1
      → Inv x_start x_end y_start y_end (release_row x_start x_end y_start y_end s y)
  release_row-Inv y e one = record {
    row_done =
        RowDone-move x_start x_end y_start y_end s mid_x y waiting_col (alerting_row x_start) e
          (λ i v. ground arith) inv.row_done;
    row_polled_by =
        RowPolled-move x_start x_end y_start y_end s mid_x y waiting_col (alerting_row x_start) e
          (λ i. ground arith) inv.row_polled_by;
    col_done =
        ColDone-move x_start x_end y_start y_end s mid_x y waiting_col (alerting_row x_start) e
          (λ i v. ground arith) inv.col_done;
    col_polled_by =
        ColPolled-move x_start x_end y_start y_end s mid_x y waiting_col (alerting_row x_start) e
          (λ i. ground arith) inv.col_polled_by;
    col_alert = λ y1 hy1.
        let h = inv.col_alert y1 hy1 in
        let e0 = ap (λ p. col_alert_live p (s.col_alert.value mid_x y1)) e in
        let e1 = ap (λ p. col_unsent p y1) e in grind arith;
    row_alert = λ x1 y1 hx1 hy1.
        let h = inv.row_alert x1 y1 hx1 hy1 in
        let e0 = ap (λ p. alert_live p (s.row_alert.value x1 y1)) e in
        let e1 = ap (λ p. row_unsent p x1) e in ground arith;
    account =
        Account-move x_start x_end y_start y_end s mid_x y waiting_col (alerting_row x_start) e
          (ground arith) inv.account;
  }

  pub clear_col_alert-Inv :
      (y : ℕ)
      → s.pc mid_x y ≡ clearing_col_alert
      → Inv x_start x_end y_start y_end (clear_col_alert x_start x_end y_start y_end s y)
  clear_col_alert-Inv y e = record {
    row_done =
        RowDone-move x_start x_end y_start y_end s mid_x y clearing_col_alert waiting e
          (λ i v. ground arith) inv.row_done;
    row_polled_by =
        RowPolled-move x_start x_end y_start y_end s mid_x y clearing_col_alert waiting e
          (λ i. ground arith) inv.row_polled_by;
    col_done =
        ColDone-move x_start x_end y_start y_end s mid_x y clearing_col_alert waiting e
          (λ i v. ground arith) inv.col_done;
    col_polled_by =
        ColPolled-move x_start x_end y_start y_end s mid_x y clearing_col_alert waiting e
          (λ i. ground arith) inv.col_polled_by;
    col_alert = λ y1 hy1.
        let h = inv.col_alert y1 hy1 in
        let e0 = ap (λ p. col_alert_live p (s.col_alert.value mid_x y1)) e in
        let e1 = ap (λ p. col_unsent p y1) e in grind arith;
    row_alert =
        RowAlert-move x_start x_end y_start y_end s mid_x y clearing_col_alert waiting e
          (λ v. ground arith) (λ x. ground arith) inv.row_alert;
    account =
        Account-move x_start x_end y_start y_end s mid_x y clearing_col_alert waiting e
          (ground arith) inv.account;
  }

  pub col_alert_arrives-Inv :
      (x y : ℕ)
      → 0 < s.col_alert.flight x y
      → Inv x_start x_end y_start y_end
          (with_words s s.row_done s.col_done (arrive s.col_alert x y) s.row_alert)
  col_alert_arrives-Inv x y some = record {
    row_done = inv.row_done;
    row_polled_by = inv.row_polled_by;
    col_done = inv.col_done;
    col_polled_by = inv.col_polled_by;
    col_alert = λ y1 hy1. let h = inv.col_alert y1 hy1 in grind arith;
    row_alert = inv.row_alert;
    account = inv.account;
  }
