-- ===== src/GroupBarrier/RowAlerts.antt =====
-- The alerts to the tiles of a row keep the invariant of GroupBarrier.
use bsg_manycore.Prelude.{ℕ, ◌+◌, ◌<◌, ◌≡◌, ap, arith}
use bsg_manycore.GroupBarrier.{
  outside, alerting_row, clearing_row, waiting, clearing_alert, State, move, with_words, arrive,
  alert_row, clear_alert,
}
use bsg_manycore.GroupBarrier.Defs.{row_unsent, alert_live, inside, Inv}
use bsg_manycore.GroupBarrier.Steps.{cx, cy}
use bsg_manycore.GroupBarrier.Hops.{
  RowDone-move, RowPolled-move, ColDone-move, ColPolled-move, ColAlert-move, RowAlert-move,
  Account-move,
}

module _ (x_start x_end y_start y_end : ℕ) (s : State)
    (inv : Inv x_start x_end y_start y_end s) where
  abbrev mid_x : ℕ
  mid_x = cx x_start x_end y_start y_end

  abbrev mid_y : ℕ
  mid_y = cy x_start x_end y_start y_end

  pub alert_row_next-Inv :
      (y i : ℕ)
      → s.pc mid_x y ≡ alerting_row i
      → Inv x_start x_end y_start y_end (alert_row x_start x_end y_start y_end s y i)
  alert_row_next-Inv y i e = record {
    row_done =
        RowDone-move x_start x_end y_start y_end s mid_x y (alerting_row i) (alerting_row (i + 1)) e
          (λ i v. ground arith) inv.row_done;
    row_polled_by =
        RowPolled-move x_start x_end y_start y_end s mid_x y (alerting_row i) (alerting_row (i + 1))
          e (λ i. ground arith) inv.row_polled_by;
    col_done =
        ColDone-move x_start x_end y_start y_end s mid_x y (alerting_row i) (alerting_row (i + 1)) e
          (λ i v. ground arith) inv.col_done;
    col_polled_by =
        ColPolled-move x_start x_end y_start y_end s mid_x y (alerting_row i) (alerting_row (i + 1))
          e (λ i. ground arith) inv.col_polled_by;
    col_alert =
        ColAlert-move x_start x_end y_start y_end s mid_x y (alerting_row i) (alerting_row (i + 1))
          e (λ v. ground arith) (λ y. ground arith) inv.col_alert;
    row_alert = λ x1 y1 hx1 hy1.
        let h = inv.row_alert x1 y1 hx1 hy1 in
        let e0 = ap (λ p. alert_live p (s.row_alert.value x1 y1)) e in
        let e1 = ap (λ p. row_unsent p x1) e in grind arith;
    account =
        Account-move x_start x_end y_start y_end s mid_x y (alerting_row i) (alerting_row (i + 1)) e
          (ground arith) inv.account;
  }

  pub row_alerted-Inv :
      (y i : ℕ)
      → s.pc mid_x y ≡ alerting_row i
      → Inv x_start x_end y_start y_end (move s mid_x y (clearing_row 0))
  row_alerted-Inv y i e = record {
    row_done =
        RowDone-move x_start x_end y_start y_end s mid_x y (alerting_row i) (clearing_row 0) e
          (λ i v. ground arith) inv.row_done;
    row_polled_by =
        RowPolled-move x_start x_end y_start y_end s mid_x y (alerting_row i) (clearing_row 0) e
          (λ i. ground arith) inv.row_polled_by;
    col_done =
        ColDone-move x_start x_end y_start y_end s mid_x y (alerting_row i) (clearing_row 0) e
          (λ i v. ground arith) inv.col_done;
    col_polled_by =
        ColPolled-move x_start x_end y_start y_end s mid_x y (alerting_row i) (clearing_row 0) e
          (λ i. ground arith) inv.col_polled_by;
    col_alert =
        ColAlert-move x_start x_end y_start y_end s mid_x y (alerting_row i) (clearing_row 0) e
          (λ v. ground arith) (λ y. ground arith) inv.col_alert;
    row_alert =
        RowAlert-move x_start x_end y_start y_end s mid_x y (alerting_row i) (clearing_row 0) e
          (λ v. ground arith) (λ x. ground arith) inv.row_alert;
    account =
        Account-move x_start x_end y_start y_end s mid_x y (alerting_row i) (clearing_row 0) e
          (ground arith) inv.account;
  }

  pub alert_seen-Inv :
      (x y : ℕ)
      → s.pc x y ≡ waiting
      → s.row_alert.value x y ≡ 1
      → Inv x_start x_end y_start y_end (move s x y clearing_alert)
  alert_seen-Inv x y e one = record {
    row_done =
        RowDone-move x_start x_end y_start y_end s x y waiting clearing_alert e
          (λ i v. ground arith) inv.row_done;
    row_polled_by =
        RowPolled-move x_start x_end y_start y_end s x y waiting clearing_alert e
          (λ i. ground arith) inv.row_polled_by;
    col_done =
        ColDone-move x_start x_end y_start y_end s x y waiting clearing_alert e
          (λ i v. ground arith) inv.col_done;
    col_polled_by =
        ColPolled-move x_start x_end y_start y_end s x y waiting clearing_alert e
          (λ i. ground arith) inv.col_polled_by;
    col_alert =
        ColAlert-move x_start x_end y_start y_end s x y waiting clearing_alert e (λ v. ground arith)
          (λ y. ground arith) inv.col_alert;
    row_alert = λ x1 y1 hx1 hy1.
        let h = inv.row_alert x1 y1 hx1 hy1 in
        let e0 = ap (λ p. alert_live p (s.row_alert.value x1 y1)) e in
        let e1 = ap (λ p. row_unsent p x1) e in grind arith;
    account =
        Account-move x_start x_end y_start y_end s x y waiting clearing_alert e (ground arith)
          inv.account;
  }

  pub leave-Inv :
      (x y : ℕ)
      → s.pc x y ≡ clearing_alert
      → Inv x_start x_end y_start y_end (clear_alert x_start x_end y_start y_end s x y)
  leave-Inv x y e = record {
    row_done =
        RowDone-move x_start x_end y_start y_end s x y clearing_alert outside e
          (λ i v. ground arith) inv.row_done;
    row_polled_by =
        RowPolled-move x_start x_end y_start y_end s x y clearing_alert outside e
          (λ i. ground arith) inv.row_polled_by;
    col_done =
        ColDone-move x_start x_end y_start y_end s x y clearing_alert outside e
          (λ i v. ground arith) inv.col_done;
    col_polled_by =
        ColPolled-move x_start x_end y_start y_end s x y clearing_alert outside e
          (λ i. ground arith) inv.col_polled_by;
    col_alert =
        ColAlert-move x_start x_end y_start y_end s x y clearing_alert outside e (λ v. ground arith)
          (λ y. ground arith) inv.col_alert;
    row_alert = λ x1 y1 hx1 hy1.
        let h = inv.row_alert x1 y1 hx1 hy1 in
        let e0 = ap (λ p. alert_live p (s.row_alert.value x1 y1)) e in
        let e1 = ap (λ p. row_unsent p x1) e in grind arith;
    account = λ x1 y1. let h = inv.account x1 y1 in let e0 = ap (inside) e in grind arith;
  }

  pub row_alert_arrives-Inv :
      (x y : ℕ)
      → 0 < s.row_alert.flight x y
      → Inv x_start x_end y_start y_end
          (with_words s s.row_done s.col_done s.col_alert (arrive s.row_alert x y))
  row_alert_arrives-Inv x y some = record {
    row_done = inv.row_done;
    row_polled_by = inv.row_polled_by;
    col_done = inv.col_done;
    col_polled_by = inv.col_polled_by;
    col_alert = inv.col_alert;
    row_alert = λ x1 y1 hx1 hy1. let h = inv.row_alert x1 y1 hx1 hy1 in grind arith;
    account = inv.account;
  }
