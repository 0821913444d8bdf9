-- ===== src/GroupBarrier/Rows.antt =====
-- The arrivals of the tiles at the center of their row keep the invariant of GroupBarrier.
use bsg_manycore.Prelude.{ℕ, ◌+◌, ◌-◌, ◌<◌, ◌≡◌, ap, arith, if◌then◌else◌, ◌==◌}
use bsg_manycore.GroupBarrier.{
  outside, polling_row, polling_col, waiting_col, clearing_row, clearing_col_alert, waiting, State,
  move, with_words, arrive, poll_entry, row_barrier_sync, col_barrier_sync, clear_row_done,
}
use bsg_manycore.GroupBarrier.Defs.{row_live, col_live, row_polled, inside, Inv}
use bsg_manycore.GroupBarrier.Steps.{cx, cy, last_x, InX, InY}
use bsg_manycore.GroupBarrier.Hops.{
  RowDone-move, RowPolled-move, ColDone-move, ColPolled-move, ColAlert-move, RowAlert-move,
  Account-move,
}

module _ (x_start x_end y_start y_end : ℕ) (s : State)
    (inv : Inv x_start x_end y_start y_end s) where
  abbrev mid_x : ℕ
  mid_x = cx x_start x_end y_start y_end

  abbrev mid_y : ℕ
  mid_y = cy x_start x_end y_start y_end

  pub call-Inv :
      (x y : ℕ)
      → InX x_start x_end y_start y_end x
      → InY x_start x_end y_start y_end y
      → s.pc x y ≡ outside
      → Inv x_start x_end y_start y_end (row_barrier_sync x_start x_end y_start y_end s x y)
  call-Inv x y hx hy e = record {
    row_done = λ x1 y1 hx1 hy1.
        let h = inv.row_done x1 y1 hx1 hy1 in
        let e0 = ap (λ p. row_live p (x1 - x_start) (s.row_done.value (x1 - x_start) y1)) e in
        ground arith;
    row_polled_by =
        RowPolled-move x_start x_end y_start y_end s x y outside
          (if x == mid_x then polling_row 0 else waiting) e (λ i. ground arith) inv.row_polled_by;
    col_done =
        ColDone-move x_start x_end y_start y_end s x y outside
          (if x == mid_x then polling_row 0 else waiting) e (λ i v. ground arith) inv.col_done;
    col_polled_by =
        ColPolled-move x_start x_end y_start y_end s x y outside
          (if x == mid_x then polling_row 0 else waiting) e (λ i. ground arith) inv.col_polled_by;
    col_alert =
        ColAlert-move x_start x_end y_start y_end s x y outside
          (if x == mid_x then polling_row 0 else waiting) e (λ v. ground arith) (λ y. ground arith)
          inv.col_alert;
    row_alert =
        RowAlert-move x_start x_end y_start y_end s x y outside
          (if x == mid_x then polling_row 0 else waiting) e (λ v. ground arith) (λ x. ground arith)
          inv.row_alert;
    account = λ x1 y1. let h = inv.account x1 y1 in let e0 = ap (inside) e in grind arith;
  }

  pub poll_row-Inv :
      (y i : ℕ)
      → s.pc mid_x y ≡ polling_row i
      → Inv x_start x_end y_start y_end
          (move s mid_x y (polling_row (poll_entry (s.row_done.value i y) i)))
  poll_row-Inv y i e = record {
    row_done =
        RowDone-move x_start x_end y_start y_end s mid_x y (polling_row i)
          (polling_row (poll_entry (s.row_done.value i y) i)) e (λ i v. ground arith) inv.row_done;
    row_polled_by = λ i1 y1.
        let h = inv.row_polled_by i1 y1 in let e0 = ap (λ p. row_polled p i1) e in grind arith;
    col_done =
        ColDone-move x_start x_end y_start y_end s mid_x y (polling_row i)
          (polling_row (poll_entry (s.row_done.value i y) i)) e (λ i v. ground arith) inv.col_done;
    col_polled_by =
        ColPolled-move x_start x_end y_start y_end s mid_x y (polling_row i)
          (polling_row (poll_entry (s.row_done.value i y) i)) e (λ i. ground arith)
          inv.col_polled_by;
    col_alert =
        ColAlert-move x_start x_end y_start y_end s mid_x y (polling_row i)
          (polling_row (poll_entry (s.row_done.value i y) i)) e (λ v. ground arith)
          (λ y. ground arith) inv.col_alert;
    row_alert =
        RowAlert-move x_start x_end y_start y_end s mid_x y (polling_row i)
          (polling_row (poll_entry (s.row_done.value i y) i)) e (λ v. ground arith)
          (λ x. ground arith) inv.row_alert;
    account =
        Account-move x_start x_end y_start y_end s mid_x y (polling_row i)
          (polling_row (poll_entry (s.row_done.value i y) i)) e (ground arith) inv.account;
  }

  pub row_polled_all-Inv :
      (y i : ℕ)
      → InY x_start x_end y_start y_end y
      → s.pc mid_x y ≡ polling_row i
      → last_x x_start x_end y_start y_end < i
      → Inv x_start x_end y_start y_end (col_barrier_sync x_start x_end y_start y_end s y)
  row_polled_all-Inv y i hy e all = record {
    row_done = λ x1 y1 hx1 hy1.
        let h = inv.row_done x1 y1 hx1 hy1 in
        let e0 = ap (λ p. row_live p (x1 - x_start) (s.row_done.value (x1 - x_start) y1)) e in
        let polled = inv.row_polled_by (x1 - x_start) y1 in
        let e9 = ap (λ p. row_polled p (x1 - x_start)) e in grind arith;
    row_polled_by =
        RowPolled-move x_start x_end y_start y_end s mid_x y (polling_row i)
          (if y == mid_y then polling_col 0 else waiting_col) e (λ i. ground arith)
          inv.row_polled_by;
    col_done = λ y1 hy1.
        let h = inv.col_done y1 hy1 in
        let e0 = ap (λ p. col_live p (y1 - y_start) (s.col_done.value mid_x (y1 - y_start))) e in
        grind arith;
    col_polled_by =
        ColPolled-move x_start x_end y_start y_end s mid_x y (polling_row i)
          (if y == mid_y then polling_col 0 else waiting_col) e (λ i. ground arith)
          inv.col_polled_by;
    col_alert =
        ColAlert-move x_start x_end y_start y_end s mid_x y (polling_row i)
          (if y == mid_y then polling_col 0 else waiting_col) e (λ v. ground arith)
          (λ y. ground arith) inv.col_alert;
    row_alert =
        RowAlert-move x_start x_end y_start y_end s mid_x y (polling_row i)
          (if y == mid_y then polling_col 0 else waiting_col) e (λ v. ground arith)
          (λ x. ground arith) inv.row_alert;
    account =
        Account-move x_start x_end y_start y_end s mid_x y (polling_row i)
          (if y == mid_y then polling_col 0 else waiting_col) e (ground arith) inv.account;
  }

  pub clear_row_next-Inv :
      (y i : ℕ)
      → s.pc mid_x y ≡ clearing_row i
      → Inv x_start x_end y_start y_end (clear_row_done x_start x_end y_start y_end s y i)
  clear_row_next-Inv y i e = record {
    row_done = λ x1 y1 hx1 hy1.
        let h = inv.row_done x1 y1 hx1 hy1 in
        let e0 = ap (λ p. row_live p (x1 - x_start) (s.row_done.value (x1 - x_start) y1)) e in
        grind arith;
    row_polled_by = λ i1 y1.
        let h = inv.row_polled_by i1 y1 in let e0 = ap (λ p. row_polled p i1) e in grind arith;
    col_done =
        ColDone-move x_start x_end y_start y_end s mid_x y (clearing_row i) (clearing_row (i + 1)) e
          (λ i v. ground arith) inv.col_done;
    col_polled_by =
        ColPolled-move x_start x_end y_start y_end s mid_x y (clearing_row i) (clearing_row (i + 1))
          e (λ i. ground arith) inv.col_polled_by;
    col_alert =
        ColAlert-move x_start x_end y_start y_end s mid_x y (clearing_row i) (clearing_row (i + 1))
          e (λ v. ground arith) (λ y. ground arith) inv.col_alert;
    row_alert =
        RowAlert-move x_start x_end y_start y_end s mid_x y (clearing_row i) (clearing_row (i + 1))
          e (λ v. ground arith) (λ x. ground arith) inv.row_alert;
    account =
        Account-move x_start x_end y_start y_end s mid_x y (clearing_row i) (clearing_row (i + 1)) e
          (ground arith) inv.account;
  }

  pub row_cleared-Inv :
      (y i : ℕ)
      → s.pc mid_x y ≡ clearing_row i
      → last_x x_start x_end y_start y_end < i
      → Inv x_start x_end y_start y_end (move s mid_x y clearing_col_alert)
  row_cleared-Inv y i e all = record {
    row_done = λ x1 y1 hx1 hy1.
        let h = inv.row_done x1 y1 hx1 hy1 in
        let e0 = ap (λ p. row_live p (x1 - x_start) (s.row_done.value (x1 - x_start) y1)) e in
        grind arith;
    row_polled_by =
        RowPolled-move x_start x_end y_start y_end s mid_x y (clearing_row i) clearing_col_alert e
          (λ i. ground arith) inv.row_polled_by;
    col_done =
        ColDone-move x_start x_end y_start y_end s mid_x y (clearing_row i) clearing_col_alert e
          (λ i v. ground arith) inv.col_done;
    col_polled_by =
        ColPolled-move x_start x_end y_start y_end s mid_x y (clearing_row i) clearing_col_alert e
          (λ i. ground arith) inv.col_polled_by;
    col_alert =
        ColAlert-move x_start x_end y_start y_end s mid_x y (clearing_row i) clearing_col_alert e
          (λ v. ground arith) (λ y. ground arith) inv.col_alert;
    row_alert =
        RowAlert-move x_start x_end y_start y_end s mid_x y (clearing_row i) clearing_col_alert e
          (λ v. ground arith) (λ x. ground arith) inv.row_alert;
    account =
        Account-move x_start x_end y_start y_end s mid_x y (clearing_row i) clearing_col_alert e
          (ground arith) inv.account;
  }

  pub row_done_arrives-Inv :
      (i y : ℕ)
      → 0 < s.row_done.flight i y
      → Inv x_start x_end y_start y_end
          (with_words s (arrive s.row_done i y) s.col_done s.col_alert s.row_alert)
  row_done_arrives-Inv i y some = record {
    row_done = λ x1 y1 hx1 hy1. let h = inv.row_done x1 y1 hx1 hy1 in grind arith;
    row_polled_by = λ i1 y1. let h = inv.row_polled_by i1 y1 in grind arith;
    col_done = inv.col_done;
    col_polled_by = inv.col_polled_by;
    col_alert = inv.col_alert;
    row_alert = inv.row_alert;
    account = inv.account;
  }
