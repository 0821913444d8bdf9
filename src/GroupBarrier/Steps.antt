-- ===== src/GroupBarrier/Steps.antt =====
-- The steps of the tiles of GroupBarrier.
use bsg_manycore.Prelude.{ℕ, ◌≤◌, ◌<◌, ◌≡◌}
use bsg_manycore.GroupBarrier.{
  outside, polling_row, polling_col, alerting_col, clearing_col, waiting_col, alerting_row,
  clearing_row, clearing_col_alert, waiting, clearing_alert, State, initial, move, with_words,
  arrive, poll_entry, x_range, y_range, center_x, center_y, row_barrier_sync, col_barrier_sync,
  gather, alert_col, clear_col_done, release_row, alert_row, clear_row_done, clear_col_alert,
  clear_alert,
}

module _ (x_start x_end y_start y_end : ℕ) where
  abbrev pub cx : ℕ
  cx = center_x x_start x_end y_start y_end

  abbrev pub cy : ℕ
  cy = center_y x_start x_end y_start y_end

  abbrev pub InX : ℕ → Type 0
  InX x = (x_start ≤ x) × (x ≤ x_end)

  abbrev pub InY : ℕ → Type 0
  InY y = (y_start ≤ y) × (y ≤ y_end)

  abbrev pub last_x : ℕ
  last_x = x_range x_start x_end y_start y_end

  abbrev pub last_y : ℕ
  last_y = y_range x_start x_end y_start y_end

  pub data Step (s : State) : State → Type 0 where
    call :
        (x y : ℕ)
        → InX x
        → InY y
        → s.pc x y ≡ outside
        → Step s (row_barrier_sync x_start x_end y_start y_end s x y)
    poll_row :
        (y i : ℕ)
        → InY y
        → s.pc cx y ≡ polling_row i
        → i ≤ last_x
        → Step s (move s cx y (polling_row (poll_entry (s.row_done.value i y) i)))
    row_polled_all :
        (y i : ℕ)
        → InY y
        → s.pc cx y ≡ polling_row i
        → last_x < i
        → Step s (col_barrier_sync x_start x_end y_start y_end s y)
    poll_col :
        (i : ℕ)
        → s.pc cx cy ≡ polling_col i
        → i ≤ last_y
        → Step s (move s cx cy (polling_col (poll_entry (s.col_done.value cx i) i)))
    col_polled_all :
        (i : ℕ)
        → s.pc cx cy ≡ polling_col i
        → last_y < i
        → Step s (gather x_start x_end y_start y_end s)
    alert_col_next :
        (i : ℕ)
        → s.pc cx cy ≡ alerting_col i
        → i ≤ y_end
        → Step s (alert_col x_start x_end y_start y_end s i)
    col_alerted :
        (i : ℕ) → s.pc cx cy ≡ alerting_col i → y_end < i → Step s (move s cx cy (clearing_col 0))
    clear_col_next :
        (i : ℕ)
        → s.pc cx cy ≡ clearing_col i
        → i ≤ last_y
        → Step s (clear_col_done x_start x_end y_start y_end s i)
    col_cleared :
        (i : ℕ) → s.pc cx cy ≡ clearing_col i → last_y < i → Step s (move s cx cy waiting_col)
    col_alert_seen :
        (y : ℕ)
        → InY y
        → s.pc cx y ≡ waiting_col
        → s.col_alert.value cx y ≡ 1
        → Step s (release_row x_start x_end y_start y_end s y)
    alert_row_next :
        (y i : ℕ)
        → InY y
        → s.pc cx y ≡ alerting_row i
        → i ≤ x_end
        → Step s (alert_row x_start x_end y_start y_end s y i)
    row_alerted :
        (y i : ℕ)
        → InY y
        → s.pc cx y ≡ alerting_row i
        → x_end < i
        → Step s (move s cx y (clearing_row 0))
    clear_row_next :
        (y i : ℕ)
        → InY y
        → s.pc cx y ≡ clearing_row i
        → i ≤ last_x
        → Step s (clear_row_done x_start x_end y_start y_end s y i)
    row_cleared :
        (y i : ℕ)
        → InY y
        → s.pc cx y ≡ clearing_row i
        → last_x < i
        → Step s (move s cx y clearing_col_alert)
    col_alert_cleared :
        (y : ℕ)
        → InY y
        → s.pc cx y ≡ clearing_col_alert
        → Step s (clear_col_alert x_start x_end y_start y_end s y)
    alert_seen :
        (x y : ℕ)
        → InX x
        → InY y
        → s.pc x y ≡ waiting
        → s.row_alert.value x y ≡ 1
        → Step s (move s x y clearing_alert)
    leave :
        (x y : ℕ)
        → InX x
        → InY y
        → s.pc x y ≡ clearing_alert
        → Step s (clear_alert x_start x_end y_start y_end s x y)
    row_done_arrives :
        (i y : ℕ)
        → 0 < s.row_done.flight i y
        → Step s (with_words s (arrive s.row_done i y) s.col_done s.col_alert s.row_alert)
    col_done_arrives :
        (x i : ℕ)
        → 0 < s.col_done.flight x i
        → Step s (with_words s s.row_done (arrive s.col_done x i) s.col_alert s.row_alert)
    col_alert_arrives :
        (x y : ℕ)
        → 0 < s.col_alert.flight x y
        → Step s (with_words s s.row_done s.col_done (arrive s.col_alert x y) s.row_alert)
    row_alert_arrives :
        (x y : ℕ)
        → 0 < s.row_alert.flight x y
        → Step s (with_words s s.row_done s.col_done s.col_alert (arrive s.row_alert x y))

  pub data Reach : State → Type 0 where
    start : Reach initial
    step : (s s' : State) → Reach s → Step s s' → Reach s'
