-- ===== src/GroupBarrier/Defs.antt =====
-- What holds between the steps of the tiles of GroupBarrier.
use bsg_manycore.Prelude.{ℕ, ◌+◌, ◌-◌, ◌≤◌, ◌≡◌, if◌then◌else◌, ltb, leb}
use bsg_manycore.GroupBarrier.{
  Pc, outside, polling_row, polling_col, alerting_col, clearing_col, waiting_col, alerting_row,
  clearing_row, clearing_col_alert, clearing_alert, State,
}
use bsg_manycore.GroupBarrier.Steps.{cx, cy, InX, InY}

-- the value that a row's entry i adds to the arrivals that its center has not counted
abbrev pub row_live : Pc → (i value : ℕ) → ℕ
row_live (polling_col k) i value = 0
row_live (alerting_col k) i value = 0
row_live (clearing_col k) i value = 0
row_live waiting_col i value = 0
row_live (alerting_row k) i value = 0
row_live (clearing_row k) i value = if leb k i then 0 else value
row_live p i value = value

-- the same of the column's entry i
abbrev pub col_live : Pc → (i value : ℕ) → ℕ
col_live (alerting_col k) i value = 0
col_live (clearing_col k) i value = if leb k i then 0 else value
col_live p i value = value

-- 1 for an entry that the polling has seen
abbrev pub row_polled : Pc → ℕ → ℕ
row_polled (polling_row k) i = if ltb i k then 1 else 0
row_polled p i = 0

abbrev pub col_polled : Pc → ℕ → ℕ
col_polled (polling_col k) i = if ltb i k then 1 else 0
col_polled p i = 0

-- 1 for a tile that has yet to be alerted
abbrev pub col_unsent : Pc → ℕ → ℕ
col_unsent (alerting_col k) i = if leb k i then 1 else 0
col_unsent p i = 0

abbrev pub row_unsent : Pc → ℕ → ℕ
row_unsent (alerting_row k) i = if leb k i then 1 else 0
row_unsent p i = 0

-- the value that an alert adds to those that its tile has not counted
abbrev pub col_alert_live : Pc → ℕ → ℕ
col_alert_live (alerting_row k) value = 0
col_alert_live (clearing_row k) value = 0
col_alert_live clearing_col_alert value = 0
col_alert_live p value = value

abbrev pub alert_live : Pc → ℕ → ℕ
alert_live clearing_alert value = 1
alert_live p value = value

-- 1 from a tile's call until it returns
abbrev pub inside : Pc → ℕ
inside outside = 0
inside p = 1

module _ (x_start x_end y_start y_end : ℕ) where
  abbrev mid_x : ℕ
  mid_x = cx x_start x_end y_start y_end

  abbrev mid_y : ℕ
  mid_y = cy x_start x_end y_start y_end

  -- The arrivals at the centers of the rows: none is counted before the tile's call.
  abbrev pub RowDone : State → Type 0
  RowDone s =
      (x y : ℕ)
      → InX x_start x_end y_start y_end x
      → InY x_start x_end y_start y_end y
      → row_live (s.pc mid_x y) (x - x_start) (s.row_done.value (x - x_start) y)
          + s.row_done.flight (x - x_start) y
          + s.syncs mid_x y
        ≤ s.calls x y

  abbrev pub RowPolled : State → Type 0
  RowPolled s = (i y : ℕ) → row_polled (s.pc mid_x y) i ≤ s.row_done.value i y

  -- The arrivals of the rows at the center of the group.
  abbrev pub ColDone : State → Type 0
  ColDone s =
      (y : ℕ)
      → InY x_start x_end y_start y_end y
      → col_live (s.pc mid_x mid_y) (y - y_start) (s.col_done.value mid_x (y - y_start))
          + s.col_done.flight mid_x (y - y_start)
          + s.gathers mid_x mid_y
        ≤ s.syncs mid_x y

  abbrev pub ColPolled : State → Type 0
  ColPolled s = (i : ℕ) → col_polled (s.pc mid_x mid_y) i ≤ s.col_done.value mid_x i

  -- The alerts to the rows, and those to the tiles.
  abbrev pub ColAlert : State → Type 0
  ColAlert s =
      (y : ℕ)
      → InY x_start x_end y_start y_end y
      → col_alert_live (s.pc mid_x y) (s.col_alert.value mid_x y)
          + s.col_alert.flight mid_x y
          + col_unsent (s.pc mid_x mid_y) y
          + s.releases mid_x y
        ≤ s.gathers mid_x mid_y

  abbrev pub RowAlert : State → Type 0
  RowAlert s =
      (x y : ℕ)
      → InX x_start x_end y_start y_end x
      → InY x_start x_end y_start y_end y
      → alert_live (s.pc x y) (s.row_alert.value x y)
          + s.row_alert.flight x y
          + row_unsent (s.pc mid_x y) x
          + s.returns x y
        ≤ s.releases mid_x y

  abbrev pub Account : State → Type 0
  Account s = (x y : ℕ) → s.calls x y ≡ s.returns x y + inside (s.pc x y)

  pub record Inv (s : State) : Type 0 where
    pub row_done : RowDone s
    pub row_polled_by : RowPolled s
    pub col_done : ColDone s
    pub col_polled_by : ColPolled s
    pub col_alert : ColAlert s
    pub row_alert : RowAlert s
    pub account : Account s
