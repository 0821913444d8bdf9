-- ===== src/GroupBarrier.antt =====
-- software/bsg_manycore_lib/bsg_tile_group_barrier.h: the tiles of a group call bsg_tile_group_barrier again
-- and again, a step for each access to memory. A store to another tile arrives at any later time, in
-- any order with the others, also a store of a tile to itself through a remote pointer.
pub mod Steps
pub mod Defs
pub mod Hops
pub mod Rows
pub mod RowAlerts
pub mod Columns
pub mod ColumnAlerts
pub mod Safety
pub mod Lost
use bsg_manycore.Prelude.{ℕ, zero, suc, ◌+◌, ◌-◌, ◌/◌, ◌≤◌, ◌<◌, ◌≡◌, ◌&&◌, if◌then◌else◌, ◌==◌}

-- `center_x_cord` and `center_y_cord`
unfoldable pub center_cord : (cord_start cord_end : ℕ) → ℕ
center_cord cord_start cord_end = (cord_start + cord_end) / 2

-- Where a tile is in bsg_tile_group_barrier, with the index of the loop that it is in.
pub data Pc : Type 0 where
  outside : Pc
  polling_row : (i : ℕ) → Pc
  polling_col : (i : ℕ) → Pc
  alerting_col : (i : ℕ) → Pc
  clearing_col : (i : ℕ) → Pc
  waiting_col : Pc
  alerting_row : (i : ℕ) → Pc
  clearing_row : (i : ℕ) → Pc
  clearing_col_alert : Pc
  waiting : Pc
  clearing_alert : Pc

-- a grid of words that are set to 1 from afar: their values and the stores on their way to them
pub record Words : Type 0 where
  pub value : ℕ → ℕ → ℕ
  pub flight : ℕ → ℕ → ℕ

abbrev pub put {ℓ} : {A : Type ℓ} → (ℕ → ℕ → A) → ℕ → ℕ → A → ℕ → ℕ → A
put f x y v x1 y1 = if (x1 == x) && (y1 == y) then v else f x1 y1

abbrev pub increment : (ℕ → ℕ → ℕ) → ℕ → ℕ → ℕ → ℕ → ℕ
increment f x y = put f x y (f x y + 1)

abbrev pub post : Words → ℕ → ℕ → Words
post w x y = record { value = w.value; flight = increment w.flight x y }

abbrev pub erase : Words → ℕ → ℕ → Words
erase w x y = record { value = put w.value x y 0; flight = w.flight }

abbrev pub arrive : Words → ℕ → ℕ → Words
arrive w x y = record { value = put w.value x y 1; flight = put w.flight x y (w.flight x y - 1) }

-- `row_done` at i and y is `_done_list[i]` of the row barrier in the center tile of row y, `col_done` at x
-- and i that of the column barrier in the center tile of column x; the alerts are `_local_alert` of the
-- two barriers in each tile. The other fields count what each tile has done: its calls, its passes
-- through bsg_col_barrier_sync, through the polling of the column, through the wait for the column
-- alert, and its returns.
pub record State : Type 0 where
  pub pc : ℕ → ℕ → Pc
  pub row_done : Words
  pub col_done : Words
  pub col_alert : Words
  pub row_alert : Words
  pub calls : ℕ → ℕ → ℕ
  pub syncs : ℕ → ℕ → ℕ
  pub gathers : ℕ → ℕ → ℕ
  pub releases : ℕ → ℕ → ℕ
  pub returns : ℕ → ℕ → ℕ

abbrev nothing : Words
nothing = record { value = λ x y. 0; flight = λ x y. 0 }

abbrev none_yet : ℕ → ℕ → ℕ
none_yet x y = 0

-- INIT_TILE_GROUP_BARRIER
abbrev pub initial : State
initial = record {
  pc = λ x y. outside;
  row_done = nothing;
  col_done = nothing;
  col_alert = nothing;
  row_alert = nothing;
  calls = none_yet;
  syncs = none_yet;
  gathers = none_yet;
  releases = none_yet;
  returns = none_yet;
}

abbrev pub with_pc : State → (ℕ → ℕ → Pc) → State
with_pc s pc = record {
  pc = pc;
  row_done = s.row_done;
  col_done = s.col_done;
  col_alert = s.col_alert;
  row_alert = s.row_alert;
  calls = s.calls;
  syncs = s.syncs;
  gathers = s.gathers;
  releases = s.releases;
  returns = s.returns;
}

abbrev pub move : State → ℕ → ℕ → Pc → State
move s x y p = with_pc s (put s.pc x y p)

abbrev pub with_words : State → (row_done col_done col_alert row_alert : Words) → State
with_words s row_done col_done col_alert row_alert = record {
  pc = s.pc;
  row_done = row_done;
  col_done = col_done;
  col_alert = col_alert;
  row_alert = row_alert;
  calls = s.calls;
  syncs = s.syncs;
  gathers = s.gathers;
  releases = s.releases;
  returns = s.returns;
}

abbrev pub with_counts : State → (calls syncs gathers releases returns : ℕ → ℕ → ℕ) → State
with_counts s calls syncs gathers releases returns = record {
  pc = s.pc;
  row_done = s.row_done;
  col_done = s.col_done;
  col_alert = s.col_alert;
  row_alert = s.row_alert;
  calls = calls;
  syncs = syncs;
  gathers = gathers;
  releases = releases;
  returns = returns;
}

-- one round of the loop over i in poll_range: `if (p[i] == 0) break`, which starts it again
abbrev pub poll_entry : (entry i : ℕ) → ℕ
poll_entry entry i = if entry == 0 then 0 else i + 1

module _ (x_start x_end y_start y_end : ℕ) where
  abbrev pub x_range : ℕ
  x_range = x_end - x_start

  abbrev pub y_range : ℕ
  y_range = y_end - y_start

  abbrev pub center_x : ℕ
  center_x = center_cord x_start x_end

  abbrev pub center_y : ℕ
  center_y = center_cord y_start y_end

  -- bsg_row_barrier_sync, and the test whether the tile is at the center of its row
  abbrev pub row_barrier_sync : State → ℕ → ℕ → State
  row_barrier_sync s x y =
      let s1 = with_words s (post s.row_done (x - x_start) y) s.col_done s.col_alert s.row_alert in
      let s2 = with_counts s1 (increment s.calls x y) s.syncs s.gathers s.releases s.returns in
      move s2 x y (if x == center_x then polling_row 0 else waiting)

  -- bsg_col_barrier_sync after poll_range, and the test whether the tile is at the center of the group
  abbrev pub col_barrier_sync : State → ℕ → State
  col_barrier_sync s y =
      let s1 =
        with_words s s.row_done (post s.col_done center_x (y - y_start)) s.col_alert s.row_alert in
      let s2 =
        with_counts s1 s.calls (increment s.syncs center_x y) s.gathers s.releases s.returns in
      move s2 center_x y (if y == center_y then polling_col 0 else waiting_col)

  -- bsg_col_barrier_alert between poll_range and alert_col
  abbrev pub gather : State → State
  gather s =
      let s1 =
        with_counts s s.calls s.syncs (increment s.gathers center_x center_y) s.releases
          s.returns in
      move s1 center_x center_y (alerting_col y_start)

  -- alert_col: one round of the loop over i
  abbrev pub alert_col : State → ℕ → State
  alert_col s i =
      let s1 = with_words s s.row_done s.col_done (post s.col_alert center_x i) s.row_alert in
      move s1 center_x center_y (alerting_col (i + 1))

  -- the loop of bsg_col_barrier_alert over i
  abbrev pub clear_col_done : State → ℕ → State
  clear_col_done s i =
      let s1 = with_words s s.row_done (erase s.col_done center_x i) s.col_alert s.row_alert in
      move s1 center_x center_y (clearing_col (i + 1))

  -- bsg_row_barrier_alert between bsg_wait_local_int and alert_row
  abbrev pub release_row : State → ℕ → State
  release_row s y =
      let s1 =
        with_counts s s.calls s.syncs s.gathers (increment s.releases center_x y) s.returns in
      move s1 center_x y (alerting_row x_start)

  -- alert_row: one round of the loop over i
  abbrev pub alert_row : State → ℕ → ℕ → State
  alert_row s y i =
      let s1 = with_words s s.row_done s.col_done s.col_alert (post s.row_alert i y) in
      move s1 center_x y (alerting_row (i + 1))

  -- the loop of bsg_row_barrier_alert over i
  abbrev pub clear_row_done : State → ℕ → ℕ → State
  clear_row_done s y i =
      let s1 = with_words s (erase s.row_done i y) s.col_done s.col_alert s.row_alert in
      move s1 center_x y (clearing_row (i + 1))

  -- the end of bsg_row_barrier_alert
  abbrev pub clear_col_alert : State → ℕ → State
  clear_col_alert s y =
      let s1 = with_words s s.row_done s.col_done (erase s.col_alert center_x y) s.row_alert in
      move s1 center_x y waiting

  -- bsg_tile_wait after bsg_wait_local_int
  abbrev pub clear_alert : State → ℕ → ℕ → State
  clear_alert s x y =
      let s1 = with_words s s.row_done s.col_done s.col_alert (erase s.row_alert x y) in
      let s2 = with_counts s1 s.calls s.syncs s.gathers s.releases (increment s.returns x y) in
      move s2 x y outside
