-- ===== src/Tests/GroupBarriers.antt =====
-- Runs of GroupBarrier in a group of two tiles in a row, with the center at x 0.
use bsg_manycore.Prelude.{◌+◌, ◌≤◌, ◌≡◌, refl, arith}
use bsg_manycore.GroupBarrier.{State, initial, center_cord}
use bsg_manycore.GroupBarrier.Steps
use bsg_manycore.GroupBarrier.Defs.{inside}
use bsg_manycore.GroupBarrier.Steps.{Step, Reach, InX, InY}
use bsg_manycore.GroupBarrier.Safety.{group_barrier_safe}
use bsg_manycore.GroupBarrier.Lost
use bsg_manycore.GroupBarrier.Lost.{Lost, Later, Lost-returns}

-- a state that is reached
record Run : Type 0 where
  state : State
  reached : Reach 0 1 0 0 state

abbrev advance : (r : Run) (s : State) → Step 0 1 0 0 r.state s → Run
advance r s d = record { state = s; reached = Steps.Reach.step r.state s r.reached d }

abbrev here : InY 0 1 0 0 0
here = (omega arith, omega arith)

abbrev left : InX 0 1 0 0 0
left = (omega arith, omega arith)

abbrev right : InX 0 1 0 0 1
right = (omega arith, omega arith)

abbrev begun : Run
begun = record { state = initial; reached = Steps.Reach.start }

-- Both tiles call, and their arrivals reach the center of the row.
abbrev arrived : Run
unfolding center_cord
arrived =
    let r1 = advance begun _ (Steps.Step.call 0 0 left here refl) in
    let r2 = advance r1 _ (Steps.Step.call 1 0 right here refl) in
    let r3 = advance r2 _ (Steps.Step.row_done_arrives 0 0 (omega arith)) in
    advance r3 _ (Steps.Step.row_done_arrives 1 0 (omega arith))

-- The center sees them, and its own as the center of the column.
abbrev gathered : Run
unfolding center_cord
gathered =
    let r1 = advance arrived _ (Steps.Step.poll_row 0 0 here refl (omega arith)) in
    let r2 = advance r1 _ (Steps.Step.poll_row 0 1 here refl (omega arith)) in
    let r3 = advance r2 _ (Steps.Step.row_polled_all 0 2 here refl (omega arith)) in
    let r4 = advance r3 _ (Steps.Step.col_done_arrives 0 0 (omega arith)) in
    let r5 = advance r4 _ (Steps.Step.poll_col 0 refl (omega arith)) in
    advance r5 _ (Steps.Step.col_polled_all 1 refl (omega arith))

-- It alerts itself as the center of the row, and then both tiles.
abbrev released : Run
unfolding center_cord
released =
    let r1 = advance gathered _ (Steps.Step.alert_col_next 0 refl (omega arith)) in
    let r2 = advance r1 _ (Steps.Step.col_alerted 1 refl (omega arith)) in
    let r3 = advance r2 _ (Steps.Step.clear_col_next 0 refl (omega arith)) in
    let r4 = advance r3 _ (Steps.Step.col_cleared 1 refl (omega arith)) in
    let r5 = advance r4 _ (Steps.Step.col_alert_arrives 0 0 (omega arith)) in
    let r6 = advance r5 _ (Steps.Step.col_alert_seen 0 here refl refl) in
    let r7 = advance r6 _ (Steps.Step.alert_row_next 0 0 here refl (omega arith)) in
    let r8 = advance r7 _ (Steps.Step.alert_row_next 0 1 here refl (omega arith)) in
    advance r8 _ (Steps.Step.row_alerted 0 2 here refl (omega arith))

-- Tile 1 returns.
abbrev returned : Run
unfolding center_cord
returned =
    let r1 = advance released _ (Steps.Step.row_alert_arrives 1 0 (omega arith)) in
    let r2 = advance r1 _ (Steps.Step.alert_seen 1 0 right here refl refl) in
    advance r2 _ (Steps.Step.leave 1 0 right here refl)

-- It calls again, and its arrival reaches the center before that clears the list.
abbrev again : Run
unfolding center_cord
again =
    let r1 = advance returned _ (Steps.Step.call 1 0 right here refl) in
    advance r1 _ (Steps.Step.row_done_arrives 1 0 (omega arith))

-- Then the center clears the list.
abbrev cleared : Run
unfolding center_cord
cleared =
    let r1 = advance again _ (Steps.Step.clear_row_next 0 0 here refl (omega arith)) in
    advance r1 _ (Steps.Step.clear_row_next 0 1 here refl (omega arith))

group_barrier_safe_example : returned.state.returns 1 0 ≤ returned.state.calls 0 0
group_barrier_safe_example =
    group_barrier_safe 0 1 0 0 returned.state returned.reached 1 0 0 0 right here left here

lost : Lost 0 1 0 0 1 0 right here cleared.state
unfolding center_cord
lost = (omega arith, refl, refl)

Lost-returns_example :
    (cleared.state.returns 0 0 ≤ cleared.state.syncs 0 0)
    × (cleared.state.calls 1 0 ≡ cleared.state.syncs 0 0 + 1)
    × (inside (cleared.state.pc 1 0) ≡ 1)
unfolding center_cord
Lost-returns_example =
    Lost-returns 0 1 0 0 1 0 right here cleared.state cleared.state cleared.reached lost
      Lost.Later.now 0 0 left here
