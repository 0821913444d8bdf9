-- ===== src/Tests/Coordinates.antt =====
-- A run of TileCoordinates in a group of one tile.
use bsg_manycore.Prelude.{ℕ, ◌+◌, ◌*◌, ◌%◌, ◌^◌, ◌<◌, ◌≡◌, refl, sym, ap, ◌∙◌, arith}
use bsg_manycore.Arch.{remote_ptr_control}
use bsg_manycore.TileCoordinates.{Pc, done, State, whole_grid, initial, csr_tgo_x, csr_tgo_y}
use bsg_manycore.TileCoordinates.Steps
use bsg_manycore.TileCoordinates.Steps.{Step, Reach, InGroup}
use bsg_manycore.TileCoordinates.Values.{at_end}
use bsg_manycore.TileCoordinates.Progress.{coordinates_set}

-- the control registers hold 5
abbrev control : ℕ → ℕ
control pointer = 5

record Run : Type 0 where
  state : State
  reached : Reach 1 1 control state

abbrev advance : (r : Run) (s : State) → Step 1 1 control r.state s → Run
advance r s d = record { state = s; reached = Steps.Reach.step r.state s r.reached d }

here : InGroup 1 1 control 0 0
here = omega arith

one : 0 < 1
one = omega arith

-- The tile has stored 0 to itself, and the stores have arrived.
abbrev stored : Run
stored =
    let r0 : Run = record { state = initial; reached = Steps.Reach.start } in
    let r1 = advance r0 _ (Steps.Step.stores_x 0 0 here refl) in
    let r2 = advance r1 _ (Steps.Step.stores_y 0 0 here refl) in
    let r3 = advance r2 _ (Steps.Step.x_arrives 0 0 0 one) in
    advance r3 _ (Steps.Step.y_arrives 0 0 0 one)

abbrev distributed : Run
distributed =
    let r1 = advance stored _ (Steps.Step.sees_x 0 0 here refl refl) in
    let r2 = advance r1 _ (Steps.Step.sees_y 0 0 here refl refl) in
    let r3 = advance r2 _ (Steps.Step.checks_x 0 0 here refl) in
    let r4 = advance r3 _ (Steps.Step.checks_y 0 0 here refl) in
    let r5 = advance r4 _ (Steps.Step.distributes 0 0 0 0 here refl) in
    let r6 = advance r5 _ (Steps.Step.distributes 0 0 0 1 here refl) in
    advance r6 _ (Steps.Step.distributes 0 0 1 0 here refl)

abbrev ended : Run
ended =
    let r1 = advance distributed _ (Steps.Step.finishes 0 0 here refl) in
    let r2 = advance r1 _ (Steps.Step.x_arrives 0 0 0 one) in
    advance r2 _ (Steps.Step.y_arrives 0 0 0 one)

all_end : (a b : ℕ) → InGroup 1 1 control a b → ended.state.pc a b ≡ done
all_end a b h = let (ha, hb) = h in ground arith

quiet : (a b v : ℕ) → (ended.state.x_stores a b v ≡ 0) × (ended.state.y_stores a b v ≡ 0)
quiet a b v = (ground arith, ground arith)

-- A tile is only at the end.
stays : (a b : ℕ) (p : Pc) → InGroup 1 1 control a b → ended.state.pc a b ≡ p → at_end p ≡ 1
stays a b p h e = ap at_end (sym e ∙ all_end a b h)

stuck : (s : State) → ¬ Step 1 1 control ended.state s
stuck _ (Steps.Step.stores_x a b h e) = omega (arith, stays a b _ h e)
stuck _ (Steps.Step.stores_y a b h e) = omega (arith, stays a b _ h e)
stuck _ (Steps.Step.sees_x a b h e q) = omega (arith, stays a b _ h e)
stuck _ (Steps.Step.sees_y a b h e q) = omega (arith, stays a b _ h e)
stuck _ (Steps.Step.checks_x a b h e) = omega (arith, stays a b _ h e)
stuck _ (Steps.Step.checks_y a b h e) = omega (arith, stays a b _ h e)
stuck _ (Steps.Step.distributes a b x y h e) = omega (arith, stays a b _ h e)
stuck _ (Steps.Step.finishes a b h e) = omega (arith, stays a b _ h e)
stuck _ (Steps.Step.x_arrives a b v some) = omega (arith, (quiet a b v).0)
stuck _ (Steps.Step.y_arrives a b v some) = omega (arith, (quiet a b v).1)

coordinates_set_example :
    (ended.state.pc 0 0 ≡ done)
    × (ended.state.bsg_x 0 0 ≡ 0)
    × (ended.state.bsg_y 0 0 ≡ 0)
    × (ended.state.bsg_id 0 0 ≡ (0 * 1 + 0) % 2 ^ 32)
    × (ended.state.grp_org_x 0 0 ≡ control (remote_ptr_control 0 0 csr_tgo_x))
    × (ended.state.grp_org_y 0 0 ≡ control (remote_ptr_control 0 0 csr_tgo_y))
    × (ended.state.grid 0 0 ≡ whole_grid)
coordinates_set_example =
    coordinates_set 1 1 control (omega arith) (omega arith) one one ended.state ended.reached stuck
      0 0 here
