-- ===== src/Tests/Chains.antt =====
-- Two words on their way through software/spmd/bsg_chained_core, and two of its cores in their rounds.
use bsg_manycore.Prelude.{ℕ, ◌<◌, ◌%◌, ◌^◌, ◌≡◌, refl, arith}
use bsg_manycore.Kernels.{Array}
use bsg_manycore.ChainedCore.{value_of, rounds_of, cores_of, all_tag_pass_funcs, first_buffer}
use bsg_manycore.ChainedCore.Rounds
use bsg_manycore.ChainedCore.Rounds.{State, Step, Reach, initial, buffer_of}
use bsg_manycore.ChainedCore.Order.{rounds_in_order}
use bsg_manycore.ChainedCore.Chain.{pipeline, ids_below, pipeline_tags}

abbrev zeros : Array
zeros i = 0

abbrev arrived : ℕ
arrived = pipeline all_tag_pass_funcs 4 zeros first_buffer (λ k. zeros) 2 15 3 1

pipeline_tags_example :
    (value_of arrived ≡ 1 % 2 ^ 8)
    × (rounds_of arrived ≡ 15 % 2 ^ 8)
    × (cores_of arrived ≡ ids_below 3 % 2 ^ 16)
pipeline_tags_example = pipeline_tags 4 zeros (λ k. zeros) 2 15 1 (omega arith) 2 (omega arith)

-- a state that two cores reach in two rounds
record Run : Type 0 where
  state : State
  reached : Reach 2 2 state

abbrev advance : (r : Run) (s : State) → Step 2 2 r.state s → Run
advance r s d = record { state = s; reached = Rounds.Reach.step r.state s r.reached d }

abbrev begun : Run
begun = record { state = initial; reached = Rounds.Reach.start }

one : 0 < 1
one = omega arith

two_cores : 1 < 2
two_cores = omega arith

-- Both cores enter, and core 0 may send.
abbrev entered : Run
entered =
    let r1 = advance begun _ (Rounds.Step.enter_first refl) in
    let r2 = advance r1 _ (Rounds.Step.enter 0 two_cores refl) in
    let r3 = advance r2 _ (Rounds.Step.begin_first refl) in
    advance r3 _ (Rounds.Step.ready_arrives 0 0 1 one)

-- It sends the data of round 1, and core 1 sees them.
abbrev received : Run
received =
    let r5 = advance entered _ (Rounds.Step.see_ready 0 two_cores refl refl) in
    let r6 = advance r5 _ (Rounds.Step.send 0 two_cores refl) in
    let r7 = advance r6 _ (Rounds.Step.notify 0 two_cores refl) in
    let r8 = advance r7 _ (Rounds.Step.data_arrives 1 0 1 one) in
    let r9 = advance r8 _ (Rounds.Step.valid_arrives 1 0 1 one refl) in
    advance r9 _ (Rounds.Step.see_valid 0 two_cores refl refl)

rounds_in_order_example :
    let round = received.state.round_num 1 in
    (received.state.buffer 1 (buffer_of round) ≡ round)
    × (received.state.data_sent 1 (buffer_of round) 3 ≡ 0)
rounds_in_order_example = rounds_in_order 2 2 received.state received.reached 0 3 two_cores refl
