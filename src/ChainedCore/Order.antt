-- ===== src/ChainedCore/Order.antt =====
-- What the flags of software/spmd/bsg_chained_core promise in every reachable state.
use bsg_manycore.Prelude.{ℕ, suc, ◌<◌, ◌≡◌, arith}
use bsg_manycore.ChainedCore.Rounds
use bsg_manycore.ChainedCore.Rounds.{State, Step, Reach, initial, buffer_of}
use bsg_manycore.ChainedCore.Between.{working, Inv}
use bsg_manycore.ChainedCore.Waits.{
  enter_first-Inv, enter-Inv, begin_first-Inv, see_valid-Inv, see_ready-Inv, print_last-Inv,
}
use bsg_manycore.ChainedCore.Sends.{
  send-Inv, notify-Inv, continue_first-Inv, continue_round-Inv, finish-Inv,
}
use bsg_manycore.ChainedCore.Arrivals.{data_arrives-Inv, valid_arrives-Inv, ready_arrives-Inv}

module _ (num_tiles max_round_num : ℕ) where
  initial-Inv : (i : ℕ) → Inv initial i
  initial-Inv i = record {
    begun = (omega arith, omega arith);
    fresh = (omega arith, omega arith);
    ready_le = λ j. omega arith;
    ready_sent_le = λ j v some. omega arith;
    claimed_le = omega arith;
    behind = omega arith;
    valid_le = λ j. omega arith;
    valid_sent_le = λ j v some. omega arith;
    data_in = λ j v some. absurd (omega arith);
    valid_data = λ j some. omega arith;
    come = λ w. absurd (omega (arith, w));
    holds = λ v pos lo hi none. omega arith;
  }

  step-Inv :
      (s s1 : State) (i : ℕ)
      → suc i < num_tiles
      → Inv s i
      → Step num_tiles max_round_num s s1
      → Inv s1 i
  step-Inv s _ i lt inv (Rounds.Step.enter_first e) = enter_first-Inv s i inv e
  step-Inv s _ i lt inv (Rounds.Step.enter k h e) = enter-Inv s i inv k e
  step-Inv s _ i lt inv (Rounds.Step.begin_first e) = begin_first-Inv s i inv e
  step-Inv s _ i lt inv (Rounds.Step.see_valid k h e f) = see_valid-Inv s i inv k e f
  step-Inv s _ i lt inv (Rounds.Step.see_ready k h e f) = see_ready-Inv s i inv k e f
  step-Inv s _ i lt inv (Rounds.Step.send k h e) = send-Inv s i inv k e
  step-Inv s _ i lt inv (Rounds.Step.notify k h e) = notify-Inv s i inv k e
  step-Inv s _ i lt inv (Rounds.Step.print_last k h e) = print_last-Inv s i inv k (omega arith) e
  step-Inv s _ i lt inv (Rounds.Step.continue_first e h) = continue_first-Inv s i inv e
  step-Inv s _ i lt inv (Rounds.Step.continue_round k h e f) = continue_round-Inv s i inv k e
  step-Inv s _ i lt inv (Rounds.Step.finish k h e f) = finish-Inv s i inv k e
  step-Inv s _ i lt inv (Rounds.Step.data_arrives k l u h) = data_arrives-Inv s i inv k l u h
  step-Inv s _ i lt inv (Rounds.Step.valid_arrives k l u h f) = valid_arrives-Inv s i inv k l u h f
  step-Inv s _ i lt inv (Rounds.Step.ready_arrives k l u h) = ready_arrives-Inv s i inv k l u h

  Reach-Inv : (s : State) (i : ℕ) → suc i < num_tiles → Reach num_tiles max_round_num s → Inv s i
  Reach-Inv _ i lt Rounds.Reach.start = initial-Inv i
  Reach-Inv _ i lt (Rounds.Reach.step s s1 r d) = step-Inv s s1 i lt (Reach-Inv s i lt r) d

  -- In every reachable state, if a core after the first is between its wait for the valid flag and
  -- the end of its round, the buffer of that round holds the data that the core before has sent in
  -- the same round, and no data are on their way to this buffer.
  pub rounds_in_order :
      (s : State)
      → Reach num_tiles max_round_num s
      → (i v : ℕ) → suc i < num_tiles
      → working (s.pc (suc i)) ≡ 1
      → let round = s.round_num (suc i) in
        (s.buffer (suc i) (buffer_of round) ≡ round) × (s.data_sent (suc i) (buffer_of round) v ≡ 0)
  rounds_in_order s r i v lt at =
      let inv = Reach-Inv s i lt r in
      let h = inv.holds (s.round_num (suc i)) in
      let c = inv.come at in
      let d = inv.data_in (buffer_of (s.round_num (suc i))) v in (grind arith, grind arith)
