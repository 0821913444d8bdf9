-- ===== src/ChainedCore/Sends.antt =====
-- The stores of the cores of ChainedCore/Rounds, and the ends of their rounds, keep what holds between two.
use bsg_manycore.Prelude.{ℕ, suc, ◌+◌, ◌%◌, ◌≡◌, arith}
use bsg_manycore.Prelude.Updates.{add}
use bsg_manycore.ChainedCore.Rounds.{
  awaiting_valid, sending, notifying, delaying, finished, State, move, next_round, with_flights,
  buffer_of,
}
use bsg_manycore.ChainedCore.Between.{Inv, pc_facts}

module _ (s : State) (i : ℕ) (inv : Inv s i) where
  pub send-Inv :
      (k : ℕ)
      → s.pc k ≡ sending
      → Inv
          (with_flights
            (move s k notifying)
            s.valid_sent
            s.ready_sent
            (add s.data_sent (suc k) (buffer_of (s.round_num k)) (s.round_num k)))
          i
  send-Inv k e =
      let facts = pc_facts s k sending e in
      record {
        begun = grind arith;
        fresh = grind arith;
        ready_le = λ j. let h = inv.ready_le j in grind arith;
        ready_sent_le = λ j v some. let h = inv.ready_sent_le j v in grind arith;
        claimed_le = grind arith;
        behind = grind arith;
        valid_le = λ j. let h = inv.valid_le j in grind arith;
        valid_sent_le = λ j v some. let h = inv.valid_sent_le j v in grind arith;
        data_in = λ j v some. let h = inv.data_in j v in grind arith;
        valid_data = λ j some. let h = inv.valid_data j in let g = inv.valid_le j in grind arith;
        come = λ w. grind arith;
        holds = λ v pos lo hi none.
            let h = inv.holds v pos in let d = inv.data_in ((v + 1) % 2) v in grind arith;
      }

  pub notify-Inv :
      (k : ℕ)
      → s.pc k ≡ notifying
      → Inv
          (with_flights
            (move s k delaying)
            (add s.valid_sent (suc k) (buffer_of (s.round_num k)) (s.round_num k))
            s.ready_sent
            s.data_sent)
          i
  notify-Inv k e =
      let facts = pc_facts s k notifying e in
      record {
        begun = grind arith;
        fresh = grind arith;
        ready_le = λ j. let h = inv.ready_le j in grind arith;
        ready_sent_le = λ j v some. let h = inv.ready_sent_le j v in grind arith;
        claimed_le = grind arith;
        behind = grind arith;
        valid_le = λ j. let h = inv.valid_le j in grind arith;
        valid_sent_le = λ j v some. let h = inv.valid_sent_le j v in grind arith;
        data_in = λ j v some. let h = inv.data_in j v in grind arith;
        valid_data = λ j some. let h = inv.valid_data j in grind arith;
        come = λ w. grind arith;
        holds = λ v pos lo hi none.
            let h = inv.holds v pos in let d = inv.data_in ((v + 1) % 2) v in grind arith;
      }

  pub continue_first-Inv : s.pc 0 ≡ delaying → Inv (next_round s 0 awaiting_valid s.ready_sent) i
  continue_first-Inv e =
      let facts = pc_facts s 0 delaying e in
      record {
        begun = grind arith;
        fresh = grind arith;
        ready_le = λ j. let h = inv.ready_le j in grind arith;
        ready_sent_le = λ j v some. let h = inv.ready_sent_le j v in grind arith;
        claimed_le = grind arith;
        behind = grind arith;
        valid_le = λ j. let h = inv.valid_le j in grind arith;
        valid_sent_le = λ j v some. let h = inv.valid_sent_le j v in grind arith;
        data_in = λ j v some. let h = inv.data_in j v in grind arith;
        valid_data = λ j some. let h = inv.valid_data j in grind arith;
        come = λ w. grind arith;
        holds = λ v pos lo hi none.
            let h = inv.holds v pos in let d = inv.data_in ((v + 1) % 2) v in grind arith;
      }

  pub continue_round-Inv :
      (k : ℕ)
      → s.pc (suc k) ≡ delaying
      → Inv
          (next_round s
            (suc k)
            awaiting_valid
            (add s.ready_sent k (buffer_of (s.round_num (suc k))) (s.round_num (suc k) + 2)))
          i
  continue_round-Inv k e =
      let facts = pc_facts s (suc k) delaying e in
      record {
        begun = grind arith;
        fresh = grind arith;
        ready_le = λ j. let h = inv.ready_le j in grind arith;
        ready_sent_le = λ j v some. let h = inv.ready_sent_le j v in grind arith;
        claimed_le = grind arith;
        behind = grind arith;
        valid_le = λ j. let h = inv.valid_le j in grind arith;
        valid_sent_le = λ j v some. let h = inv.valid_sent_le j v in grind arith;
        data_in = λ j v some. let h = inv.data_in j v in grind arith;
        valid_data = λ j some. let h = inv.valid_data j in grind arith;
        come = λ w. grind arith;
        holds = λ v pos lo hi none.
            let h = inv.holds v pos in let d = inv.data_in ((v + 1) % 2) v in grind arith;
      }

  pub finish-Inv : (k : ℕ) → s.pc k ≡ delaying → Inv (next_round s k finished s.ready_sent) i
  finish-Inv k e =
      let facts = pc_facts s k delaying e in
      record {
        begun = grind arith;
        fresh = grind arith;
        ready_le = λ j. let h = inv.ready_le j in grind arith;
        ready_sent_le = λ j v some. let h = inv.ready_sent_le j v in grind arith;
        claimed_le = grind arith;
        behind = grind arith;
        valid_le = λ j. let h = inv.valid_le j in grind arith;
        valid_sent_le = λ j v some. let h = inv.valid_sent_le j v in grind arith;
        data_in = λ j v some. let h = inv.data_in j v in grind arith;
        valid_data = λ j some. let h = inv.valid_data j in grind arith;
        come = λ w. grind arith;
        holds = λ v pos lo hi none.
            let h = inv.holds v pos in let d = inv.data_in ((v + 1) % 2) v in grind arith;
      }
