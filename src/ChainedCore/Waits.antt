-- ===== src/ChainedCore/Waits.antt =====
-- The entries and waits of the cores of ChainedCore/Rounds keep what holds between two of them.
use bsg_manycore.Prelude.{ℕ, suc, ◌+◌, ◌%◌, ◌<◌, ◌≡◌, arith}
use bsg_manycore.Prelude.Updates.{add}
use bsg_manycore.ChainedCore.Rounds.{
  entering, awaiting_valid, awaiting_ready, sending, delaying, State, move, next_round, buffer_of,
}
use bsg_manycore.ChainedCore.Between.{Inv, pc_facts}

module _ (s : State) (i : ℕ) (inv : Inv s i) where
  pub enter_first-Inv : s.pc 0 ≡ entering → Inv (next_round s 0 awaiting_valid s.ready_sent) i
  enter_first-Inv e =
      let facts = pc_facts s 0 entering e in
      record {
        begun = grind arith;
        fresh = grind arith;
        ready_le = λ j. let h = inv.ready_le j in grind arith;
        ready_sent_le = λ j v some. let h = inv.ready_sent_le j v in grind arith;
        claimed_le = grind arith;
        behind = grind arith;
        valid_le = λ j. let h = inv.valid_le j in grind arith;
        valid_sent_le = λ j v some. let h = inv.valid_sent_le j v in grind arith;
        data_in = λ j v some. let h = inv.data_in j v in grind arith;
        valid_data = λ j some. let h = inv.valid_data j in grind arith;
        come = λ w. grind arith;
        holds = λ v pos lo hi none.
            let h = inv.holds v pos in let d = inv.data_in ((v + 1) % 2) v in grind arith;
      }

  pub enter-Inv :
      (k : ℕ)
      → s.pc (suc k) ≡ entering
      → Inv
          (next_round s
            (suc k)
            awaiting_valid
            (add (add s.ready_sent k 0 (s.round_num (suc k) + 1)) k 1 (s.round_num (suc k) + 2)))
          i
  enter-Inv k e =
      let facts = pc_facts s (suc k) entering e in
      record {
        begun = grind arith;
        fresh = grind arith;
        ready_le = λ j. let h = inv.ready_le j in grind arith;
        ready_sent_le = λ j v some. let h = inv.ready_sent_le j v in grind arith;
        claimed_le = grind arith;
        behind = grind arith;
        valid_le = λ j. let h = inv.valid_le j in grind arith;
        valid_sent_le = λ j v some. let h = inv.valid_sent_le j v in grind arith;
        data_in = λ j v some. let h = inv.data_in j v in grind arith;
        valid_data = λ j some. let h = inv.valid_data j in grind arith;
        come = λ w. grind arith;
        holds = λ v pos lo hi none.
            let h = inv.holds v pos in let d = inv.data_in ((v + 1) % 2) v in grind arith;
      }

  pub begin_first-Inv : s.pc 0 ≡ awaiting_valid → Inv (move s 0 awaiting_ready) i
  begin_first-Inv e =
      let facts = pc_facts s 0 awaiting_valid e in
      record {
        begun = grind arith;
        fresh = grind arith;
        ready_le = λ j. let h = inv.ready_le j in grind arith;
        ready_sent_le = λ j v some. let h = inv.ready_sent_le j v in grind arith;
        claimed_le = grind arith;
        behind = grind arith;
        valid_le = λ j. let h = inv.valid_le j in grind arith;
        valid_sent_le = λ j v some. let h = inv.valid_sent_le j v in grind arith;
        data_in = λ j v some. let h = inv.data_in j v in grind arith;
        valid_data = λ j some. let h = inv.valid_data j in grind arith;
        come = λ w. grind arith;
        holds = λ v pos lo hi none.
            let h = inv.holds v pos in let d = inv.data_in ((v + 1) % 2) v in grind arith;
      }

  pub see_valid-Inv :
      (k : ℕ)
      → s.pc (suc k) ≡ awaiting_valid
      → s.valid_num (suc k) (buffer_of (s.round_num (suc k))) ≡ s.round_num (suc k)
      → Inv (move s (suc k) awaiting_ready) i
  see_valid-Inv k e seen =
      let facts = pc_facts s (suc k) awaiting_valid e in
      record {
        begun = grind arith;
        fresh = grind arith;
        ready_le = λ j. let h = inv.ready_le j in grind arith;
        ready_sent_le = λ j v some. let h = inv.ready_sent_le j v in grind arith;
        claimed_le = grind arith;
        behind = grind arith;
        valid_le = λ j. let h = inv.valid_le j in grind arith;
        valid_sent_le = λ j v some. let h = inv.valid_sent_le j v in grind arith;
        data_in = λ j v some. let h = inv.data_in j v in grind arith;
        valid_data = λ j some. let h = inv.valid_data j in grind arith;
        come = λ w.
            let j = buffer_of (s.round_num (suc i)) in
            let h = inv.valid_data j in let g = inv.valid_le j in let f = inv.come in grind arith;
        holds = λ v pos lo hi none.
            let h = inv.holds v pos in let d = inv.data_in ((v + 1) % 2) v in grind arith;
      }

  pub see_ready-Inv :
      (k : ℕ)
      → s.pc k ≡ awaiting_ready
      → s.ready_num k (buffer_of (s.round_num k)) ≡ s.round_num k
      → Inv (move s k sending) i
  see_ready-Inv k e seen =
      let facts = pc_facts s k awaiting_ready e in
      record {
        begun = grind arith;
        fresh = grind arith;
        ready_le = λ j. let h = inv.ready_le j in grind arith;
        ready_sent_le = λ j v some. let h = inv.ready_sent_le j v in grind arith;
        claimed_le = let h = inv.ready_le (buffer_of (s.round_num k)) in grind arith;
        behind = grind arith;
        valid_le = λ j. let h = inv.valid_le j in grind arith;
        valid_sent_le = λ j v some. let h = inv.valid_sent_le j v in grind arith;
        data_in = λ j v some. let h = inv.data_in j v in grind arith;
        valid_data = λ j some. let h = inv.valid_data j in grind arith;
        come = λ w. grind arith;
        holds = λ v pos lo hi none.
            let h = inv.holds v pos in let d = inv.data_in ((v + 1) % 2) v in grind arith;
      }

  pub print_last-Inv : (k : ℕ) → suc i < suc k → s.pc k ≡ awaiting_ready → Inv (move s k delaying) i
  print_last-Inv k lt e =
      let facts = pc_facts s k awaiting_ready e in
      record {
        begun = grind arith;
        fresh = grind arith;
        ready_le = λ j. let h = inv.ready_le j in grind arith;
        ready_sent_le = λ j v some. let h = inv.ready_sent_le j v in grind arith;
        claimed_le = grind arith;
        behind = grind arith;
        valid_le = λ j. let h = inv.valid_le j in grind arith;
        valid_sent_le = λ j v some. let h = inv.valid_sent_le j v in grind arith;
        data_in = λ j v some. let h = inv.data_in j v in grind arith;
        valid_data = λ j some. let h = inv.valid_data j in grind arith;
        come = λ w. grind arith;
        holds = λ v pos lo hi none.
            let h = inv.holds v pos in let d = inv.data_in ((v + 1) % 2) v in grind arith;
      }
