-- ===== src/ChainedCore/Arrivals.antt =====
-- The arrivals of stores in ChainedCore/Rounds keep what holds between two cores.
use bsg_manycore.Prelude.{ℕ, ◌+◌, ◌%◌, ◌<◌, ◌≡◌, arith}
use bsg_manycore.Prelude.Updates.{remove, put2}
use bsg_manycore.ChainedCore.Rounds.{State, with_flights, with_words}
use bsg_manycore.ChainedCore.Between.{Inv}

module _ (s : State) (i : ℕ) (inv : Inv s i) where
  pub data_arrives-Inv :
      (k l u : ℕ)
      → 0 < s.data_sent k l u
      → Inv
          (with_words
            (with_flights s s.valid_sent s.ready_sent (remove s.data_sent k l u))
            s.valid_num
            s.ready_num
            (put2 s.buffer k l u))
          i
  data_arrives-Inv k l u some1 = record {
    begun = grind arith;
    fresh = grind arith;
    ready_le = λ j. let h = inv.ready_le j in grind arith;
    ready_sent_le = λ j v some. let h = inv.ready_sent_le j v in grind arith;
    claimed_le = grind arith;
    behind = grind arith;
    valid_le = λ j. let h = inv.valid_le j in grind arith;
    valid_sent_le = λ j v some. let h = inv.valid_sent_le j v in grind arith;
    data_in = λ j v some. let h = inv.data_in j v in grind arith;
    valid_data = λ j some. let h = inv.valid_data j in grind arith;
    come = λ w. grind arith;
    holds = λ v pos lo hi none.
        let h = inv.holds v pos in let d = inv.data_in ((v + 1) % 2) v in grind arith;
  }

  pub valid_arrives-Inv :
      (k l u : ℕ)
      → 0 < s.valid_sent k l u
      → s.data_sent k l u ≡ 0
      → Inv
          (with_words
            (with_flights s (remove s.valid_sent k l u) s.ready_sent s.data_sent)
            (put2 s.valid_num k l u)
            s.ready_num
            s.buffer)
          i
  valid_arrives-Inv k l u some1 none1 = record {
    begun = grind arith;
    fresh = grind arith;
    ready_le = λ j. let h = inv.ready_le j in grind arith;
    ready_sent_le = λ j v some. let h = inv.ready_sent_le j v in grind arith;
    claimed_le = grind arith;
    behind = grind arith;
    valid_le = λ j. let h = inv.valid_le j in grind arith;
    valid_sent_le = λ j v some. let h = inv.valid_sent_le j v in grind arith;
    data_in = λ j v some. let h = inv.data_in j v in grind arith;
    valid_data = λ j some. let h = inv.valid_data j in grind arith;
    come = λ w. grind arith;
    holds = λ v pos lo hi none.
        let h = inv.holds v pos in let d = inv.data_in ((v + 1) % 2) v in grind arith;
  }

  pub ready_arrives-Inv :
      (k l u : ℕ)
      → 0 < s.ready_sent k l u
      → Inv
          (with_words
            (with_flights s s.valid_sent (remove s.ready_sent k l u) s.data_sent)
            s.valid_num
            (put2 s.ready_num k l u)
            s.buffer)
          i
  ready_arrives-Inv k l u some1 = record {
    begun = grind arith;
    fresh = grind arith;
    ready_le = λ j. let h = inv.ready_le j in grind arith;
    ready_sent_le = λ j v some. let h = inv.ready_sent_le j v in grind arith;
    claimed_le = grind arith;
    behind = grind arith;
    valid_le = λ j. let h = inv.valid_le j in grind arith;
    valid_sent_le = λ j v some. let h = inv.valid_sent_le j v in grind arith;
    data_in = λ j v some. let h = inv.data_in j v in grind arith;
    valid_data = λ j some. let h = inv.valid_data j in grind arith;
    come = λ w. grind arith;
    holds = λ v pos lo hi none.
        let h = inv.holds v pos in let d = inv.data_in ((v + 1) % 2) v in grind arith;
  }
