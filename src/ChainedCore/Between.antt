-- ===== src/ChainedCore/Between.antt =====
-- What holds between a core of ChainedCore/Rounds and the next.
use bsg_manycore.Prelude.{ℕ, suc, ◌+◌, ◌-◌, ◌%◌, ◌≤◌, ◌<◌, ◌≡◌, ap}
use bsg_manycore.ChainedCore.Rounds.{
  Pc, entering, awaiting_ready, sending, notifying, delaying, State, buffer_of,
}

-- the last round whose data the core after may have been promised, or been sent
abbrev pub claimed : Pc → ℕ → ℕ
claimed sending r = r
claimed notifying r = r
claimed delaying r = r
claimed p r = r - 1

abbrev pub sent : Pc → ℕ → ℕ
sent notifying r = r
sent delaying r = r
sent p r = r - 1

-- the last round that a core has told the one before that it may send
abbrev pub credit : Pc → ℕ → ℕ
credit entering r = 0
credit p r = r + 1

-- 1 in a round whose data have come
abbrev pub working : Pc → ℕ
working awaiting_ready = 1
working sending = 1
working notifying = 1
working delaying = 1
working p = 0

abbrev pub started : Pc → ℕ → ℕ
started entering r = 1
started p r = r

-- 0 for a core that has not entered before its first round
abbrev pub early : Pc → ℕ → ℕ
early entering r = r
early p r = 0

-- Between core i and the next.
pub record Inv (s : State) (i : ℕ) : Type 0 where
  pub begun :
      (0 < started (s.pc i) (s.round_num i)) × (0 < started (s.pc (suc i)) (s.round_num (suc i)))
  pub fresh :
      (early (s.pc i) (s.round_num i) ≡ 0) × (early (s.pc (suc i)) (s.round_num (suc i)) ≡ 0)
  pub ready_le : (j : ℕ) → s.ready_num i j ≤ credit (s.pc (suc i)) (s.round_num (suc i))
  pub ready_sent_le :
      (j v : ℕ) → 0 < s.ready_sent i j v → v ≤ credit (s.pc (suc i)) (s.round_num (suc i))
  pub claimed_le : claimed (s.pc i) (s.round_num i) ≤ credit (s.pc (suc i)) (s.round_num (suc i))
  pub behind : s.round_num (suc i) ≤ sent (s.pc i) (s.round_num i) + 1
  pub valid_le : (j : ℕ) → s.valid_num (suc i) j ≤ sent (s.pc i) (s.round_num i)
  pub valid_sent_le : (j v : ℕ) → 0 < s.valid_sent (suc i) j v → v ≤ sent (s.pc i) (s.round_num i)
  pub data_in :
      (j v : ℕ)
      → 0 < s.data_sent (suc i) j v
      → (0 < v)
        × (s.round_num (suc i) ≤ v)
        × (v ≤ sent (s.pc i) (s.round_num i))
        × (j ≡ (v + 1) % 2)
  pub valid_data :
      (j : ℕ) → 0 < s.valid_num (suc i) j → s.data_sent (suc i) j (s.valid_num (suc i) j) ≡ 0
  pub come :
      working (s.pc (suc i)) ≡ 1
      → (s.data_sent (suc i) (buffer_of (s.round_num (suc i))) (s.round_num (suc i)) ≡ 0)
        × (s.round_num (suc i) ≤ sent (s.pc i) (s.round_num i))
  pub holds :
      (v : ℕ)
      → 0 < v
      → s.round_num (suc i) ≤ v
      → v ≤ sent (s.pc i) (s.round_num i)
      → s.data_sent (suc i) ((v + 1) % 2) v ≡ 0
      → s.buffer (suc i) ((v + 1) % 2) ≡ v

pub pc_facts :
    (s : State) (k : ℕ) (p : Pc)
    → s.pc k ≡ p
    → (claimed (s.pc k) (s.round_num k) ≡ claimed p (s.round_num k))
      × (sent (s.pc k) (s.round_num k) ≡ sent p (s.round_num k))
      × (credit (s.pc k) (s.round_num k) ≡ credit p (s.round_num k))
      × (started (s.pc k) (s.round_num k) ≡ started p (s.round_num k))
      × (early (s.pc k) (s.round_num k) ≡ early p (s.round_num k))
      × (working (s.pc k) ≡ working p)
pc_facts s k p e = (
  ap (λ p. claimed p (s.round_num k)) e,
  ap (λ p. sent p (s.round_num k)) e,
  ap (λ p. credit p (s.round_num k)) e,
  ap (λ p. started p (s.round_num k)) e,
  ap (λ p. early p (s.round_num k)) e,
  ap working e,
)
