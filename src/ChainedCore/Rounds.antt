-- ===== src/ChainedCore/Rounds.antt =====
-- proc of software/spmd/bsg_chained_core/main.c: the cores in their rounds, a step for each access to memory.
-- A buffer is named by the round whose data it holds. The stores of a core to the next arrive in
-- order, so that the flag of a round comes after the data; all others arrive at any later time.
use bsg_manycore.Prelude.{ℕ, suc, ◌+◌, ◌%◌, ◌≤◌, ◌<◌, ◌≡◌, ◌==◌, if◌then◌else◌}
use bsg_manycore.Prelude.Updates.{put2, Flights, add, remove}

-- Where a core is in proc.
pub data Pc : Type 0 where
  entering : Pc
  awaiting_valid : Pc
  awaiting_ready : Pc
  sending : Pc
  notifying : Pc
  delaying : Pc
  finished : Pc

abbrev pub put {ℓ} : {A : Type ℓ} → (ℕ → A) → ℕ → A → ℕ → A
put f i v i1 = if i1 == i then v else f i1

-- `valid_num`, `ready_num`, the buffers and `round_num` of each core, and the stores to them in flight
pub record State : Type 0 where
  pub pc : ℕ → Pc
  pub round_num : ℕ → ℕ
  pub valid_num : ℕ → ℕ → ℕ
  pub ready_num : ℕ → ℕ → ℕ
  pub buffer : ℕ → ℕ → ℕ
  pub valid_sent : Flights
  pub ready_sent : Flights
  pub data_sent : Flights

abbrev pub initial : State
initial = record {
  pc = λ i. entering;
  round_num = λ i. 0;
  valid_num = λ i j. 0;
  ready_num = λ i j. 0;
  buffer = λ i j. 0;
  valid_sent = λ i j v. 0;
  ready_sent = λ i j v. 0;
  data_sent = λ i j v. 0;
}

abbrev pub move : State → ℕ → Pc → State
move s i p = record {
  pc = put s.pc i p;
  round_num = s.round_num;
  valid_num = s.valid_num;
  ready_num = s.ready_num;
  buffer = s.buffer;
  valid_sent = s.valid_sent;
  ready_sent = s.ready_sent;
  data_sent = s.data_sent;
}

-- round_num++ and the stores that tell the core before, if there is one, of what it may send
abbrev pub next_round : State → ℕ → Pc → Flights → State
next_round s i p ready_sent = record {
  pc = put s.pc i p;
  round_num = put s.round_num i (s.round_num i + 1);
  valid_num = s.valid_num;
  ready_num = s.ready_num;
  buffer = s.buffer;
  valid_sent = s.valid_sent;
  ready_sent = ready_sent;
  data_sent = s.data_sent;
}

abbrev pub with_flights : State → (valid_sent ready_sent data_sent : Flights) → State
with_flights s valid_sent ready_sent data_sent = record {
  pc = s.pc;
  round_num = s.round_num;
  valid_num = s.valid_num;
  ready_num = s.ready_num;
  buffer = s.buffer;
  valid_sent = valid_sent;
  ready_sent = ready_sent;
  data_sent = data_sent;
}

abbrev pub with_words : State → (valid_num ready_num buffer : ℕ → ℕ → ℕ) → State
with_words s valid_num ready_num buffer = record {
  pc = s.pc;
  round_num = s.round_num;
  valid_num = valid_num;
  ready_num = ready_num;
  buffer = buffer;
  valid_sent = s.valid_sent;
  ready_sent = s.ready_sent;
  data_sent = s.data_sent;
}

-- the `j` of the loop in a round, which starts with round 1 at 0
abbrev pub buffer_of : (round_num : ℕ) → ℕ
buffer_of round_num = (round_num + 1) % 2

-- the loop ends after `max_round_num` rounds
module _ (num_tiles max_round_num : ℕ) where
  pub data Step (s : State) : State → Type 0 where
    enter_first : s.pc 0 ≡ entering → Step s (next_round s 0 awaiting_valid s.ready_sent)
    enter :
        (i : ℕ)
        → suc i < num_tiles
        → s.pc (suc i) ≡ entering
        → Step s (
            next_round s
              (suc i)
              awaiting_valid
              (add (add s.ready_sent i 0 (s.round_num (suc i) + 1)) i 1 (s.round_num (suc i) + 2)))
    begin_first : s.pc 0 ≡ awaiting_valid → Step s (move s 0 awaiting_ready)
    see_valid :
        (i : ℕ)
        → suc i < num_tiles
        → s.pc (suc i) ≡ awaiting_valid
        → s.valid_num (suc i) (buffer_of (s.round_num (suc i))) ≡ s.round_num (suc i)
        → Step s (move s (suc i) awaiting_ready)
    see_ready :
        (i : ℕ)
        → suc i < num_tiles
        → s.pc i ≡ awaiting_ready
        → s.ready_num i (buffer_of (s.round_num i)) ≡ s.round_num i
        → Step s (move s i sending)
    send :
        (i : ℕ)
        → suc i < num_tiles
        → s.pc i ≡ sending
        → Step s (
            with_flights
              (move s i notifying)
              s.valid_sent
              s.ready_sent
              (add s.data_sent (suc i) (buffer_of (s.round_num i)) (s.round_num i)))
    notify :
        (i : ℕ)
        → suc i < num_tiles
        → s.pc i ≡ notifying
        → Step s (
            with_flights
              (move s i delaying)
              (add s.valid_sent (suc i) (buffer_of (s.round_num i)) (s.round_num i))
              s.ready_sent
              s.data_sent)
    print_last : (i : ℕ) → suc i ≡ num_tiles → s.pc i ≡ awaiting_ready → Step s (move s i delaying)
    continue_first :
        s.pc 0 ≡ delaying
        → s.round_num 0 < max_round_num
        → Step s (next_round s 0 awaiting_valid s.ready_sent)
    continue_round :
        (i : ℕ)
        → suc i < num_tiles
        → s.pc (suc i) ≡ delaying
        → s.round_num (suc i) < max_round_num
        → Step s (
            next_round s
              (suc i)
              awaiting_valid
              (add s.ready_sent i (buffer_of (s.round_num (suc i))) (s.round_num (suc i) + 2)))
    finish :
        (i : ℕ)
        → i < num_tiles
        → s.pc i ≡ delaying
        → max_round_num ≤ s.round_num i
        → Step s (next_round s i finished s.ready_sent)
    data_arrives :
        (i j v : ℕ)
        → 0 < s.data_sent i j v
        → Step s (
            with_words
              (with_flights s s.valid_sent s.ready_sent (remove s.data_sent i j v))
              s.valid_num
              s.ready_num
              (put2 s.buffer i j v))
    valid_arrives :
        (i j v : ℕ)
        → 0 < s.valid_sent i j v
        → s.data_sent i j v ≡ 0
        → Step s (
            with_words
              (with_flights s (remove s.valid_sent i j v) s.ready_sent s.data_sent)
              (put2 s.valid_num i j v)
              s.ready_num
              s.buffer)
    ready_arrives :
        (i j v : ℕ)
        → 0 < s.ready_sent i j v
        → Step s (
            with_words
              (with_flights s s.valid_sent (remove s.ready_sent i j v) s.data_sent)
              s.valid_num
              (put2 s.ready_num i j v)
              s.buffer)

  pub data Reach : State → Type 0 where
    start : Reach initial
    step : (s s1 : State) → Reach s → Step s s1 → Reach s1
