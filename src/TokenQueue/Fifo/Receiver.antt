-- ===== src/TokenQueue/Fifo/Receiver.antt =====
-- The steps of tile 1 keep the invariant.
use bsg_manycore.Prelude.{
  ℕ, suc, ◌+◌, ◌^◌, ◌≤◌, ◌<◌, ◌≡◌, arith, true, List, ◌∷◌, ap, ap₂, sym, subst, ◌∙◌,
}
use bsg_manycore.TokenQueue.{TokenPair, word, receiver_confirmed}
use bsg_manycore.TokenQueue.Wrap.{receiver_confirmed_iff}
use bsg_manycore.TokenQueue.System.{
  State, ReceiverPc, awaiting, processing, releasing, next_index, confirm_receive, process, release,
  deliver_send,
}
use bsg_manycore.TokenQueue.Fifo.Defs.{
  pair_of, Flight, Flight-le, Flight-send, mod-next, history, ReceiverHolds, Inv,
}

module _ (windows : ℕ) (payload : ℕ → ℕ) (small : windows < 2 ^ 31) (several : 1 < windows) where
  pub confirm_receive-Inv :
      (s : State) (a b : ℕ)
      → Inv windows payload s a b
      → s.receiver_pc ≡ awaiting
      → receiver_confirmed s.receiver_pair 1 ≡ true
      → Inv windows payload (confirm_receive windows payload s) a b
  unfolding confirm_receive
  confirm_receive-Inv s a b inv pc ok = record {
    order = inv.order;
    counters = inv.counters;
    indices = inv.indices;
    to_receiver_rises = inv.to_receiver_rises;
    to_sender_rises = inv.to_sender_rises;
    sender_holds = inv.sender_holds;
    receiver_holds =
        (waiting, subst (ReceiverHolds windows payload s.received a s.got) pc inv.receiver_holds);
    frames = inv.frames;
  }
    where
      passed : receiver_confirmed (pair_of (word a) (word s.received)) 1 ≡ true
      passed = ap (λ p. receiver_confirmed p 1) (sym inv.counters.1) ∙ ok

      waiting : s.received + 1 ≤ a
      waiting =
          (receiver_confirmed_iff a s.received 1 (omega arith) (omega arith) (omega arith)).0 passed

  pub process-Inv :
      (s : State) (a b : ℕ)
      → Inv windows payload s a b
      → s.receiver_pc ≡ processing
      → Inv windows payload (process windows payload s) a b
  unfolding process
  process-Inv s a b inv pc = record {
    order = inv.order;
    counters = inv.counters;
    indices = inv.indices;
    to_receiver_rises = inv.to_receiver_rises;
    to_sender_rises = inv.to_sender_rises;
    sender_holds = inv.sender_holds;
    receiver_holds = (ready.0, ap₂ ◌∷◌ frame ready.1);
    frames = inv.frames;
  }
    where
      ready : ReceiverHolds windows payload s.received a s.got processing
      ready = subst (ReceiverHolds windows payload s.received a s.got) pc inv.receiver_holds

      frame : s.buffer s.receiver_index ≡ payload s.received
      frame =
          ap s.buffer inv.indices.1 ∙ inv.frames s.received (omega arith) (omega (arith, ready.0))

  pub release-Inv :
      (s : State) (a b : ℕ)
      → Inv windows payload s a b
      → s.receiver_pc ≡ releasing
      → Inv windows payload (release windows payload s) a b
  unfolding release
  release-Inv s a b inv pc = record {
    order = omega (arith, ready.0);
    counters = (
      inv.counters.0,
      ap (λ (p : TokenPair). pair_of p.send (word (p.receive + 1))) inv.counters.1 ∙ counter,
    );
    indices = (
      inv.indices.0,
      ap (next_index windows) inv.indices.1 ∙ mod-next windows s.received several,
    );
    to_receiver_rises = inv.to_receiver_rises;
    to_sender_rises =
        Flight-send b s.received s.to_sender _
          (ap (λ p. word (p.receive + 1)) inv.counters.1 ∙ omega arith) inv.to_sender_rises;
    sender_holds = inv.sender_holds;
    receiver_holds = ready.1 ∙ next_history;
    frames = λ k lo hi. inv.frames k (omega arith) hi;
  }
    where
      ready : ReceiverHolds windows payload s.received a s.got releasing
      ready = subst (ReceiverHolds windows payload s.received a s.got) pc inv.receiver_holds

      counter :
          pair_of (word a) (word (word s.received + 1)) ≡ pair_of (word a) (word (s.received + 1))
      counter = ap (λ t. pair_of (word a) (t)) (omega arith)

      next_history :
          payload s.received ∷ history windows payload s.received
          ≡ history windows payload (s.received + 1)
      next_history = ap (history windows payload) {x = suc s.received} (omega arith)

  pub deliver_send-Inv :
      (s : State) (a b v : ℕ) (rest : List ℕ)
      → Inv windows payload s a b
      → s.to_receiver ≡ v ∷ rest
      → (a' : ℕ) × Inv windows payload (deliver_send windows payload v rest s) a' b
  unfolding deliver_send
  deliver_send-Inv s a b v rest inv e = (
    a',
    record {
      order = omega (arith, flight.1, Flight-le a' s.sent rest after);
      counters = (inv.counters.0, pair_path);
      indices = inv.indices;
      to_receiver_rises = after;
      to_sender_rises = inv.to_sender_rises;
      sender_holds = inv.sender_holds;
      receiver_holds = more s.receiver_pc inv.receiver_holds;
      frames = inv.frames;
    },
  )
    where
      flight : Flight a s.sent (v ∷ rest)
      flight = subst (Flight a s.sent) e inv.to_receiver_rises

      a' : ℕ
      a' = flight.0

      after : Flight a' s.sent rest
      after = flight.3

      pair_path : pair_of (v) (s.receiver_pair.receive) ≡ pair_of (word a') (word s.received)
      pair_path = ap₂ (λ x (y : TokenPair). pair_of (x) (y.receive)) flight.2 inv.counters.1

      more :
          (p : ReceiverPc)
          → ReceiverHolds windows payload s.received a s.got p
          → ReceiverHolds windows payload s.received a' s.got p
      more awaiting h = h
      more processing h = (omega (arith, h.0, flight.1), h.1)
      more releasing h = (omega (arith, h.0, flight.1), h.1)
