-- ===== src/TokenQueue/Fifo/Sender.antt =====
-- The steps of tile 0 keep the invariant.
use bsg_manycore.Prelude.{
  ℕ, ◌+◌, ◌%◌, ◌^◌, ◌≤◌, ◌<◌, ◌≡◌, dec_lt, arith, true, List, ◌∷◌, ap, ap₂, sym, subst, ◌∙◌,
}
use bsg_manycore.TokenQueue.{TokenPair, word, sender_confirmed}
use bsg_manycore.TokenQueue.Wrap.{sender_confirmed_iff}
use bsg_manycore.TokenQueue.System.{
  State, SenderPc, confirming, filling, sending, next_index, confirm_send, fill, xfer,
  deliver_receive,
}
use bsg_manycore.TokenQueue.Fifo.Defs.{
  pair_of, Flight, Flight-le, Flight-send, mod-next, mod-ne, SenderHolds, Inv,
}

module _ (windows : ℕ) (payload : ℕ → ℕ) (small : windows < 2 ^ 31) (several : 1 < windows) where
  pub confirm_send-Inv :
      (s : State) (a b : ℕ)
      → Inv windows payload s a b
      → s.sender_pc ≡ confirming
      → sender_confirmed s.sender_pair windows 1 ≡ true
      → Inv windows payload (confirm_send windows payload s) a b
  unfolding confirm_send
  confirm_send-Inv s a b inv pc ok = record {
    order = inv.order;
    counters = inv.counters;
    indices = inv.indices;
    to_receiver_rises = inv.to_receiver_rises;
    to_sender_rises = inv.to_sender_rises;
    sender_holds = room;
    receiver_holds = inv.receiver_holds;
    frames = inv.frames;
  }
    where
      passed : sender_confirmed (pair_of (word s.sent) (word b)) windows 1 ≡ true
      passed = ap (λ p. sender_confirmed p windows 1) (sym inv.counters.0) ∙ ok

      room : s.sent + 1 ≤ b + windows
      room =
          (sender_confirmed_iff s.sent b windows 1 (omega arith) (omega arith) small
              (omega arith)).0
            passed

  pub fill-Inv :
      (s : State) (a b : ℕ)
      → Inv windows payload s a b
      → s.sender_pc ≡ filling
      → Inv windows payload (fill windows payload s) a b
  unfolding fill
  fill-Inv s a b inv pc = record {
    order = inv.order;
    counters = inv.counters;
    indices = inv.indices;
    to_receiver_rises = inv.to_receiver_rises;
    to_sender_rises = inv.to_sender_rises;
    sender_holds = (room, ground arith);
    receiver_holds = inv.receiver_holds;
    frames = λ k lo hi.
        ground (arith, inv.frames k lo hi, mod-ne windows k s.sent hi (omega (arith, room)));
  }
    where
      room : s.sent + 1 ≤ b + windows
      room =
          subst (SenderHolds windows payload s.sent b (s.buffer s.sender_index)) pc inv.sender_holds

  pub xfer-Inv :
      (s : State) (a b : ℕ)
      → Inv windows payload s a b
      → s.sender_pc ≡ sending
      → Inv windows payload (xfer windows payload s) a b
  unfolding xfer
  xfer-Inv s a b inv pc = record {
    order = omega (arith, ready);
    counters = (
      ap (λ (p : TokenPair). pair_of (word (p.send + 1)) p.receive) inv.counters.0 ∙ counter,
      inv.counters.1,
    );
    indices =
        (ap (next_index windows) inv.indices.0 ∙ mod-next windows s.sent several, inv.indices.1);
    to_receiver_rises =
        Flight-send a s.sent s.to_receiver _
          (ap (λ p. word (p.send + 1)) inv.counters.0 ∙ omega arith) inv.to_receiver_rises;
    to_sender_rises = inv.to_sender_rises;
    sender_holds = tt;
    receiver_holds = inv.receiver_holds;
    frames = λ k lo hi. elim (dec_lt k s.sent) [
      | yes lt ↦ inv.frames k lo lt
      | no ge ↦ frame_at k (omega arith)
    ];
  }
    where
      ready : SenderHolds windows payload s.sent b (s.buffer s.sender_index) sending
      ready =
          subst (SenderHolds windows payload s.sent b (s.buffer s.sender_index)) pc inv.sender_holds

      counter : pair_of (word (word s.sent + 1)) (word b) ≡ pair_of (word (s.sent + 1)) (word b)
      counter = ap (λ t. pair_of (t) (word b)) (omega arith)

      frame_at : (k : ℕ) → k ≡ s.sent → s.buffer (k % windows) ≡ payload k
      frame_at k e = rw e (ap s.buffer (sym inv.indices.0) ∙ ready.1)

  pub deliver_receive-Inv :
      (s : State) (a b v : ℕ) (rest : List ℕ)
      → Inv windows payload s a b
      → s.to_sender ≡ v ∷ rest
      → (b' : ℕ) × Inv windows payload (deliver_receive windows payload v rest s) a b'
  unfolding deliver_receive
  deliver_receive-Inv s a b v rest inv e = (
    b',
    record {
      order = omega (arith, flight.1, Flight-le b' s.received rest after);
      counters = (pair_path, inv.counters.1);
      indices = inv.indices;
      to_receiver_rises = inv.to_receiver_rises;
      to_sender_rises = after;
      sender_holds = more s.sender_pc inv.sender_holds;
      receiver_holds = inv.receiver_holds;
      frames = inv.frames;
    },
  )
    where
      flight : Flight b s.received (v ∷ rest)
      flight = subst (Flight b s.received) e inv.to_sender_rises

      b' : ℕ
      b' = flight.0

      after : Flight b' s.received rest
      after = flight.3

      pair_path : pair_of (s.sender_pair.send) (v) ≡ pair_of (word s.sent) (word b')
      pair_path = ap₂ (λ (y : TokenPair) x. pair_of (y.send) (x)) inv.counters.0 flight.2

      more :
          (p : SenderPc)
          → SenderHolds windows payload s.sent b (s.buffer s.sender_index) p
          → SenderHolds windows payload s.sent b' (s.buffer s.sender_index) p
      more confirming h = tt
      more filling h = omega (arith, h, flight.1)
      more sending h = (omega (arith, h.0, flight.1), h.1)
