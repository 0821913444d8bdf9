-- ===== src/TokenQueue/Fifo.antt =====
-- The frames of software/spmd/bsg_token_queue/main.c arrive as they were sent.
mod Defs
mod Sender
mod Receiver
pub use Defs.{history}
use bsg_manycore.Prelude.{
  ℕ, zero, suc, ◌+◌, ◌-◌, ◌*◌, ◌/◌, ◌%◌, ◌^◌, ◌≤◌, ◌<◌, ◌≡◌, ◌≢◌, ◌⊎◌, inl, inr, dec_lt, refl,
  arith, Bool, true, List, [], ◌∷◌, ◌++◌, ap, ap₂, sym, subst, ◌∙◌,
}
use native.Mathlib.Nat.{mod-eq_of_lt, mod-eq-sub-mod, mod-add-mod}
use bsg_manycore.TokenQueue.{TokenPair, word, sender_confirmed, receiver_confirmed}
use bsg_manycore.TokenQueue.Wrap.{sender_confirmed_iff, receiver_confirmed_iff}
use bsg_manycore.TokenQueue.System.{
  State, SenderPc, confirming, filling, sending, ReceiverPc, awaiting, processing, releasing,
  initial, next_index, confirm_send, fill, xfer, confirm_receive, process, release, deliver_send,
  deliver_receive, Step, confirm_send_step, fill_step, xfer_step, confirm_receive_step,
  process_step, release_step, deliver_send_step, deliver_receive_step, Reach, start, later,
}
use Defs.{
  pair_of, Flight, Flight-le, Flight-send, mod-next, mod-ne, SenderHolds, ReceiverHolds, room_of,
  waiting_of, Inv,
}
use Sender.{confirm_send-Inv, fill-Inv, xfer-Inv, deliver_receive-Inv}
use Receiver.{confirm_receive-Inv, process-Inv, release-Inv, deliver_send-Inv}

module _ (windows : ℕ) (payload : ℕ → ℕ) (small : windows < 2 ^ 31) (several : 1 < windows) where
  Step-Inv :
      {s t : State}
      → Step windows payload s t
      → (a b : ℕ) → Inv windows payload s a b
      → (a' : ℕ) × (b' : ℕ) × Inv windows payload t a' b'
  Step-Inv {s} (confirm_send_step pc ok) a b inv =
      (a, b, confirm_send-Inv windows payload small several s a b inv pc ok)
  Step-Inv {s} (fill_step pc) a b inv = (a, b, fill-Inv windows payload small several s a b inv pc)
  Step-Inv {s} (xfer_step pc) a b inv = (a, b, xfer-Inv windows payload small several s a b inv pc)
  Step-Inv {s} (confirm_receive_step pc ok) a b inv =
      (a, b, confirm_receive-Inv windows payload small several s a b inv pc ok)
  Step-Inv {s} (process_step pc) a b inv =
      (a, b, process-Inv windows payload small several s a b inv pc)
  Step-Inv {s} (release_step pc) a b inv =
      (a, b, release-Inv windows payload small several s a b inv pc)
  Step-Inv {s} (deliver_send_step v rest e) a b inv =
      let (a', after) = deliver_send-Inv windows payload small several s a b v rest inv e in
      (a', b, after)
  Step-Inv {s} (deliver_receive_step v rest e) a b inv =
      let (b', after) = deliver_receive-Inv windows payload small several s a b v rest inv e in
      (a, b', after)

  Reach-Inv :
      {contents : ℕ → ℕ} {s : State}
      → Reach windows payload contents s
      → (a : ℕ) × (b : ℕ) × Inv windows payload s a b
  unfolding initial
  Reach-Inv start = (
    0,
    0,
    record {
      order = omega arith;
      counters = (refl, refl);
      indices = omega arith;
      to_receiver_rises = refl;
      to_sender_rises = refl;
      sender_holds = tt;
      receiver_holds = refl;
      frames = λ k lo hi. absurd (omega arith);
    },
  )
  Reach-Inv (later r st) = let (a, b, inv) = Reach-Inv r in Step-Inv st a b inv

  -- In every reachable state, with at least two windows and fewer than 2 ^ 31, whenever tile 1 is at
  -- the head of its loop it has processed exactly the frames 0 to received - 1, each once, in the
  -- order in which tile 0 sent them, however the steps and the stores in flight interleave.
  pub frames_in_order :
      {contents : ℕ → ℕ} {s : State}
      → Reach windows payload contents s
      → s.receiver_pc ≡ awaiting
      → s.got ≡ history windows payload s.received
  frames_in_order {s = s} r pc =
      let (a, b, inv) = Reach-Inv r in
      subst (ReceiverHolds windows payload s.received a s.got) pc inv.receiver_holds

  -- In every reachable state, with at least two windows and fewer than 2 ^ 31: while tile 0 fills or
  -- sends a frame and tile 1 processes or releases one, they are at different indices of the buffer.
  pub no_overlap :
      {contents : ℕ → ℕ} {s : State}
      → Reach windows payload contents s
      → s.sender_pc ≢ confirming
      → s.receiver_pc ≢ awaiting
      → s.sender_index ≢ s.receiver_index
  no_overlap {s = s} r sends receives same =
      let (a, b, inv) = Reach-Inv r in
      let full : s.sent + 1 ≤ b + windows =
        room_of windows payload _ _ _ s.sender_pc sends inv.sender_holds in
      let waiting : s.received + 1 ≤ a =
        waiting_of windows payload _ _ _ s.receiver_pc receives inv.receiver_holds in
      mod-ne windows s.received s.sent (omega (arith, inv.order)) (omega (arith, inv.order))
        (sym inv.indices.1 ∙ sym same ∙ inv.indices.0)
