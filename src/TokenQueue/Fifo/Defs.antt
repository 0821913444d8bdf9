-- ===== src/TokenQueue/Fifo/Defs.antt =====
-- The invariant of software/spmd/bsg_token_queue/main.c under its token queue.
use bsg_manycore.Prelude.{
  ℕ, zero, suc, ◌+◌, ◌-◌, ◌%◌, ◌≤◌, ◌<◌, ◌≡◌, ◌≢◌, ◌⊎◌, inl, inr, dec_lt, refl, arith, List, [],
  ◌∷◌, ◌++◌, ap, sym, ◌∙◌,
}
use native.Mathlib.Nat.{mod-eq_of_lt, mod-eq-sub-mod, mod-add-mod}
use bsg_manycore.TokenQueue.{TokenPair, word}
use bsg_manycore.TokenQueue.System.{
  State, SenderPc, confirming, filling, sending, ReceiverPc, awaiting, processing, releasing,
  next_index,
}

abbrev pub pair_of : ℕ → ℕ → TokenPair
pair_of send receive = record { send = send; receive = receive }

-- The counts in flight rise from `a` to `s`.
abbrev pub Flight : ℕ → ℕ → List ℕ → Type 0
Flight a s [] = a ≡ s
Flight a s (v ∷ vs) = (a' : ℕ) × (a ≤ a') × (v ≡ word a') × Flight a' s vs

pub Flight-le : (a s : ℕ) (l : List ℕ) → Flight a s l → a ≤ s
Flight-le a s [] h = omega arith
Flight-le a s (v ∷ vs) (a', lo, _, rest) = omega (arith, Flight-le a' s vs rest)

pub Flight-send :
    (a s : ℕ) (l : List ℕ) (v : ℕ)
    → v ≡ word (s + 1)
    → Flight a s l
    → Flight a (s + 1) (l ++ (v ∷ []))
Flight-send a s [] v e h = (s + 1, omega arith, e, refl)
Flight-send a s (x ∷ l) v e (a', lo, ex, rest) = (a', lo, ex, Flight-send a' s l v e rest)

-- A remainder moves on with its number, and comes round at most once.
mod-forward :
    (w k d : ℕ)
    → d < w
    → ((k + d) % w ≡ k % w + d) × (k % w + d < w) ⊎ ((k + d) % w + w ≡ k % w + d)
mod-forward w k d h = elim (dec_lt (k % w + d) w) [
  | yes lt ↦ inl (step ∙ mod-eq_of_lt lt, lt)
  | no ge ↦ inr (
      omega (
        arith,
        step,
        mod-eq-sub-mod {n = k % w + d} {m = w} (omega arith),
        mod-eq_of_lt {n = k % w + d - w} {m = w} (omega arith),
      ))
]
  where
    step : (k + d) % w ≡ (k % w + d) % w
    step = sym (mod-add-mod k w d)

pub mod-next : (w n : ℕ) → 1 < w → next_index w (n % w) ≡ (n + 1) % w
unfolding next_index
mod-next w n h = ground (arith, mod-forward w n 1)

pub mod-ne : (w k s : ℕ) → k < s → s < k + w → k % w ≢ s % w
mod-ne w k s lo hi e =
    let same : (k + (s - k)) % w ≡ s % w = ap (λ t. t % w) (omega arith) in
    elim (mod-forward w k (s - k) (omega arith)) [
      | inl (p, _) ↦ absurd (omega arith)
      | inr p ↦ absurd (omega arith)
    ]

module _ (windows : ℕ) (payload : ℕ → ℕ) where
  -- the first n frames, the latest first
  abbrev pub history : ℕ → List ℕ
  history zero = []
  history (suc n) = payload n ∷ history n

  -- What the sender has between its confirm and its transfer.
  abbrev pub SenderHolds : (sent b frame : ℕ) → SenderPc → Type 0
  SenderHolds sent b frame confirming = Unit
  SenderHolds sent b frame filling = sent + 1 ≤ b + windows
  SenderHolds sent b frame sending = (sent + 1 ≤ b + windows) × (frame ≡ payload sent)

  abbrev pub ReceiverHolds : (received a : ℕ) → List ℕ → ReceiverPc → Type 0
  ReceiverHolds received a got awaiting = got ≡ history received
  ReceiverHolds received a got processing = (received + 1 ≤ a) × (got ≡ history received)
  ReceiverHolds received a got releasing =
      (received + 1 ≤ a) × (got ≡ payload received ∷ history received)

  pub room_of :
      (sent b frame : ℕ) (p : SenderPc)
      → p ≢ confirming
      → SenderHolds sent b frame p
      → sent + 1 ≤ b + windows
  room_of sent b frame confirming ne h = absurd (ne refl)
  room_of sent b frame filling ne h = h
  room_of sent b frame sending ne h = h.0

  pub waiting_of :
      (received a : ℕ) (got : List ℕ) (p : ReceiverPc)
      → p ≢ awaiting
      → ReceiverHolds received a got p
      → received + 1 ≤ a
  waiting_of received a got awaiting ne h = absurd (ne refl)
  waiting_of received a got processing ne h = h.0
  waiting_of received a got releasing ne h = h.0

  -- `a` counts the elements whose transfer the receiver has seen, `b` those whose release the sender
  -- has seen.
  pub record Inv (s : State) (a b : ℕ) : Type 0 where
    pub order : (b ≤ s.received) × (s.received ≤ a) × (a ≤ s.sent) × (s.sent ≤ b + windows)
    pub counters :
        (s.sender_pair ≡ pair_of (word s.sent) (word b))
        × (s.receiver_pair ≡ pair_of (word a) (word s.received))
    pub indices : (s.sender_index ≡ s.sent % windows) × (s.receiver_index ≡ s.received % windows)
    pub to_receiver_rises : Flight a s.sent s.to_receiver
    pub to_sender_rises : Flight b s.received s.to_sender
    pub sender_holds : SenderHolds s.sent b (s.buffer s.sender_index) s.sender_pc
    pub receiver_holds : ReceiverHolds s.received a s.got s.receiver_pc
    pub frames : (k : ℕ) → s.received ≤ k → k < s.sent → s.buffer (k % windows) ≡ payload k
