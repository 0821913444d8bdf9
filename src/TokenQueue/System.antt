-- ===== src/TokenQueue/System.antt =====
-- software/spmd/bsg_token_queue/main.c: tile 0 sends frames to tile 1 through a buffer of `windows`
-- frames in tile 1, under the token queue with depth 1. A frame is one value, `payload i` in round
-- i, and an index counts frames. A store to the peer's counter is in flight until it is delivered,
-- in order; source_process stores a frame that bsg_commit_stores completes before the counter is sent.
use bsg_manycore.Prelude.{ℕ, ◌+◌, ◌≡◌, true, List, [], ◌∷◌, ◌++◌, ◌==◌, if◌then◌else◌}
use bsg_manycore.TokenQueue.{
  TokenPair, sender_confirmed, sender_xfer, receiver_confirmed, receiver_release,
}

-- where a round of the sender's loop stands
pub data SenderPc : Type 0 where
  confirming : SenderPc
  filling : SenderPc
  sending : SenderPc

-- where a round of the receiver's loop stands
pub data ReceiverPc : Type 0 where
  awaiting : ReceiverPc
  processing : ReceiverPc
  releasing : ReceiverPc

pub record State : Type 0 where
  pub sender_pair : TokenPair
  pub sender_index : ℕ  -- bufIndex of tile 0
  pub sent : ℕ  -- its round, i
  pub sender_pc : SenderPc
  pub receiver_pair : TokenPair
  pub receiver_index : ℕ  -- bufIndex of tile 1
  pub received : ℕ  -- its round, i
  pub receiver_pc : ReceiverPc
  pub buffer : ℕ → ℕ
  pub got : List ℕ  -- the frames that tile 1 has processed, the latest first
  pub to_receiver : List ℕ  -- stores to its `send` counter in flight
  pub to_sender : List ℕ  -- stores to tile 0's `receive` counter in flight

abbrev zero_pair : TokenPair
zero_pair = record { send = 0; receive = 0 }

unfoldable pub initial : (ℕ → ℕ) → State
initial contents = record {
  sender_pair = zero_pair;
  sender_index = 0;
  sent = 0;
  sender_pc = confirming;
  receiver_pair = zero_pair;
  receiver_index = 0;
  received = 0;
  receiver_pc = awaiting;
  buffer = contents;
  got = [];
  to_receiver = [];
  to_sender = [];
}

-- `bufIndex += kTransmitSize; if (bufIndex == kBufferSize) bufIndex = 0;` in frames
unfoldable pub next_index : (windows index : ℕ) → ℕ
next_index windows index = if index + 1 == windows then 0 else index + 1

abbrev write_frame : (ℕ → ℕ) → ℕ → ℕ → ℕ → ℕ
write_frame buffer i v j = if j == i then v else buffer j

module _ (windows : ℕ) (payload : ℕ → ℕ) where
  unfoldable pub confirm_send : State → State
  confirm_send s = record s { sender_pc = filling }

  unfoldable pub fill : State → State
  fill s = record s {
    buffer = write_frame s.buffer s.sender_index (payload s.sent);
    sender_pc = sending;
  }

  unfoldable pub xfer : State → State
  unfolding sender_xfer next_index
  xfer s =
      let out = sender_xfer s.sender_pair 1 in
      record s {
        sender_pair = out.local;
        to_receiver = s.to_receiver ++ (out.remote ∷ []);
        sender_index = next_index windows s.sender_index;
        sent = s.sent + 1;
        sender_pc = confirming;
      }

  unfoldable pub confirm_receive : State → State
  confirm_receive s = record s { receiver_pc = processing }

  unfoldable pub process : State → State
  process s = record s { got = s.buffer s.receiver_index ∷ s.got; receiver_pc = releasing }

  unfoldable pub release : State → State
  unfolding receiver_release next_index
  release s =
      let out = receiver_release s.receiver_pair 1 in
      record s {
        receiver_pair = out.local;
        to_sender = s.to_sender ++ (out.remote ∷ []);
        receiver_index = next_index windows s.receiver_index;
        received = s.received + 1;
        receiver_pc = awaiting;
      }

  unfoldable pub deliver_send : ℕ → List ℕ → State → State
  deliver_send v rest s = record s {
    receiver_pair = record { send = v; receive = s.receiver_pair.receive };
    to_receiver = rest;
  }

  unfoldable pub deliver_receive : ℕ → List ℕ → State → State
  deliver_receive v rest s = record s {
    sender_pair = record { send = s.sender_pair.send; receive = v };
    to_sender = rest;
  }

  -- One step of either tile, or the arrival of a store.
  pub data Step (s : State) : State → Type 0 where
    confirm_send_step :
        s.sender_pc ≡ confirming
        → sender_confirmed s.sender_pair windows 1 ≡ true
        → Step s (confirm_send s)
    fill_step : s.sender_pc ≡ filling → Step s (fill s)
    xfer_step : s.sender_pc ≡ sending → Step s (xfer s)
    confirm_receive_step :
        s.receiver_pc ≡ awaiting
        → receiver_confirmed s.receiver_pair 1 ≡ true
        → Step s (confirm_receive s)
    process_step : s.receiver_pc ≡ processing → Step s (process s)
    release_step : s.receiver_pc ≡ releasing → Step s (release s)
    deliver_send_step :
        (v : ℕ) (rest : List ℕ) → s.to_receiver ≡ v ∷ rest → Step s (deliver_send v rest s)
    deliver_receive_step :
        (v : ℕ) (rest : List ℕ) → s.to_sender ≡ v ∷ rest → Step s (deliver_receive v rest s)

  pub data Reach (contents : ℕ → ℕ) : State → Type 0 where
    start : Reach contents (initial contents)
    later : {s t : State} → Reach contents s → Step s t → Reach contents t
