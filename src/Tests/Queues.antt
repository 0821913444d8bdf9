-- ===== src/Tests/Queues.antt =====
-- The token queue at concrete inputs: software/bsg_manycore_lib/bsg_token_queue.h and a run of
-- software/spmd/bsg_token_queue/main.c.
use bsg_manycore.Prelude.{ℕ, ◌+◌, ◌-◌, ◌*◌, ◌^◌, ◌≤◌, ◌≡◌, ◌≢◌, ◌↔◌, arith, refl, true, []}
use bsg_manycore.Arch.{remote_ptr, local_ptr}
use bsg_manycore.TokenQueue.{
  word, tq_send_connection, tq_receive_connection, pair_addr, sender_confirmed, receiver_confirmed,
  receiver_confirmed_short, sender_xfer,
}
use bsg_manycore.TokenQueue.Wrap.{
  sender_confirmed_iff, receiver_confirmed_short-always, connections_meet,
}
use bsg_manycore.TokenQueue.System.{
  State, confirming, awaiting, initial, next_index, confirm_send, fill, xfer, confirm_receive,
  process, release, deliver_send, confirm_send_step, fill_step, xfer_step, confirm_receive_step,
  process_step, release_step, deliver_send_step, Reach, start, later,
}
use bsg_manycore.TokenQueue.Fifo.{history, frames_in_order, no_overlap}

-- 2 ^ 32 + 5 elements in all, of which 2 ^ 32 - 1 are free again
sender_confirmed_iff_example :
    (sender_confirmed (record { send = word (2 ^ 32 + 5); receive = word (2 ^ 32 - 1) }) 8 2 ≡ true)
    ↔ (2 ^ 32 + 5 + 2 ≤ 2 ^ 32 - 1 + 8)
sender_confirmed_iff_example =
    sender_confirmed_iff (2 ^ 32 + 5) (2 ^ 32 - 1) 8 2 (omega arith) (omega arith) (omega arith)
      (omega arith)

-- an empty queue after 2 ^ 15 elements
receiver_confirmed_short-always_example :
    receiver_confirmed_short (record { send = 32768; receive = 32768 }) 1 ≡ true
receiver_confirmed_short-always_example =
    receiver_confirmed_short-always 32768 32768 1 (omega arith) (omega arith) (omega arith)
      (omega arith)

pairs_fit : (pair_addr 4 4096 0 0 + 8 ≤ 2 ^ 18) × (pair_addr 4 4096 1 0 + 8 ≤ 2 ^ 18)
unfolding pair_addr
pairs_fit = (omega arith, omega arith)

connections_meet_example :
    let sender = tq_send_connection 4 0 0 4096 1 0 in
    let receiver = tq_receive_connection 4 1 0 4096 0 0 in
    (sender.remote_ptr ≡ remote_ptr 1 0 receiver.local_ptr)
    × (local_ptr sender.remote_ptr ≡ receiver.local_ptr)
    × (receiver.remote_ptr ≡ remote_ptr 0 0 (sender.local_ptr + 4))
    × (local_ptr receiver.remote_ptr ≡ sender.local_ptr + 4)
connections_meet_example =
    connections_meet 4 4096 0 0 1 0 (omega arith, omega arith, omega arith, omega arith) pairs_fit

abbrev payload : ℕ → ℕ
payload i = 7 * i + 1

abbrev contents : ℕ → ℕ
contents i = 0

-- Tile 0 sends a frame, and tile 1 gets it while tile 0 fills the next.
abbrev sent_one : State
sent_one = xfer 2 payload (fill 2 payload (confirm_send 2 payload (initial contents)))

abbrev busy : State
busy = process 2 payload (
    confirm_receive 2 payload
      (fill 2 payload (confirm_send 2 payload (deliver_send 2 payload 1 [] sent_one))))

sent_one_reached : Reach 2 payload contents sent_one
unfolding initial confirm_send fill xfer sender_confirmed sender_xfer next_index
sent_one_reached =
    later (later (later start (confirm_send_step refl refl)) (fill_step refl)) (xfer_step refl)

busy_reached : Reach 2 payload contents busy
unfolding initial confirm_send fill xfer sender_confirmed sender_xfer next_index deliver_send
    receiver_confirmed confirm_receive process
busy_reached =
    later
      (later
        (later
          (later (later sent_one_reached (deliver_send_step 1 [] refl))
            (confirm_send_step refl refl))
          (fill_step refl))
        (confirm_receive_step refl refl))
      (process_step refl)

abbrev served : State
served = release 2 payload busy

served_reached : Reach 2 payload contents served
unfolding initial confirm_send fill xfer sender_confirmed sender_xfer next_index deliver_send
    receiver_confirmed confirm_receive process
served_reached = later busy_reached (release_step refl)

served_awaits : served.receiver_pc ≡ awaiting
unfolding release
served_awaits = refl

busy_places : (busy.sender_pc ≢ confirming) × (busy.receiver_pc ≢ awaiting)
unfolding initial confirm_send fill xfer sender_xfer next_index deliver_send confirm_receive process
busy_places = (λ e. ground arith, λ e. ground arith)

frames_in_order_example : served.got ≡ history 2 payload served.received
frames_in_order_example =
    frames_in_order 2 payload (omega arith) (omega arith) served_reached served_awaits

no_overlap_example : busy.sender_index ≢ busy.receiver_index
no_overlap_example =
    no_overlap 2 payload (omega arith) (omega arith) busy_reached busy_places.0 busy_places.1
