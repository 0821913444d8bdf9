-- ===== src/TokenQueue/Wrap.antt =====
-- The tests of software/bsg_manycore_lib/bsg_token_queue.h against the true counts, which grow
-- without bound while the counters wrap.
use bsg_manycore.Prelude.{ℕ, ◌+◌, ◌-◌, ◌^◌, ◌≤◌, ◌<◌, ◌≡◌, ◌↔◌, refl, arith, true}
use bsg_manycore.Arch.{remote_ptr, local_ptr}
use bsg_manycore.Arch.Layout.{remote_ptr_fields}
use bsg_manycore.TokenQueue.{
  word, tq_send_connection, tq_receive_connection, pair_addr, sender_confirmed, receiver_confirmed,
  receiver_confirmed_short,
}

-- After `sent` elements in all, of which the sender knows that `released` are free again, at most
-- `max_els` being out, bsg_tq_sender_confirm passes exactly if `depth` more elements fit the buffer,
-- wherever the 32-bit counters have wrapped to; `max_els` below 2 ^ 31, `depth` at most `max_els`.
pub sender_confirmed_iff :
    (sent released max_els depth : ℕ)
    → released ≤ sent
    → sent ≤ released + max_els
    → max_els < 2 ^ 31
    → depth ≤ max_els
    → (sender_confirmed (record { send = word sent; receive = word released }) max_els depth ≡ true)
      ↔ (sent + depth ≤ released + max_els)
unfolding sender_confirmed
sender_confirmed_iff sent released max_els depth lo hi small d = ground arith

-- After `received` elements handed back, with `sent` known to the receiver, less than 2 ^ 31 ahead,
-- bsg_tq_receiver_confirm passes exactly if `depth` elements are waiting, wherever the 32-bit
-- counters have wrapped to; `depth` below 2 ^ 31.
pub receiver_confirmed_iff :
    (sent received depth : ℕ)
    → received ≤ sent
    → sent < received + 2 ^ 31
    → depth < 2 ^ 31
    → (receiver_confirmed (record { send = word sent; receive = word received }) depth ≡ true)
      ↔ (received + depth ≤ sent)
unfolding receiver_confirmed
receiver_confirmed_iff sent received depth lo hi d = ground arith

-- With BSG_TOKEN_QUEUE_SHORT, while the receiver's 16-bit counter is negative as a short,
-- bsg_tq_receiver_confirm passes for any depth up to its distance from 0, whatever has been sent:
-- on an empty queue too.
pub receiver_confirmed_short-always :
    (send receive depth : ℕ)
    → send < 2 ^ 16
    → 2 ^ 15 ≤ receive
    → receive < 2 ^ 16
    → depth ≤ 2 ^ 16 - receive
    → receiver_confirmed_short (record { send = send; receive = receive }) depth ≡ true
unfolding receiver_confirmed_short
receiver_confirmed_short-always send receive depth hs lo hi d = ground arith

-- The two ends of a queue agree: the sender's remote pointer selects the receiver's tile, and in it
-- the `send` counter of the pair that the receiver polls; the receiver's remote pointer selects the
-- sender's tile, and in it the `receive` counter of the pair that the sender polls. The coordinates
-- are below 64 and 32, and both pairs lie within the 18-bit local address space.
pub connections_meet :
    (tiles_y token_array sx sy rx ry : ℕ)
    → (sx < 64) × (sy < 32) × (rx < 64) × (ry < 32)
    → (pair_addr tiles_y token_array sx sy + 8 ≤ 2 ^ 18)
      × (pair_addr tiles_y token_array rx ry + 8 ≤ 2 ^ 18)
    → let sender = tq_send_connection tiles_y sx sy token_array rx ry in
      let receiver = tq_receive_connection tiles_y rx ry token_array sx sy in
      (sender.remote_ptr ≡ remote_ptr rx ry receiver.local_ptr)
      × (local_ptr sender.remote_ptr ≡ receiver.local_ptr)
      × (receiver.remote_ptr ≡ remote_ptr sx sy (sender.local_ptr + 4))
      × (local_ptr receiver.remote_ptr ≡ sender.local_ptr + 4)
unfolding tq_send_connection tq_receive_connection
connections_meet tiles_y token_array sx sy rx ry (hsx, hsy, hrx, hry) (fs, fr) = (
  refl,
  (remote_ptr_fields rx ry (pair_addr tiles_y token_array sx sy) hrx hry (omega arith)).3,
  refl,
  (remote_ptr_fields sx sy (pair_addr tiles_y token_array rx ry + 4) hsx hsy (omega arith)).3,
)
