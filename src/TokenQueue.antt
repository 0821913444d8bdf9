-- ===== src/TokenQueue.antt =====
-- software/bsg_manycore_lib/bsg_token_queue.h: the counters by which a sender and a receiver hand
-- the elements of a circular buffer to one another. Counters are 32-bit words, as `int` stores them
-- (16-bit with BSG_TOKEN_QUEUE_SHORT), and a comparison with 0 is that of the signed number.
pub mod Wrap
pub mod System
pub mod Fifo
use bsg_manycore.Prelude.{
  ℕ, ◌+◌, ◌-◌, ◌*◌, ◌/◌, ◌%◌, ◌^◌, Bool, true, false, not, ◌&&◌, ltb, leb, if◌then◌else◌,
}
use bsg_manycore.Arch

abbrev pub word : ℕ → ℕ
word n = n % 2 ^ 32

-- a - b of 32-bit words
abbrev pub sub32 : ℕ → ℕ → ℕ
sub32 a b = (a + 2 ^ 32 - b) % 2 ^ 32

-- the signed tests `w > 0` and `w < 0`
abbrev pub is_positive : ℕ → Bool
is_positive w = ltb 0 w && ltb w (2 ^ 31)

abbrev pub is_negative : ℕ → Bool
is_negative w = leb (2 ^ 31) w

-- bsg_token_pair_t
pub record TokenPair : Type 0 where
  pub send : ℕ
  pub receive : ℕ

-- bsg_token_connection_t: the local address of the pair and the pointer to the peer's counter
pub record Connection : Type 0 where
  pub local_ptr : ℕ
  pub remote_ptr : ℕ

-- The address of token_array[x][y], an array of bsg_tiles_Y columns of pairs of two ints.
unfoldable pub pair_addr : (tiles_y token_array x y : ℕ) → ℕ
pair_addr tiles_y token_array x y = token_array + (x * tiles_y + y) * 8

-- Called by the tile (bsg_x, bsg_y) to send to (x, y).
unfoldable pub tq_send_connection : (tiles_y bsg_x bsg_y token_array x y : ℕ) → Connection
tq_send_connection tiles_y bsg_x bsg_y token_array x y = record {
  local_ptr = pair_addr tiles_y token_array x y;
  remote_ptr = Arch.remote_ptr x y (pair_addr tiles_y token_array bsg_x bsg_y);
}

-- Called by the tile (bsg_x, bsg_y) to receive from (x, y); `receive` follows `send` in a pair.
unfoldable pub tq_receive_connection : (tiles_y bsg_x bsg_y token_array x y : ℕ) → Connection
tq_receive_connection tiles_y bsg_x bsg_y token_array x y = record {
  local_ptr = pair_addr tiles_y token_array x y;
  remote_ptr = Arch.remote_ptr x y (pair_addr tiles_y token_array bsg_x bsg_y + 4);
}

-- The test on which bsg_tq_sender_confirm leaves its loop, where `receive` is what a load of the
-- local counter returned.
unfoldable pub sender_confirmed : (local : TokenPair) (max_els depth : ℕ) → Bool
sender_confirmed local max_els depth =
    let tmp = word (sub32 0 max_els + depth + local.send) in
    not (is_positive (sub32 tmp local.receive))

-- bsg_tq_sender_xfer: the new local pair, and the value stored through the remote pointer.
unfoldable pub sender_xfer :
    (local : TokenPair) (depth : ℕ) → record { local : TokenPair; remote : ℕ }
sender_xfer local depth =
    let i = word (local.send + depth) in record { local = record local { send = i }; remote = i }

-- The test on which bsg_tq_receiver_confirm leaves its loop.
unfoldable pub receiver_confirmed : (local : TokenPair) (depth : ℕ) → Bool
receiver_confirmed local depth =
    let tmp = word (depth + local.receive) in not (is_negative (sub32 local.send tmp))

-- bsg_tq_receiver_release: the new local pair, and the value stored through the remote pointer.
unfoldable pub receiver_release :
    (local : TokenPair) (depth : ℕ) → record { local : TokenPair; remote : ℕ }
receiver_release local depth =
    let i = word (local.receive + depth) in
    record { local = record local { receive = i }; remote = i }

-- With BSG_TOKEN_QUEUE_SHORT a counter is 16 bits. As an int, a field of the pair is sign-extended;
-- the macro for the upper half of a loaded word shifts an int, and that for the lower half masks it.
abbrev pub sign_extend16 : ℕ → ℕ
sign_extend16 h = if ltb h (2 ^ 15) then h else h + (2 ^ 32 - 2 ^ 16)

abbrev pub short_receive : TokenPair → ℕ
short_receive p = sign_extend16 p.receive

abbrev pub short_send : TokenPair → ℕ
short_send p = p.send

unfoldable pub receiver_confirmed_short : (local : TokenPair) (depth : ℕ) → Bool
receiver_confirmed_short local depth =
    let tmp = word (depth + sign_extend16 local.receive) in
    not (is_negative (sub32 (short_send local) tmp))

unfoldable pub sender_confirmed_short : (local : TokenPair) (max_els depth : ℕ) → Bool
sender_confirmed_short local max_els depth =
    let tmp = word (sub32 0 max_els + depth + sign_extend16 local.send) in
    not (is_positive (sub32 tmp (short_receive local)))
