-- ===== src/Barrier.antt =====
-- software/bsg_manycore_lib/bsg_mutex.h and bsg_barrier.h: the tiles of a range that call
-- bsg_barrier_wait again and again on one barrier, a step for each access to shared memory. The tiles
-- are numbered in the order of the loops over x and y that send the alerts; a tile's stores to one tile
-- arrive in order, and the alerts, which go to different tiles, arrive at any later time.
pub mod Defs
pub mod Totals
pub mod Local
pub mod Moves
pub mod Count
pub mod Chief
pub mod Signal
pub mod Safety
use bsg_manycore.Prelude.{
  ℕ, zero, suc, ◌+◌, ◌-◌, ◌*◌, ◌%◌, ◌^◌, ◌≤◌, ◌<◌, ◌≡◌, ◌≢◌, Bool, true, false, if◌then◌else◌, ◌==◌,
}

-- The number of tiles that join, from the four 8-bit bounds: differences of ints, which wrap around.
unfoldable pub num_threads : (x_start x_end y_start y_end : ℕ) → ℕ
num_threads x_start x_end y_start y_end =
    (x_end + 2 ^ 32 - x_start + 1) * (y_end + 2 ^ 32 - y_start + 1) % 2 ^ 32

abbrev pub lock_fail : ℕ
lock_fail = 1

abbrev pub lock_success : ℕ
lock_success = 0

-- `amoswap.w.aq` on the mutex: the status that it returns and the mutex after it.
unfoldable pub try_lock : Bool → ℕ × Bool
try_lock locked = if locked then (lock_fail, true) else (lock_success, true)

-- Where a tile is in bsg_barrier_wait; `writing` holds the value that bsg_atomic_inc has read, and
-- `signalling` the number of alerts sent.
pub data Pc : Type 0 where
  outside : Pc
  locking : Pc
  reading : Pc
  writing : (value : ℕ) → Pc
  unlocking : Pc
  waiting : Pc
  clearing : Pc
  locking_again : Pc
  signalling : (k : ℕ) → Pc
  resetting : Pc
  unlocking_again : Pc

-- A tile with its own copy of the barrier: `alert` is `_local_alert`, `flight` the alerts that are on
-- their way to it, `joined` and `left` count its increments and its returns.
pub record Tile : Type 0 where
  pub pc : Pc
  pub alert : ℕ
  pub flight : ℕ
  pub joined : ℕ
  pub left : ℕ

-- `locked` and `joined_count` are fields of the chief's copy, `rounds` counts its resets.
pub record State : Type 0 where
  pub locked : Bool
  pub joined_count : ℕ
  pub rounds : ℕ
  pub tile : ℕ → Tile

abbrev pub initial : State
initial = record {
  locked = false;
  joined_count = 0;
  rounds = 0;
  tile = λ t. record { pc = outside; alert = 0; flight = 0; joined = 0; left = 0 };
}

abbrev pub put : (ℕ → Tile) → ℕ → Tile → ℕ → Tile
put tile t x u = if u == t then x else tile u

abbrev pub goto : Tile → Pc → Tile
goto x p = record { pc = p; alert = x.alert; flight = x.flight; joined = x.joined; left = x.left }

abbrev pub move : State → ℕ → Pc → State
move s t p = record {
  locked = s.locked;
  joined_count = s.joined_count;
  rounds = s.rounds;
  tile = put s.tile t (goto (s.tile t) p);
}

abbrev pub attempted : State → ℕ → Pc → ℕ × Bool → State
attempted s t next (status, locked) = record {
  locked = locked;
  joined_count = s.joined_count;
  rounds = s.rounds;
  tile = if status == lock_fail then s.tile else put s.tile t (goto (s.tile t) next);
}

-- one turn of the loop of bsg_mutex_lock, which leaves it for `next` unless the lock fails
unfoldable pub lock : State → ℕ → Pc → State
unfolding try_lock
lock s t next = attempted s t next (try_lock s.locked)

-- `amoswap.w.rl` on the mutex, then `x` for the tile
unfoldable pub unlock : State → ℕ → Tile → State
unlock s t x = record {
  locked = false;
  joined_count = s.joined_count;
  rounds = s.rounds;
  tile = put s.tile t x;
}

-- `*p_value = value + 1` of bsg_atomic_inc
unfoldable pub write_count : State → ℕ → ℕ → State
write_count s t value = record {
  locked = s.locked;
  joined_count = (value + 1) % 2 ^ 32;
  rounds = s.rounds;
  tile = put s.tile t (record {
    pc = unlocking;
    alert = (s.tile t).alert;
    flight = (s.tile t).flight;
    joined = (s.tile t).joined + 1;
    left = (s.tile t).left;
  });
}

-- the return from bsg_barrier_wait, with `alert` in the tile's `_local_alert`
abbrev pub returned : Tile → ℕ → Tile
returned x alert = record {
  pc = outside;
  alert = alert;
  flight = x.flight;
  joined = x.joined;
  left = x.left + 1;
}

abbrev pub send_alert : Tile → Tile
send_alert x = record {
  pc = x.pc;
  alert = x.alert;
  flight = x.flight + 1;
  joined = x.joined;
  left = x.left;
}

-- an alert arrives: the store of `_alert_signaled`
abbrev pub take_alert : Tile → Tile
take_alert x = record {
  pc = x.pc;
  alert = 1;
  flight = x.flight - 1;
  joined = x.joined;
  left = x.left;
}

abbrev pub with_tile : State → ℕ → Tile → State
with_tile s t x = record {
  locked = s.locked;
  joined_count = s.joined_count;
  rounds = s.rounds;
  tile = put s.tile t x;
}

-- the chief's store of 0 in `_joined_count`
unfoldable pub reset_count : State → ℕ → State
reset_count s chief = record {
  locked = s.locked;
  joined_count = 0;
  rounds = s.rounds + 1;
  tile = put s.tile chief (goto (s.tile chief) unlocking_again);
}

-- The steps of `threads` tiles with the chief, whose copy of the barrier all use, among them.
module _ (threads chief : ℕ) where
  pub data Step : State → State → Type 0 where
    enter : (s : State) (t : ℕ) → t < threads → (s.tile t).pc ≡ outside → Step s (move s t locking)
    try : (s : State) (t : ℕ) → t < threads → (s.tile t).pc ≡ locking → Step s (lock s t reading)
    read :
        (s : State) (t : ℕ)
        → t < threads
        → (s.tile t).pc ≡ reading
        → Step s (move s t (writing s.joined_count))
    write :
        (s : State) (t value : ℕ)
        → t < threads
        → (s.tile t).pc ≡ writing value
        → Step s (write_count s t value)
    release :
        (s : State) (t : ℕ)
        → t < threads
        → (s.tile t).pc ≡ unlocking
        → Step s (unlock s t (goto (s.tile t) waiting))
    alerted :
        (s : State) (t : ℕ)
        → t < threads
        → t ≢ chief
        → (s.tile t).pc ≡ waiting
        → (s.tile t).alert ≡ 1
        → Step s (move s t clearing)
    clear :
        (s : State) (t : ℕ)
        → t < threads
        → t ≢ chief
        → (s.tile t).pc ≡ clearing
        → Step s (with_tile s t (returned (s.tile t) 0))
    deliver :
        (s : State) (t : ℕ)
        → t < threads
        → 0 < (s.tile t).flight
        → Step s (with_tile s t (take_alert (s.tile t)))
    all_joined :
        (s : State)
        → (s.tile chief).pc ≡ waiting
        → s.joined_count ≡ threads
        → Step s (move s chief locking_again)
    try_again :
        (s : State) → (s.tile chief).pc ≡ locking_again → Step s (lock s chief (signalling 0))
    signal :
        (s : State) (k : ℕ)
        → (s.tile chief).pc ≡ signalling k
        → k < threads
        → (s1 : State) → s1 ≡ move s chief (signalling (k + 1))
        → Step s (with_tile s1 k (send_alert (s1.tile k)))
    signalled :
        (s : State) (k : ℕ)
        → (s.tile chief).pc ≡ signalling k
        → threads ≤ k
        → Step s (move s chief resetting)
    reset : (s : State) → (s.tile chief).pc ≡ resetting → Step s (reset_count s chief)
    release_again :
        (s : State)
        → (s.tile chief).pc ≡ unlocking_again
        → Step s (unlock s chief (returned (s.tile chief) (s.tile chief).alert))

  pub data Reach : State → Type 0 where
    start : Reach initial
    step : (s s' : State) → Reach s → Step s s' → Reach s'
