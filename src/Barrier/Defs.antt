-- ===== src/Barrier/Defs.antt =====
-- What holds between the steps of the tiles of Barrier.
use bsg_manycore.Prelude.{
  ℕ, zero, suc, ◌+◌, ◌-◌, ◌≤◌, ◌<◌, ◌≡◌, ◌≢◌, true, if◌then◌else◌, ltb, refl, arith,
}
use bsg_manycore.Barrier.{
  Pc, outside, locking, reading, writing, unlocking, waiting, clearing, locking_again, signalling,
  resetting, unlocking_again, State,
}

-- 1 from a tile's increment until it returns
abbrev pub added : Pc → ℕ
added outside = 0
added locking = 0
added reading = 0
added (writing v) = 0
added unlocking = 1
added waiting = 1
added clearing = 1
added locking_again = 1
added (signalling k) = 1
added resetting = 1
added unlocking_again = 1

-- 1 while the tile holds the mutex
abbrev pub critical : Pc → ℕ
critical outside = 0
critical locking = 0
critical reading = 1
critical (writing v) = 1
critical unlocking = 1
critical waiting = 0
critical clearing = 0
critical locking_again = 0
critical (signalling k) = 1
critical resetting = 1
critical unlocking_again = 1

-- 1 from where the chief has seen all tiles until it resets the count
abbrev pub full : Pc → ℕ
full locking_again = 1
full (signalling k) = 1
full resetting = 1
full p = 0

-- 1 between the chief's reset and its return
abbrev pub done : Pc → ℕ
done unlocking_again = 1
done p = 0

-- 1 where the chief has sent its alert of this round to tile t
abbrev pub sent : Pc → ℕ → ℕ
sent (signalling k) t = if ltb t k then 1 else 0
sent resetting t = 1
sent p t = 0

abbrev pub seen : Pc → ℕ
seen clearing = 1
seen p = 0

pub added_le : (p : Pc) → added p ≤ 1
added_le outside = omega arith
added_le locking = omega arith
added_le reading = omega arith
added_le (writing v) = omega arith
added_le unlocking = omega arith
added_le waiting = omega arith
added_le clearing = omega arith
added_le locking_again = omega arith
added_le (signalling k) = omega arith
added_le resetting = omega arith
added_le unlocking_again = omega arith

pub seen_le : (p : Pc) → seen p ≤ 1
seen_le outside = omega arith
seen_le locking = omega arith
seen_le reading = omega arith
seen_le (writing v) = omega arith
seen_le unlocking = omega arith
seen_le waiting = omega arith
seen_le clearing = omega arith
seen_le locking_again = omega arith
seen_le (signalling k) = omega arith
seen_le resetting = omega arith
seen_le unlocking_again = omega arith

pub critical_le : (p : Pc) → critical p ≤ 1
critical_le outside = omega arith
critical_le locking = omega arith
critical_le reading = omega arith
critical_le (writing v) = omega arith
critical_le unlocking = omega arith
critical_le waiting = omega arith
critical_le clearing = omega arith
critical_le locking_again = omega arith
critical_le (signalling k) = omega arith
critical_le resetting = omega arith
critical_le unlocking_again = omega arith

pub full_le : (p : Pc) → full p ≤ 1
full_le outside = omega arith
full_le locking = omega arith
full_le reading = omega arith
full_le (writing v) = omega arith
full_le unlocking = omega arith
full_le waiting = omega arith
full_le clearing = omega arith
full_le locking_again = omega arith
full_le (signalling k) = omega arith
full_le resetting = omega arith
full_le unlocking_again = omega arith

pub sent_le : (p : Pc) (t : ℕ) → (sent p t ≤ full p) × (sent p t ≤ critical p)
sent_le outside t = (omega arith, omega arith)
sent_le locking t = (omega arith, omega arith)
sent_le reading t = (omega arith, omega arith)
sent_le (writing v) t = (omega arith, omega arith)
sent_le unlocking t = (omega arith, omega arith)
sent_le waiting t = (omega arith, omega arith)
sent_le clearing t = (omega arith, omega arith)
sent_le locking_again t = (omega arith, omega arith)
sent_le (signalling k) t = (ground arith, ground arith)
sent_le resetting t = (omega arith, omega arith)
sent_le unlocking_again t = (omega arith, omega arith)

-- a value that was read is still the count
abbrev pub Fresh : Pc → ℕ → Type 0
Fresh (writing v) count = v ≡ count
Fresh p count = Unit

-- a tile outside the critical section holds no value
pub Fresh-idle : (p : Pc) (count : ℕ) → critical p ≢ 1 → Fresh p count
Fresh-idle outside count n = tt
Fresh-idle locking count n = tt
Fresh-idle reading count n = tt
Fresh-idle (writing v) count n = absurd (n refl)
Fresh-idle unlocking count n = tt
Fresh-idle waiting count n = tt
Fresh-idle clearing count n = tt
Fresh-idle locking_again count n = tt
Fresh-idle (signalling k) count n = tt
Fresh-idle resetting count n = tt
Fresh-idle unlocking_again count n = tt

-- the tiles below n that have joined since the last of `rounds` resets
abbrev pub total : ℕ → (ℕ → ℕ) → ℕ
total zero f = 0
total (suc n) f = f n + total n f

module _ (threads chief : ℕ) where
  pub record Inv (s : State) : Type 0 where
    pub account : (t : ℕ) → t < threads → (s.tile t).joined ≡ (s.tile t).left + added (s.tile t).pc
    pub round : s.rounds ≡ (s.tile chief).left + done (s.tile chief).pc
    pub bound :
        (t : ℕ)
        → t < threads
        → (s.rounds + sent (s.tile chief).pc t ≤ (s.tile t).joined)
          × ((s.tile t).joined ≤ s.rounds + 1)
    pub alerts :
        (t : ℕ)
        → t < threads
        → t ≢ chief
        → (s.tile t).left + (s.tile t).alert + (s.tile t).flight
          ≡ s.rounds + sent (s.tile chief).pc t
    pub saw : (t : ℕ) → t < threads → t ≢ chief → seen (s.tile t).pc ≤ (s.tile t).alert
    pub everyone :
        full (s.tile chief).pc ≡ 1 → (t : ℕ) → t < threads → (s.tile t).joined ≡ s.rounds + 1
    pub exclusive :
        (t u : ℕ)
        → t < threads
        → u < threads
        → critical (s.tile t).pc ≡ 1
        → critical (s.tile u).pc ≡ 1
        → t ≡ u
    pub held : (t : ℕ) → t < threads → critical (s.tile t).pc ≡ 1 → s.locked ≡ true
    pub fresh : (t : ℕ) → t < threads → Fresh (s.tile t).pc s.joined_count
    pub counted : s.joined_count ≡ total threads (λ t. (s.tile t).joined - s.rounds)
