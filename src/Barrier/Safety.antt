-- ===== src/Barrier/Safety.antt =====
-- What the mutex and the barrier promise in every reachable state.
use bsg_manycore.Prelude.{ℕ, ◌+◌, ◌-◌, ◌^◌, ◌≤◌, ◌<◌, ◌≡◌, true, ap, sym, arith, subst, ℕ_discrete}
use bsg_manycore.Barrier
use bsg_manycore.Barrier.{State, Step, Reach, initial, outside}
use bsg_manycore.Barrier.Defs.{critical, full, total, Inv, sent_le, full_le}
use bsg_manycore.Barrier.Totals.{total_zero}
use bsg_manycore.Barrier.Moves.{
  enter-Inv, try-Inv, read-Inv, release-Inv, alerted-Inv, clear-Inv, deliver-Inv,
}
use bsg_manycore.Barrier.Count.{write-Inv}
use bsg_manycore.Barrier.Chief.{
  all_joined-Inv, try_again-Inv, signalled-Inv, release_again-Inv, reset-Inv,
}
use bsg_manycore.Barrier.Signal.{signal-Inv}

module _ (threads chief : ℕ) (small : threads < 2 ^ 32) (chief_in : chief < threads) where
  initial-Inv : Inv threads chief initial
  initial-Inv = record {
    account = λ t h. omega arith;
    round = omega arith;
    bound = λ t h. (omega arith, omega arith);
    alerts = λ t h n. omega arith;
    saw = λ t h n. omega arith;
    everyone = λ f. absurd (omega (arith, f));
    exclusive = λ t u h k c. absurd (omega (arith, c));
    held = λ t h c. absurd (omega (arith, c));
    fresh = λ t h. tt;
    counted = sym (total_zero threads (λ t. 0 - 0) (λ t h. omega arith));
  }

  step-Inv : (s s' : State) → Inv threads chief s → Step threads chief s s' → Inv threads chief s'
  step-Inv _ _ i (Barrier.Step.enter s t h e) = enter-Inv threads chief s t h i e
  step-Inv _ _ i (Barrier.Step.try s t h e) = try-Inv threads chief s t h i e
  step-Inv _ _ i (Barrier.Step.read s t h e) = read-Inv threads chief s t h i e
  step-Inv _ _ i (Barrier.Step.write s t v h e) = write-Inv threads chief small chief_in s t v h e i
  step-Inv _ _ i (Barrier.Step.release s t h e) = release-Inv threads chief s t h i e
  step-Inv _ _ i (Barrier.Step.alerted s t h n e a) = alerted-Inv threads chief s t h i n e a
  step-Inv _ _ i (Barrier.Step.clear s t h n e) = clear-Inv threads chief s t h i n e
  step-Inv _ _ i (Barrier.Step.deliver s t h f) = deliver-Inv threads chief s t h i f
  step-Inv _ _ i (Barrier.Step.all_joined s e c) = all_joined-Inv threads chief chief_in s i e c
  step-Inv _ _ i (Barrier.Step.try_again s e) = try_again-Inv threads chief chief_in s i e
  step-Inv _ _ i (Barrier.Step.signal s k e h s1 q) =
      subst (λ s1. Inv threads chief (Barrier.with_tile s1 k (Barrier.send_alert (s1.tile k))))
        (sym q) (signal-Inv threads chief chief_in s i k e h)
  step-Inv _ _ i (Barrier.Step.signalled s k e h) = signalled-Inv threads chief chief_in s i k e h
  step-Inv _ _ i (Barrier.Step.reset s e) = reset-Inv threads chief chief_in s i e
  step-Inv _ _ i (Barrier.Step.release_again s e) = release_again-Inv threads chief chief_in s i e

  Reach-Inv : (s : State) → Reach threads chief s → Inv threads chief s
  Reach-Inv _ Barrier.Reach.start = initial-Inv
  Reach-Inv _ (Barrier.Reach.step s s' r d) = step-Inv s s' (Reach-Inv s r) d

  -- In every reachable state of tiles that use one barrier, fewer than 2 ^ 32 with the chief among
  -- them, at most one tile of the range is between bsg_mutex_lock and the end of bsg_mutex_unlock, and
  -- while one is the mutex is locked.
  pub mutual_exclusion :
      (s : State)
      → Reach threads chief s
      → (t u : ℕ) → t < threads
      → u < threads
      → critical (s.tile t).pc ≡ 1
      → critical (s.tile u).pc ≡ 1
      → (t ≡ u) × (s.locked ≡ true)
  mutual_exclusion s r t u ht hu ct cu =
      let i = Reach-Inv s r in (i.exclusive t u ht hu ct cu, i.held t ht ct)

  -- With fewer than 2 ^ 32 tiles and the chief among them, in every reachable state no increment of
  -- the barrier's count is lost: the count is the number of tiles that have joined once more than
  -- there were resets, and no tile of the range has joined twice since the last reset.
  pub joined_count_lem :
      (s : State)
      → Reach threads chief s
      → (t : ℕ) → t < threads
      → (s.joined_count ≡ total threads (λ t. (s.tile t).joined - s.rounds))
        × (s.rounds ≤ (s.tile t).joined)
        × ((s.tile t).joined ≤ s.rounds + 1)
  joined_count_lem s r t h =
      let i = Reach-Inv s r in (i.counted, omega (arith, i.bound t h), omega (arith, i.bound t h))

  -- A barrier of fewer than 2 ^ 32 tiles with the chief among them: in every reachable state, a tile
  -- that has returned from bsg_barrier_wait n times finds that every tile of the range has joined at
  -- least n times.
  pub barrier_safe :
      (s : State)
      → Reach threads chief s
      → (t u : ℕ) → t < threads
      → u < threads
      → (s.tile t).left ≤ (s.tile u).joined
  barrier_safe s r t u ht hu =
      let i = Reach-Inv s r in
      let here : s.rounds ≤ (s.tile u).joined = omega (arith, i.bound u hu) in
      elim (ℕ_discrete t chief) [
        | yes c ↦
            let same : (s.tile t).left ≡ (s.tile chief).left = ap (λ t. (s.tile t).left) c in
            omega (arith, same, i.round, here)
        | no n ↦ elim (ℕ_discrete (full (s.tile chief).pc) 1) [
          | yes f ↦
              omega (arith, i.bound t ht, i.alerts t ht n, i.everyone f u hu, i.everyone f t ht)
          | no f ↦
              omega (
                arith,
                i.alerts t ht n,
                sent_le (s.tile chief).pc t,
                full_le (s.tile chief).pc,
                here,
              )
        ]
      ]
