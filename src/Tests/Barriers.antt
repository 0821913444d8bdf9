-- ===== src/Tests/Barriers.antt =====
-- A run of two tiles through the barrier of software/bsg_manycore_lib/bsg_barrier.h, tile 0 its chief.
use bsg_manycore.Prelude.{ℕ, ◌+◌, ◌-◌, ◌≤◌, ◌≡◌, arith, refl, true}
use bsg_manycore.Barrier.{
  State, Step, Reach, initial, move, lock, try_lock, unlock, write_count, reset_count, locking,
  reading, writing, waiting, goto, signalling, with_tile, send_alert, locking_again, resetting,
  returned, num_threads,
}
use bsg_manycore.Barrier.Defs.{critical, total}
use bsg_manycore.Barrier.Safety.{mutual_exclusion, joined_count_lem, barrier_safe}

-- the bounds of a group of 2 by 1 tiles
two_threads : num_threads 0 1 0 0 ≡ 2
unfolding num_threads
two_threads = refl

abbrev locked : State
locked = lock (move initial 0 locking) 0 reading

locked_reached : Reach 2 0 locked
unfolding lock try_lock unlock write_count reset_count
locked_reached =
    Reach.step _ _ (Reach.step _ _ (Reach.start) (Step.enter _ 0 (omega arith) refl))
      (Step.try _ 0 (omega arith) refl)

locked_critical : critical (locked.tile 0).pc ≡ 1
unfolding lock try_lock
locked_critical = refl

abbrev tile_0 : ℕ
tile_0 = 0

mutual_exclusion_example : (tile_0 ≡ 0) × (locked.locked ≡ true)
mutual_exclusion_example =
    mutual_exclusion 2 0 (omega arith) (omega arith) locked locked_reached 0 0 (omega arith)
      (omega arith) locked_critical locked_critical

-- tile t reads the count, which is `value`, and stores it increased
abbrev joined : State → (t value : ℕ) → State
joined s t value =
    let w = write_count (move (lock (move s t locking) t reading) t (writing value)) t value in
    unlock w t (goto (w.tile t) waiting)

abbrev both : State
both = joined (joined initial 0 0) 1 1

both_reached : Reach 2 0 both
unfolding lock try_lock unlock write_count reset_count
both_reached =
    Reach.step _ _
      (Reach.step _ _
        (Reach.step _ _
          (Reach.step _ _
            (Reach.step _ _
              (Reach.step _ _
                (Reach.step _ _
                  (Reach.step _ _
                    (Reach.step _ _
                      (Reach.step _ _ (Reach.start) (Step.enter _ 0 (omega arith) refl))
                      (Step.try _ 0 (omega arith) refl))
                    (Step.read _ 0 (omega arith) refl))
                  (Step.write _ 0 0 (omega arith) refl))
                (Step.release _ 0 (omega arith) refl))
              (Step.enter _ 1 (omega arith) refl))
            (Step.try _ 1 (omega arith) refl))
          (Step.read _ 1 (omega arith) refl))
        (Step.write _ 1 1 (omega arith) refl))
      (Step.release _ 1 (omega arith) refl)

joined_count_example :
    (both.joined_count ≡ total 2 (λ t. (both.tile t).joined - both.rounds))
    × (both.rounds ≤ (both.tile 1).joined)
    × ((both.tile 1).joined ≤ both.rounds + 1)
joined_count_example =
    joined_count_lem 2 0 (omega arith) (omega arith) both both_reached 1 (omega arith)

-- the chief alerts both tiles, resets the count and returns
abbrev alerting : State → ℕ → State
alerting s k = let s1 = move s 0 (signalling (k + 1)) in with_tile s1 k (send_alert (s1.tile k))

abbrev chief_left : State
chief_left =
    let a = alerting (alerting (lock (move both 0 locking_again) 0 (signalling 0)) 0) 1 in
    let r = reset_count (move a 0 resetting) 0 in unlock r 0 (returned (r.tile 0) (r.tile 0).alert)

chief_left_reached : Reach 2 0 chief_left
unfolding lock try_lock unlock write_count reset_count
chief_left_reached =
    Reach.step _ _
      (Reach.step _ _
        (Reach.step _ _
          (Reach.step _ _
            (Reach.step _ _
              (Reach.step _ _ (Reach.step _ _ (both_reached) (Step.all_joined _ refl refl))
                (Step.try_again _ refl))
              (Step.signal _ 0 refl (omega arith) _ refl))
            (Step.signal _ 1 refl (omega arith) _ refl))
          (Step.signalled _ 2 refl (omega arith)))
        (Step.reset _ refl))
      (Step.release_again _ refl)

barrier_safe_example : (chief_left.tile 0).left ≤ (chief_left.tile 1).joined
barrier_safe_example =
    barrier_safe 2 0 (omega arith) (omega arith) chief_left chief_left_reached 0 1 (omega arith)
      (omega arith)

one_left : (chief_left.tile 0).left ≡ 1
unfolding lock try_lock unlock write_count reset_count
one_left = refl
