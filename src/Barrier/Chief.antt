-- ===== src/Barrier/Chief.antt =====
-- The steps of the chief of bsg_barrier_wait keep the invariant.
use bsg_manycore.Prelude.{ℕ, ◌+◌, ◌-◌, ◌≤◌, ◌<◌, ◌≡◌, true, false, refl, ap, sym, ◌∙◌, arith, subst}
use bsg_manycore.Barrier.{
  waiting, locking_again, signalling, resetting, unlocking_again, State, put, goto, move, lock,
  unlock, returned, reset_count,
}
use bsg_manycore.Barrier.Defs.{added, critical, full, done, sent, seen, Fresh, Inv, Fresh-idle}
use bsg_manycore.Barrier.Totals.{total_full, total_zero}
use bsg_manycore.Barrier.Local.{put-every, put_self, put_ne, quiet-Inv}
use bsg_manycore.Barrier.Moves.{pass-Inv, lock-Inv, alone_at, unlocked_alone}

module _ (threads chief : ℕ) (chief_in : chief < threads) (s : State)
    (inv : Inv threads chief s) where
  pub all_joined-Inv :
      (s.tile chief).pc ≡ waiting
      → s.joined_count ≡ threads
      → Inv threads chief (move s chief locking_again)
  all_joined-Inv e all =
      pass-Inv threads chief s chief waiting chief_in e inv locking_again s.locked (record {
        added_eq = refl;
        done_eq = refl;
        sent_eq = λ u k. refl;
        seen_le = λ n. omega arith;
        everyone = λ c f u h.
            let one =
              total_full threads (λ t. (s.tile t).joined - s.rounds)
                (λ t k. omega (arith, inv.bound t k)) (sym inv.counted ∙ all) u h in
            omega (arith, one, inv.bound u h);
        alone = λ c. absurd (omega (arith, c));
        keeps = λ u h n. inv.held u h;
        fresh = tt;
      })

  pub try_again-Inv :
      (s.tile chief).pc ≡ locking_again → Inv threads chief (lock s chief (signalling 0))
  try_again-Inv e = lock-Inv threads chief s chief chief_in inv locking_again (signalling 0) e (λ f.
      record {
        added_eq = refl;
        done_eq = refl;
        sent_eq = λ u k. ground arith;
        seen_le = λ n. omega arith;
        everyone = λ c g. inv.everyone (ap full e);
        alone = λ c. (refl, unlocked_alone threads chief s chief locking_again chief_in e inv f);
        keeps = λ u h n c. refl;
        fresh = tt;
      })

  pub signalled-Inv :
      (k : ℕ)
      → (s.tile chief).pc ≡ signalling k
      → threads ≤ k
      → Inv threads chief (move s chief resetting)
  signalled-Inv k e all =
      pass-Inv threads chief s chief (signalling k) chief_in e inv resetting s.locked (record {
        added_eq = refl;
        done_eq = refl;
        sent_eq = λ u h. ground arith;
        seen_le = λ n. omega arith;
        everyone = λ c g. inv.everyone (ap full e);
        alone = λ c. (
          inv.held chief chief_in (ap critical e),
          alone_at threads chief s chief (signalling k) chief_in e inv refl,
        );
        keeps = λ u h n. inv.held u h;
        fresh = tt;
      })

  pub release_again-Inv :
      (s.tile chief).pc ≡ unlocking_again
      → Inv threads chief (unlock s chief (returned (s.tile chief) (s.tile chief).alert))
  unfolding unlock
  release_again-Inv e =
      quiet-Inv threads chief s chief (returned (s.tile chief) (s.tile chief).alert) false chief_in
        inv
        (record {
          account = omega (arith, inv.account chief chief_in, ap added e);
          same = refl;
          round = λ c. omega (arith, inv.round, ap done e);
          sends = λ c u h. ap (λ p. sent p u) (sym e);
          alerts = λ n. absurd (n refl);
          saw = λ n. absurd (n refl);
          everyone = λ c f. absurd (omega (arith, f));
          alone = λ c. absurd (omega (arith, c));
          keeps = λ u h n c.
              absurd (alone_at threads chief s chief unlocking_again chief_in e inv refl u h n c);
          fresh = tt;
        })

  -- the reset of the count starts the next round
  pub reset-Inv : (s.tile chief).pc ≡ resetting → Inv threads chief (reset_count s chief)
  unfolding reset_count
  reset-Inv e =
      let x = goto (s.tile chief) unlocking_again in
      let chief_pc : (put s.tile chief x chief).pc ≡ unlocking_again =
        ap (λ y. y.pc) (put_self s.tile chief chief x refl) in
      let joined_all : (u : ℕ) → u < threads → (put s.tile chief x u).joined ≡ s.rounds + 1 =
        put-every (λ u y. u < threads → y.joined ≡ s.rounds + 1) s.tile chief x
          (inv.everyone (ap full e) chief) (λ u n. inv.everyone (ap full e) u) in
      let others = alone_at threads chief s chief resetting chief_in e inv refl in
      record {
        account =
            put-every (λ u y. u < threads → y.joined ≡ y.left + added y.pc) s.tile chief x
              (λ h. omega (arith, inv.account chief h, ap added e)) (λ u n. inv.account u);
        round =
            subst (λ y. s.rounds + 1 ≡ y.left + done y.pc)
              (sym (put_self s.tile chief chief x refl)) (omega (arith, inv.round, ap done e));
        bound = λ u h. (
          omega (arith, joined_all u h, ap (λ p. sent p u) chief_pc),
          omega (arith, joined_all u h),
        );
        alerts = λ u h n.
            ap (λ y. y.left + y.alert + y.flight) (put_ne s.tile chief u x n)
            ∙ inv.alerts u h n
            ∙ omega (arith, ap (λ p. sent p u) e, ap (λ p. sent p u) chief_pc);
        saw = λ u h n.
            subst (λ y. seen y.pc ≤ y.alert) (sym (put_ne s.tile chief u x n)) (inv.saw u h n);
        everyone = λ f. absurd (omega (arith, f, ap full chief_pc));
        exclusive = λ u w.
            put-every
              (λ u y.
                u < threads
                → w < threads
                → critical y.pc ≡ 1
                → critical (put s.tile chief x w).pc ≡ 1
                → u ≡ w)
              s.tile chief x
              (λ h k cu.
                put-every (λ w y. w < threads → critical y.pc ≡ 1 → chief ≡ w) s.tile chief x
                  (λ k cw. refl) (λ w n k cw. absurd (others w k n cw)) w k)
              (λ u n h k cu. absurd (others u h n cu)) u;
        held =
            put-every (λ u y. u < threads → critical y.pc ≡ 1 → s.locked ≡ true) s.tile chief x
              (λ h c. inv.held chief h (ap critical e)) (λ u n. inv.held u);
        fresh =
            put-every (λ u y. u < threads → Fresh y.pc 0) s.tile chief x (λ h. tt)
              (λ u n h. Fresh-idle (s.tile u).pc 0 (others u h n));
        counted = sym (
            total_zero threads (λ u. (put s.tile chief x u).joined - (s.rounds + 1))
              (λ u h. omega (arith, joined_all u h)));
      }
