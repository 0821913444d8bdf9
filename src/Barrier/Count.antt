-- ===== src/Barrier/Count.antt =====
-- The increment of the count by bsg_atomic_inc, under the mutex: no increment is lost.
use bsg_manycore.Prelude.{
  ℕ, ◌+◌, ◌-◌, ◌%◌, ◌^◌, ◌≤◌, ◌<◌, ◌≡◌, ◌≢◌, true, refl, ap, sym, ◌∙◌, arith, ℕ_discrete, subst,
}
use bsg_manycore.Barrier.{writing, unlocking, Tile, State, put, write_count}
use bsg_manycore.Barrier.Defs.{
  added, critical, full, done, sent, seen, Fresh, total, Inv, sent_le, critical_le, Fresh-idle,
}
use bsg_manycore.Barrier.Totals.{total_add, total_le}
use bsg_manycore.Barrier.Local.{put-every, put_self, put_ne}
use bsg_manycore.Barrier.Moves.{alone_at, round_at, chief_pc}

module _ (threads chief : ℕ) (small : threads < 2 ^ 32) (chief_in : chief < threads) (s : State)
    (t v : ℕ) (within : t < threads) (e : (s.tile t).pc ≡ writing v)
    (inv : Inv threads chief s) where
  abbrev x : Tile
  x = record {
    pc = unlocking;
    alert = (s.tile t).alert;
    flight = (s.tile t).flight;
    joined = (s.tile t).joined + 1;
    left = (s.tile t).left;
  }

  no_alert : t ≢ chief → sent (s.tile chief).pc t ≡ 0
  no_alert n = elim (ℕ_discrete (critical (s.tile chief).pc) 1) [
    | yes c ↦ absurd (n (inv.exclusive t chief within chief_in (ap critical e) c))
    | no c ↦ omega (arith, sent_le (s.tile chief).pc t, critical_le (s.tile chief).pc)
  ]

  -- the tile has not joined in this round
  not_joined : (s.tile t).joined ≡ s.rounds
  not_joined = elim (ℕ_discrete t chief) [
    | yes c ↦ omega (
      arith,
      round_at threads chief s t (writing v) within e inv c,
      inv.account t within,
      ap added e,
    )
    | no n ↦ omega (
      arith,
      no_alert n,
      inv.alerts t within n,
      inv.account t within,
      ap added e,
      inv.bound t within,
    )
  ]

  value_eq : v ≡ s.joined_count
  value_eq = subst (λ p. Fresh p s.joined_count) e (inv.fresh t within)

  sent_chief : (u : ℕ) → u < threads → sent (put s.tile t x chief).pc u ≡ sent (s.tile chief).pc u
  sent_chief =
      put-every (λ c y. c ≡ chief → (u : ℕ) → u < threads → sent y.pc u ≡ sent (s.tile chief).pc u)
        s.tile t x
        (λ c u h. ap (λ p. sent p u) (sym (chief_pc threads chief s t (writing v) within e inv c)))
        (λ c n k u h. ap (λ c. sent (s.tile c).pc u) k) chief refl

  joined_each : (u : ℕ) → (put s.tile t x u).joined ≤ (s.tile u).joined + 1
  joined_each =
      put-every (λ u y. y.joined ≤ (s.tile u).joined + 1) s.tile t x (omega arith)
        (λ u n. omega arith)

  joined_least : (u : ℕ) → (s.tile u).joined ≤ (put s.tile t x u).joined
  joined_least =
      put-every (λ u y. (s.tile u).joined ≤ y.joined) s.tile t x (omega arith) (λ u n. omega arith)

  joined_bound : (u : ℕ) → u < threads → (put s.tile t x u).joined ≤ s.rounds + 1
  joined_bound =
      put-every (λ u y. u < threads → y.joined ≤ s.rounds + 1) s.tile t x
        (λ h. omega (arith, not_joined)) (λ u n h. omega (arith, inv.bound u h))

  total_eq :
      total threads (λ u. (put s.tile t x u).joined - s.rounds)
      ≡ total threads (λ u. (s.tile u).joined - s.rounds) + 1
  total_eq =
      total_add threads t (λ u. (s.tile u).joined - s.rounds)
        (λ u. (put s.tile t x u).joined - s.rounds) within
        (ap (λ y. y.joined - s.rounds) (put_self s.tile t t x refl) ∙ omega (arith, not_joined))
        (λ u h n. ap (λ y. y.joined - s.rounds) (put_ne s.tile t u x n))

  count_eq : (v + 1) % 2 ^ 32 ≡ total threads (λ u. (put s.tile t x u).joined - s.rounds)
  count_eq =
      let most =
        total_le threads (λ u. (put s.tile t x u).joined - s.rounds)
          (λ u h. omega (arith, joined_bound u h)) in
      omega (arith, total_eq, most, value_eq, inv.counted, small)

  pub write-Inv : Inv threads chief (write_count s t v)
  unfolding write_count
  write-Inv = record {
    account =
        put-every (λ u y. u < threads → y.joined ≡ y.left + added y.pc) s.tile t x
          (λ h. omega (arith, inv.account t within, ap added e)) (λ u n. inv.account u);
    round =
        put-every (λ c y. c ≡ chief → s.rounds ≡ y.left + done y.pc) s.tile t x
          (λ c. round_at threads chief s t (writing v) within e inv c)
          (λ c n e. subst (λ c. s.rounds ≡ (s.tile c).left + done (s.tile c).pc) (sym e) inv.round)
          chief refl;
    bound = λ u h. (omega (arith, inv.bound u h, joined_least u, sent_chief u h), joined_bound u h);
    alerts = λ u h n.
        put-every
          (λ u y.
            u < threads
            → u ≢ chief
            → y.left + y.alert + y.flight ≡ s.rounds + sent (s.tile chief).pc u)
          s.tile t x (λ h. inv.alerts t within) (λ u k. inv.alerts u) u h n
        ∙ ap (λ a. s.rounds + a) (sym (sent_chief u h));
    saw =
        put-every (λ u y. u < threads → u ≢ chief → seen y.pc ≤ y.alert) s.tile t x
          (λ h n. omega arith) (λ u n. inv.saw u);
    everyone =
        put-every
          (λ c y.
            c ≡ chief
            → full y.pc ≡ 1
            → (u : ℕ) → u < threads
            → (put s.tile t x u).joined ≡ s.rounds + 1)
          s.tile t x (λ c f. absurd (omega (arith, f)))
          (λ c n k f. absurd (
            omega (
              arith,
              not_joined,
              inv.everyone (ap (λ c. full (s.tile c).pc) (sym k) ∙ f) t within,
            )))
          chief refl;
    exclusive = λ u w.
        put-every
          (λ u y.
            u < threads
            → w < threads
            → critical y.pc ≡ 1
            → critical (put s.tile t x w).pc ≡ 1
            → u ≡ w)
          s.tile t x
          (λ h k cu.
            put-every (λ w y. w < threads → critical y.pc ≡ 1 → t ≡ w) s.tile t x (λ k cw. refl)
              (λ w n k cw. absurd (others w k n cw)) w k)
          (λ u n h k cu. absurd (others u h n cu)) u;
    held =
        put-every (λ u y. u < threads → critical y.pc ≡ 1 → s.locked ≡ true) s.tile t x
          (λ h c. inv.held t within (ap critical e)) (λ u n. inv.held u);
    fresh =
        put-every (λ u y. u < threads → Fresh y.pc ((v + 1) % 2 ^ 32)) s.tile t x (λ h. tt)
          (λ u n h. Fresh-idle (s.tile u).pc ((v + 1) % 2 ^ 32) (others u h n));
    counted = count_eq;
  }
    where
      others : (u : ℕ) → u < threads → u ≢ t → critical (s.tile u).pc ≢ 1
      others = alone_at threads chief s t (writing v) within e inv refl
