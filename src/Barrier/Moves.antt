-- ===== src/Barrier/Moves.antt =====
-- The steps of Barrier that change the place of one tile keep the invariant.
use bsg_manycore.Prelude.{
  ℕ, ◌+◌, ◌≤◌, ◌<◌, ◌≡◌, ◌≢◌, Bool, true, false, refl, ap, sym, ◌∙◌, arith, subst, Bool-cases, inl,
  inr,
}
use bsg_manycore.Barrier.{
  Pc, outside, locking, reading, writing, unlocking, waiting, clearing, State, goto, move, try_lock,
  lock, unlock, with_tile, returned, take_alert, attempted,
}
use bsg_manycore.Barrier.Defs.{
  added, critical, full, done, sent, seen, Fresh, Inv, added_le, seen_le,
}
use bsg_manycore.Barrier.Local.{with_lock, quiet-Inv}

module _ (threads chief : ℕ) where
  -- A tile that goes from p to p'.
  pub record Passage (s : State) (t : ℕ) (p p' : Pc) (locked : Bool) : Type 0 where
    pub added_eq : added p' ≡ added p
    pub done_eq : done p' ≡ done p
    pub sent_eq : (u : ℕ) → u < threads → sent p' u ≡ sent p u
    pub seen_le : t ≢ chief → seen p' ≤ (s.tile t).alert
    pub everyone :
        t ≡ chief → full p' ≡ 1 → (u : ℕ) → u < threads → (s.tile u).joined ≡ s.rounds + 1
    pub alone :
        critical p' ≡ 1
        → (locked ≡ true) × ((u : ℕ) → u < threads → u ≢ t → critical (s.tile u).pc ≢ 1)
    pub keeps : (u : ℕ) → u < threads → u ≢ t → critical (s.tile u).pc ≡ 1 → locked ≡ true
    pub fresh : Fresh p' s.joined_count

  module _ (s : State) (t : ℕ) (p : Pc) (within : t < threads) (e : (s.tile t).pc ≡ p)
      (inv : Inv threads chief s) where
    pub round_at : t ≡ chief → s.rounds ≡ (s.tile t).left + done p
    round_at c =
        subst (λ c. s.rounds ≡ (s.tile c).left + done (s.tile c).pc) (sym c) inv.round
        ∙ ap (λ p. (s.tile t).left + done p) e

    pub chief_pc : t ≡ chief → (s.tile chief).pc ≡ p
    chief_pc c = ap (λ c. (s.tile c).pc) (sym c) ∙ e

    pub pass-Inv :
        (p' : Pc) (locked : Bool)
        → Passage s t p p' locked
        → Inv threads chief (with_lock threads chief s locked t (goto (s.tile t) p'))
    pass-Inv p' locked h =
        quiet-Inv threads chief s t (goto (s.tile t) p') locked within inv (record {
          account =
              inv.account t within ∙ ap (λ a. (s.tile t).left + a) (ap added e ∙ sym h.added_eq);
          same = refl;
          round = λ c. round_at c ∙ ap (λ a. (s.tile t).left + a) (sym h.done_eq);
          sends = λ c u k. h.sent_eq u k ∙ ap (λ p. sent p u) (sym (chief_pc c));
          alerts = inv.alerts t within;
          saw = h.seen_le;
          everyone = h.everyone;
          alone = h.alone;
          keeps = h.keeps;
          fresh = h.fresh;
        })

    -- the others do not hold the mutex that this tile holds
    pub alone_at : critical p ≡ 1 → (u : ℕ) → u < threads → u ≢ t → critical (s.tile u).pc ≢ 1
    alone_at c u h n cu = n (inv.exclusive u t h within cu (ap critical e ∙ c))

    pub unlocked_alone :
        s.locked ≡ false → (u : ℕ) → u < threads → u ≢ t → critical (s.tile u).pc ≢ 1
    unlocked_alone f u h n cu = ground (arith, inv.held u h cu)

  module _ (s : State) (t : ℕ) (within : t < threads) (inv : Inv threads chief s) where
    pub enter-Inv : (s.tile t).pc ≡ outside → Inv threads chief (move s t locking)
    enter-Inv e = pass-Inv s t outside within e inv locking s.locked (record {
      added_eq = refl;
      done_eq = refl;
      sent_eq = λ u k. refl;
      seen_le = λ n. omega arith;
      everyone = λ c f. absurd (omega (arith, f));
      alone = λ f. absurd (omega (arith, f));
      keeps = λ u h n. inv.held u h;
      fresh = tt;
    })

    -- a lock that fails leaves the state as it is
    failed_eq : (next : Pc) → s.locked ≡ true → s ≡ lock s t next
    unfolding lock try_lock
    failed_eq next f =
        (λ i. record {
          locked = f i;
          joined_count = s.joined_count;
          rounds = s.rounds;
          tile = s.tile;
        })
        ∙ ap (λ b. attempted s t next (try_lock b)) (sym f)

    taken_eq :
        (next : Pc)
        → s.locked ≡ false
        → with_lock threads chief s true t (goto (s.tile t) next) ≡ lock s t next
    unfolding lock try_lock
    taken_eq next f = ap (λ b. attempted s t next (try_lock b)) {x = false} (sym f)

    pub lock-Inv :
        (p next : Pc)
        → (s.tile t).pc ≡ p
        → (s.locked ≡ false → Passage s t p next true)
        → Inv threads chief (lock s t next)
    lock-Inv p next e h = elim (Bool-cases s.locked) [
      | inl l ↦ subst (Inv threads chief) (failed_eq next l) inv
      | inr f ↦
          subst (Inv threads chief) (taken_eq next f) (pass-Inv s t p within e inv next true (h f))
    ]

    pub try-Inv : (s.tile t).pc ≡ locking → Inv threads chief (lock s t reading)
    try-Inv e = lock-Inv locking reading e (λ f. record {
      added_eq = refl;
      done_eq = refl;
      sent_eq = λ u k. refl;
      seen_le = λ n. omega arith;
      everyone = λ c f. absurd (omega (arith, f));
      alone = λ c. (refl, unlocked_alone s t locking within e inv f);
      keeps = λ u h n c. refl;
      fresh = tt;
    })

    pub read-Inv : (s.tile t).pc ≡ reading → Inv threads chief (move s t (writing s.joined_count))
    read-Inv e = pass-Inv s t reading within e inv (writing s.joined_count) s.locked (record {
      added_eq = refl;
      done_eq = refl;
      sent_eq = λ u k. refl;
      seen_le = λ n. omega arith;
      everyone = λ c f. absurd (omega (arith, f));
      alone = λ c. (inv.held t within (ap critical e), alone_at s t reading within e inv refl);
      keeps = λ u h n. inv.held u h;
      fresh = refl;
    })

    pub release-Inv :
        (s.tile t).pc ≡ unlocking → Inv threads chief (unlock s t (goto (s.tile t) waiting))
    unfolding unlock
    release-Inv e = pass-Inv s t unlocking within e inv waiting false (record {
      added_eq = refl;
      done_eq = refl;
      sent_eq = λ u k. refl;
      seen_le = λ n. omega arith;
      everyone = λ c f. absurd (omega (arith, f));
      alone = λ c. absurd (omega (arith, c));
      keeps = λ u h n c. absurd (alone_at s t unlocking within e inv refl u h n c);
      fresh = tt;
    })

    pub alerted-Inv :
        t ≢ chief
        → (s.tile t).pc ≡ waiting
        → (s.tile t).alert ≡ 1
        → Inv threads chief (move s t clearing)
    alerted-Inv n e a = pass-Inv s t waiting within e inv clearing s.locked (record {
      added_eq = refl;
      done_eq = refl;
      sent_eq = λ u k. refl;
      seen_le = λ n. omega (arith, a);
      everyone = λ c f. absurd (n c);
      alone = λ c. absurd (omega (arith, c));
      keeps = λ u h n. inv.held u h;
      fresh = tt;
    })

    pub clear-Inv :
        t ≢ chief
        → (s.tile t).pc ≡ clearing
        → Inv threads chief (with_tile s t (returned (s.tile t) 0))
    clear-Inv n e =
        quiet-Inv threads chief s t (returned (s.tile t) 0) s.locked within inv (record {
          account = omega (arith, inv.account t within, ap added e);
          same = refl;
          round = λ c. absurd (n c);
          sends = λ c. absurd (n c);
          alerts = λ n. omega (
            arith,
            inv.alerts t within n,
            inv.saw t within n,
            ap seen e,
            inv.bound t within,
            inv.account t within,
            ap added e,
          );
          saw = λ n. omega arith;
          everyone = λ c. absurd (n c);
          alone = λ c. absurd (omega (arith, c));
          keeps = λ u h k. inv.held u h;
          fresh = tt;
        })

    pub deliver-Inv :
        0 < (s.tile t).flight → Inv threads chief (with_tile s t (take_alert (s.tile t)))
    deliver-Inv f =
        quiet-Inv threads chief s t (take_alert (s.tile t)) s.locked within inv (record {
          account = inv.account t within;
          same = refl;
          round =
              λ c. subst (λ c. s.rounds ≡ (s.tile c).left + done (s.tile c).pc) (sym c) inv.round;
          sends = λ c u h. ap (λ c. sent (s.tile c).pc u) c;
          alerts = λ n. omega (
            arith,
            inv.alerts t within n,
            inv.bound t within,
            inv.account t within,
            added_le (s.tile t).pc,
          );
          saw = λ n. seen_le (s.tile t).pc;
          everyone = λ c g. inv.everyone (ap (λ c. full (s.tile c).pc) (sym c) ∙ g);
          alone = λ c. (inv.held t within c, λ u h n cu. n (inv.exclusive u t h within cu c));
          keeps = λ u h k. inv.held u h;
          fresh = inv.fresh t within;
        })
