-- ===== src/Barrier/Local.antt =====
-- A step of Barrier that changes one tile and perhaps the mutex, but neither the count nor the number
-- of joins of any tile.
use bsg_manycore.Prelude.{
  ℕ, ◌+◌, ◌-◌, ◌≤◌, ◌<◌, ◌≡◌, ◌≢◌, Bool, true, refl, ap, sym, ◌∙◌, arith, ℕ_discrete, subst,
}
use bsg_manycore.Barrier.{Tile, State, put}
use bsg_manycore.Barrier.Defs.{added, critical, full, done, sent, seen, Fresh, Inv}
use bsg_manycore.Barrier.Totals.{total_eq}

pub put_self : (tile : ℕ → Tile) (t u : ℕ) (x : Tile) → u ≡ t → put tile t x u ≡ x
put_self tile t u x e = ground arith

pub put_ne : (tile : ℕ → Tile) (t u : ℕ) (x : Tile) → u ≢ t → put tile t x u ≡ tile u
put_ne tile t u x e = ground arith

-- What holds of every tile after `put` holds of the new one and of the others.
pub put-every {ℓ} :
    (P : ℕ → Tile → Type ℓ) (tile : ℕ → Tile) (t : ℕ) (x : Tile)
    → P t x
    → ((u : ℕ) → u ≢ t → P u (tile u))
    → (u : ℕ) → P u (put tile t x u)
put-every P tile t x h k u = elim (ℕ_discrete u t) [
  | yes e ↦ subst (P u) (sym (put_self tile t u x e)) (subst (λ v. P v x) (sym e) h)
  | no e ↦ subst (P u) (sym (put_ne tile t u x e)) (k u e)
]

module _ (threads chief : ℕ) where
  pub record Quiet (s : State) (t : ℕ) (x : Tile) (locked : Bool) : Type 0 where
    pub account : x.joined ≡ x.left + added x.pc
    pub same : x.joined ≡ (s.tile t).joined
    pub round : t ≡ chief → s.rounds ≡ x.left + done x.pc
    pub sends : t ≡ chief → (u : ℕ) → u < threads → sent x.pc u ≡ sent (s.tile chief).pc u
    pub alerts : t ≢ chief → x.left + x.alert + x.flight ≡ s.rounds + sent (s.tile chief).pc t
    pub saw : t ≢ chief → seen x.pc ≤ x.alert
    pub everyone :
        t ≡ chief → full x.pc ≡ 1 → (u : ℕ) → u < threads → (s.tile u).joined ≡ s.rounds + 1
    pub alone :
        critical x.pc ≡ 1
        → (locked ≡ true) × ((u : ℕ) → u < threads → u ≢ t → critical (s.tile u).pc ≢ 1)
    pub keeps : (u : ℕ) → u < threads → u ≢ t → critical (s.tile u).pc ≡ 1 → locked ≡ true
    pub fresh : Fresh x.pc s.joined_count

  abbrev pub with_lock : State → Bool → ℕ → Tile → State
  with_lock s locked t x = record {
    locked = locked;
    joined_count = s.joined_count;
    rounds = s.rounds;
    tile = put s.tile t x;
  }

  module _ (s : State) (t : ℕ) (x : Tile) (locked : Bool) (within : t < threads)
      (inv : Inv threads chief s) (q : Quiet s t x locked) where
    joined_same : (u : ℕ) → (put s.tile t x u).joined ≡ (s.tile u).joined
    joined_same = put-every (λ u y. y.joined ≡ (s.tile u).joined) s.tile t x q.same (λ u n. refl)

    sent_same : (u : ℕ) → u < threads → sent (put s.tile t x chief).pc u ≡ sent (s.tile chief).pc u
    sent_same =
        put-every
          (λ c y. c ≡ chief → (u : ℕ) → u < threads → sent y.pc u ≡ sent (s.tile chief).pc u) s.tile
          t x q.sends (λ c n e u h. ap (λ c. sent (s.tile c).pc u) e) chief refl

    exclusive_at :
        (u : ℕ) → u < threads → critical x.pc ≡ 1 → critical (put s.tile t x u).pc ≡ 1 → t ≡ u
    exclusive_at =
        put-every (λ u y. u < threads → critical x.pc ≡ 1 → critical y.pc ≡ 1 → t ≡ u) s.tile t x
          (λ h cx cy. refl) (λ u n h cx cy. absurd ((q.alone cx).1 u h n cy))

    pub quiet-Inv : Inv threads chief (with_lock s locked t x)
    quiet-Inv = record {
      account =
          put-every (λ u y. u < threads → y.joined ≡ y.left + added y.pc) s.tile t x
            (λ h. q.account) (λ u n. inv.account u);
      round =
          put-every (λ c y. c ≡ chief → s.rounds ≡ y.left + done y.pc) s.tile t x q.round
            (λ c n e.
              subst (λ c. s.rounds ≡ (s.tile c).left + done (s.tile c).pc) (sym e) inv.round)
            chief refl;
      bound = λ u h. (
        omega (arith, joined_same u, sent_same u h, inv.bound u h),
        omega (arith, joined_same u, inv.bound u h),
      );
      alerts = λ u h n.
          put-every
            (λ u y.
              u < threads
              → u ≢ chief
              → y.left + y.alert + y.flight ≡ s.rounds + sent (s.tile chief).pc u)
            s.tile t x (λ h. q.alerts) (λ u k. inv.alerts u) u h n
          ∙ ap (λ a. s.rounds + a) (sym (sent_same u h));
      saw =
          put-every (λ u y. u < threads → u ≢ chief → seen y.pc ≤ y.alert) s.tile t x (λ h. q.saw)
            (λ u n. inv.saw u);
      everyone = λ f u h.
          joined_same u
          ∙ put-every
              (λ c y.
                c ≡ chief
                → full y.pc ≡ 1
                → (u : ℕ) → u < threads
                → (s.tile u).joined ≡ s.rounds + 1)
              s.tile t x q.everyone
              (λ c n e f. inv.everyone (ap (λ c. full (s.tile c).pc) (sym e) ∙ f)) chief refl f u h;
      exclusive = λ u v.
          put-every
            (λ u y.
              u < threads
              → v < threads
              → critical y.pc ≡ 1
              → critical (put s.tile t x v).pc ≡ 1
              → u ≡ v)
            s.tile t x (λ h k. exclusive_at v k)
            (λ u n h k cu.
              put-every (λ v y. v < threads → critical y.pc ≡ 1 → u ≡ v) s.tile t x
                (λ k cx. absurd ((q.alone cx).1 u h n cu)) (λ v m k. inv.exclusive u v h k cu) v k)
            u;
      held =
          put-every (λ u y. u < threads → critical y.pc ≡ 1 → locked ≡ true) s.tile t x
            (λ h c. (q.alone c).0) (λ u n h. q.keeps u h n);
      fresh =
          put-every (λ u y. u < threads → Fresh y.pc s.joined_count) s.tile t x (λ h. q.fresh)
            (λ u n. inv.fresh u);
      counted =
          inv.counted ∙ total_eq threads _ _ (λ u h. ap (λ j. j - s.rounds) (sym (joined_same u)));
    }
