-- ===== src/Barrier/Signal.antt =====
-- The store by which the chief of bsg_barrier_wait alerts one tile keeps the invariant.
use bsg_manycore.Prelude.{ℕ, ◌+◌, ◌-◌, ◌<◌, ◌≡◌, ◌≢◌, refl, ap, sym, ◌∙◌, arith, ℕ_discrete, subst}
use bsg_manycore.Barrier.{Pc, signalling, Tile, State, put, goto, move, with_tile, send_alert}
use bsg_manycore.Barrier.Defs.{
  added, critical, full, done, sent, seen, Fresh, Inv, sent_le, full_le,
}
use bsg_manycore.Barrier.Totals.{total_eq}
use bsg_manycore.Barrier.Local.{put-every, put_self, put_ne}

module _ (threads chief : ℕ) (chief_in : chief < threads) (s : State) (inv : Inv threads chief s)
    (k : ℕ) (e : (s.tile chief).pc ≡ signalling k) (within : k < threads) where
  abbrev s1 : State
  s1 = move s chief (signalling (k + 1))

  abbrev after : ℕ → Tile
  after = put s1.tile k (send_alert (s1.tile k))

  -- What of a tile the two writes leave as it is.
  same_part {ℓ} :
      {A : Type ℓ} (part : Tile → A)
      → ((x : Tile) (p : Pc) → part (goto x p) ≡ part x)
      → ((x : Tile) → part (send_alert x) ≡ part x)
      → (u : ℕ) → part (after u) ≡ part (s.tile u)
  same_part part hg hs u =
      put-every (λ u y. part y ≡ part (s1.tile u)) s1.tile k (send_alert (s1.tile k))
        (hs (s1.tile k)) (λ u n. refl) u
      ∙ put-every (λ u y. part y ≡ part (s.tile u)) s.tile chief
          (goto (s.tile chief) (signalling (k + 1))) (hg (s.tile chief) (signalling (k + 1)))
          (λ u n. refl) u

  joined_eq : (u : ℕ) → (after u).joined ≡ (s.tile u).joined
  joined_eq = same_part (λ y. y.joined) (λ x p. refl) (λ x. refl)

  left_eq : (u : ℕ) → (after u).left ≡ (s.tile u).left
  left_eq = same_part (λ y. y.left) (λ x p. refl) (λ x. refl)

  alert_eq : (u : ℕ) → (after u).alert ≡ (s.tile u).alert
  alert_eq = same_part (λ y. y.alert) (λ x p. refl) (λ x. refl)

  pc_eq : (u : ℕ) → (after u).pc ≡ (s1.tile u).pc
  pc_eq =
      put-every (λ u y. y.pc ≡ (s1.tile u).pc) s1.tile k (send_alert (s1.tile k)) refl (λ u n. refl)

  pc_chief : (after chief).pc ≡ signalling (k + 1)
  pc_chief = pc_eq chief ∙ ap (λ y. y.pc) (put_self s.tile chief chief _ refl)

  pc_ne : (u : ℕ) → u ≢ chief → (after u).pc ≡ (s.tile u).pc
  pc_ne u n = pc_eq u ∙ ap (λ y. y.pc) (put_ne s.tile chief u _ n)

  -- A part of the place that is the same before and after the chief's step.
  pc_part :
      (f : Pc → ℕ)
      → f (signalling (k + 1)) ≡ f (signalling k)
      → (u : ℕ) → f (after u).pc ≡ f (s.tile u).pc
  pc_part f h u = elim (ℕ_discrete u chief) [
    | yes c ↦
        subst (λ u. f (after u).pc ≡ f (s.tile u).pc) (sym c) (ap f pc_chief ∙ h ∙ sym (ap f e))
    | no n ↦ ap f (pc_ne u n)
  ]

  -- each tile's alerts and the alerts sent to it grow by the same number
  alerts_eq :
      (u : ℕ)
      → u ≢ chief
      → (s.tile u).left + (s.tile u).alert + (s.tile u).flight ≡ s.rounds + sent (s.tile chief).pc u
      → (after u).left + (after u).alert + (after u).flight ≡ s.rounds + sent (after chief).pc u
  alerts_eq u n h = elim (ℕ_discrete u k) [
    | yes uk ↦
        let one : (after u).flight ≡ (s.tile u).flight + 1 =
          ap (λ y. y.flight) (put_self s1.tile k u _ uk)
          ∙ ap (λ v. (s1.tile v).flight + 1) (sym uk)
          ∙ ap (λ y. y.flight + 1) (put_ne s.tile chief u _ n) in
        let before : sent (s.tile chief).pc u ≡ 0 = ap (λ p. sent p u) e ∙ ground arith in
        let now : sent (after chief).pc u ≡ 1 = ap (λ p. sent p u) pc_chief ∙ ground arith in
        omega (arith, h, one, before, now, left_eq u, alert_eq u)
    | no uk ↦
        let none : (after u).flight ≡ (s.tile u).flight =
          ap (λ y. y.flight) (put_ne s1.tile k u _ uk)
          ∙ ap (λ y. y.flight) (put_ne s.tile chief u _ n) in
        let same : sent (after chief).pc u ≡ sent (s.tile chief).pc u =
          ap (λ p. sent p u) pc_chief ∙ ground arith ∙ sym (ap (λ p. sent p u) e) in
        omega (arith, h, none, same, left_eq u, alert_eq u)
  ]

  critical_eq : (u : ℕ) → critical (after u).pc ≡ critical (s.tile u).pc
  critical_eq = pc_part critical refl

  pub signal-Inv : Inv threads chief (with_tile s1 k (send_alert (s1.tile k)))
  signal-Inv = record {
    account = λ u h. omega (arith, inv.account u h, joined_eq u, left_eq u, pc_part added refl u);
    round = omega (arith, inv.round, left_eq chief, pc_part done refl chief);
    bound = λ u h. (
      omega (
        arith,
        joined_eq u,
        inv.everyone (ap full e) u h,
        ap (λ p. sent p u) pc_chief,
        sent_le (after chief).pc u,
        full_le (after chief).pc,
      ),
      omega (arith, inv.bound u h, joined_eq u),
    );
    alerts = λ u h n. alerts_eq u n (inv.alerts u h n);
    saw = λ u h n. omega (arith, inv.saw u h n, alert_eq u, pc_part seen refl u);
    everyone = λ f u h. omega (arith, joined_eq u, inv.everyone (ap full e) u h);
    exclusive = λ u v h j cu cv.
        inv.exclusive u v h j (sym (critical_eq u) ∙ cu) (sym (critical_eq v) ∙ cv);
    held = λ u h c. inv.held u h (sym (critical_eq u) ∙ c);
    fresh = λ u h. elim (ℕ_discrete u chief) [
      | yes c ↦
          subst (λ u. Fresh (after u).pc s.joined_count) (sym c)
            (subst (λ p. Fresh p s.joined_count) (sym pc_chief) tt)
      | no n ↦ subst (λ p. Fresh p s.joined_count) (sym (pc_ne u n)) (inv.fresh u h)
    ];
    counted =
        inv.counted ∙ total_eq threads _ _ (λ u h. ap (λ j. j - s.rounds) (sym (joined_eq u)));
  }
