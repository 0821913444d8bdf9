-- ===== src/TileCoordinates/Progress.antt =====
-- The tiles of TileCoordinates do not wait for ever.
use bsg_manycore.Prelude.{
  ℕ, ◌+◌, ◌*◌, ◌%◌, ◌^◌, ◌≤◌, ◌<◌, ◌≡◌, ◌==◌, ◌&&◌, ◌||◌, ap, arith, ltb, if◌then◌else◌, refl,
  ℕ_discrete,
}
use bsg_manycore.Prelude.Updates.{put2, remove}
use bsg_manycore.Arch.{remote_ptr_control}
use bsg_manycore.TileCoordinates.{
  Pc, whole_grid, storing_x, storing_y, waiting_x, waiting_y, checking_x, checking_y, distributing,
  finishing, done, State, move, minus_one, store_x, store_y, check_x, check_y, distribute, finish,
  csr_tgo_x, csr_tgo_y,
}
use bsg_manycore.TileCoordinates.Steps
use bsg_manycore.TileCoordinates.Steps.{InGroup, Step, Reach}
use bsg_manycore.TileCoordinates.Values.{Values, Reach-Values, past_x, past_y, at_end}

-- 1 from where a tile has stored to the x, or the y, of tile (0, 0)
abbrev sent_x : Pc → ℕ
sent_x storing_x = 0
sent_x p = 1

abbrev sent_y : Pc → ℕ
sent_y storing_x = 0
sent_y storing_y = 0
sent_y p = 1

-- 1 for a tile (i, j) that has been sent its coordinates
abbrev given : Pc → (i j : ℕ) → ℕ
given (distributing x y) i j = if ltb i x || ((i == x) && ltb j y) then 1 else 0
given finishing i j = 1
given done i j = 1
given p i j = 0

module _ (tiles_x tiles_y : ℕ) (control : ℕ → ℕ) (small_x : tiles_x ≤ 2 ^ 31)
    (small_y : tiles_y ≤ 2 ^ 31) (some_x : 0 < tiles_x) (some_y : 0 < tiles_y) where
  abbrev In : ℕ → ℕ → Type 0
  In = InGroup tiles_x tiles_y control

  abbrev Vals : State → ℕ → ℕ → Type 0
  Vals = Values tiles_x tiles_y control small_x small_y

  -- What tile (0, 0), and tile (i, j), has not got is on its way.
  record Sent (s : State) (i j : ℕ) : Type 0 where
    first_x : sent_x (s.pc 0 0) ≡ 1 → s.bsg_x 0 0 ≡ minus_one → 0 < s.x_stores 0 0 0
    first_y : sent_y (s.pc 0 0) ≡ 1 → s.bsg_y 0 0 ≡ minus_one → 0 < s.y_stores 0 0 0
    rest_x : given (s.pc 0 0) i j ≡ 1 → s.bsg_x i j ≡ minus_one → 0 < s.x_stores i j i
    rest_y : given (s.pc 0 0) i j ≡ 1 → s.bsg_y i j ≡ minus_one → 0 < s.y_stores i j j

  module _ (s : State) (i j : ℕ) (here : In i j) (inv : Sent s i j) where
    pc_facts :
        (k l : ℕ) (p : Pc)
        → s.pc k l ≡ p
        → (sent_x (s.pc k l) ≡ sent_x p)
          × (sent_y (s.pc k l) ≡ sent_y p)
          × (given (s.pc k l) i j ≡ given p i j)
          × (past_x (s.pc k l) ≡ past_x p)
          × (past_y (s.pc k l) ≡ past_y p)
    pc_facts k l p e = (ap sent_x e, ap sent_y e, ap (λ p. given p i j) e, ap past_x e, ap past_y e)

    stores_x-Sent : (k l : ℕ) → s.pc k l ≡ storing_x → Sent (store_x s k l) i j
    stores_x-Sent k l e = let f = pc_facts k l storing_x e in grind arith

    stores_y-Sent : (k l : ℕ) → s.pc k l ≡ storing_y → Sent (store_y s k l) i j
    stores_y-Sent k l e = let f = pc_facts k l storing_y e in grind arith

    sees_x-Sent : (k l : ℕ) → s.pc k l ≡ waiting_x → Sent (move s k l waiting_y) i j
    sees_x-Sent k l e = let f = pc_facts k l waiting_x e in grind arith

    sees_y-Sent : (k l : ℕ) → s.pc k l ≡ waiting_y → Sent (move s k l checking_x) i j
    sees_y-Sent k l e = let f = pc_facts k l waiting_y e in grind arith

    checks_x-Sent :
        (k l : ℕ)
        → (past_x (s.pc 0 0) ≡ 1 → s.bsg_x 0 0 ≡ 0)
        → s.pc k l ≡ checking_x
        → Sent (check_x s k l) i j
    checks_x-Sent k l z e = let f = pc_facts k l checking_x e in grind arith

    checks_y-Sent :
        (k l : ℕ)
        → (past_y (s.pc 0 0) ≡ 1 → s.bsg_y 0 0 ≡ 0)
        → s.pc k l ≡ checking_y
        → Sent (check_y s k l) i j
    checks_y-Sent k l z e = let f = pc_facts k l checking_y e in grind arith

    distributes-Sent :
        (k l x y : ℕ)
        → s.pc k l ≡ distributing x y
        → Sent (distribute tiles_x tiles_y control s k l x y) i j
    distributes-Sent k l x y e =
        let f = pc_facts k l (distributing x y) e in
        record {
          first_x = grind arith;
          first_y = grind arith;
          rest_x = grind arith;
          rest_y = grind arith;
        }

    finishes-Sent :
        (k l : ℕ) → s.pc k l ≡ finishing → Sent (finish tiles_x tiles_y control s k l) i j
    finishes-Sent k l e = let f = pc_facts k l finishing e in grind arith

    x_arrives-Sent :
        (k l v : ℕ)
        → 0 < s.x_stores k l v
        → ((v : ℕ) → 0 < s.x_stores 0 0 v → v ≡ 0)
        → ((v : ℕ) → 0 < s.x_stores i j v → v ≡ i)
        → Sent (record s { bsg_x = put2 s.bsg_x k l v; x_stores = remove s.x_stores k l v }) i j
    x_arrives-Sent k l v some zero_x here_x = let f = zero_x v in let g = here_x v in grind arith

    y_arrives-Sent :
        (k l v : ℕ)
        → 0 < s.y_stores k l v
        → ((v : ℕ) → 0 < s.y_stores 0 0 v → v ≡ 0)
        → ((v : ℕ) → 0 < s.y_stores i j v → v ≡ j)
        → Sent (record s { bsg_y = put2 s.bsg_y k l v; y_stores = remove s.y_stores k l v }) i j
    y_arrives-Sent k l v some zero_y here_y = let f = zero_y v in let g = here_y v in grind arith

  Zero : In 0 0
  Zero = (some_x, some_y)

  values : (s : State) (a b : ℕ) → In a b → Reach tiles_x tiles_y control s → Vals s a b
  values s a b h r = Reach-Values tiles_x tiles_y control small_x small_y s a b h r

  step-Sent :
      (s s1 : State) (i j : ℕ)
      → In i j
      → Vals s 0 0
      → Vals s i j
      → Sent s i j
      → Step tiles_x tiles_y control s s1
      → Sent s1 i j
  step-Sent s _ i j h z v inv (Steps.Step.stores_x k l g e) = stores_x-Sent s i j h inv k l e
  step-Sent s _ i j h z v inv (Steps.Step.stores_y k l g e) = stores_y-Sent s i j h inv k l e
  step-Sent s _ i j h z v inv (Steps.Step.sees_x k l g e q) = sees_x-Sent s i j h inv k l e
  step-Sent s _ i j h z v inv (Steps.Step.sees_y k l g e q) = sees_y-Sent s i j h inv k l e
  step-Sent s _ i j h z v inv (Steps.Step.checks_x k l g e) =
      checks_x-Sent s i j h inv k l z.seen_x e
  step-Sent s _ i j h z v inv (Steps.Step.checks_y k l g e) =
      checks_y-Sent s i j h inv k l z.seen_y e
  step-Sent s _ i j h z v inv (Steps.Step.distributes k l x y g e) =
      distributes-Sent s i j h inv k l x y e
  step-Sent s _ i j h z v inv (Steps.Step.finishes k l g e) = finishes-Sent s i j h inv k l e
  step-Sent s _ i j h z v inv (Steps.Step.x_arrives k l w q) =
      x_arrives-Sent s i j h inv k l w q z.coming_x v.coming_x
  step-Sent s _ i j h z v inv (Steps.Step.y_arrives k l w q) =
      y_arrives-Sent s i j h inv k l w q z.coming_y v.coming_y

  Reach-Sent : (s : State) (i j : ℕ) → In i j → Reach tiles_x tiles_y control s → Sent s i j
  Reach-Sent _ i j h Steps.Reach.start = grind arith
  Reach-Sent _ i j h (Steps.Reach.step s s1 r d) =
      step-Sent s s1 i j h (values s 0 0 Zero r) (values s i j h r) (Reach-Sent s i j h r) d

  Stuck : State → Type 0
  Stuck s = (s1 : State) → ¬ Step tiles_x tiles_y control s s1

  -- A tile that cannot go on, and has its coordinates or will get them, is at the end.
  at_rest :
      (s : State) (a b : ℕ) (p : Pc)
      → Stuck s
      → In a b
      → Vals s a b
      → (sent_x p ≡ 1 → s.bsg_x a b ≡ minus_one → 0 < s.x_stores a b a)
      → (sent_y p ≡ 1 → s.bsg_y a b ≡ minus_one → 0 < s.y_stores a b b)
      → s.pc a b ≡ p
      → p ≡ done
  unfolding Stuck
  at_rest s a b storing_x stuck h v x y e = absurd (stuck _ (Steps.Step.stores_x a b h e))
  at_rest s a b storing_y stuck h v x y e = absurd (stuck _ (Steps.Step.stores_y a b h e))
  at_rest s a b waiting_x stuck h v x y e = elim (ℕ_discrete (s.bsg_x a b) minus_one) [
    | yes u ↦ absurd (stuck _ (Steps.Step.x_arrives a b a (x refl u)))
    | no n ↦ absurd (stuck _ (Steps.Step.sees_x a b h e (let w = v.value_x n in ground arith)))
  ]
  at_rest s a b waiting_y stuck h v x y e = elim (ℕ_discrete (s.bsg_y a b) minus_one) [
    | yes u ↦ absurd (stuck _ (Steps.Step.y_arrives a b b (y refl u)))
    | no n ↦ absurd (stuck _ (Steps.Step.sees_y a b h e (let w = v.value_y n in ground arith)))
  ]
  at_rest s a b checking_x stuck h v x y e = absurd (stuck _ (Steps.Step.checks_x a b h e))
  at_rest s a b checking_y stuck h v x y e = absurd (stuck _ (Steps.Step.checks_y a b h e))
  at_rest s a b (distributing i j) stuck h v x y e =
      absurd (stuck _ (Steps.Step.distributes a b i j h e))
  at_rest s a b finishing stuck h v x y e = absurd (stuck _ (Steps.Step.finishes a b h e))
  at_rest s a b done stuck h v x y e = refl

  -- In a group of at least one tile and at most 2 ^ 31 rows and columns, when no step is possible any
  -- more, no tile waits: all have returned from bsg_set_tile_x_y with their place in the group, the
  -- identifier of this place, the origin of the group from their own control registers, and a grid of
  -- one group.
  pub coordinates_set :
      (s : State)
      → Reach tiles_x tiles_y control s
      → ((s1 : State) → ¬ Step tiles_x tiles_y control s s1)
      → (a b : ℕ) → InGroup tiles_x tiles_y control a b
      → (s.pc a b ≡ done)
        × (s.bsg_x a b ≡ a)
        × (s.bsg_y a b ≡ b)
        × (s.bsg_id a b ≡ (b * tiles_x + a) % 2 ^ 32)
        × (s.grp_org_x a b ≡ control (remote_ptr_control a b csr_tgo_x))
        × (s.grp_org_y a b ≡ control (remote_ptr_control a b csr_tgo_y))
        × (s.grid a b ≡ whole_grid)
  unfolding Stuck
  coordinates_set s r stuck a b h =
      let v = values s a b h r in
      let q = Reach-Sent s a b h r in
      let first : s.pc 0 0 ≡ done =
        at_rest s 0 0 (s.pc 0 0) stuck Zero (values s 0 0 Zero r) q.first_x q.first_y refl in
      let gone : given (s.pc 0 0) a b ≡ 1 = ap (λ p. given p a b) first in
      let last : s.pc a b ≡ done =
        at_rest s a b (s.pc a b) stuck h v (λ _. q.rest_x gone) (λ _. q.rest_y gone) refl in
      let seen : (past_x (s.pc a b) ≡ 1) × (past_y (s.pc a b) ≡ 1) × (at_end (s.pc a b) ≡ 1) =
        (ap past_x last, ap past_y last, ap at_end last) in
      (
        last,
        v.seen_x seen.0,
        v.seen_y seen.1,
        v.id seen.2,
        v.org_x seen.2,
        v.org_y seen.2,
        v.grid_set seen.2,
      )
