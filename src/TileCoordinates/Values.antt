-- ===== src/TileCoordinates/Values.antt =====
-- What the variables of a tile of TileCoordinates hold.
use bsg_manycore.Prelude.{ℕ, ◌+◌, ◌*◌, ◌%◌, ◌^◌, ◌≤◌, ◌<◌, ◌≡◌, ◌≢◌, false, ap, arith}
use bsg_manycore.Prelude.Updates.{put2, remove}
use bsg_manycore.Arch.{remote_ptr_control}
use bsg_manycore.TileCoordinates.{
  Pc, whole_grid, storing_x, storing_y, waiting_x, waiting_y, checking_x, checking_y, distributing,
  finishing, done, State, move, negative, minus_one, store_x, store_y, check_x, check_y, distribute,
  finish, csr_tgo_x, csr_tgo_y,
}
use bsg_manycore.TileCoordinates.Steps
use bsg_manycore.TileCoordinates.Steps.{InGroup, Step, Reach}

-- 1 from where the tile has seen its x, or its y, and 1 at the end
abbrev pub past_x : Pc → ℕ
past_x storing_x = 0
past_x storing_y = 0
past_x waiting_x = 0
past_x p = 1

abbrev pub past_y : Pc → ℕ
past_y storing_x = 0
past_y storing_y = 0
past_y waiting_x = 0
past_y waiting_y = 0
past_y p = 1

abbrev pub at_end : Pc → ℕ
at_end done = 1
at_end p = 0

module _ (tiles_x tiles_y : ℕ) (control : ℕ → ℕ) (small_x : tiles_x ≤ 2 ^ 31)
    (small_y : tiles_y ≤ 2 ^ 31) where
  pub record Values (s : State) (a b : ℕ) : Type 0 where
    pub value_x : s.bsg_x a b ≢ minus_one → s.bsg_x a b ≡ a
    pub value_y : s.bsg_y a b ≢ minus_one → s.bsg_y a b ≡ b
    pub coming_x : (v : ℕ) → 0 < s.x_stores a b v → v ≡ a
    pub coming_y : (v : ℕ) → 0 < s.y_stores a b v → v ≡ b
    pub seen_x : past_x (s.pc a b) ≡ 1 → s.bsg_x a b ≡ a
    pub seen_y : past_y (s.pc a b) ≡ 1 → s.bsg_y a b ≡ b
    pub id : at_end (s.pc a b) ≡ 1 → s.bsg_id a b ≡ (b * tiles_x + a) % 2 ^ 32
    pub org_x : at_end (s.pc a b) ≡ 1 → s.grp_org_x a b ≡ control (remote_ptr_control a b csr_tgo_x)
    pub org_y : at_end (s.pc a b) ≡ 1 → s.grp_org_y a b ≡ control (remote_ptr_control a b csr_tgo_y)
    pub grid_set : at_end (s.pc a b) ≡ 1 → s.grid a b ≡ whole_grid

  module _ (s : State) (a b : ℕ) (here : InGroup tiles_x tiles_y control a b)
      (inv : Values s a b) where
    pc_facts :
        (k l : ℕ) (p : Pc)
        → s.pc k l ≡ p
        → (past_x (s.pc k l) ≡ past_x p)
          × (past_y (s.pc k l) ≡ past_y p)
          × (at_end (s.pc k l) ≡ at_end p)
    pc_facts k l p e = (ap past_x e, ap past_y e, ap at_end e)

    stores_x-Values : (k l : ℕ) → s.pc k l ≡ storing_x → Values (store_x s k l) a b
    stores_x-Values k l e = let f = pc_facts k l storing_x e in grind arith

    stores_y-Values : (k l : ℕ) → s.pc k l ≡ storing_y → Values (store_y s k l) a b
    stores_y-Values k l e = let f = pc_facts k l storing_y e in grind arith

    sees_x-Values :
        (k l : ℕ)
        → s.pc k l ≡ waiting_x
        → negative (s.bsg_x k l) ≡ false
        → Values (move s k l waiting_y) a b
    sees_x-Values k l e seen = let f = pc_facts k l waiting_x e in grind arith

    sees_y-Values :
        (k l : ℕ)
        → s.pc k l ≡ waiting_y
        → negative (s.bsg_y k l) ≡ false
        → Values (move s k l checking_x) a b
    sees_y-Values k l e seen = let f = pc_facts k l waiting_y e in grind arith

    checks_x-Values : (k l : ℕ) → s.pc k l ≡ checking_x → Values (check_x s k l) a b
    checks_x-Values k l e = let f = pc_facts k l checking_x e in grind arith

    checks_y-Values : (k l : ℕ) → s.pc k l ≡ checking_y → Values (check_y s k l) a b
    checks_y-Values k l e = let f = pc_facts k l checking_y e in grind arith

    distributes-Values :
        (k l x y : ℕ)
        → s.pc k l ≡ distributing x y
        → Values (distribute tiles_x tiles_y control s k l x y) a b
    distributes-Values k l x y e = let f = pc_facts k l (distributing x y) e in grind arith

    finishes-Values :
        (k l : ℕ) → s.pc k l ≡ finishing → Values (finish tiles_x tiles_y control s k l) a b
    finishes-Values k l e = let f = pc_facts k l finishing e in grind arith

    x_arrives-Values :
        (k l v : ℕ)
        → 0 < s.x_stores k l v
        → Values (record s { bsg_x = put2 s.bsg_x k l v; x_stores = remove s.x_stores k l v }) a b
    x_arrives-Values k l v some = let f = inv.coming_x v in grind arith

    y_arrives-Values :
        (k l v : ℕ)
        → 0 < s.y_stores k l v
        → Values (record s { bsg_y = put2 s.bsg_y k l v; y_stores = remove s.y_stores k l v }) a b
    y_arrives-Values k l v some = let f = inv.coming_y v in grind arith

  step-Values :
      (s s1 : State) (a b : ℕ)
      → InGroup tiles_x tiles_y control a b
      → Values s a b
      → Step tiles_x tiles_y control s s1
      → Values s1 a b
  step-Values s _ a b h inv (Steps.Step.stores_x k l g e) = stores_x-Values s a b h inv k l e
  step-Values s _ a b h inv (Steps.Step.stores_y k l g e) = stores_y-Values s a b h inv k l e
  step-Values s _ a b h inv (Steps.Step.sees_x k l g e q) = sees_x-Values s a b h inv k l e q
  step-Values s _ a b h inv (Steps.Step.sees_y k l g e q) = sees_y-Values s a b h inv k l e q
  step-Values s _ a b h inv (Steps.Step.checks_x k l g e) = checks_x-Values s a b h inv k l e
  step-Values s _ a b h inv (Steps.Step.checks_y k l g e) = checks_y-Values s a b h inv k l e
  step-Values s _ a b h inv (Steps.Step.distributes k l x y g e) =
      distributes-Values s a b h inv k l x y e
  step-Values s _ a b h inv (Steps.Step.finishes k l g e) = finishes-Values s a b h inv k l e
  step-Values s _ a b h inv (Steps.Step.x_arrives k l v q) = x_arrives-Values s a b h inv k l v q
  step-Values s _ a b h inv (Steps.Step.y_arrives k l v q) = y_arrives-Values s a b h inv k l v q

  pub Reach-Values :
      (s : State) (a b : ℕ)
      → InGroup tiles_x tiles_y control a b
      → Reach tiles_x tiles_y control s
      → Values s a b
  Reach-Values _ a b h Steps.Reach.start = grind arith
  Reach-Values _ a b h (Steps.Reach.step s s1 r d) =
      step-Values s s1 a b h (Reach-Values s a b h r) d
