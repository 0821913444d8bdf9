-- ===== src/TileCoordinates/Steps.antt =====
-- The steps of the tiles of TileCoordinates.
use bsg_manycore.Prelude.{ℕ, ◌<◌, ◌≡◌, false}
use bsg_manycore.Prelude.Updates.{put2, remove}
use bsg_manycore.TileCoordinates.{
  storing_x, storing_y, waiting_x, waiting_y, checking_x, checking_y, distributing, finishing,
  State, initial, move, negative, store_x, store_y, check_x, check_y, distribute, finish,
}

module _ (tiles_x tiles_y : ℕ) (control : ℕ → ℕ) where
  abbrev pub InGroup : ℕ → ℕ → Type 0
  InGroup a b = (a < tiles_x) × (b < tiles_y)

  pub data Step (s : State) : State → Type 0 where
    stores_x : (a b : ℕ) → InGroup a b → s.pc a b ≡ storing_x → Step s (store_x s a b)
    stores_y : (a b : ℕ) → InGroup a b → s.pc a b ≡ storing_y → Step s (store_y s a b)
    sees_x :
        (a b : ℕ)
        → InGroup a b
        → s.pc a b ≡ waiting_x
        → negative (s.bsg_x a b) ≡ false
        → Step s (move s a b waiting_y)
    sees_y :
        (a b : ℕ)
        → InGroup a b
        → s.pc a b ≡ waiting_y
        → negative (s.bsg_y a b) ≡ false
        → Step s (move s a b checking_x)
    checks_x : (a b : ℕ) → InGroup a b → s.pc a b ≡ checking_x → Step s (check_x s a b)
    checks_y : (a b : ℕ) → InGroup a b → s.pc a b ≡ checking_y → Step s (check_y s a b)
    distributes :
        (a b x y : ℕ)
        → InGroup a b
        → s.pc a b ≡ distributing x y
        → Step s (distribute tiles_x tiles_y control s a b x y)
    finishes :
        (a b : ℕ)
        → InGroup a b
        → s.pc a b ≡ finishing
        → Step s (finish tiles_x tiles_y control s a b)
    x_arrives :
        (a b v : ℕ)
        → 0 < s.x_stores a b v
        → Step s (record s { bsg_x = put2 s.bsg_x a b v; x_stores = remove s.x_stores a b v })
    y_arrives :
        (a b v : ℕ)
        → 0 < s.y_stores a b v
        → Step s (record s { bsg_y = put2 s.bsg_y a b v; y_stores = remove s.y_stores a b v })

  pub data Reach : State → Type 0 where
    start : Reach initial
    step : (s s1 : State) → Reach s → Step s s1 → Reach s1
