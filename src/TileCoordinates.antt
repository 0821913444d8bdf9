-- ===== src/TileCoordinates.antt =====
-- software/bsg_manycore_lib/bsg_set_tile_x_y.c: the tiles of a group learn their coordinates, a step for each
-- access to memory. A store to another tile arrives at any later time, in any order with the others.
-- An int is its 32-bit word.
pub mod Steps
pub mod Values
pub mod Progress
use bsg_manycore.Prelude.{
  ℕ, zero, suc, ◌+◌, ◌-◌, ◌*◌, ◌%◌, ◌^◌, Bool, leb, ltb, ◌==◌, ◌&&◌, if◌then◌else◌,
}
use bsg_manycore.Prelude.Updates.{put2, Flights, add, remove}
use bsg_manycore.Arch.{remote_ptr_control}

-- the initial value of the variables, and the test `value < 0`
abbrev pub minus_one : ℕ
minus_one = 2 ^ 32 - 1

abbrev pub negative : ℕ → Bool
negative word = leb (2 ^ 31) word

-- Where a tile is in bsg_set_tile_x_y, with the indices of the loops.
pub data Pc : Type 0 where
  storing_x : Pc
  storing_y : Pc
  waiting_x : Pc
  waiting_y : Pc
  checking_x : Pc
  checking_y : Pc
  distributing : (x y : ℕ) → Pc
  finishing : Pc
  done : Pc

-- `__bsg_grid_dim_x`, `__bsg_grid_dim_y`, `__bsg_tile_group_id_x`, `__bsg_tile_group_id_y` and
-- `__bsg_tile_group_id`
pub record Grid : Type 0 where
  pub grid_dim_x : ℕ
  pub grid_dim_y : ℕ
  pub tile_group_id_x : ℕ
  pub tile_group_id_y : ℕ
  pub tile_group_id : ℕ

abbrev pub no_grid : Grid
no_grid = record {
  grid_dim_x = minus_one;
  grid_dim_y = minus_one;
  tile_group_id_x = minus_one;
  tile_group_id_y = minus_one;
  tile_group_id = minus_one;
}

-- a grid of one group
abbrev pub whole_grid : Grid
whole_grid = record {
  grid_dim_x = 1;
  grid_dim_y = 1;
  tile_group_id_x = 0;
  tile_group_id_y = 0;
  tile_group_id = 0;
}

-- By the place of a tile in its group: `__bsg_x` and `__bsg_y` with the stores to them on their way, and
-- the variables that are computed from them.
pub record State : Type 0 where
  pub pc : ℕ → ℕ → Pc
  pub bsg_x : ℕ → ℕ → ℕ
  pub bsg_y : ℕ → ℕ → ℕ
  pub x_stores : Flights
  pub y_stores : Flights
  pub bsg_id : ℕ → ℕ → ℕ
  pub grp_org_x : ℕ → ℕ → ℕ
  pub grp_org_y : ℕ → ℕ → ℕ
  pub grid : ℕ → ℕ → Grid

abbrev pub initial : State
initial = record {
  pc = λ a b. storing_x;
  bsg_x = λ a b. minus_one;
  bsg_y = λ a b. minus_one;
  x_stores = λ a b v. 0;
  y_stores = λ a b v. 0;
  bsg_id = λ a b. minus_one;
  grp_org_x = λ a b. minus_one;
  grp_org_y = λ a b. minus_one;
  grid = λ a b. no_grid;
}

abbrev pub move : State → ℕ → ℕ → Pc → State
move s a b p = record s { pc = put2 s.pc a b p }

-- CSR_TGO_X and CSR_TGO_Y
abbrev pub csr_tgo_x : ℕ
csr_tgo_x = 0x4

abbrev pub csr_tgo_y : ℕ
csr_tgo_y = 0x8

-- `bsg_remote_store(0,0,bsg_x_v,0)`, and the same of bsg_y_v
abbrev pub store_x : State → ℕ → ℕ → State
store_x s a b = record (move s a b storing_y) { x_stores = add s.x_stores 0 0 0 }

abbrev pub store_y : State → ℕ → ℕ → State
store_y s a b = record (move s a b waiting_x) { y_stores = add s.y_stores 0 0 0 }

-- `!*bsg_x_v && !*bsg_y_v`, one variable after the other
abbrev pub check_x : State → ℕ → ℕ → State
check_x s a b = move s a b (if s.bsg_x a b == 0 then checking_y else finishing)

abbrev pub check_y : State → ℕ → ℕ → State
check_y s a b = move s a b (if s.bsg_y a b == 0 then distributing 0 0 else finishing)

-- what the control registers hold, by their pointer
module _ (tiles_x tiles_y : ℕ) (control : ℕ → ℕ) where
  -- the two stores in the loops over x and y, and the ends of these loops
  abbrev pub distribute : State → (a b x y : ℕ) → State
  distribute s a b x y =
      let sent = record (move s a b (distributing x (y + 1))) {
        x_stores = add s.x_stores x y x;
        y_stores = add s.y_stores x y y;
      } in
      if ltb x tiles_x
      then (if ltb y tiles_y then sent else move s a b (distributing (x + 1) 0))
      else move s a b finishing

  -- the assignments at the end
  abbrev pub finish : State → ℕ → ℕ → State
  finish s a b =
      let x = s.bsg_x a b in
      let y = s.bsg_y a b in
      record (move s a b done) {
        bsg_id = put2 s.bsg_id a b ((y * tiles_x + x) % 2 ^ 32);
        grp_org_x = put2 s.grp_org_x a b (control (remote_ptr_control x y csr_tgo_x));
        grp_org_y = put2 s.grp_org_y a b (control (remote_ptr_control x y csr_tgo_y));
        grid = put2 s.grid a b whole_grid;
      }
