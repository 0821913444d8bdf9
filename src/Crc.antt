-- ===== src/Crc.antt =====
-- The CRC programs: software/spmd/crc32/main.c, a table-driven CRC-32 of a byte array, and
-- software/spmd/remote_load_crc/main.c, a bitwise CRC of words loaded from every tile.
pub mod Table
pub mod Data
pub mod Bitwise
pub mod RemoteLoad
use Table.{table}
use Data.{data_bytes}
use bsg_manycore.Prelude.{
  ℕ, zero, suc, ◌+◌, ◌*◌, ◌/◌, ◌%◌, ◌^◌, bit_and, bit_or, bit_xor, List, [], ◌∷◌, Option, none,
  some, get_or, ltb, ◌==◌, if◌then◌else◌,
}
use bsg_manycore.Arch.{shl}

-- How a program ends: bsg_finish or bsg_fail.
pub data Outcome : Type 0 where
  finish : Outcome
  fail : Outcome

abbrev pub answer : ℕ
answer = 0x59123cd1

-- one round of the loop in main of crc32
unfoldable pub table_step : (crc byte : ℕ) → ℕ
table_step crc byte =
    let idx = bit_and (bit_xor crc byte) 0xff in bit_xor (crc / 2 ^ 8) (get_or table idx 0)

unfoldable pub table_loop : (crc : ℕ) → List ℕ → ℕ
table_loop crc [] = crc
table_loop crc (byte ∷ bytes) = table_loop (table_step crc byte) bytes

unfoldable pub table_crc : List ℕ → ℕ
unfolding table_loop
table_crc bytes = bit_xor (table_loop 0xffffffff bytes) 0xffffffff

-- main of crc32 at tile (0, 0), on any input
unfoldable pub main_crc32 : List ℕ → Outcome
unfolding table_crc
main_crc32 bytes = if table_crc bytes == answer then finish else fail

abbrev pub crc_32_poly : ℕ
crc_32_poly = 0xedb88320

-- `crc >> 1` of a signed int
abbrev pub shift_int : ℕ → ℕ
shift_int crc = crc / 2 + (if ltb crc (2 ^ 31) then 0 else 2 ^ 31)

-- the inner loop of crc32 in remote_load_crc, `n` rounds
unfoldable pub int_rounds : (n crc : ℕ) → ℕ
int_rounds zero crc = crc
int_rounds (suc n) crc =
    int_rounds n (if bit_and crc 1 == 0 then shift_int crc else bit_xor (shift_int crc) crc_32_poly)

-- The loops of crc32 in remote_load_crc: both count in `i`, which is 32 when the inner loop ends.
-- `words` is the memory from `addr` on; `none` is a loop that has not ended when the fuel runs out.
unfoldable pub int_loop : (fuel : ℕ) → (words : ℕ → ℕ) → (addr i size crc : ℕ) → Option ℕ
int_loop zero words addr i size crc = none
int_loop (suc fuel) words addr i size crc =
    let rest =
      int_loop fuel words (addr + 1) (32 + 1) size (int_rounds 32 (bit_xor crc (words addr))) in
    if ltb i size then rest else some crc

unfoldable pub int_crc32 : (fuel : ℕ) → (words : ℕ → ℕ) → (size : ℕ) → Option ℕ
unfolding int_loop
int_crc32 fuel words size = int_loop fuel words 0 0 size 0xffffffff

abbrev pub vec_len : ℕ
vec_len = 32

-- XY_ID with the program's bsg_tiles_X of 4
abbrev pub xy_id : ℕ → ℕ → ℕ
xy_id x y = shl (x + y * 4) 24

-- The initialiser of Data[y][x], NODE_VEC(x, y).
unfoldable pub node_vec : (x y i : ℕ) → ℕ
node_vec x y i = bit_or i (xy_id x y)

-- What proc0 does with the checksum of a tile, with the checksum of tile (0, 0) once it is known, and
-- with the rest of the loops.
unfoldable pub next_tile :
    (check_sum first : Option ℕ) → (Option ℕ → Option Outcome) → Option Outcome
next_tile none first rest = none
next_tile (some c) none rest = rest (some c)
next_tile (some c) (some c0) rest = if c == c0 then rest (some c0) else some fail

-- The loops over the tiles; `remote x y i` is what a load of Data[y][x][i] from tile (x, y) returns.
unfoldable pub check_tiles :
    (fuel : ℕ) (remote : ℕ → ℕ → ℕ → ℕ) → List (ℕ × ℕ) → (first : Option ℕ) → Option Outcome
check_tiles fuel remote [] first = some finish
check_tiles fuel remote ((x, y) ∷ rest_tiles) first =
    next_tile (int_crc32 fuel (λ i. bit_xor (remote x y i) (xy_id x y)) vec_len) first
      (check_tiles fuel remote rest_tiles)

-- proc0 of remote_load_crc: the tiles of the 4 by 4 group, row by row.
abbrev pub tiles : List (ℕ × ℕ)
tiles =
    (0, 0)
    ∷ (1, 0)
    ∷ (2, 0)
    ∷ (3, 0)
    ∷ (0, 1)
    ∷ (1, 1)
    ∷ (2, 1)
    ∷ (3, 1)
    ∷ (0, 2)
    ∷ (1, 2)
    ∷ (2, 2)
    ∷ (3, 2)
    ∷ (0, 3)
    ∷ (1, 3)
    ∷ (2, 3)
    ∷ (3, 3)
    ∷ []

unfoldable pub proc0 : (fuel : ℕ) → (remote : ℕ → ℕ → ℕ → ℕ) → Option Outcome
proc0 fuel remote = check_tiles fuel remote tiles none
