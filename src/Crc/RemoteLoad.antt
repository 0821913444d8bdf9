-- ===== src/Crc/RemoteLoad.antt =====
-- The word CRC of software/spmd/remote_load_crc/main.c, whose two loops share their counter.
use mathlib.Core.List.{tail}
use bsg_manycore.Prelude.{
  ℕ, zero, suc, ◌+◌, ◌≤◌, ◌<◌, ◌≡◌, refl, ap, ◌∙◌, arith, bit_xor, List, [], ◌∷◌, none, some, ◌==◌,
  true,
}
use bsg_manycore.Prelude.Bits.{zero-bit_or, bit_xor_self}
use bsg_manycore.Crc.{
  finish, int_rounds, int_loop, int_crc32, node_vec, xy_id, next_tile, check_tiles, proc0, tiles,
  vec_len,
}

-- The checksum of up to 33 words is that of the first word alone: the inner loop leaves the counter of
-- the outer loop at 33. It is returned with any fuel of 2 or more.
pub int_crc32-first :
    (fuel : ℕ) (words : ℕ → ℕ) (size : ℕ)
    → 0 < size
    → size ≤ 33
    → int_crc32 (suc (suc fuel)) words size ≡ some (int_rounds 32 (bit_xor 0xffffffff (words 0)))
unfolding int_crc32
int_crc32-first fuel words size pos small = ground arith

int_loop-none :
    (fuel : ℕ) (words : ℕ → ℕ) (addr i size crc : ℕ)
    → i ≤ 33
    → 33 < size
    → int_loop fuel words addr i size crc ≡ none
unfolding int_loop
int_loop-none zero words addr i size crc hi h = refl
int_loop-none (suc fuel) words addr i size crc hi h = ground (
  arith,
  int_loop-none fuel words (addr + 1) 33 size (int_rounds 32 (bit_xor crc (words addr)))
      (omega arith) h,
)

-- On more than 33 words the loops never end, whatever the fuel.
pub int_crc32-none :
    (fuel : ℕ) (words : ℕ → ℕ) (size : ℕ) → 33 < size → int_crc32 fuel words size ≡ none
unfolding int_crc32
int_crc32-none fuel words size h = int_loop-none fuel words 0 0 size 0xffffffff (omega arith) h

-- the checksum of a word 0
abbrev clean : ℕ
clean = int_rounds 32 (bit_xor 0xffffffff 0)

-- The first word of every tile in the list is as the program initialised it.
abbrev pub FirstWordsGood : (ℕ → ℕ → ℕ → ℕ) → List (ℕ × ℕ) → Type 0
FirstWordsGood remote [] = Unit
FirstWordsGood remote ((x, y) ∷ rest) = (remote x y 0 ≡ node_vec x y 0) × FirstWordsGood remote rest

tile_sum :
    (fuel : ℕ) (remote : ℕ → ℕ → ℕ → ℕ) (x y : ℕ)
    → remote x y 0 ≡ node_vec x y 0
    → int_crc32 (suc (suc fuel)) (λ i. bit_xor (remote x y i) (xy_id x y)) vec_len ≡ some clean
unfolding node_vec
tile_sum fuel remote x y e =
    int_crc32-first fuel (λ i. bit_xor (remote x y i) (xy_id x y)) 32 (omega arith) (omega arith)
    ∙ ap (λ t. some (int_rounds 32 (bit_xor 0xffffffff t)))
        (ap (λ t. bit_xor t (xy_id x y)) (e ∙ zero-bit_or (xy_id x y)) ∙ bit_xor_self (xy_id x y))

check_tiles-finish :
    (fuel : ℕ) (remote : ℕ → ℕ → ℕ → ℕ) (l : List (ℕ × ℕ))
    → FirstWordsGood remote l
    → check_tiles (suc (suc fuel)) remote l (some clean) ≡ some finish
unfolding check_tiles next_tile
check_tiles-finish fuel remote [] h = refl
check_tiles-finish fuel remote ((x, y) ∷ rest) h =
    ap (λ o. next_tile o (some clean) (check_tiles (suc (suc fuel)) remote rest))
      (tile_sum fuel remote x y h.0)
    ∙ rw compare-self (check_tiles-finish fuel remote rest h.1)
  where
    compare-self : (clean == clean) ≡ true
    compare-self = ground arith

-- With 2 or more units of fuel the test of all 16 tiles finishes and does not fail if only the first
-- word of each tile is as initialised, whatever the loads of the other 31 words return.
pub proc0-finish :
    (fuel : ℕ) (remote : ℕ → ℕ → ℕ → ℕ)
    → FirstWordsGood remote tiles
    → proc0 (suc (suc fuel)) remote ≡ some finish
unfolding proc0 check_tiles next_tile
proc0-finish fuel remote h =
    ap (λ o. next_tile o none (check_tiles (suc (suc fuel)) remote (tail tiles)))
      (tile_sum fuel remote 0 0 h.0)
    ∙ check_tiles-finish fuel remote (tail tiles) h.1
