-- ===== src/Arch/Layout.antt =====
-- The bit layout of pointers: software/bsg_manycore_lib/bsg_manycore_arch.h, section 3.
use bsg_manycore.Prelude.{ℕ, ◌+◌, ◌*◌, ◌/◌, ◌%◌, ◌^◌, ◌<◌, bit_or, ◌≡◌, ◌≢◌, arith, ap, ◌∙◌}
use bsg_manycore.Prelude.Bits.{bit_or_fields, bit_and_mask}
use bsg_manycore.Arch.{remote_ptr, global_ptr, dram_ptr, local_ptr}

-- The fields of a pointer as the comment of the header draws them:
-- { prefix, y_cord, x_cord, addr } with 18 bits of address and 6 of x; y has 5 bits in a pointer
-- into the tile group, whose prefix is 001, and 6 in a global one, whose prefix is 01.
abbrev pub addr_field : ℕ → ℕ
addr_field p = p % 2 ^ 18

abbrev pub x_field : ℕ → ℕ
x_field p = p / 2 ^ 18 % 2 ^ 6

abbrev pub remote_y_field : ℕ → ℕ
remote_y_field p = p / 2 ^ 24 % 2 ^ 5

abbrev pub remote_prefix : ℕ → ℕ
remote_prefix p = p / 2 ^ 29

abbrev pub global_y_field : ℕ → ℕ
global_y_field p = p / 2 ^ 24 % 2 ^ 6

abbrev pub global_prefix : ℕ → ℕ
global_prefix p = p / 2 ^ 30

-- The shifted fields of a pointer do not overlap, so `|` adds them.
or_fields :
    (hi x a : ℕ)
    → x < 64
    → a < 2 ^ 18
    → bit_or (bit_or (hi * 2 ^ 24) (x * 2 ^ 18)) a ≡ (hi * 64 + x) * 2 ^ 18 + a
or_fields hi x a hx ha =
    ap (λ t. bit_or t a) (bit_or_fields 24 hi (x * 2 ^ 18) (omega arith) ∙ regroup)
    ∙ bit_or_fields 18 (hi * 64 + x) a ha
  where
    regroup : hi * 2 ^ 24 + x * 2 ^ 18 ≡ (hi * 64 + x) * 2 ^ 18
    regroup = omega arith

pub remote_ptr_sum :
    (x y a : ℕ) → x < 64 → y < 32 → a < 2 ^ 18 → remote_ptr x y a ≡ ((32 + y) * 64 + x) * 2 ^ 18 + a
unfolding remote_ptr
remote_ptr_sum x y a hx hy ha = rw (top, low) (or_fields (32 + y) x a hx ha)
  where
    low : x * 2 ^ 18 % 2 ^ 32 ≡ x * 2 ^ 18
    low = omega arith

    top : bit_or (1 * 2 ^ 29 % 2 ^ 32) (y * 2 ^ 24 % 2 ^ 32) ≡ (32 + y) * 2 ^ 24
    top = omega (arith, bit_or_fields 29 1 (y * 2 ^ 24 % 2 ^ 32) (omega arith))

pub global_ptr_sum :
    (x y a : ℕ) → x < 64 → y < 64 → a < 2 ^ 18 → global_ptr x y a ≡ ((64 + y) * 64 + x) * 2 ^ 18 + a
unfolding global_ptr
global_ptr_sum x y a hx hy ha = rw (top, low) (or_fields (64 + y) x a hx ha)
  where
    low : x * 2 ^ 18 % 2 ^ 32 ≡ x * 2 ^ 18
    low = omega arith

    top : bit_or (1 * 2 ^ 30 % 2 ^ 32) (y * 2 ^ 24 % 2 ^ 32) ≡ (64 + y) * 2 ^ 24
    top = omega (arith, bit_or_fields 30 1 (y * 2 ^ 24 % 2 ^ 32) (omega arith))

pub dram_ptr_sum : (a : ℕ) → a < 2 ^ 31 → dram_ptr a ≡ 2 ^ 31 + a
unfolding dram_ptr
dram_ptr_sum a h = bit_or_fields 31 1 a h

pub local_ptr_mod : (p : ℕ) → local_ptr p ≡ p % 2 ^ 18
unfolding local_ptr
local_ptr_mod p = bit_and_mask 18 p

-- A pointer into the tile group has the prefix 001 and holds the coordinates and the local address
-- that it was made from, if x fits 6 bits, y fits 5 bits and the address fits 18 bits, and
-- bsg_local_ptr gives the local address back.
pub remote_ptr_fields :
    (x y a : ℕ)
    → x < 64
    → y < 32
    → a < 2 ^ 18
    → (remote_prefix (remote_ptr x y a) ≡ 1)
      × (remote_y_field (remote_ptr x y a) ≡ y)
      × (x_field (remote_ptr x y a) ≡ x)
      × (local_ptr (remote_ptr x y a) ≡ a)
remote_ptr_fields x y a hx hy ha =
    omega (arith, remote_ptr_sum x y a hx hy ha, local_ptr_mod (remote_ptr x y a))

-- A global pointer has the prefix 01 and holds its coordinates and address, if each coordinate
-- fits 6 bits and the address fits 18 bits, and bsg_local_ptr gives the address back.
pub global_ptr_fields :
    (x y a : ℕ)
    → x < 64
    → y < 64
    → a < 2 ^ 18
    → (global_prefix (global_ptr x y a) ≡ 1)
      × (global_y_field (global_ptr x y a) ≡ y)
      × (x_field (global_ptr x y a) ≡ x)
      × (local_ptr (global_ptr x y a) ≡ a)
global_ptr_fields x y a hx hy ha =
    omega (arith, global_ptr_sum x y a hx hy ha, local_ptr_mod (global_ptr x y a))

-- The three address spaces are disjoint: no pointer into the tile group, global pointer and DRAM
-- pointer, each made from arguments in range, are equal.
pub address_spaces_disjoint :
    (x y a x' y' a' d : ℕ)
    → (x < 64) × (y < 32) × (a < 2 ^ 18)
    → (x' < 64) × (y' < 64) × (a' < 2 ^ 18)
    → d < 2 ^ 31
    → (remote_ptr x y a ≢ global_ptr x' y' a')
      × (remote_ptr x y a ≢ dram_ptr d)
      × (global_ptr x' y' a' ≢ dram_ptr d)
address_spaces_disjoint x y a x' y' a' d (hx, hy, ha) (hx', hy', ha') hd =
    omega
      (arith, remote_ptr_sum x y a hx hy ha, global_ptr_sum x' y' a' hx' hy' ha', dram_ptr_sum d hd)
