-- ===== src/Arch.antt =====
-- software/bsg_manycore_lib/bsg_manycore_arch.h and the address macros of bsg_manycore.h: how a
-- tile, a tile group, a global node and DRAM are addressed by 32-bit pointers. An address is the
-- number of its bits. The dimensions of a tile group are the build's bsg_tiles_X and bsg_tiles_Y.
pub mod Layout
pub mod Shared
use bsg_manycore.Prelude.{ℕ, ◌+◌, ◌-◌, ◌*◌, ◌/◌, ◌%◌, ◌^◌, bit_and, bit_or}

abbrev pub epa_addr_bits : ℕ
epa_addr_bits = 18

abbrev pub max_x_cord_bits : ℕ
max_x_cord_bits = 6

abbrev pub max_y_cord_bits : ℕ
max_y_cord_bits = 6

abbrev pub x_cord_shifts : ℕ
x_cord_shifts = epa_addr_bits

abbrev pub y_cord_shifts : ℕ
y_cord_shifts = x_cord_shifts + max_x_cord_bits

abbrev pub remote_epa_prefix : ℕ
remote_epa_prefix = 1

abbrev pub global_epa_prefix : ℕ
global_epa_prefix = 1

abbrev pub remote_epa_mask_shifts : ℕ
remote_epa_mask_shifts = y_cord_shifts + max_y_cord_bits - 1

abbrev pub global_epa_mask_shifts : ℕ
global_epa_mask_shifts = y_cord_shifts + max_y_cord_bits

abbrev pub csr_base_addr : ℕ
csr_base_addr = 2 ^ (epa_addr_bits - 1)

-- `a << k` of a 32-bit word
abbrev pub shl : ℕ → ℕ → ℕ
shl a k = a * 2 ^ k % 2 ^ 32

-- bsg_remote_ptr, and bsg_tile_group_remote_ptr at any type
unfoldable pub remote_ptr : ℕ → ℕ → ℕ → ℕ
remote_ptr x y local_addr =
    bit_or
      (bit_or (bit_or (shl remote_epa_prefix remote_epa_mask_shifts) (shl y y_cord_shifts))
        (shl x x_cord_shifts))
      local_addr

-- bsg_global_ptr and bsg_global_float_ptr
unfoldable pub global_ptr : ℕ → ℕ → ℕ → ℕ
global_ptr x y local_addr =
    bit_or
      (bit_or (bit_or (shl global_epa_prefix global_epa_mask_shifts) (shl y y_cord_shifts))
        (shl x x_cord_shifts))
      local_addr

unfoldable pub dram_ptr : ℕ → ℕ
dram_ptr local_addr = bit_or (shl 1 31) local_addr

unfoldable pub host_dram_ptr : ℕ → ℕ
host_dram_ptr addr = bit_or (shl 3 30) addr

unfoldable pub local_ptr : ℕ → ℕ
local_ptr remote_addr = bit_and remote_addr (2 ^ epa_addr_bits - 1)

unfoldable pub remote_ptr_control : ℕ → ℕ → ℕ → ℕ
remote_ptr_control x y csr_offset = remote_ptr x y (csr_base_addr + csr_offset)

-- The io node stands at IO_Y_INDEX = 0 of the column `x`.
unfoldable pub remote_ptr_io : ℕ → ℕ → ℕ
remote_ptr_io x local_addr = global_ptr x 0 local_addr

-- `tiles_x` stands for the build's bsg_tiles_X, `tiles_y` for bsg_tiles_Y.
unfoldable pub id_to_x : (tiles_x id : ℕ) → ℕ
id_to_x tiles_x id = id % tiles_x

unfoldable pub id_to_y : (tiles_x id : ℕ) → ℕ
id_to_y tiles_x id = id / tiles_x

unfoldable pub x_y_to_id : (tiles_x x y : ℕ) → ℕ
x_y_to_id tiles_x x y = tiles_x * y + x

-- The number of elements that bsg_tile_group_shared_mem declares in each tile for `size`.
unfoldable pub shared_mem_length : (tiles_x tiles_y size : ℕ) → ℕ
shared_mem_length tiles_x tiles_y size = (size + (tiles_x * tiles_y - 1)) / (tiles_x * tiles_y)

-- bsg_tile_group_shared_ptr: `lc_sh` is the local address of the array, `bytes` its element size.
unfoldable pub tile_group_shared_ptr : (tiles_x tiles_y bytes lc_sh index : ℕ) → ℕ
tile_group_shared_ptr tiles_x tiles_y bytes lc_sh index =
    remote_ptr (index % tiles_x) (index / tiles_x % tiles_y)
      (lc_sh + index / (tiles_x * tiles_y) * bytes)
