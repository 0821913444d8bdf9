-- ===== src/Tilegroup.antt =====
-- software/bsg_manycore_lib/bsg_tilegroup.h: arrays striped over the tiles of a group, as the
-- runtime functions that the compiler pass calls. All tiles' memories and DRAM are one memory, in
-- which a tile's own memory is where its remote pointers point; a load or store acts on it at once.
-- The plain pointers that load_extern_array and the copies take are addresses in this memory.
pub mod Pointer
pub mod Access
pub mod Copy
pub mod Initial
use bsg_manycore.Prelude.{
  ℕ, zero, suc, ◌+◌, ◌-◌, ◌*◌, ◌/◌, ◌%◌, ◌^◌, bit_or, Option, none, some, ◌==◌, if◌then◌else◌,
}
use bsg_manycore.Memory.{Memory, load, store, update}
use bsg_manycore.Arch.{
  shl, remote_ptr, remote_epa_prefix, remote_epa_mask_shifts, x_cord_shifts, y_cord_shifts,
}

-- The loop of load_extern_array: `n` rounds of `*dest = *src`, `dest` going on by one word and the
-- source by `stride` bytes. Pointers are 32-bit.
unfoldable pub copy_strided : (stride n : ℕ) → Memory → (dest src : ℕ) → Memory
copy_strided stride zero m dest src = m
copy_strided stride (suc n) m dest src =
    copy_strided stride n (store 4 m dest (load 4 m src)) ((dest + 4) % 2 ^ 32)
      ((src + stride) % 2 ^ 32)

-- The loop `while (len) { *dest = *src; dest++; src++; len -= sizeof(int); }` on unsigned `len`;
-- `none` is a loop that has not ended when the fuel runs out.
unfoldable pub copy_words : (fuel : ℕ) → Memory → (dest src len : ℕ) → Option Memory
copy_words zero m dest src len = none
copy_words (suc fuel) m dest src len =
    let rest =
      copy_words fuel (store 4 m dest (load 4 m src)) ((dest + 4) % 2 ^ 32) ((src + 4) % 2 ^ 32)
        ((len + 2 ^ 32 - 4) % 2 ^ 32) in
    if len == 0 then some m else rest

-- The loop of extern_memset: a byte is stored, and `len` falls by sizeof(int).
unfoldable pub set_bytes : (fuel : ℕ) → Memory → (dest val len : ℕ) → Option Memory
set_bytes zero m dest val len = none
set_bytes (suc fuel) m dest val len =
    let rest =
      set_bytes fuel (store 1 m dest val) ((dest + 1) % 2 ^ 32) val ((len + 2 ^ 32 - 4) % 2 ^ 32) in
    if len == 0 then some m else rest

-- The C types that the compiler pass gives to a load or store, and their sizes.
pub data Width : Type 0 where
  char_width : Width
  short_width : Width
  int_width : Width
  float_width : Width

abbrev pub bytes : Width → ℕ
bytes char_width = 1
bytes short_width = 2
bytes int_width = 4
bytes float_width = 4

-- `start` is the address of _bsg_striped_data_start, which the linker places; `group_size` and
-- `tiles_x` are the build's bsg_group_size and bsg_tiles_X.
module _ (start group_size tiles_x : ℕ) where
  unfoldable pub stripe_index : (ptr elem_size : ℕ) → ℕ
  stripe_index ptr elem_size = (ptr + 2 ^ 32 - start) % 2 ^ 32 / elem_size

  unfoldable pub stripe_local_addr : (ptr elem_size : ℕ) → ℕ
  unfolding stripe_index
  stripe_local_addr ptr elem_size =
      (start + stripe_index ptr elem_size / group_size * elem_size) % 2 ^ 32

  unfoldable pub get_ptr_val : (arr_ptr elem_size local_offset : ℕ) → ℕ
  unfolding stripe_index stripe_local_addr
  get_ptr_val arr_ptr elem_size local_offset =
      let core_id = stripe_index arr_ptr elem_size % group_size in
      let tile_x = core_id / tiles_x in
      let tile_y = core_id % tiles_x in
      let local_addr = (stripe_local_addr arr_ptr elem_size + local_offset) % 2 ^ 32 in
      bit_or
        (bit_or (bit_or (shl remote_epa_prefix remote_epa_mask_shifts) (shl tile_x x_cord_shifts))
          (shl tile_y y_cord_shifts))
        local_addr

  -- What tile (bsg_x, bsg_y), with identifier `bsg_id`, does at the start. It stores through addresses
  -- of its own memory: local_addr is the byte that a remote pointer of the tile selects.
  unfoldable pub load_extern_array :
      (bsg_x bsg_y bsg_id : ℕ) → Memory → (dest_ptr src_ptr num_elems elem_size : ℕ) → Memory
  load_extern_array bsg_x bsg_y bsg_id m dest_ptr src_ptr num_elems elem_size =
      copy_strided (4 * group_size) (num_elems * (elem_size / 4) % 2 ^ 32) m
        (remote_ptr bsg_x bsg_y (stripe_local_addr dest_ptr elem_size))
        ((src_ptr + 4 * bsg_id) % 2 ^ 32)

  -- A float is its 32 bits.
  unfoldable pub extern_store_float : Memory → (arr_ptr elem_size offset val : ℕ) → Memory
  extern_store_float m arr_ptr elem_size offset val =
      store 4 m (get_ptr_val arr_ptr elem_size offset) val

  unfoldable pub extern_store_int : Memory → (arr_ptr elem_size offset val : ℕ) → Memory
  extern_store_int m arr_ptr elem_size offset val =
      store 4 m (get_ptr_val arr_ptr elem_size offset) val

  unfoldable pub extern_store_short : Memory → (arr_ptr elem_size offset val : ℕ) → Memory
  extern_store_short m arr_ptr elem_size offset val =
      store 2 m (get_ptr_val arr_ptr elem_size offset) val

  unfoldable pub extern_store_char : Memory → (arr_ptr elem_size offset val : ℕ) → Memory
  extern_store_char m arr_ptr elem_size offset val =
      store 1 m (get_ptr_val arr_ptr elem_size offset) val

  -- A volatile access reads the same memory. The result of a load is its bit pattern.
  unfoldable pub extern_load_float : Memory → (arr_ptr elem_size offset is_vol : ℕ) → ℕ
  extern_load_float m arr_ptr elem_size offset is_vol =
      let ptr = get_ptr_val arr_ptr elem_size offset in
      if is_vol == 0 then load 4 m ptr else load 4 m ptr

  unfoldable pub extern_load_int : Memory → (arr_ptr elem_size offset is_vol : ℕ) → ℕ
  extern_load_int m arr_ptr elem_size offset is_vol =
      let ptr = get_ptr_val arr_ptr elem_size offset in
      if is_vol == 0 then load 4 m ptr else load 4 m ptr

  unfoldable pub extern_load_short : Memory → (arr_ptr elem_size offset is_vol : ℕ) → ℕ
  extern_load_short m arr_ptr elem_size offset is_vol =
      let ptr = get_ptr_val arr_ptr elem_size offset in
      if is_vol == 0 then load 2 m ptr else load 2 m ptr

  unfoldable pub extern_load_char : Memory → (arr_ptr elem_size offset is_vol : ℕ) → ℕ
  extern_load_char m arr_ptr elem_size offset is_vol =
      let ptr = get_ptr_val arr_ptr elem_size offset in
      if is_vol == 0 then load 1 m ptr else load 1 m ptr

  -- the store, and the load, for an access of a width
  unfoldable pub extern_store : Width → Memory → (arr_ptr elem_size offset val : ℕ) → Memory
  unfolding extern_store_char extern_store_short extern_store_int extern_store_float
  extern_store char_width m arr_ptr elem_size offset val =
      extern_store_char m arr_ptr elem_size offset val
  extern_store short_width m arr_ptr elem_size offset val =
      extern_store_short m arr_ptr elem_size offset val
  extern_store int_width m arr_ptr elem_size offset val =
      extern_store_int m arr_ptr elem_size offset val
  extern_store float_width m arr_ptr elem_size offset val =
      extern_store_float m arr_ptr elem_size offset val

  unfoldable pub extern_load : Width → Memory → (arr_ptr elem_size offset is_vol : ℕ) → ℕ
  unfolding extern_load_char extern_load_short extern_load_int extern_load_float
  extern_load char_width m arr_ptr elem_size offset is_vol =
      extern_load_char m arr_ptr elem_size offset is_vol
  extern_load short_width m arr_ptr elem_size offset is_vol =
      extern_load_short m arr_ptr elem_size offset is_vol
  extern_load int_width m arr_ptr elem_size offset is_vol =
      extern_load_int m arr_ptr elem_size offset is_vol
  extern_load float_width m arr_ptr elem_size offset is_vol =
      extern_load_float m arr_ptr elem_size offset is_vol

  unfoldable pub extern_load_memcpy : (fuel : ℕ) → Memory → (dest src len : ℕ) → Option Memory
  extern_load_memcpy fuel m dest src len = copy_words fuel m dest (get_ptr_val src len 0) len

  unfoldable pub extern_store_memcpy : (fuel : ℕ) → Memory → (dest src len : ℕ) → Option Memory
  extern_store_memcpy fuel m dest src len = copy_words fuel m (get_ptr_val dest len 0) src len

  unfoldable pub extern_memset : (fuel : ℕ) → Memory → (dest val len : ℕ) → Option Memory
  extern_memset fuel m dest val len = set_bytes fuel m (get_ptr_val dest len 0) val len
