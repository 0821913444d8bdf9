-- ===== src/Tests/Pointers.antt =====
-- Pointers and striped arrays at concrete inputs: software/bsg_manycore_lib/bsg_manycore_arch.h and
-- bsg_tilegroup.h.
use bsg_manycore.Prelude.{
  ℕ, ◌+◌, ◌*◌, ◌/◌, ◌%◌, ◌^◌, ◌≤◌, ◌<◌, ◌≡◌, ◌≢◌, ◌↔◌, inl, arith, none, some, refl,
}
use bsg_manycore.Memory.{Memory, load}
use bsg_manycore.Arch.{
  remote_ptr, global_ptr, dram_ptr, local_ptr, id_to_x, id_to_y, x_y_to_id, shared_mem_length,
  tile_group_shared_ptr,
}
use bsg_manycore.Arch.Layout.{remote_y_field, x_field, address_spaces_disjoint}
use bsg_manycore.Arch.Shared.{shared_ptr_lands, shared_ptr-injective}
use bsg_manycore.Tilegroup.{
  get_ptr_val, load_extern_array, extern_load, extern_store, char_width, short_width,
  extern_load_memcpy, extern_store_memcpy, extern_memset, extern_load_int,
}
use bsg_manycore.Tilegroup.Pointer.{Layout, get_ptr_val-transposed}
use bsg_manycore.Tilegroup.Access.{load-store_lem}
use bsg_manycore.Tilegroup.Copy.{memcpy-none, memset_short}
use bsg_manycore.Tilegroup.Initial.{load_extern_array_lem}

address_spaces_disjoint_example :
    (remote_ptr 1 2 8 ≢ global_ptr 1 2 8)
    × (remote_ptr 1 2 8 ≢ dram_ptr 8)
    × (global_ptr 1 2 8 ≢ dram_ptr 8)
address_spaces_disjoint_example =
    address_spaces_disjoint 1 2 8 1 2 8 8 (omega arith, omega arith, omega arith)
      (omega arith, omega arith, omega arith) (omega arith)

room_example : 4096 + shared_mem_length 4 4 100 * 4 ≤ 2 ^ 18
unfolding shared_mem_length
room_example = omega arith

shared_ptr_lands_example :
    let p = tile_group_shared_ptr 4 4 4 4096 77 in
    (x_y_to_id 4 (x_field p) (remote_y_field p) ≡ 77 % (4 * 4))
    × (x_field p < 4)
    × (remote_y_field p < 4)
    × (4096 ≤ local_ptr p)
    × (local_ptr p + 4 ≤ 4096 + shared_mem_length 4 4 100 * 4)
shared_ptr_lands_example =
    shared_ptr_lands 4 4 4 4096 100 (omega arith, omega arith) (omega arith, omega arith)
      (omega arith) room_example 77 (omega arith)

abbrev fifth : ℕ
fifth = 5

shared_ptr-injective_example : fifth ≡ 5
shared_ptr-injective_example =
    shared_ptr-injective 4 4 4 4096 100 (omega arith, omega arith) (omega arith, omega arith)
      (omega arith) room_example 5 5 (omega arith) (omega arith) refl

-- 32 elements of 8 bytes over a group of 16 tiles in 4 columns
layout : Layout 4096 16 4 8 32
layout = record {
  columns = (omega arith, omega arith);
  group = (omega arith, omega arith);
  element = omega arith;
  spread = omega arith;
  room = omega arith;
}

get_ptr_val-transposed_example :
    let p = get_ptr_val 4096 16 4 (4096 + 22 * 8) 8 4 in
    let id = 22 % 16 in
    ((x_field p ≡ id_to_x 4 id) × (remote_y_field p ≡ id_to_y 4 id)) ↔ (id_to_x 4 id ≡ id_to_y 4 id)
get_ptr_val-transposed_example = get_ptr_val-transposed layout 22 4 (omega arith) (omega arith)

zeros : Memory
zeros a = 0

-- 32 elements of 2 bytes
shorts-Layout : Layout 4096 16 4 2 32
shorts-Layout = record {
  columns = (omega arith, omega arith);
  group = (omega arith, omega arith);
  element = omega arith;
  spread = omega arith;
  room = omega arith;
}

-- a short in element 6, and the first byte of the next element of the same tile
load-store_example :
    let m' = extern_store 4096 16 4 short_width zeros (4096 + 6 * 2) 2 0 70000 in
    (extern_load 4096 16 4 short_width m' (4096 + 6 * 2) 2 0 1 ≡ 70000 % 256 ^ 2)
    × (extern_load 4096 16 4 char_width m' (4096 + 22 * 2) 2 0 1
        ≡ extern_load 4096 16 4 char_width zeros (4096 + 22 * 2) 2 0 1)
load-store_example =
    load-store_lem shorts-Layout zeros short_width char_width 6 22 0 0 70000 1 (omega arith)
      (omega arith) (omega arith) (omega arith) (inl (omega arith))

-- where an array of 8-byte elements has its second element: column 0, row 1 of the group
second_ptr : get_ptr_val 4096 16 4 4104 8 0 ≡ 33 * 2 ^ 24 + 4096
unfolding get_ptr_val
second_ptr = refl

memcpy-none_example :
    (extern_load_memcpy 4096 16 4 1000 zeros 1024 4104 6 ≡ none)
    × (extern_store_memcpy 4096 16 4 1000 zeros 1024 4104 6 ≡ none)
memcpy-none_example = memcpy-none 4096 16 4 1000 zeros 1024 4104 6 (omega arith) (omega arith)

memset_short_example :
    (m' : Memory) × (extern_memset 4096 16 4 3 zeros 4104 255 (4 * 2) ≡ some m')
    × (m' (33 * 2 ^ 24 + 4099) ≡ zeros (33 * 2 ^ 24 + 4099))
memset_short_example =
    memset_short 4096 16 4 2 3 zeros 4104 255 (33 * 2 ^ 24 + 4099) (omega arith) (omega arith)
      (omega (arith, second_ptr)) (omega (arith, second_ptr))

-- 32 words over 16 tiles
words-Layout : Layout 4096 16 4 4 32
words-Layout = record {
  columns = (omega arith, omega arith);
  group = (omega arith, omega arith);
  element = omega arith;
  spread = omega arith;
  room = omega arith;
}

-- tile (2, 1), of which the loads take the tile with identifier 9 of the initialiser
load_extern_array_example :
    let m' = load_extern_array 4096 16 4 2 1 (x_y_to_id 4 2 1) zeros 4096 (2 ^ 31) 2 4 in
    (extern_load_int 4096 16 4 m' (4096 + 25 * 4) 4 0 0
      ≡ load 4 zeros (2 ^ 31 + 4 * (16 * (25 / 16) + x_y_to_id 4 2 1)))
    × (25 ≡ 16 * (25 / 16) + (4 * 2 + 1))
    × (m' 4104 ≡ zeros 4104)
unfolding x_y_to_id remote_ptr
load_extern_array_example =
    load_extern_array_lem words-Layout zeros 2 1 (2 ^ 31) 2 (omega arith) (omega arith)
      (omega arith) (omega arith) (omega arith) (omega arith) (omega arith) 25 4104 0 (omega arith)
      (omega arith) (omega arith) (inl (omega arith))
