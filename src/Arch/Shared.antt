-- ===== src/Arch/Shared.antt =====
-- Tile-group shared memory: the element-to-tile map of bsg_tile_group_shared_ptr in
-- software/bsg_manycore_lib/bsg_manycore_arch.h, and tile identifiers in bsg_manycore.h.
use native.Mathlib.Nat.{le-div_iff_mul-le, div-mul-le_self, div-add-mod', div-div-eq-div-mul}
use bsg_manycore.Prelude.{ℕ, suc, ◌+◌, ◌-◌, ◌*◌, ◌/◌, ◌%◌, ◌^◌, ◌<◌, ◌≤◌, ◌≡◌, ap, sym, ◌∙◌, arith}
use bsg_manycore.Arch.{
  id_to_x, id_to_y, x_y_to_id, shared_mem_length, tile_group_shared_ptr, local_ptr,
}
use bsg_manycore.Arch.Layout.{remote_ptr_sum, local_ptr_mod, x_field, remote_y_field}

-- Identifiers and coordinates are each other's inverse in a group of `tiles_x` columns: a tile with
-- x < tiles_x has its coordinates back from its identifier, and an identifier is that of its tile.
pub id_coordinates :
    (tiles_x x y id : ℕ)
    → x < tiles_x
    → (id_to_x tiles_x (x_y_to_id tiles_x x y) ≡ x)
      × (id_to_y tiles_x (x_y_to_id tiles_x x y) ≡ y)
      × (x_y_to_id tiles_x (id_to_x tiles_x id) (id_to_y tiles_x id) ≡ id)
unfolding id_to_x id_to_y x_y_to_id
id_coordinates tiles_x x y id h = (grind arith, grind arith, grind arith)

round_up : (k size index : ℕ) → 0 < k → index < size → index / k < (size + (k - 1)) / k
round_up k size index hk h =
    (le-div_iff_mul-le {k = k} {x = suc (index / k)} {y = size + (k - 1)} hk).1
      (omega (arith, div-mul-le_self index k))

area_pos : (a b : ℕ) → 0 < a → 0 < b → 0 < a * b
area_pos a b ha hb = grind arith

-- An index is given by its tile and its slot: it counts the slots in groups, the rows of the group
-- in rows, and the tiles of the row.
pub index_split :
    (tiles_x tiles_y index : ℕ)
    → index
      ≡ (index / (tiles_x * tiles_y) * tiles_y + index / tiles_x % tiles_y) * tiles_x
        + index % tiles_x
index_split tiles_x tiles_y index = omega (
  arith,
  div-add-mod' index tiles_x,
  ap (λ (t : ℕ). t * tiles_x) (div-add-mod' (index / tiles_x) tiles_y),
  ap (λ (t : ℕ). t * tiles_y * tiles_x) (div-div-eq-div-mul index tiles_x tiles_y),
)

id-eq-mod :
    (tiles_x tiles_y index : ℕ)
    → tiles_x * (index / tiles_x % tiles_y) + index % tiles_x ≡ index % (tiles_x * tiles_y)
id-eq-mod tiles_x tiles_y index =
    omega (arith, index_split tiles_x tiles_y index, div-add-mod' index (tiles_x * tiles_y))

same_parts :
    (tiles_x tiles_y i j : ℕ)
    → i % tiles_x ≡ j % tiles_x
    → i / tiles_x % tiles_y ≡ j / tiles_x % tiles_y
    → i / (tiles_x * tiles_y) ≡ j / (tiles_x * tiles_y)
    → i ≡ j
same_parts tiles_x tiles_y i j ex ey es =
    index_split tiles_x tiles_y i ∙ rw (ex, ey, es) (sym (index_split tiles_x tiles_y j))

same_slot : (bytes base s t : ℕ) → 0 < bytes → base + s * bytes ≡ base + t * bytes → s ≡ t
same_slot bytes base s t h e = grind arith

module _ (tiles_x tiles_y bytes lc_sh size : ℕ) (wide : (0 < tiles_x) × (tiles_x ≤ 64))
    (tall : (0 < tiles_y) × (tiles_y ≤ 32)) (some_bytes : 0 < bytes)
    (fits : lc_sh + shared_mem_length tiles_x tiles_y size * bytes ≤ 2 ^ 18) where
  -- The element lies in the part of the array that its tile declares.
  element_within :
      (index : ℕ)
      → index < size
      → index / (tiles_x * tiles_y) * bytes + bytes ≤ shared_mem_length tiles_x tiles_y size * bytes
  unfolding shared_mem_length
  element_within index h =
      grind
        (arith, round_up (tiles_x * tiles_y) size index (area_pos tiles_x tiles_y wide.0 tall.0) h)

  shared_ptr_sum :
      (index : ℕ)
      → index < size
      → tile_group_shared_ptr tiles_x tiles_y bytes lc_sh index
        ≡ ((32 + index / tiles_x % tiles_y) * 64 + index % tiles_x) * 2 ^ 18
          + (lc_sh + index / (tiles_x * tiles_y) * bytes)
  unfolding tile_group_shared_ptr
  shared_ptr_sum index h =
      remote_ptr_sum (index % tiles_x) (index / tiles_x % tiles_y) _ (omega arith) (omega arith)
        (omega (arith, element_within index h))

  shared_ptr_parts :
      (index : ℕ)
      → index < size
      → let p = tile_group_shared_ptr tiles_x tiles_y bytes lc_sh index in
        (x_field p ≡ index % tiles_x)
        × (remote_y_field p ≡ index / tiles_x % tiles_y)
        × (local_ptr p ≡ lc_sh + index / (tiles_x * tiles_y) * bytes)
  shared_ptr_parts index h = omega (
    arith,
    shared_ptr_sum index h,
    element_within index h,
    local_ptr_mod (tile_group_shared_ptr tiles_x tiles_y bytes lc_sh index),
  )

  -- In a group of at most 64 by 32 tiles, with the declared array within the local address space:
  -- an element below `size` is placed in the tile of the group with identifier
  -- index % (tiles_x * tiles_y), inside the array of that tile.
  pub shared_ptr_lands :
      (index : ℕ)
      → index < size
      → let p = tile_group_shared_ptr tiles_x tiles_y bytes lc_sh index in
        (x_y_to_id tiles_x (x_field p) (remote_y_field p) ≡ index % (tiles_x * tiles_y))
        × (x_field p < tiles_x)
        × (remote_y_field p < tiles_y)
        × (lc_sh ≤ local_ptr p)
        × (local_ptr p + bytes ≤ lc_sh + shared_mem_length tiles_x tiles_y size * bytes)
  unfolding x_y_to_id
  shared_ptr_lands index h =
      let (ex, ey, el) = shared_ptr_parts index h in
      rw (ex, ey, el)
        (
          id-eq-mod tiles_x tiles_y index,
          omega arith,
          omega arith,
          omega arith,
          omega (arith, element_within index h),
        )

  -- In a group of at most 64 by 32 tiles, with the declared array within the local address space, no
  -- two elements below `size` have the same pointer.
  pub shared_ptr-injective :
      (i j : ℕ)
      → i < size
      → j < size
      → tile_group_shared_ptr tiles_x tiles_y bytes lc_sh i
        ≡ tile_group_shared_ptr tiles_x tiles_y bytes lc_sh j
      → i ≡ j
  shared_ptr-injective i j hi hj e =
      same_parts tiles_x tiles_y i j (sym xi ∙ ap x_field e ∙ xj)
        (sym yi ∙ ap remote_y_field e ∙ yj)
        (same_slot bytes lc_sh _ _ some_bytes (sym li ∙ ap local_ptr e ∙ lj))
    where
      open (shared_ptr_parts i hi) use {«0» as xi, «1» as yi, «2» as li}
      open (shared_ptr_parts j hj) use {«0» as xj, «1» as yj, «2» as lj}
