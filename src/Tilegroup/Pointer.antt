-- ===== src/Tilegroup/Pointer.antt =====
-- Where get_ptr_val of software/bsg_manycore_lib/bsg_tilegroup.h places the elements of a striped
-- array, and which tile that is.
use native.Mathlib.Nat.{mul-div_cancel, div-lt_iff_lt-mul, div-mul-le_self, le-div_iff_mul-le}
use bsg_manycore.Prelude.{
  ℕ, ◌+◌, ◌-◌, ◌*◌, ◌/◌, ◌%◌, ◌^◌, ◌≤◌, ◌<◌, ◌≡◌, ◌↔◌, bit_or, arith, ◌∙◌, ap, sym,
}
use bsg_manycore.Prelude.Bits.{bit_or_swap}
use bsg_manycore.Arch.{shl, remote_ptr, id_to_x, id_to_y, local_ptr}
use bsg_manycore.Arch.Layout.{remote_ptr_sum, remote_ptr_fields, x_field, remote_y_field}
use bsg_manycore.Tilegroup.{stripe_index, stripe_local_addr, get_ptr_val}

-- The striped data of a group: element `index` of size `elem_size` has the address
-- start + index * elem_size, and every tile has room for its share below 2 ^ 18.
pub record Layout (start group_size tiles_x elem_size count : ℕ) : Type 0 where
  pub columns : (0 < tiles_x) × (tiles_x ≤ 32)
  pub group : (0 < group_size) × (group_size ≤ 64 * tiles_x)
  pub element : 0 < elem_size
  pub spread : start + count * elem_size ≤ 2 ^ 32
  pub room : start + (count / group_size + 1) * elem_size ≤ 2 ^ 18

get_ptr_val-remote_ptr :
    (start group_size tiles_x ptr elem_size off : ℕ)
    → let core = stripe_index start group_size tiles_x ptr elem_size % group_size in
      get_ptr_val start group_size tiles_x ptr elem_size off
      ≡ remote_ptr
          (core / tiles_x)
          (core % tiles_x)
          ((stripe_local_addr start group_size tiles_x ptr elem_size + off) % 2 ^ 32)
unfolding get_ptr_val remote_ptr
get_ptr_val-remote_ptr start group_size tiles_x ptr elem_size off =
    ap (λ t. bit_or t ((stripe_local_addr start group_size tiles_x ptr elem_size + off) % 2 ^ 32))
      (bit_or_swap (shl 1 29) _ _)

module _ {start group_size tiles_x elem_size count : ℕ}
    (l : Layout start group_size tiles_x elem_size count) where
  open l use {columns, group, element, spread, room}

  index-eq :
      (i : ℕ)
      → i < count
      → stripe_index start group_size tiles_x (start + i * elem_size) elem_size ≡ i
  unfolding stripe_index
  index-eq i h = ap (λ t. t / elem_size) offset ∙ mul-div_cancel i element
    where
      below : i * elem_size + elem_size ≤ count * elem_size
      below = grind arith

      offset : (start + i * elem_size + 2 ^ 32 - start) % 2 ^ 32 ≡ i * elem_size
      offset = omega (arith, below)

  pub slot_room : (i : ℕ) → i < count → start + i / group_size * elem_size + elem_size ≤ 2 ^ 18
  slot_room i h = grind (arith, slot-le i h)
    where
      slot-le : (j : ℕ) → j < count → j / group_size ≤ count / group_size
      slot-le j hj =
          (le-div_iff_mul-le {k = group_size} {x = j / group_size} {y = count} group.0).1
            (omega (arith, div-mul-le_self j group_size))

  pub local_addr-eq :
      (i : ℕ)
      → i < count
      → stripe_local_addr start group_size tiles_x (start + i * elem_size) elem_size
        ≡ start + i / group_size * elem_size
  unfolding stripe_local_addr
  local_addr-eq i h = rw (index-eq i h) (omega (arith, slot_room i h))

  pub core-lt : (i : ℕ) → i % group_size / tiles_x < 64
  core-lt i =
      (div-lt_iff_lt-mul {k = tiles_x} {x = i % group_size} {y = 64} columns.0).1 (omega arith)

  pub get_ptr_val-eq :
      (i off : ℕ)
      → i < count
      → off < elem_size
      → get_ptr_val start group_size tiles_x (start + i * elem_size) elem_size off
        ≡ remote_ptr
            (i % group_size / tiles_x)
            (i % group_size % tiles_x)
            (start + i / group_size * elem_size + off)
  get_ptr_val-eq i off h ho =
      get_ptr_val-remote_ptr start group_size tiles_x (start + i * elem_size) elem_size off
      ∙ rw (index-eq i h, local_addr-eq i h)
          (ap (remote_ptr (i % group_size / tiles_x) (i % group_size % tiles_x))
            (omega (arith, slot_room i h)))

  pub get_ptr_val-sum :
      (i off : ℕ)
      → i < count
      → off < elem_size
      → get_ptr_val start group_size tiles_x (start + i * elem_size) elem_size off
        ≡ ((32 + i % group_size % tiles_x) * 64 + i % group_size / tiles_x) * 2 ^ 18
          + (start + i / group_size * elem_size + off)
  get_ptr_val-sum i off h ho =
      get_ptr_val-eq i off h ho
      ∙ remote_ptr_sum _ _ _ (core-lt i) (omega arith) (omega (arith, slot_room i h))

  -- Byte `off` of element `i` of a striped array with the layout is placed in column
  -- (i % group_size) / tiles_x and row (i % group_size) % tiles_x of the group, at slot
  -- i / group_size of that tile's share.
  pub get_ptr_val_fields :
      (i off : ℕ)
      → i < count
      → off < elem_size
      → let p = get_ptr_val start group_size tiles_x (start + i * elem_size) elem_size off in
        (x_field p ≡ i % group_size / tiles_x)
        × (remote_y_field p ≡ i % group_size % tiles_x)
        × (local_ptr p ≡ start + i / group_size * elem_size + off)
  get_ptr_val_fields i off h ho =
      let (_, ey, ex, el) =
        remote_ptr_fields (i % group_size / tiles_x) (i % group_size % tiles_x)
          (start + i / group_size * elem_size + off) (core-lt i) (omega arith)
          (omega (arith, slot_room i h)) in
      rw (get_ptr_val-eq i off h ho) (ex, ey, el)

  -- The tile of an element with the layout is the one whose identifier is i % group_size, by
  -- bsg_id_to_x and bsg_id_to_y, exactly when that tile's column and row are equal: the two
  -- coordinates are exchanged.
  pub get_ptr_val-transposed :
      (i off : ℕ)
      → i < count
      → off < elem_size
      → let p = get_ptr_val start group_size tiles_x (start + i * elem_size) elem_size off in
        let id = i % group_size in
        ((x_field p ≡ id_to_x tiles_x id) × (remote_y_field p ≡ id_to_y tiles_x id))
        ↔ (id_to_x tiles_x id ≡ id_to_y tiles_x id)
  unfolding id_to_x id_to_y
  get_ptr_val-transposed i off h ho =
      let (ex, ey, _) = get_ptr_val_fields i off h ho in
      (λ (same, _). sym same ∙ ex, λ same. (ex ∙ sym same, ey ∙ same))
