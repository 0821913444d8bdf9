-- ===== src/Tilegroup/Initial.antt =====
-- load_extern_array of software/bsg_manycore_lib/bsg_tilegroup.h: each tile fills its share of a
-- striped array of words from the initialiser in DRAM.
use native.Mathlib.Nat.{zero-div, div-lt_iff_lt-mul, div-add-mod', mul-div_cancel}
use bsg_manycore.Prelude.{ℕ, ◌+◌, ◌*◌, ◌/◌, ◌%◌, ◌^◌, ◌≤◌, ◌<◌, ◌≡◌, inr, arith, ◌∙◌, ap}
use bsg_manycore.Memory.{Memory, load, Apart}
use bsg_manycore.Arch.{remote_ptr, x_y_to_id}
use bsg_manycore.Arch.Layout.{remote_ptr_sum}
use bsg_manycore.Tilegroup.{
  copy_strided, stripe_local_addr, get_ptr_val, load_extern_array, extern_load_int,
}
use bsg_manycore.Tilegroup.Copy.{load-copy_strided, copy_strided_outside}
use bsg_manycore.Tilegroup.Pointer.{Layout, get_ptr_val-sum, local_addr-eq}

module _ {start group_size tiles_x count : ℕ} (l : Layout start group_size tiles_x 4 count)
    (m : Memory) (bsg_x bsg_y src rounds : ℕ) (whole : count ≡ rounds * group_size)
    (column : bsg_x < 64) (row : bsg_y < tiles_x)
    (tile : x_y_to_id tiles_x bsg_x bsg_y < group_size) (some_words : 0 < rounds)
    (dram : 2 ^ 31 ≤ src) (source : src + 4 * count + 4 * group_size ≤ 2 ^ 32) where
  open l use {columns, group, spread, room}

  abbrev bsg_id : ℕ
  bsg_id = x_y_to_id tiles_x bsg_x bsg_y

  -- the first word of the tile's share
  abbrev share : ℕ
  share = ((32 + bsg_y) * 64 + bsg_x) * 2 ^ 18 + start

  rounds-le : rounds ≤ count
  rounds-le = grind arith

  share_fits : start + 4 * rounds ≤ 2 ^ 18
  share_fits =
      let e : count / group_size ≡ rounds =
        ap (λ t. t / group_size) whole ∙ mul-div_cancel rounds group.0 in
      omega (arith, ap (λ (t : ℕ). (t + 1) * 4) e)

  slot_start : stripe_local_addr start group_size tiles_x (start + 0 * 4) 4 ≡ start
  slot_start = local_addr-eq l 0 (omega (arith, rounds-le)) ∙ omega (arith, zero-div group_size)

  shape :
      load_extern_array start group_size tiles_x bsg_x bsg_y bsg_id m start src rounds 4
      ≡ copy_strided (4 * group_size) rounds m share (src + 4 * bsg_id)
  unfolding load_extern_array
  shape = rw (times, offset, base)
    where
      times : rounds * (4 / 4) % 2 ^ 32 ≡ rounds
      times = omega (arith, rounds-le)

      offset : (src + 4 * bsg_id) % 2 ^ 32 ≡ src + 4 * bsg_id
      offset = omega (arith, rounds-le)

      base : remote_ptr bsg_x bsg_y (stripe_local_addr start group_size tiles_x start 4) ≡ share
      base =
          ap (λ t. remote_ptr bsg_x bsg_y (stripe_local_addr start group_size tiles_x t 4))
            (omega arith)
          ∙ ap (remote_ptr bsg_x bsg_y) slot_start
          ∙ remote_ptr_sum bsg_x bsg_y start column (omega arith) (omega (arith, share_fits))

  slot-lt : (i : ℕ) → i < count → i / group_size < rounds
  slot-lt i h =
      (div-lt_iff_lt-mul {k = group_size} {x = i} {y = rounds} group.0).1 (omega (arith, whole))

  Apart-source : (j : ℕ) → Apart share (4 * rounds) (src + 4 * bsg_id + 4 * group_size * j) 4
  Apart-source j = inr (omega (arith, share_fits))

  -- where the loads look for an element of the tile
  place_of :
      (i : ℕ)
      → i < count
      → i % group_size / tiles_x ≡ bsg_x
      → i % group_size % tiles_x ≡ bsg_y
      → get_ptr_val start group_size tiles_x (start + i * 4) 4 0 ≡ share + 4 * (i / group_size)
  place_of i h ex ey = get_ptr_val-sum l i 0 h (omega arith) ∙ rw (ex, ey) (omega arith)

  word_of : (k : ℕ) → src + 4 * bsg_id + 4 * group_size * k ≡ src + 4 * (group_size * k + bsg_id)
  word_of k = grind arith

  -- An array of `count` words, a multiple of the group size, lies at the start of the striped data
  -- with the layout, and its initialiser at `src` in DRAM. After load_extern_array on tile
  -- (bsg_x, bsg_y), a load of an element i that get_ptr_val places in that tile gives the word of the
  -- initialiser with the number (i / group_size) * group_size + bsg_id, where bsg_id is the tile's
  -- identifier; the number i itself is (i / group_size) * group_size + tiles_x * bsg_x + bsg_y. A byte
  -- outside the tile's share has not changed.
  pub load_extern_array_lem :
      (i b is_vol : ℕ)
      → i < count
      → i % group_size / tiles_x ≡ bsg_x
      → i % group_size % tiles_x ≡ bsg_y
      → Apart (remote_ptr bsg_x bsg_y start) (4 * rounds) b 1
      → let id = x_y_to_id tiles_x bsg_x bsg_y in
        let m' = load_extern_array start group_size tiles_x bsg_x bsg_y id m start src rounds 4 in
        (extern_load_int start group_size tiles_x m' (start + i * 4) 4 0 is_vol
          ≡ load 4 m (src + 4 * (group_size * (i / group_size) + id)))
        × (i ≡ group_size * (i / group_size) + (tiles_x * bsg_x + bsg_y))
        × (m' b ≡ m b)
  unfolding extern_load_int
  load_extern_array_lem i b is_vol h ex ey outside = (
    rw (shape, place_of i h ex ey) (ground (arith, word)),
    omega (
      arith,
      div-add-mod' i group_size,
      div-add-mod' (i % group_size) tiles_x,
      ap (λ (t : ℕ). t * tiles_x) ex,
      ey,
    ),
    rw shape (
        copy_strided_outside (4 * group_size) rounds m share (src + 4 * bsg_id) b
          (omega (arith, share_fits)) apart),
  )
    where
      word :
          load 4
            (copy_strided (4 * group_size) rounds m share (src + 4 * bsg_id))
            (share + 4 * (i / group_size))
          ≡ load 4 m (src + 4 * (group_size * (i / group_size) + bsg_id))
      word =
          load-copy_strided (4 * group_size) rounds m share (src + 4 * bsg_id) (i / group_size)
            (slot-lt i h) (omega (arith, share_fits)) (omega (arith, rounds-le)) (omega arith)
            (λ j _. Apart-source j)
          ∙ ap (load 4 m) (word_of (i / group_size))

      apart : Apart share (4 * rounds) b 1
      apart =
          omega (
            arith,
            remote_ptr_sum bsg_x bsg_y start column (omega arith) (omega (arith, share_fits)),
          )
