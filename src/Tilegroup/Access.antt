-- ===== src/Tilegroup/Access.antt =====
-- The stores and loads of software/bsg_manycore_lib/bsg_tilegroup.h on a striped array.
use native.Mathlib.Nat.{div-add-mod'}
use bsg_manycore.Prelude.{
  ℕ, ◌+◌, ◌*◌, ◌/◌, ◌%◌, ◌^◌, ◌≤◌, ◌<◌, ◌≡◌, ◌≢◌, ◌⊎◌, inl, inr, arith, ap, refl, ℕ_discrete,
}
use bsg_manycore.Memory.{Memory, load, store, Apart, load-store_self, load-store-Apart}
use bsg_manycore.Tilegroup.{
  Width, char_width, short_width, int_width, float_width, bytes, extern_store, extern_load,
  get_ptr_val, extern_store_float, extern_store_int, extern_store_short, extern_store_char,
  extern_load_float, extern_load_int, extern_load_short, extern_load_char,
}
use bsg_manycore.Tilegroup.Pointer.{Layout, get_ptr_val-sum, slot_room, core-lt}

-- What the four stores and the four loads have in common.
module _ (start group_size tiles_x : ℕ) where
  extern_store_eq :
      (w : Width) (m : Memory) (p elem_size off v : ℕ)
      → extern_store start group_size tiles_x w m p elem_size off v
        ≡ store (bytes w) m (get_ptr_val start group_size tiles_x p elem_size off) v
  unfolding extern_store extern_store_char extern_store_short extern_store_int extern_store_float
  extern_store_eq char_width m p elem_size off v = refl
  extern_store_eq short_width m p elem_size off v = refl
  extern_store_eq int_width m p elem_size off v = refl
  extern_store_eq float_width m p elem_size off v = refl

  extern_load_eq :
      (w : Width) (m : Memory) (p elem_size off is_vol : ℕ)
      → extern_load start group_size tiles_x w m p elem_size off is_vol
        ≡ load (bytes w) m (get_ptr_val start group_size tiles_x p elem_size off)
  unfolding extern_load extern_load_char extern_load_short extern_load_int extern_load_float
  extern_load_eq char_width m p elem_size off is_vol = ground arith
  extern_load_eq short_width m p elem_size off is_vol = ground arith
  extern_load_eq int_width m p elem_size off is_vol = ground arith
  extern_load_eq float_width m p elem_size off is_vol = ground arith

some_bytes : (w : Width) → 0 < bytes w
some_bytes char_width = omega arith
some_bytes short_width = omega arith
some_bytes int_width = omega arith
some_bytes float_width = omega arith

-- Two slots of one tile do not overlap.
slots_apart :
    (e s t off off' n k : ℕ) → s < t → off + n ≤ e → off' + k ≤ e → s * e + off + n ≤ t * e + off'
slots_apart e s t off off' n k h ho ho' = grind arith

-- Two tiles of a group with the same column and row are the same.
same_core : (c d tiles_x : ℕ) → c / tiles_x ≡ d / tiles_x → c % tiles_x ≡ d % tiles_x → c ≡ d
same_core c d tiles_x q r =
    omega (arith, div-add-mod' c tiles_x, div-add-mod' d tiles_x, ap (λ (t : ℕ). t * tiles_x) q)

lt_or_gt : {a b : ℕ} → a ≢ b → (a < b) ⊎ (b < a)
lt_or_gt ne = omega arith

-- Two ranges within different blocks of the address space do not meet.
blocks-Apart :
    (y y' x x' a b n k : ℕ)
    → x < 64
    → x' < 64
    → a + n ≤ 2 ^ 18
    → b + k ≤ 2 ^ 18
    → (y ≡ y' → x ≡ x' → ⊥)
    → Apart ((y * 64 + x) * 2 ^ 18 + a) n ((y' * 64 + x') * 2 ^ 18 + b) k
blocks-Apart y y' x x' a b n k hx hx' ha hb differ =
    elim (lt_or_gt (λ (e : y * 64 + x ≡ y' * 64 + x'). differ (omega arith) (omega arith))) [
      | inl lt ↦ inr (omega arith)
      | inr gt ↦ inl (omega arith)
    ]

module _ {start group_size tiles_x elem_size count : ℕ}
    (l : Layout start group_size tiles_x elem_size count) where
  abbrev element_ptr : (i off : ℕ) → ℕ
  element_ptr i off = get_ptr_val start group_size tiles_x (start + i * elem_size) elem_size off

  slots_differ :
      (i j : ℕ)
      → i ≢ j
      → i % group_size ≡ j % group_size
      → (i / group_size < j / group_size) ⊎ (j / group_size < i / group_size)
  slots_differ i j ne e = lt_or_gt (λ same. ne (whole same))
    where
      whole : i / group_size ≡ j / group_size → i ≡ j
      whole same = omega (
        arith,
        div-add-mod' i group_size,
        div-add-mod' j group_size,
        ap (λ (t : ℕ). t * group_size) same,
      )

  module _ (i j off off' n k : ℕ) (hi : i < count) (hj : j < count) (ne : i ≢ j)
      (width : (0 < n) × (0 < k)) (ho : off + n ≤ elem_size) (ho' : off' + k ≤ elem_size) where
    same_tile-Apart :
        i % group_size ≡ j % group_size → Apart (element_ptr i off) n (element_ptr j off') k
    same_tile-Apart e =
        rw (get_ptr_val-sum l i off hi (omega arith), get_ptr_val-sum l j off' hj (omega arith), e)
          (elim (slots_differ i j ne e) [
            | inl lt ↦ inr (omega (arith, slots_apart elem_size _ _ off off' n k lt ho ho'))
            | inr gt ↦ inl (omega (arith, slots_apart elem_size _ _ off' off k n gt ho' ho))
          ])

    other_tile-Apart :
        i % group_size ≢ j % group_size → Apart (element_ptr i off) n (element_ptr j off') k
    other_tile-Apart d =
        rw (get_ptr_val-sum l i off hi (omega arith), get_ptr_val-sum l j off' hj (omega arith))
          (blocks-Apart (32 + i % group_size % tiles_x) (32 + j % group_size % tiles_x) _ _ _ _ n k
            (core-lt l i) (core-lt l j) (omega (arith, slot_room l i hi))
            (omega (arith, slot_room l j hj)) (λ r q. d (same_core _ _ tiles_x q (omega arith))))

    elements-Apart : Apart (element_ptr i off) n (element_ptr j off') k
    elements-Apart = elim (ℕ_discrete (i % group_size) (j % group_size)) [
      | yes e ↦ same_tile-Apart e
      | no d ↦ other_tile-Apart d
    ]

  -- Two accesses within one element, one after the other.
  same_element-Apart :
      (i off off' n k : ℕ)
      → i < count
      → (0 < n) × (0 < k)
      → off + n ≤ elem_size
      → off' + k ≤ elem_size
      → Apart off n off' k
      → Apart (element_ptr i off) n (element_ptr i off') k
  same_element-Apart i off off' n k hi width ho ho' apart =
      rw (get_ptr_val-sum l i off hi (omega arith), get_ptr_val-sum l i off' hi (omega arith))
        (omega arith)

  accesses-Apart :
      (i j off off' n k : ℕ)
      → i < count
      → j < count
      → (0 < n) × (0 < k)
      → off + n ≤ elem_size
      → off' + k ≤ elem_size
      → (i ≢ j) ⊎ Apart off n off' k
      → Apart (element_ptr i off) n (element_ptr j off') k
  accesses-Apart i j off off' n k hi hj width ho ho' apart = elim (ℕ_discrete i j) [
    | no ne ↦ elements-Apart i j off off' n k hi hj ne width ho ho'
    | yes e ↦
        let within : Apart off n off' k = omega arith in
        rw (← e) (same_element-Apart i off off' n k hi width ho ho' within)
  ]

  -- With the layout, after a store of any of the four widths at an offset of an element i, within the
  -- element: a load of the same width there gives the value, reduced to the width, and a load of any
  -- width within an element j, where j is not i or the bytes of the two accesses are apart, gives what
  -- it gave before. Volatile and plain loads do the same.
  pub load-store_lem :
      (m : Memory) (stored loaded : Width) (i j off off' v is_vol : ℕ)
      → i < count
      → j < count
      → off + bytes stored ≤ elem_size
      → off' + bytes loaded ≤ elem_size
      → (i ≢ j) ⊎ Apart off (bytes stored) off' (bytes loaded)
      → let p = start + i * elem_size in
        let q = start + j * elem_size in
        let m' = extern_store start group_size tiles_x stored m p elem_size off v in
        (extern_load start group_size tiles_x stored m' p elem_size off is_vol
          ≡ v % 256 ^ bytes stored)
        × (extern_load start group_size tiles_x loaded m' q elem_size off' is_vol
            ≡ extern_load start group_size tiles_x loaded m q elem_size off' is_vol)
  load-store_lem m stored loaded i j off off' v is_vol hi hj ho ho' apart =
      let m' = store (bytes stored) m (element_ptr i off) v in
      rw
        (
          extern_store_eq start group_size tiles_x stored m (start + i * elem_size) elem_size off v,
          extern_load_eq start group_size tiles_x stored m' (start + i * elem_size) elem_size off
              is_vol,
          extern_load_eq start group_size tiles_x loaded m' (start + j * elem_size) elem_size off'
              is_vol,
          extern_load_eq start group_size tiles_x loaded m (start + j * elem_size) elem_size off'
              is_vol,
        )
        (
          load-store_self (bytes stored) m (element_ptr i off) v,
          load-store-Apart (bytes loaded) (bytes stored) m (element_ptr i off) (element_ptr j off')
              v
              (accesses-Apart i j off off' (bytes stored) (bytes loaded) hi hj
                (some_bytes stored, some_bytes loaded) ho ho' apart),
        )
