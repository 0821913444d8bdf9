-- ===== src/Tilegroup/Copy.antt =====
-- The copying loops of software/bsg_manycore_lib/bsg_tilegroup.h: extern_load_memcpy,
-- extern_store_memcpy and extern_memset.
use native.Mathlib.Nat.{mod-eq_of_lt}
use bsg_manycore.Prelude.{
  ℕ, zero, suc, ◌+◌, ◌-◌, ◌*◌, ◌%◌, ◌^◌, ◌≤◌, ◌<◌, ◌≡◌, ◌≢◌, inr, refl, arith, none, some, ◌∙◌, ap,
}
use bsg_manycore.Memory.{
  Memory, load, store, Apart, store_outside, load-eq_of_eq, load-store_self, load-store-Apart,
  load-lt,
}
use bsg_manycore.Tilegroup.{
  copy_strided, copy_words, set_bytes, get_ptr_val, extern_load_memcpy, extern_store_memcpy,
  extern_memset,
}

pub copy_strided_outside :
    (stride n : ℕ) (m : Memory) (d s b : ℕ)
    → d + 4 * n ≤ 2 ^ 32
    → Apart d (4 * n) b 1
    → copy_strided stride n m d s b ≡ m b
unfolding copy_strided
copy_strided_outside stride zero m d s b fits h = refl
copy_strided_outside stride (suc n) m d s b fits h =
    copy_strided_outside stride n (store 4 m d (load 4 m s)) ((d + 4) % 2 ^ 32)
      ((s + stride) % 2 ^ 32) b (omega arith) (omega arith)
    ∙ store_outside 4 m d (load 4 m s) b (omega arith)

mul_suc : (a n : ℕ) → a * suc n ≡ a + a * n
mul_suc a n = omega arith

-- The words at `s`, `s + stride`, … that lie outside the destination are copied there in order.
pub load-copy_strided :
    (stride n : ℕ) (m : Memory) (d s k : ℕ)
    → k < n
    → 0 < stride
    → d + 4 * n ≤ 2 ^ 32
    → s + stride * n ≤ 2 ^ 32
    → ((j : ℕ) → j < n → Apart d (4 * n) (s + stride * j) 4)
    → load 4 (copy_strided stride n m d s) (d + 4 * k) ≡ load 4 m (s + stride * k)
unfolding copy_strided
load-copy_strided stride zero m d s k hk hs fd fs apart = absurd (omega arith)
load-copy_strided stride (suc n) m d s zero hk hs fd fs apart =
    load-eq_of_eq 4 (copy_strided stride n m' d' s') m' (d + 4 * 0)
      (λ b lo hi. copy_strided_outside stride n m' d' s' b (omega arith) (omega arith))
    ∙ ap (load 4 m') here
    ∙ load-store_self 4 m d (load 4 m s)
    ∙ mod-eq_of_lt (load-lt 4 m s)
    ∙ ap (load 4 m) there
  where
    m' : Memory
    m' = store 4 m d (load 4 m s)

    d' : ℕ
    d' = (d + 4) % 2 ^ 32

    s' : ℕ
    s' = (s + stride) % 2 ^ 32

    here : d + 4 * 0 ≡ d
    here = omega arith

    there : s ≡ s + stride * 0
    there = omega arith
load-copy_strided stride (suc n) m d s (suc k) hk hs fd fs apart =
    rw (next_d, next_s)
      (ap (load 4 (copy_strided stride n m' (d + 4) (s + stride))) here
        ∙ load-copy_strided stride n m' (d + 4) (s + stride) k (omega arith) hs (omega arith)
            (omega (arith, mul_suc stride n)) (λ j hj. apart_next j (apart (suc j) (omega arith)))
        ∙ load-store-Apart 4 4 m d (s + stride + stride * k) (load 4 m s)
            (apart_here (apart (suc k) hk))
        ∙ ap (load 4 m) there)
  where
    m' : Memory
    m' = store 4 m d (load 4 m s)

    next_d : (d + 4) % 2 ^ 32 ≡ d + 4
    next_d = omega arith

    next_s : (s + stride) % 2 ^ 32 ≡ s + stride
    next_s = mod-eq_of_lt (grind arith)

    here : d + 4 * suc k ≡ d + 4 + 4 * k
    here = omega arith

    there : s + stride + stride * k ≡ s + stride * suc k
    there = omega (arith, mul_suc stride k)

    apart_next :
        (j : ℕ)
        → Apart d (4 * suc n) (s + stride * suc j) 4
        → Apart (d + 4) (4 * n) (s + stride + stride * j) 4
    apart_next j a = omega (arith, mul_suc stride j)

    apart_here : Apart d (4 * suc n) (s + stride * suc k) 4 → Apart d 4 (s + stride + stride * k) 4
    apart_here a = omega (arith, mul_suc stride k)

-- On a length of `n` words the loop ends after `n` rounds.
pub copy_words_lem :
    (n fuel : ℕ) (m : Memory) (d s len : ℕ)
    → n < fuel
    → len ≡ 4 * n
    → len < 2 ^ 32
    → copy_words fuel m d s len ≡ some (copy_strided 4 n m d s)
unfolding copy_words copy_strided
copy_words_lem n zero m d s len h e lt = absurd (omega arith)
copy_words_lem zero (suc fuel) m d s len h e lt = ground arith
copy_words_lem (suc n) (suc fuel) m d s len h e lt = ground (
  arith,
  copy_words_lem n fuel (store 4 m d (load 4 m s)) ((d + 4) % 2 ^ 32) ((s + 4) % 2 ^ 32)
      ((len + 2 ^ 32 - 4) % 2 ^ 32) (omega arith) (omega arith) (omega arith),
)

-- On a length that is no whole number of words the loop does not end: `len` jumps over 0.
pub copy_words-none :
    (fuel : ℕ) (m : Memory) (d s len : ℕ)
    → len < 2 ^ 32
    → len % 4 ≢ 0
    → copy_words fuel m d s len ≡ none
unfolding copy_words
copy_words-none zero m d s len lt h = refl
copy_words-none (suc fuel) m d s len lt h = ground (
  arith,
  copy_words-none fuel (store 4 m d (load 4 m s)) ((d + 4) % 2 ^ 32) ((s + 4) % 2 ^ 32)
      ((len + 2 ^ 32 - 4) % 2 ^ 32) (omega arith) (omega arith),
)

-- Words [d, d + 4 n) hold the words that were at [s, s + 4 n), and no other byte has changed.
abbrev pub Copied : (n : ℕ) (m m' : Memory) (d s : ℕ) → Type 0
Copied n m m' d s =
    ((k : ℕ) → k < n → load 4 m' (d + 4 * k) ≡ load 4 m (s + 4 * k))
    × ((b : ℕ) → Apart d (4 * n) b 1 → m' b ≡ m b)

module _ (n : ℕ) (m : Memory) (d s : ℕ) (fits_d : d + 4 * n ≤ 2 ^ 32) (fits_s : s + 4 * n ≤ 2 ^ 32)
    (apart : Apart d (4 * n) s (4 * n)) where
  copy_strided-Copied : Copied n m (copy_strided 4 n m d s) d s
  copy_strided-Copied = (
    λ k hk. load-copy_strided 4 n m d s k hk (omega arith) fits_d fits_s (λ j hj. apart_word j hj),
    λ b h. copy_strided_outside 4 n m d s b fits_d h,
  )
    where
      apart_word : (j : ℕ) → j < n → Apart d (4 * n) (s + 4 * j) 4
      apart_word j hj = omega arith

  copy_words-Copied :
      (fuel : ℕ)
      → n < fuel
      → 4 * n < 2 ^ 32
      → (m' : Memory) × (copy_words fuel m d s (4 * n) ≡ some m') × Copied n m m' d s
  copy_words-Copied fuel h lt =
      (copy_strided 4 n m d s, copy_words_lem n fuel m d s (4 * n) h refl lt, copy_strided-Copied)

-- extern_load_memcpy of a whole number of words ends, with any fuel above that number, and copies
-- exactly those words from the tile that holds the element to `dest`, if the two ranges do not meet
-- or wrap.
pub load_memcpy-Copied :
    (start group_size tiles_x n fuel : ℕ) (m : Memory) (dest src : ℕ)
    → let p = get_ptr_val start group_size tiles_x src (4 * n) 0 in
      n < fuel
      → 4 * n < 2 ^ 32
      → dest + 4 * n ≤ 2 ^ 32
      → p + 4 * n ≤ 2 ^ 32
      → Apart dest (4 * n) p (4 * n)
      → (m' : Memory) × (extern_load_memcpy start group_size tiles_x fuel m dest src (4 * n)
          ≡ some m')
        × Copied n m m' dest p
unfolding extern_load_memcpy
load_memcpy-Copied start group_size tiles_x n fuel m dest src h lt fd fs apart =
    copy_words-Copied n m dest (get_ptr_val start group_size tiles_x src (4 * n) 0) fd fs apart fuel
      h lt

-- extern_store_memcpy of a whole number of words ends, with any fuel above that number, and copies
-- exactly those words from `src` to the tile that holds the element, if the two ranges do not meet
-- or wrap.
pub store_memcpy-Copied :
    (start group_size tiles_x n fuel : ℕ) (m : Memory) (dest src : ℕ)
    → let p = get_ptr_val start group_size tiles_x dest (4 * n) 0 in
      n < fuel
      → 4 * n < 2 ^ 32
      → p + 4 * n ≤ 2 ^ 32
      → src + 4 * n ≤ 2 ^ 32
      → Apart p (4 * n) src (4 * n)
      → (m' : Memory) × (extern_store_memcpy start group_size tiles_x fuel m dest src (4 * n)
          ≡ some m')
        × Copied n m m' p src
unfolding extern_store_memcpy
store_memcpy-Copied start group_size tiles_x n fuel m dest src h lt fd fs apart =
    copy_words-Copied n m (get_ptr_val start group_size tiles_x dest (4 * n) 0) src fd fs apart fuel
      h lt

-- Neither copy ends, whatever the fuel, on a length that is no multiple of the word size.
pub memcpy-none :
    (start group_size tiles_x fuel : ℕ) (m : Memory) (dest src len : ℕ)
    → len < 2 ^ 32
    → len % 4 ≢ 0
    → (extern_load_memcpy start group_size tiles_x fuel m dest src len ≡ none)
      × (extern_store_memcpy start group_size tiles_x fuel m dest src len ≡ none)
unfolding extern_load_memcpy extern_store_memcpy
memcpy-none start group_size tiles_x fuel m dest src len lt h =
    (copy_words-none fuel m _ _ len lt h, copy_words-none fuel m _ _ len lt h)

-- `n` bytes of `val` from `d` on
fill : (n : ℕ) → Memory → (d val : ℕ) → Memory
fill zero m d val = m
fill (suc n) m d val = fill n (store 1 m d val) ((d + 1) % 2 ^ 32) val

set_bytes_lem :
    (n fuel : ℕ) (m : Memory) (d val len : ℕ)
    → n < fuel
    → len ≡ 4 * n
    → len < 2 ^ 32
    → set_bytes fuel m d val len ≡ some (fill n m d val)
unfolding set_bytes fill
set_bytes_lem n zero m d val len h e lt = absurd (omega arith)
set_bytes_lem zero (suc fuel) m d val len h e lt = ground arith
set_bytes_lem (suc n) (suc fuel) m d val len h e lt = ground (
  arith,
  set_bytes_lem n fuel (store 1 m d val) ((d + 1) % 2 ^ 32) val ((len + 2 ^ 32 - 4) % 2 ^ 32)
      (omega arith) (omega arith) (omega arith),
)

fill_outside :
    (n : ℕ) (m : Memory) (d val b : ℕ) → d + n ≤ 2 ^ 32 → Apart d n b 1 → fill n m d val b ≡ m b
unfolding fill
fill_outside zero m d val b fits h = refl
fill_outside (suc n) m d val b fits h =
    fill_outside n (store 1 m d val) ((d + 1) % 2 ^ 32) val b (omega arith) (omega arith)
    ∙ store_outside 1 m d val b (omega arith)

-- extern_memset of `4 * n` bytes ends, with any fuel above `n`, and leaves a byte `b` from the `n`-th
-- on as it was (where the pointer does not wrap): it sets at most a quarter of the bytes that it is
-- asked for.
pub memset_short :
    (start group_size tiles_x n fuel : ℕ) (m : Memory) (dest val b : ℕ)
    → n < fuel
    → 4 * n < 2 ^ 32
    → get_ptr_val start group_size tiles_x dest (4 * n) 0 + n ≤ 2 ^ 32
    → get_ptr_val start group_size tiles_x dest (4 * n) 0 + n ≤ b
    → (m' : Memory) × (extern_memset start group_size tiles_x fuel m dest val (4 * n) ≡ some m')
      × (m' b ≡ m b)
unfolding extern_memset
memset_short start group_size tiles_x n fuel m dest val b h lt fits hb = (
  fill n m (get_ptr_val start group_size tiles_x dest (4 * n) 0) val,
  set_bytes_lem n fuel m _ val (4 * n) h refl lt,
  fill_outside n m _ val b fits (inr hb),
)
