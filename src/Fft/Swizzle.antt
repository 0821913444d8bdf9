-- ===== src/Fft/Swizzle.antt =====
-- fft_swizzle puts the elements in the order of the reversed bits of their indices.
use native.Mathlib.Nat.{pow-suc, one-le-pow}
use bsg_manycore.Prelude.{
  ℕ, zero, suc, ◌+◌, ◌-◌, ◌*◌, ◌/◌, ◌%◌, ◌^◌, ◌≤◌, ◌<◌, ◌≡◌, refl, ap, sym, ◌∙◌, arith, dec_lt,
}
use bsg_manycore.Kernels.{Array}
use bsg_manycore.Kernels.Stores.{put_self, put_ne}
use bsg_manycore.Fft.{Work, fft_swizzle, complex_remote_store}
use bsg_manycore.Fft.Places.{loaded, loaded-store}

-- the number whose bits are the lowest `bits` of `b` in reverse
abbrev pub reversed : (bits b : ℕ) → ℕ
reversed zero b = 0
reversed (suc bits) b = reversed bits (b / 2) + b % 2 * 2 ^ bits

double_left : (a t : ℕ) → a * 2 * t ≡ 2 * (a * t)
double_left a t = grind arith

double_right : (a t : ℕ) → a * (t * 2) ≡ 2 * (a * t)
double_right a t = grind arith

pub power_sum : (a b : ℕ) → 2 ^ (a + b) ≡ 2 ^ b * 2 ^ a
power_sum zero b = ap (λ t. 2 ^ t) {y = b} (omega arith) ∙ omega arith
power_sum (suc a) b =
    ap (λ t. 2 ^ t) {y = suc (a + b)} (omega arith)
    ∙ pow-suc 2 (a + b)
    ∙ ap (λ t. t * 2) (power_sum a b)
    ∙ grind arith
    ∙ ap (λ t. 2 ^ b * t) (sym (pow-suc 2 a))

pub regroup : (a b : ℕ) → a * 2 * b ≡ a * (b * 2)
regroup a b = grind arith

pub split-lt : (a b n : ℕ) → 0 < a → 0 < b → a * 2 * b ≡ n → a < n
split-lt a b n pa pb e = grind arith

regroup_left : (a b : ℕ) → a * 2 * b ≡ a * (2 * b)
regroup_left a b = grind arith

one_more : (a b c : ℕ) → a + b + b * c ≡ a + b * (c + 1)
one_more a b c = grind arith

low_position : (a b r r1 : ℕ) → r1 ≡ 2 * r + 0 → a + b * 2 * r ≡ a + b * r1
low_position a b r r1 e =
    ap (λ u. a + u) (regroup_left b r) ∙ ap (λ u. a + b * u) (omega (arith, e))

high_position : (a b r r1 : ℕ) → r1 ≡ 2 * r + 1 → a + b + b * 2 * r ≡ a + b * r1
high_position a b r r1 e =
    ap (λ u. a + b + u) (regroup_left b r) ∙ one_more a b (2 * r) ∙ ap (λ u. a + b * u) (sym e)

-- The highest bit becomes the lowest.
reversed_high :
    (bits t j : ℕ)
    → t ≤ 1
    → j < 2 ^ bits
    → reversed (suc bits) (2 ^ bits * t + j) ≡ 2 * reversed bits j + t
reversed_high zero t j ht hj = omega arith
reversed_high (suc bits) t j ht hj =
    let p = pow-suc 2 bits in
    let pt : 2 ^ suc bits * t ≡ 2 * (2 ^ bits * t) = ap (λ u. u * t) p ∙ double_left (2 ^ bits) t in
    let pj : j % 2 * 2 ^ suc bits ≡ 2 * (j % 2 * 2 ^ bits) =
      ap (λ u. j % 2 * u) p ∙ double_right (j % 2) (2 ^ bits) in
    let half : (2 ^ suc bits * t + j) / 2 ≡ 2 ^ bits * t + j / 2 = omega (arith, pt) in
    let low : (2 ^ suc bits * t + j) % 2 ≡ j % 2 = omega (arith, pt) in
    let ih = reversed_high bits t (j / 2) ht (omega (arith, p, hj)) in
    rw (half, low) (omega (arith, ih, pj))

pub swizzle_leaf :
    (tiles_x group_size : ℕ) (complex : ℕ → ℕ) (N fuel start stride : ℕ) (input : Array) (s : Work)
    → stride ≡ N
    → fft_swizzle tiles_x group_size complex N (suc fuel) start stride input s ≡ record {
      output =
          complex_remote_store tiles_x group_size s.output s.work_arr_idx (complex (input start));
      work_arr_idx = s.work_arr_idx + 1;
    }
unfolding fft_swizzle
swizzle_leaf tiles_x group_size complex N fuel start stride input s e = ground arith

pub swizzle_node :
    (tiles_x group_size : ℕ) (complex : ℕ → ℕ) (N fuel start stride : ℕ) (input : Array) (s : Work)
    → stride < N
    → fft_swizzle tiles_x group_size complex N (suc fuel) start stride input s
      ≡ fft_swizzle tiles_x group_size complex N fuel
          (start + stride)
          (stride * 2)
          input
          (fft_swizzle tiles_x group_size complex N fuel start (stride * 2) input s)
unfolding fft_swizzle
swizzle_node tiles_x group_size complex N fuel start stride input s lt = ground arith

-- The call with a stride of N / 2 ^ depth stores 2 ^ depth elements, and leaves the others alone.
pub swizzle-output :
    (tiles_x group_size : ℕ) (complex : ℕ → ℕ) (N depth start stride : ℕ) (input : Array) (s : Work)
    → stride * 2 ^ depth ≡ N
    → 0 < stride
    → let after = fft_swizzle tiles_x group_size complex N (suc depth) start stride input s in
      (after.work_arr_idx ≡ s.work_arr_idx + 2 ^ depth)
      × ((q : ℕ)
          → q < s.work_arr_idx
          → loaded tiles_x group_size after.output q ≡ loaded tiles_x group_size s.output q)
      × ((j : ℕ)
          → j < 2 ^ depth
          → loaded tiles_x group_size after.output (s.work_arr_idx + j)
            ≡ complex (input (start + stride * reversed depth j)))
swizzle-output tiles_x group_size complex N zero start stride input s e pos =
    let stored = loaded-store tiles_x group_size s.output s.work_arr_idx (complex (input start)) in
    rw (swizzle_leaf tiles_x group_size complex N zero start stride input s (omega (arith, e))) (
      refl,
      (λ q lt.
          ap (λ f. f q) stored
          ∙ put_ne (loaded tiles_x group_size s.output) s.work_arr_idx _ q (omega arith)),
      (λ j lt.
          let first : j ≡ 0 = omega arith in
          let place : start ≡ start + stride * 0 = omega arith in
          ap (λ f. f (s.work_arr_idx + j)) stored
          ∙ put_self (loaded tiles_x group_size s.output) s.work_arr_idx _ (s.work_arr_idx + j)
              (omega arith)
          ∙ ap (λ a. complex (input a)) place),
    )
swizzle-output tiles_x group_size complex N (suc depth) start stride input s e pos =
    let p = pow-suc 2 depth in
    let e1 : stride * 2 * 2 ^ depth ≡ N =
      regroup stride (2 ^ depth) ∙ ap (λ u. stride * u) (sym p) ∙ e in
    let some : 0 < 2 ^ depth = one-le-pow depth 2 (omega arith) in
    let s1 = fft_swizzle tiles_x group_size complex N (suc depth) start (stride * 2) input s in
    let s2 =
      fft_swizzle tiles_x group_size complex N (suc depth) (start + stride) (stride * 2) input s1 in
    let (n1, keep1, new1) =
      swizzle-output tiles_x group_size complex N depth start (stride * 2) input s e1
        (omega arith) in
    let (n2, keep2, new2) =
      swizzle-output tiles_x group_size complex N depth (start + stride) (stride * 2) input s1 e1
        (omega arith) in
    rw
      (swizzle_node tiles_x group_size complex N (suc depth) start stride input s
        (split-lt stride (2 ^ depth) N pos some e1))
      (
        omega arith,
        (λ q lt. keep2 q (omega arith) ∙ keep1 q lt),
        (λ j lt. elim (dec_lt j (2 ^ depth)) [
          | yes low ↦
              keep2 (s.work_arr_idx + j) (omega arith)
              ∙ new1 j low
              ∙ ap (λ a. complex (input a))
                  (low_position start stride (reversed depth j) (reversed (suc depth) j) (
                    ap (reversed (suc depth)) {y = 2 ^ depth * 0 + j} (omega arith)
                    ∙ reversed_high depth 0 j (omega arith) low))
          | no high ↦
              ap (loaded tiles_x group_size s2.output) {x = s.work_arr_idx + j}
                {y = s1.work_arr_idx + (j - 2 ^ depth)} (omega arith)
              ∙ new2 (j - 2 ^ depth) (omega arith)
              ∙ ap (λ a. complex (input a))
                  (high_position start stride (reversed depth (j - 2 ^ depth))
                    (reversed (suc depth) j)
                    (ap (reversed (suc depth)) {y = 2 ^ depth * 1 + (j - 2 ^ depth)} (omega arith)
                      ∙ reversed_high depth 1 (j - 2 ^ depth) (omega arith) (omega arith)))
        ]),
      )
