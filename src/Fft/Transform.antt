-- ===== src/Fft/Transform.antt =====
-- The rounds of Fft compute the transform by its recursive definition.
use mathlib.Core.List.{Perm}
use mathlib.Core.List.Perm
use native.Mathlib.Nat.{pow-suc, one-le-pow, mul-lt-mul_of_pos_right, pow-le-pow_right}
use bsg_manycore.Prelude.{
  ℕ, zero, suc, ◌+◌, ◌-◌, ◌*◌, ◌/◌, ◌%◌, ◌^◌, ◌≤◌, ◌<◌, ◌≡◌, ap, ap₂, sym, ◌∙◌, arith, List, ltb,
  if◌then◌else◌, subst, dec_lt,
}
use bsg_manycore.Kernels.{Array, Store}
use bsg_manycore.Kernels.Stores.{perform}
use bsg_manycore.Fft
use bsg_manycore.Fft.{
  WorkArray, Work, remote_stores, fft_swizzle, copy_output, stage_stores, Stages,
}
use bsg_manycore.Fft.Swizzle.{power_sum, reversed, swizzle-output}
use bsg_manycore.Fft.Places.{loaded, loaded-remote_stores}
use bsg_manycore.Fft.Outside.{Outside, Stages-ge, Stages-outside, swizzle-outside}
use bsg_manycore.Fft.Round.{perform-copy_output, stage-perform}

swap_two : (c h : ℕ) → c * 2 * h ≡ c * (h * 2)
swap_two c h = grind arith

swap_odd : (c h k : ℕ) → (c * 2 + 1) * h + k ≡ c * (h * 2) + k + h
swap_odd c h k = grind arith

module _ (plus minus times twiddle : ℕ → ℕ → ℕ) (complex : ℕ → ℕ) (input : Array) where
  -- The radix-2 transform of the 2 ^ levels elements from `start` on in steps of `stride`, by the
  -- transforms of those at even and at odd places.
  abbrev pub transform : (levels start stride j : ℕ) → ℕ
  transform zero start stride j = complex (input start)
  transform (suc levels) start stride j =
      let low = ltb j (2 ^ levels) in
      let k = if low then j else j - 2 ^ levels in
      let even = transform levels start (stride * 2) k in
      let odd = transform levels (start + stride) (stride * 2) k in
      let t = times (twiddle k (2 ^ suc levels)) odd in if low then plus even t else minus even t

  module _ (tiles_x group_size : ℕ) (some : 0 < group_size) where
    some_power : (k : ℕ) → 0 < 2 ^ k
    some_power k = one-le-pow k 2 (omega arith)

    -- Block c of 2 ^ l elements has the transform of the elements whose places end in the reversed c.
    abbrev HasBlocks : (m l r : ℕ) → Array → Type 0
    HasBlocks m l r Y =
        (c j : ℕ) → c < 2 ^ r → j < 2 ^ l → Y (c * 2 ^ l + j) ≡ transform l (reversed r c) (2 ^ r) j

    module _ (m l r : ℕ) (Y : Array) (before : HasBlocks m l (suc r) Y) (c k : ℕ) (hc : c < 2 ^ r)
        (hk : k < 2 ^ l) where
      abbrev even : ℕ
      even = transform l (reversed r c) (2 ^ r * 2) k

      abbrev odd : ℕ
      odd = transform l (reversed r c + 2 ^ r) (2 ^ r * 2) k

      even_here : Y (c * (2 ^ l * 2) + k) ≡ even
      even_here =
          let p = pow-suc 2 r in
          let ha : c * 2 / 2 ≡ c = omega arith in
          let hb : c * 2 % 2 ≡ 0 = omega arith in
          let e : reversed r (c * 2 / 2) + c * 2 % 2 * 2 ^ r ≡ reversed r c =
            ap₂ (λ a b. reversed r a + b * 2 ^ r) ha hb ∙ omega arith in
          ap (λ t. Y (t + k)) (sym (swap_two c (2 ^ l)))
          ∙ before (c * 2) k (omega (arith, p)) hk
          ∙ ap₂ (λ a b. transform l a b k) e p

      odd_here : Y (c * (2 ^ l * 2) + k + 2 ^ l) ≡ odd
      odd_here =
          let p = pow-suc 2 r in
          let ha : (c * 2 + 1) / 2 ≡ c = omega arith in
          let hb : (c * 2 + 1) % 2 ≡ 1 = omega arith in
          let e : reversed r ((c * 2 + 1) / 2) + (c * 2 + 1) % 2 * 2 ^ r ≡ reversed r c + 2 ^ r =
            ap₂ (λ a b. reversed r a + b * 2 ^ r) ha hb ∙ omega arith in
          ap Y (sym (swap_odd c (2 ^ l) k))
          ∙ before (c * 2 + 1) k (omega (arith, p)) hk
          ∙ ap₂ (λ a b. transform l a b k) e p

    transform_low :
        (l start stride j : ℕ)
        → j < 2 ^ l
        → transform (suc l) start stride j
          ≡ plus
              (transform l start (stride * 2) j)
              (times (twiddle j (2 ^ suc l)) (transform l (start + stride) (stride * 2) j))
    transform_low l start stride j lt = ground arith

    transform_high :
        (l start stride j : ℕ)
        → 2 ^ l ≤ j
        → transform (suc l) start stride j
          ≡ minus (transform l start (stride * 2) (j - 2 ^ l)) (
              times
                (twiddle (j - 2 ^ l) (2 ^ suc l))
                (transform l (start + stride) (stride * 2) (j - 2 ^ l)))
    transform_high l start stride j le = ground arith

    next-HasBlocks :
        (m l r : ℕ) (Y : Array) (ws : List Store)
        → suc l + r ≡ m
        → HasBlocks m l (suc r) Y
        → Perm ws (stage_stores plus minus times twiddle (2 ^ m) group_size (2 ^ l * 2) Y)
        → HasBlocks m (suc l) r (perform ws Y)
    next-HasBlocks m l r Y ws e before p c j hc hj =
        let h = 2 ^ l in
        let ph = pow-suc 2 l in
        let below : c * (h * 2) < 2 ^ m =
          subst (λ t. c * (h * 2) < t)
            (ap (λ t. 2 ^ r * t) (sym ph) ∙ sym (power_sum (suc l) r) ∙ ap (λ t. 2 ^ t) e)
            (mul-lt-mul_of_pos_right {k = h * 2} hc (omega (arith, some_power l))) in
        let round =
          stage-perform plus minus times twiddle group_size some (2 ^ m) h (some_power l) Y ws p
            c in
        elim (dec_lt j h) [
          | yes low ↦
              ap (λ a. perform ws Y (c * a + j)) ph
              ∙ (round j below low).0
              ∙ ap₂ (λ a b. plus a (times (twiddle j (h * 2)) b))
                  (even_here m l r Y before c j hc low) (odd_here m l r Y before c j hc low)
              ∙ ap
                  (λ a.
                    plus (even m l r Y before c j hc low)
                      (times (twiddle j a) (odd m l r Y before c j hc low)))
                  (sym ph)
              ∙ sym (transform_low l (reversed r c) (2 ^ r) j low)
          | no high ↦
              let k = j - h in
              let hk : k < h = omega (arith, ph) in
              ap (perform ws Y) {x = c * 2 ^ suc l + j} {y = c * (h * 2) + k + h}
                (ap (λ a. c * a + j) ph ∙ omega arith)
              ∙ (round k below hk).1
              ∙ ap₂ (λ a b. minus a (times (twiddle k (h * 2)) b))
                  (even_here m l r Y before c k hc hk) (odd_here m l r Y before c k hc hk)
              ∙ ap
                  (λ a.
                    minus (even m l r Y before c k hc hk)
                      (times (twiddle k a) (odd m l r Y before c k hc hk)))
                  (sym ph)
              ∙ sym (transform_high l (reversed r c) (2 ^ r) j (omega arith))
        ]

    Stages-HasBlocks :
        (m : ℕ) (X : WorkArray)
        → HasBlocks m 0 m (loaded tiles_x group_size X)
        → (n : ℕ) (Y : WorkArray) → Stages plus minus times twiddle (2 ^ m) group_size tiles_x X n Y
        → (l r : ℕ) → n ≡ 2 ^ suc l
        → l + r ≡ m
        → HasBlocks m l r (loaded tiles_x group_size Y)
    Stages-HasBlocks m X start _ _ Fft.Stages.first zero r en em =
        subst (λ r. HasBlocks m 0 r (loaded tiles_x group_size X)) {x = m} (omega arith) start
    Stages-HasBlocks m X start _ _ Fft.Stages.first (suc l) r en em =
        absurd (omega (arith, pow-suc 2 (suc l), pow-suc 2 l, some_power l))
    Stages-HasBlocks m X start _ _ (Fft.Stages.next n Y ws before le p) zero r en em =
        absurd (
          omega (arith, Stages-ge plus minus times twiddle (2 ^ m) group_size tiles_x X n Y before))
    Stages-HasBlocks m X start _ _ (Fft.Stages.next n Y ws before le p) (suc l) r en em =
        let e : n ≡ 2 ^ suc l = omega (arith, pow-suc 2 (suc l)) in
        let same : n ≡ 2 ^ l * 2 = e ∙ pow-suc 2 l in
        let Z = loaded tiles_x group_size Y in
        subst (HasBlocks m (suc l) r) (sym (loaded-remote_stores tiles_x group_size ws Y)) (
          next-HasBlocks m l r Z ws em
            (Stages-HasBlocks m X start n Y before l (suc r) e (omega arith))
            (subst (λ n. Perm ws (stage_stores plus minus times twiddle (2 ^ m) group_size n Z))
              same p))

    -- The loop over n ends, after a round for each of its values.
    rounds_done :
        (m : ℕ) (X : WorkArray) (l : ℕ)
        → l ≤ m
        → (Y : WorkArray) × Stages plus minus times twiddle
            (2 ^ m)
            group_size
            tiles_x
            X
            (2 ^ l * 2)
            Y
    rounds_done m X zero le = (X, Fft.Stages.first)
    rounds_done m X (suc l) le =
        let (Y, before) = rounds_done m X l (omega arith) in
        let n = 2 ^ l * 2 in
        let ws =
          stage_stores plus minus times twiddle (2 ^ m) group_size n
            (loaded tiles_x group_size Y) in
        let small : n ≤ 2 ^ m =
          subst (λ t. t ≤ 2 ^ m) (pow-suc 2 l) (pow-le-pow_right {n = 2} (omega arith) le) in
        let done = Fft.Stages.next n Y ws before small (Perm.refl ws) in
        (
          remote_stores tiles_x group_size ws Y,
          subst
              (λ t.
                Stages plus minus times twiddle (2 ^ m) group_size tiles_x X t
                  (remote_stores tiles_x group_size ws Y))
              (ap (λ t. t * 2) (sym (pow-suc 2 l))) done,
        )

    pub Stages-done :
        (m : ℕ) (X : WorkArray)
        → (Y : WorkArray) × Stages plus minus times twiddle
            (2 ^ m)
            group_size
            tiles_x
            X
            (2 ^ m * 2)
            Y
    Stages-done m X = rounds_done m X m (omega arith)

    -- On 2 ^ m elements, in a square group of at least one tile whose size divides 2 ^ m, and in any
    -- order of the stores within each round: when the loop over n has ended, fft_kernel copies to
    -- output the radix-2 transform of the input, by its recursive definition, and what is at a tile
    -- beyond the group, or in a tile's memory beyond its 2 ^ m / group_size elements, is as before.
    pub fft-transform :
        (m : ℕ) (s : Work) (Y : WorkArray) (output : Array) (j x y index : ℕ)
        → s.work_arr_idx ≡ 0
        → group_size ≡ tiles_x * tiles_x
        → 2 ^ m % group_size ≡ 0
        → Stages plus minus times twiddle
            (2 ^ m)
            group_size
            tiles_x
            (fft_swizzle tiles_x group_size complex (2 ^ m) (suc m) 0 1 input s).output
            (2 ^ m * 2)
            Y
        → j < 2 ^ m
        → Outside tiles_x (2 ^ m / group_size) x y index
        → (perform (copy_output tiles_x group_size (2 ^ m) Y) output j ≡ transform m 0 1 j)
          × (Y x y index ≡ s.output x y index)
    fft-transform m s Y output j x y index e square whole stages lt outside =
        let (_, _, filled) =
          swizzle-output tiles_x group_size complex (2 ^ m) m 0 1 input s (omega arith)
            (omega arith) in
        let X = (fft_swizzle tiles_x group_size complex (2 ^ m) (suc m) 0 1 input s).output in
        let start : HasBlocks m 0 m (loaded tiles_x group_size X) = λ c i hc hi.
          ap (loaded tiles_x group_size X) {y = s.work_arr_idx + c} (omega arith)
          ∙ filled c hc
          ∙ ap (λ a. complex (input a)) (omega arith) in
        (
          perform-copy_output tiles_x group_size (2 ^ m) Y output j lt
              ∙ ap (loaded tiles_x group_size Y) {y = 0 * 2 ^ m + j} (omega arith)
              ∙ Stages-HasBlocks m X start (2 ^ m * 2) Y stages m 0 (sym (pow-suc 2 m))
                  (omega arith) 0 j (omega arith) lt,
          Stages-outside tiles_x group_size m some square whole x y index outside plus minus times
                twiddle X (2 ^ m * 2) Y stages m 0 (sym (pow-suc 2 m)) (omega arith)
              ∙ swizzle-outside tiles_x group_size m some square whole x y index outside complex m 0
                  1 input s (omega arith) (omega arith) (omega arith),
        )
