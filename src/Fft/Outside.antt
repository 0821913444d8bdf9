-- ===== src/Fft/Outside.antt =====
-- Where the stores of Fft fall: the group of its tiles, which is square here, and their arrays.
use mathlib.Core.List.{Mem, Perm, mem-cons}
use mathlib.Core.Logic.Or
use native.Mathlib.Nat.{pow-suc, one-le-pow, div-lt_iff_lt-mul, div-add-mod'}
use bsg_manycore.Prelude.{
  ℕ, zero, suc, ◌+◌, ◌*◌, ◌/◌, ◌%◌, ◌^◌, ◌≤◌, ◌<◌, ◌≡◌, ◌⊎◌, refl, ap, sym, ◌∙◌, arith, List, [],
  ◌∷◌, subst,
}
use bsg_manycore.Kernels.{Array, Store}
use bsg_manycore.Fft
use bsg_manycore.Fft.{
  WorkArray, Work, complex_remote_load, complex_remote_store, remote_stores, fft_swizzle,
  stage_stores, Stages,
}
use bsg_manycore.Fft.Swizzle.{
  power_sum, regroup, split-lt, swizzle_leaf, swizzle_node, swizzle-output,
}
use bsg_manycore.Fft.Round.{stage-lt}

-- an index of no tile's array, in the group or beyond it
abbrev pub Outside : (tiles_x length x y index : ℕ) → Type 0
Outside tiles_x length x y index = (tiles_x ≤ x) ⊎ (tiles_x ≤ y) ⊎ (length ≤ index)

some_tiles : (t g : ℕ) → 0 < g → g ≡ t * t → 0 < t
some_tiles zero g h e = absurd (omega (arith, e))
some_tiles (suc t) g h e = omega arith

pub Stages-ge :
    (plus minus times twiddle : ℕ → ℕ → ℕ) (N group_size tiles_x : ℕ) (X : WorkArray) (n : ℕ)
    (Y : WorkArray)
    → Stages plus minus times twiddle N group_size tiles_x X n Y
    → 2 ≤ n
Stages-ge plus minus times twiddle N group_size tiles_x X _ _ Fft.Stages.first = omega arith
Stages-ge plus minus times twiddle N group_size tiles_x X _ _ (Fft.Stages.next n Y ws before le p) =
    let h = Stages-ge plus minus times twiddle N group_size tiles_x X n Y before in omega arith

module _ (tiles_x group_size m : ℕ) (some : 0 < group_size)
    (square : group_size ≡ tiles_x * tiles_x) (whole : 2 ^ m % group_size ≡ 0) (x y index : ℕ)
    (outside : Outside tiles_x (2 ^ m / group_size) x y index) where
  placed :
      (i : ℕ)
      → i < 2 ^ m
      → (i % group_size / tiles_x < tiles_x)
        × (i % group_size % tiles_x < tiles_x)
        × (i / group_size < 2 ^ m / group_size)
  placed i lt =
      let pos = some_tiles tiles_x group_size some square in
      (
        (div-lt_iff_lt-mul {k = tiles_x} {x = i % group_size} {y = tiles_x} pos).1
            (omega (arith, square)),
        omega arith,
        (div-lt_iff_lt-mul {k = group_size} {x = i} {y = 2 ^ m / group_size} some).1
            (omega (arith, div-add-mod' (2 ^ m) group_size)),
      )

  store-outside :
      (A : WorkArray) (i v : ℕ)
      → i < 2 ^ m
      → complex_remote_store tiles_x group_size A i v x y index ≡ A x y index
  unfolding complex_remote_store Fft.complex_place
  store-outside A i v lt = let h = placed i lt in ground arith

  stores-outside :
      (ws : List Store) (A : WorkArray)
      → ((q v : ℕ) → Mem (q, v) ws → q < 2 ^ m)
      → remote_stores tiles_x group_size ws A x y index ≡ A x y index
  unfolding remote_stores
  stores-outside [] A h = refl
  stores-outside ((i, v) ∷ ws) A h =
      stores-outside ws (complex_remote_store tiles_x group_size A i v)
        (λ q v m. h q v (mem-cons.1 (Or.inr m)))
      ∙ store-outside A i v (h i v (mem-cons.1 (Or.inl refl)))

  pub swizzle-outside :
      (complex : ℕ → ℕ) (depth start stride : ℕ) (input : Array) (s : Work)
      → stride * 2 ^ depth ≡ 2 ^ m
      → 0 < stride
      → s.work_arr_idx + 2 ^ depth ≤ 2 ^ m
      → (fft_swizzle tiles_x group_size complex (2 ^ m) (suc depth) start stride input s).output x y
          index
        ≡ s.output x y index
  swizzle-outside complex zero start stride input s e pos room =
      rw
        (swizzle_leaf tiles_x group_size complex (2 ^ m) zero start stride input s
          (omega (arith, e)))
        (store-outside s.output s.work_arr_idx _ (omega arith))
  swizzle-outside complex (suc depth) start stride input s e pos room =
      let p = pow-suc 2 depth in
      let e1 : stride * 2 * 2 ^ depth ≡ 2 ^ m =
        regroup stride (2 ^ depth) ∙ ap (λ u. stride * u) (sym p) ∙ e in
      let some : 0 < 2 ^ depth = one-le-pow depth 2 (omega arith) in
      let s1 =
        fft_swizzle tiles_x group_size complex (2 ^ m) (suc depth) start (stride * 2) input s in
      let (n1, _, _) =
        swizzle-output tiles_x group_size complex (2 ^ m) depth start (stride * 2) input s e1
          (omega arith) in
      rw
        (swizzle_node tiles_x group_size complex (2 ^ m) (suc depth) start stride input s
          (split-lt stride (2 ^ depth) (2 ^ m) pos some e1))
        (swizzle-outside complex depth (start + stride) (stride * 2) input s1 e1 (omega arith)
            (omega (arith, p, n1))
          ∙ swizzle-outside complex depth start (stride * 2) input s e1 (omega arith)
              (omega (arith, p)))

  pub Stages-outside :
      (plus minus times twiddle : ℕ → ℕ → ℕ) (X : WorkArray) (n : ℕ) (Y : WorkArray)
      → Stages plus minus times twiddle (2 ^ m) group_size tiles_x X n Y
      → (l r : ℕ) → n ≡ 2 ^ suc l
      → l + r ≡ m
      → Y x y index ≡ X x y index
  Stages-outside plus minus times twiddle X _ _ Fft.Stages.first l r en em = refl
  Stages-outside plus minus times twiddle X _ _ (Fft.Stages.next n Y ws before le p) zero r en em =
      absurd
        (omega (arith, Stages-ge plus minus times twiddle (2 ^ m) group_size tiles_x X n Y before))
  Stages-outside plus minus times twiddle X _ _ (Fft.Stages.next n Y ws before le p) (suc l) r en
        em =
      let e : n ≡ 2 ^ suc l = omega (arith, pow-suc 2 (suc l)) in
      let same : n ≡ 2 ^ l * 2 = e ∙ pow-suc 2 l in
      let pos : 0 < 2 ^ l = one-le-pow l 2 (omega arith) in
      let loaded : Array = λ i. complex_remote_load tiles_x group_size Y i in
      let blocks : 2 ^ m ≡ 2 ^ r * (2 ^ l * 2) =
        ap (λ t. 2 ^ t) (sym em) ∙ power_sum (suc l) r ∙ ap (λ t. 2 ^ r * t) (pow-suc 2 l) in
      let p1 : Perm ws
          (stage_stores plus minus times twiddle (2 ^ m) group_size (2 ^ l * 2) loaded) =
        subst (λ n. Perm ws (stage_stores plus minus times twiddle (2 ^ m) group_size n loaded))
          same p in
      stores-outside ws Y (λ q v mem.
        stage-lt plus minus times twiddle group_size some (2 ^ m) (2 ^ l) pos loaded ws p1 (2 ^ r) q
          v blocks mem)
      ∙ Stages-outside plus minus times twiddle X n Y before l (suc r) e (omega arith)
