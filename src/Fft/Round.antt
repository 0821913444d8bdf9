-- ===== src/Fft/Round.antt =====
-- What a round of Fft leaves, and the copy of the result, in any order of the stores of its tiles.
use mathlib.Core.List.{Mem, Perm, mem-cons}
use mathlib.Core.List.Perm
use mathlib.Core.Logic.Or
use native.Mathlib.Nat.{ℕ_set}
use native.Mathlib.Bridge.{le_prop}
use bsg_manycore.Prelude.{
  ℕ, ◌+◌, ◌-◌, ◌*◌, ◌/◌, ◌%◌, ◌≤◌, ◌<◌, ◌≡◌, refl, ap, ap₂, sym, ◌∙◌, arith, inr, List, [], ◌∷◌,
  ltb, dec_lt, if◌then◌else◌, subst,
}
use bsg_manycore.Kernels.{Array, Store}
use bsg_manycore.Kernels.Stores.{perform, perform-Sound, for_strided-every}
use bsg_manycore.Kernels.Grid.{for_strided-one}
use bsg_manycore.Kernels.Vector.Blocks.{one_store}
use bsg_manycore.Kernels.Matrix.Blocks.{flat-div}
use bsg_manycore.Fft.{WorkArray, complex_remote_load, copy_output, butterfly, stage, stage_stores}
use bsg_manycore.Fft.Stage.{blocks-every, blocks-Mem}

pub perform-copy_output :
    (tiles_x group_size N : ℕ) (A : WorkArray) (output : Array) (j : ℕ)
    → j < N
    → perform (copy_output tiles_x group_size N A) output j
      ≡ complex_remote_load tiles_x group_size A j
unfolding copy_output
perform-copy_output tiles_x group_size N A output j lt =
    let Y : Array = λ i. complex_remote_load tiles_x group_size A i in
    perform-Sound Y _ output j
      (λ q v m.
        for_strided-every N 1 (λ i. (i, Y i) ∷ []) (λ w. w.1 ≡ Y w.0) (λ w. ℕ_set _ _) 0
          (λ i _ _ w. one_store (λ w. w.1 ≡ Y w.0) (λ w. ℕ_set _ _) (i, Y i) w refl) (q, v) m)
      (inr (for_strided-one N j _ (j, Y j) lt (mem-cons.1 (Or.inl refl))))

row_end : (c r n : ℕ) → c < r → c * n + n ≤ r * n
row_end c r n lt = grind arith

rows_le : (c r n : ℕ) → r ≤ c → r * n ≤ c * n
rows_le c r n le = grind arith

block_end : (c r n N : ℕ) → N ≡ r * n → c * n < N → c * n + n ≤ N
block_end c r n N e below = elim (dec_lt c r) [
  | yes lt ↦ omega (arith, row_end c r n lt)
  | no ge ↦ absurd (omega (arith, rows_le c r n (omega arith)))
]

module _ (plus minus times twiddle : ℕ → ℕ → ℕ) (group_size : ℕ) (some : 0 < group_size) where
  -- A round over blocks of `h * 2` elements.
  module _ (N h : ℕ) (pos : 0 < h) (X : Array) where
    abbrev n : ℕ
    n = h * 2

    -- what a round leaves at each index
    abbrev after : ℕ → ℕ
    after q =
        let k = q % n in
        if ltb k h
        then plus (X q) (times (twiddle k n) (X (q + h)))
        else minus (X (q - h)) (times (twiddle (k - h) n) (X q))

    half : n / 2 ≡ h
    half = omega arith

    after_even :
        (c k : ℕ)
        → k < h
        → after (c * n + k) ≡ plus (X (c * n + k)) (times (twiddle k n) (X (c * n + k + h)))
    after_even c k lt = let (q, r) = flat-div n c k (omega arith) in ground arith

    after_odd :
        (c k : ℕ)
        → k < h
        → after (c * n + k + h) ≡ minus (X (c * n + k)) (times (twiddle k n) (X (c * n + k + h)))
    after_odd c k lt =
        let (q, r) = flat-div n c (k + h) (omega arith) in
        let e : (c * n + k + h) % n ≡ k + h = ap (λ t. t % n) (omega arith) ∙ r in
        let e1 : c * n + k + h - h ≡ c * n + k = omega arith in
        let e2 : k + h - h ≡ k = omega arith in ground (arith, ap X e1)

    abbrev pair : (c k : ℕ) → List Store
    pair c k =
        let even = c * n + k in
        let t = times (twiddle k n) (X (even + h)) in
        (even + h, minus (X even) t) ∷ (even, plus (X even) t) ∷ []

    butterfly_eq :
        (c k : ℕ) → butterfly plus minus times twiddle N group_size n (0 + c * n) k X ≡ pair c k
    unfolding butterfly
    butterfly_eq c k =
        ap₂
          (λ i half.
            let even = i + k in
            let t = times (twiddle k n) (X (even + half)) in
            (even + half, minus (X even) t) ∷ (even, plus (X even) t) ∷ [])
          {x = 0 + c * n} (omega arith) half

    pair-after : (c k : ℕ) → k < h → (w : Store) → Mem w (pair c k) → w.1 ≡ after w.0
    pair-after c k lt w m =
        Or.elim (ℕ_set _ _) (mem-cons.0 m)
          (λ e. subst (λ w. w.1 ≡ after w.0) (sym e) (sym (after_odd c k lt)))
          (one_store (λ w. w.1 ≡ after w.0) (λ w. ℕ_set _ _) _ w (sym (after_even c k lt)))

    module _ (ws : List Store)
        (p : Perm ws (stage_stores plus minus times twiddle N group_size n X)) where
      stores-after : (q v : ℕ) → Mem (q, v) ws → v ≡ after q
      unfolding stage_stores stage
      stores-after q v m =
          for_strided-every group_size 1 _ (λ w. w.1 ≡ after w.0) (λ w. ℕ_set _ _) 0
            (λ id _ _.
              blocks-every plus minus times twiddle N group_size id n X some (λ w. w.1 ≡ after w.0)
                (λ w. ℕ_set _ _) N 0 0
                (λ c k below lt w m.
                  pair-after c k (omega (arith, lt, half)) w (subst (Mem w) (butterfly_eq c k) m)))
            (q, v) ((Perm.mem_iff p).0 m)

      -- In blocks that fill the array, no store is beyond its end.
      pub stage-lt : (r q v : ℕ) → N ≡ r * n → Mem (q, v) ws → q < N
      unfolding stage_stores stage
      stage-lt r q v whole m =
          for_strided-every group_size 1 _ (λ w. w.0 < N) (λ w. le_prop) 0
            (λ id _ _.
              blocks-every plus minus times twiddle N group_size id n X some (λ w. w.0 < N)
                (λ w. le_prop) N 0 0
                (λ c k below lt w m.
                  let end : c * n + n ≤ N = block_end c r n N whole (omega arith) in
                  let m1 = subst (Mem w) (butterfly_eq c k) m in
                  Or.elim le_prop (mem-cons.0 m1)
                    (λ e. subst (λ w. w.0 < N) (sym e) (omega (arith, lt, half, end)))
                    (one_store (λ w. w.0 < N) (λ w. le_prop) _ w (omega (arith, lt, half, end)))))
            (q, v) ((Perm.mem_iff p).0 m)

      stage-Mem : (c k : ℕ) (w : Store) → c * n < N → k < h → Mem w (pair c k) → Mem w ws
      unfolding stage_stores stage
      stage-Mem c k w below lt m =
          let id = (0 + (c * (n / 2) + k)) % group_size in
          (Perm.mem_iff p).1 (
            for_strided-one group_size id _ w (omega arith) (
              blocks-Mem plus minus times twiddle N group_size id n X some N 0 0 c k w (omega arith)
                (omega arith) some (omega arith) (omega (arith, lt, half)) refl
                (subst (Mem w) (sym (butterfly_eq c k)) m)))

      -- Each pair of elements is combined once, by some tile.
      pub stage-perform :
          (c k : ℕ)
          → c * n < N
          → k < h
          → let t = times (twiddle k n) (X (c * n + k + h)) in
            (perform ws X (c * n + k) ≡ plus (X (c * n + k)) t)
            × (perform ws X (c * n + k + h) ≡ minus (X (c * n + k)) t)
      stage-perform c k below lt = (
        perform-Sound after ws X (c * n + k) stores-after (
              inr (
                subst (λ v. Mem (c * n + k, v) ws) (sym (after_even c k lt))
                  (stage-Mem c k _ below lt (mem-cons.1 (Or.inr (mem-cons.1 (Or.inl refl)))))))
            ∙ after_even c k lt,
        perform-Sound after ws X (c * n + k + h) stores-after (
              inr (
                subst (λ v. Mem (c * n + k + h, v) ws) (sym (after_odd c k lt))
                  (stage-Mem c k _ below lt (mem-cons.1 (Or.inl refl)))))
            ∙ after_odd c k lt,
      )
