-- ===== src/Tests/Fourier.antt =====
-- A transform of 8 elements by four tiles, where a complex is a natural number.
use mathlib.Core.List.Perm
use bsg_manycore.Prelude.{ℕ, ◌+◌, ◌-◌, ◌*◌, ◌%◌, ◌≡◌, refl, arith, inr}
use bsg_manycore.Kernels.{Array}
use bsg_manycore.Kernels.Stores.{perform}
use bsg_manycore.Fft
use bsg_manycore.Fft.{
  WorkArray, Work, remote_stores, fft_swizzle, copy_output, stage_stores, Stages,
}
use bsg_manycore.Fft.Places.{loaded}
use bsg_manycore.Fft.Transform.{transform, fft-transform}

-- fft_arr, with 3 for each 1
abbrev fft_arr : Array
fft_arr i = 3 * ((i + 1) % 2)

abbrev sum : ℕ → ℕ → ℕ
sum v w = v + w

abbrev difference : ℕ → ℕ → ℕ
difference v w = v + 1000 - w

abbrev product : ℕ → ℕ → ℕ
product v w = v * w

abbrev twiddle : ℕ → ℕ → ℕ
twiddle k n = k + 1

abbrev same : ℕ → ℕ
same v = v

abbrev before : Work
before = record { output = λ x y index. 0; work_arr_idx = 0 }

abbrev swizzled : WorkArray
swizzled = (fft_swizzle 2 4 same 8 4 0 1 fft_arr before).output

abbrev round : ℕ → WorkArray → WorkArray
round n X = remote_stores 2 4 (stage_stores sum difference product twiddle 8 4 n (loaded 2 4 X)) X

abbrev finished : WorkArray
finished = round 8 (round 4 (round 2 swizzled))

abbrev rounds : Stages sum difference product twiddle 8 4 2 swizzled 16 finished
rounds =
    Fft.Stages.next 8 _ _
      (Fft.Stages.next 4 _ _ (Fft.Stages.next 2 _ _ Fft.Stages.first (omega arith) (Perm.refl _))
        (omega arith) (Perm.refl _))
      (omega arith) (Perm.refl _)

-- The fifth element, and the word after the two elements of tile (1, 0).
fft-transform_example :
    (perform (copy_output 2 4 8 finished) fft_arr 5
      ≡ transform sum difference product twiddle same fft_arr 3 0 1 5)
    × (finished 1 0 2 ≡ 0)
fft-transform_example =
    fft-transform sum difference product twiddle same fft_arr 2 4 (omega arith) 3 before finished
      fft_arr 5 1 0 2 refl (omega arith) (omega arith) rounds (omega arith)
      (inr (inr (omega arith)))
