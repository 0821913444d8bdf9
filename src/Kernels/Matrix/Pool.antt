-- ===== src/Kernels/Matrix/Pool.antt =====
-- kernel_max_pool2d of software/spmd/bsg_cuda_lite_runtime: the maxima of the parts of a matrix.
use mathlib.Core.List.{Perm}
use bsg_manycore.Prelude.{
  ℕ, zero, suc, ◌+◌, ◌*◌, ◌/◌, ◌%◌, ◌^◌, ◌≤◌, ◌<◌, ◌≡◌, refl, arith, List, if◌then◌else◌,
  ℕ_discrete, Bool-cases, inl, inr, subst,
}
use bsg_manycore.Kernels.{Array, Store, grid_stores}
use bsg_manycore.Kernels.Stores.{perform}
use bsg_manycore.Kernels.Matrix.{accumulate, gt_int, kernel_max_pool2d}
use bsg_manycore.Kernels.Matrix.Blocks.{blocks-perform}

-- the order of ints
abbrev pub order : ℕ → ℕ
order w = (w + 2 ^ 31) % 2 ^ 32

accumulate_grows :
    (n i v : ℕ) (step : ℕ → ℕ → ℕ)
    → ((k s : ℕ) → order s ≤ order (step k s))
    → order v ≤ order (accumulate n i step v)
accumulate_grows zero i v step up = omega arith
accumulate_grows (suc n) i v step up =
    omega (arith, up i v, accumulate_grows n (i + 1) (step i v) step up)

-- What every step passes, the loop passes too.
accumulate_covers :
    (n i v : ℕ) (step : ℕ → ℕ → ℕ) (k least : ℕ)
    → ((k s : ℕ) → order s ≤ order (step k s))
    → ((s : ℕ) → least ≤ order (step k s))
    → i ≤ k
    → k < i + n
    → least ≤ order (accumulate n i step v)
accumulate_covers zero i v step k least up pass lo hi = absurd (omega arith)
accumulate_covers (suc n) i v step k least up pass lo hi = elim (ℕ_discrete k i) [
  | yes e ↦ omega (
    arith,
    subst (λ k. least ≤ order (step k v)) e (pass v),
    accumulate_grows n (i + 1) (step i v) step up,
  )
  | no ne ↦ accumulate_covers n (i + 1) (step i v) step k least up pass (omega arith) (omega arith)
]

accumulate_keeps :
    (P : ℕ → Type 0) (n i v : ℕ) (step : ℕ → ℕ → ℕ)
    → ((k s : ℕ) → i ≤ k → k < i + n → P s → P (step k s))
    → P v
    → P (accumulate n i step v)
accumulate_keeps P zero i v step keep p = p
accumulate_keeps P (suc n) i v step keep p =
    accumulate_keeps P n (i + 1) (step i v) step (λ k s lo hi. keep k s (omega arith) (omega arith))
      (keep i v (omega arith) (omega arith) p)

module _ (A : Array) (N : ℕ) (rows cols top left : ℕ) where
  abbrev larger : (y x s : ℕ) → ℕ
  larger y x s = if gt_int (A (y * N + x)) s then A (y * N + x) else s

  abbrev row : (y s : ℕ) → ℕ
  row y = accumulate cols left (larger y)

  abbrev pub part_max : ℕ
  part_max = accumulate rows top row (A (top * N + left))

  larger-up : (y x s : ℕ) → order s ≤ order (larger y x s)
  larger-up y x s = ground arith

  larger_passes : (y x s : ℕ) → order (A (y * N + x)) ≤ order (larger y x s)
  larger_passes y x s = ground arith

  row-up : (y s : ℕ) → order s ≤ order (row y s)
  row-up y s = accumulate_grows cols left s (larger y) (larger-up y)

  part_max-ge :
      (y x : ℕ)
      → (top ≤ y) × (y < top + rows)
      → (left ≤ x) × (x < left + cols)
      → order (A (y * N + x)) ≤ order part_max
  part_max-ge y x (ylo, yhi) (xlo, xhi) =
      accumulate_covers rows top (A (top * N + left)) row y (order (A (y * N + x))) row-up
        (λ s.
          accumulate_covers cols left s (larger y) x (order (A (y * N + x))) (larger-up y)
            (larger_passes y x) xlo xhi)
        ylo yhi

  -- an element of the part
  abbrev pub Element : ℕ → Type 0
  Element m =
      (y : ℕ) × (x : ℕ) × ((top ≤ y) × (y < top + rows))
      × ((left ≤ x) × (x < left + cols))
      × (m ≡ A (y * N + x))

  larger-Element :
      (y x s : ℕ)
      → (top ≤ y) × (y < top + rows)
      → (left ≤ x) × (x < left + cols)
      → Element s
      → Element (larger y x s)
  larger-Element y x s hy hx m = elim (Bool-cases (gt_int (A (y * N + x)) s)) [
    | inl gt ↦ rw gt (y, x, hy, hx, refl)
    | inr le ↦ rw le m
  ]

  part_max-Element : 0 < rows → 0 < cols → Element part_max
  part_max-Element pr pc =
      accumulate_keeps Element rows top (A (top * N + left)) row
        (λ y s ylo yhi.
          accumulate_keeps Element cols left s (larger y)
            (λ x s xlo xhi. larger-Element y x s (ylo, yhi) (xlo, xhi)))
        (top, left, (omega arith, omega arith), (omega arith, omega arith), refl)

-- In a group of at least one tile, with the columns of the blocks of all groups within the result, in
-- any order of the stores: the result in row y and column x of a block is an element of its part of the
-- matrix, of M / P rows and N / W columns, and no element (y', x') of the part is greater, as an int.
pub max_pool2d-perform :
    (tiles_x tiles_y grid_x grid_y : ℕ) (A B : Array) (M N P W block_size_y block_size_x : ℕ)
    (ws : List Store) (y x y' x' : ℕ)
    → 0 < tiles_x
    → 0 < tiles_y
    → grid_x * block_size_x ≤ W
    → Perm ws (
        grid_stores tiles_x tiles_y grid_x grid_y
          (kernel_max_pool2d tiles_x tiles_y A M N P W block_size_y block_size_x))
    → y < grid_y * block_size_y
    → x < grid_x * block_size_x
    → (y * (M / P) ≤ y') × (y' < y * (M / P) + M / P)
    → (x * (N / W) ≤ x') × (x' < x * (N / W) + N / W)
    → (order (A (y' * N + x')) ≤ order (perform ws B (y * W + x)))
      × Element A N (M / P) (N / W) (y * (M / P)) (x * (N / W)) (perform ws B (y * W + x))
unfolding kernel_max_pool2d
max_pool2d-perform tiles_x tiles_y grid_x grid_y A B M N P W block_size_y block_size_x ws y x y' x'
      some_x some_y fits p hy hx hy' hx' =
    let g : ℕ → ℕ → ℕ = λ y x. part_max A N (M / P) (N / W) (y * (M / P)) (x * (N / W)) in
    let result : perform ws B (y * W + x) ≡ g y x =
      blocks-perform tiles_x tiles_y grid_x grid_y W block_size_y block_size_x some_x some_y fits g
        ws B y x p hy hx in
    rw result (
      part_max-ge A N (M / P) (N / W) (y * (M / P)) (x * (N / W)) y' x' hy' hx',
      part_max-Element A N (M / P) (N / W) (y * (M / P)) (x * (N / W)) (omega (arith, hy'))
          (omega (arith, hx')),
    )
