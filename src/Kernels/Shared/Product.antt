-- ===== src/Kernels/Shared/Product.antt =====
-- kernel_matrix_mul_shared_mem of software/spmd/bsg_cuda_lite_runtime computes the product of
-- kernel_matrix_mul.
use mathlib.Core.List.{Perm}
use bsg_manycore.Prelude.{
  ℕ, zero, suc, ◌+◌, ◌-◌, ◌*◌, ◌/◌, ◌%◌, ◌^◌, ◌≤◌, ◌<◌, ◌≡◌, refl, ap, ap₂, sym, ◌∙◌, arith, List,
  ◌==◌, false, if◌then◌else◌,
}
use bsg_manycore.Kernels.{Array, Store, Tile, group_stores}
use bsg_manycore.Kernels.Stores.{perform}
use bsg_manycore.Kernels.Group.{plane-perform}
use bsg_manycore.Kernels.Vector.{add32}
use bsg_manycore.Kernels.Matrix.{accumulate, multiply_add}
use bsg_manycore.Kernels.Matrix.Blocks.{flat-div}
use bsg_manycore.Kernels.Matrix.Multiply.{sum_from, accumulate-sum_from, product}
use bsg_manycore.Kernels.Shared.{
  block_width, subblock2shmem, subblock2shmem_xposed, shmem2subblock,
  subblock_shmem_matrix_mul_xposed,
}
use bsg_manycore.Kernels.Shared.Defs
use bsg_manycore.Kernels.Shared.Defs.{SharedArrays, Blocks}

sum_from_eq :
    (n i j : ℕ) (f g : ℕ → ℕ)
    → ((k : ℕ) → k < n → f (i + k) ≡ g (j + k))
    → sum_from n i f ≡ sum_from n j g
sum_from_eq zero i j f g h = refl
sum_from_eq (suc n) i j f g h =
    ap₂ ◌+◌ (ap f {y = i + 0} (omega arith) ∙ h 0 (omega arith) ∙ ap g (omega arith)) (
      sum_from_eq n (i + 1) (j + 1) f g (λ k hk.
        ap f {y = i + (k + 1)} (omega arith) ∙ h (k + 1) (omega arith) ∙ ap g (omega arith)))

sum_from_add :
    (n m i : ℕ) (f : ℕ → ℕ) → sum_from (n + m) i f ≡ sum_from n i f + sum_from m (i + n) f
sum_from_add zero m i f =
    ap (λ a. sum_from a i f) {y = m} (omega arith)
    ∙ ap (λ b. sum_from m b f) {y = i + 0} (omega arith)
    ∙ omega arith
sum_from_add (suc n) m i f =
    ap (λ a. sum_from a i f) {y = suc (n + m)} (omega arith)
    ∙ ap (λ t. f i + t)
        (sum_from_add n m (i + 1) f
          ∙ ap (λ a. sum_from n (i + 1) f + sum_from m a f) {y = i + suc n} (omega arith))
    ∙ omega arith

module _ (tiles_x tiles_y grid_x grid_y : ℕ) (some_x : 0 < tiles_x) (some_y : 0 < tiles_y)
    (group_x group_y : ℕ) (A B : Array) (N P block_size_y block_size_x : ℕ) where
  abbrev phase : (Tile → List Store) → List Store
  phase kernel = group_stores tiles_x tiles_y grid_x grid_y kernel group_x group_y

  -- row y and column x of the block, in the whole matrix
  abbrev row : ℕ → ℕ
  row y = y + group_y * block_size_y

  abbrev col : ℕ → ℕ
  col x = x + group_x * block_size_x

  abbrev term : (y x k : ℕ) → ℕ
  term y x k = A (row y * N + k) * B (k * P + col x)

  module _ (b : ℕ) (s : SharedArrays) (wa wb wc : List Store)
      (pa : Perm wa (phase (subblock2shmem tiles_x tiles_y A N block_size_y block_width group_y b)))
      (pb : Perm wb
        (phase (subblock2shmem_xposed tiles_x tiles_y B P block_width block_size_x b group_x)))
      (pc : Perm wc (
        phase (
          subblock_shmem_matrix_mul_xposed tiles_x tiles_y
            (perform wa s.sh_A)
            (perform wb s.sh_B)
            s.sh_C
            block_size_y
            block_size_x
            b))) where
    a_loaded :
        (y k : ℕ)
        → y < block_size_y
        → k < 4
        → perform wa s.sh_A (y * 4 + k) ≡ A (row y * N + k + b * 4)
    unfolding subblock2shmem
    a_loaded y k hy hk =
        plane-perform tiles_x tiles_y grid_x grid_y some_x some_y group_x group_y block_size_y 4
          (λ y k. y * 4 + k) (λ y k. A (row y * N + k + b * 4))
          (λ q. A (row (q / 4) * N + q % 4 + b * 4))
          (λ y k hy hk.
            let (eq, er) = flat-div 4 y k hk in
            ap₂ (λ y k. A (row y * N + k + b * 4)) (sym eq) (sym er))
          _ (λ tx ty. refl) wa s.sh_A y k pa hy hk

    b_loaded :
        (x k : ℕ)
        → x < block_size_x
        → k < 4
        → perform wb s.sh_B (x * 4 + k) ≡ B ((k + b * 4) * P + x + group_x * block_size_x)
    unfolding subblock2shmem_xposed
    b_loaded x k hx hk =
        plane-perform tiles_x tiles_y grid_x grid_y some_x some_y group_x group_y 4 block_size_x
          (λ k x. x * 4 + k) (λ k x. B ((k + b * 4) * P + x + group_x * block_size_x))
          (λ q. B ((q % 4 + b * 4) * P + q / 4 + group_x * block_size_x))
          (λ k x hk hx.
            let (eq, er) = flat-div 4 x k hk in
            ap₂ (λ k x. B ((k + b * 4) * P + x + group_x * block_size_x)) (sym er) (sym eq))
          _ (λ tx ty. refl) wb s.sh_B k x pb hk hx

    abbrev block_sum : (y x : ℕ) → ℕ
    block_sum y x =
        accumulate 4 0
          (λ k sum.
            multiply_add sum (perform wa s.sh_A (y * 4 + k)) (perform wb s.sh_B (x * 4 + k)))
          0

    block_sum-eq :
        (y x : ℕ)
        → y < block_size_y
        → x < block_size_x
        → block_sum y x ≡ sum_from 4 (b * 4) (term y x) % 2 ^ 32
    block_sum-eq y x hy hx =
        accumulate-sum_from 4 0 0 (λ k. perform wa s.sh_A (y * 4 + k))
          (λ k. perform wb s.sh_B (x * 4 + k)) (omega arith)
        ∙ ap (λ t. (0 + t) % 2 ^ 32)
            (sum_from_eq 4 0 (b * 4)
              (λ k. perform wa s.sh_A (y * 4 + k) * perform wb s.sh_B (x * 4 + k)) (term y x)
              (λ k hk. ap₂ ◌*◌ (a_loaded y (0 + k) hy (omega arith) ∙ ap A (omega arith)) (
                b_loaded x (0 + k) hx (omega arith)
                ∙ ap B (
                    ap (λ t. t * P + x + group_x * block_size_x) {y = b * 4 + k} (omega arith)
                    ∙ omega arith))))
        ∙ omega arith

    c_stored :
        (y x : ℕ)
        → y < block_size_y
        → x < block_size_x
        → perform wc s.sh_C (y * block_size_x + x) ≡ (
            if b == 0 then block_sum y x else add32 (s.sh_C (y * block_size_x + x)) (block_sum y x))
    unfolding subblock_shmem_matrix_mul_xposed
    c_stored y x hy hx =
        let value : ℕ → ℕ → ℕ = λ y x.
          if b == 0 then block_sum y x else add32 (s.sh_C (y * block_size_x + x)) (block_sum y x) in
        plane-perform tiles_x tiles_y grid_x grid_y some_x some_y group_x group_y block_size_y
          block_size_x (λ y x. y * block_size_x + x) value
          (λ q. value (q / block_size_x) (q % block_size_x))
          (λ y x hy hx. let (eq, er) = flat-div block_size_x y x hx in ap₂ value (sym eq) (sym er))
          _ (λ tx ty. refl) wc s.sh_C y x pc hy hx

  -- After `b` blocks, sh_C has the sums of the first 4 * b products.
  Blocks-sum :
      (b : ℕ) (s : SharedArrays) (y x : ℕ)
      → Blocks tiles_x tiles_y grid_x grid_y group_x group_y A B N P block_size_y block_size_x b s
      → 0 < b
      → y < block_size_y
      → x < block_size_x
      → s.sh_C (y * block_size_x + x) ≡ sum_from (b * 4) 0 (term y x) % 2 ^ 32
  Blocks-sum zero s y x blocks pos hy hx = absurd (omega arith)
  Blocks-sum (suc zero) _ y x (Defs.Blocks.next_block _ s wa wb wc before pa pb pc) pos hy hx =
      c_stored 0 s wa wb wc pa pb pc y x hy hx ∙ block_sum-eq 0 s wa wb wc pa pb pc y x hy hx
  Blocks-sum (suc (suc b)) _ y x (Defs.Blocks.next_block _ s wa wb wc before pa pb pc) pos hy hx =
      let later : (suc b == 0) ≡ false = ground arith in
      let more =
        ap (λ n. sum_from n 0 (term y x)) {x = suc (suc b) * 4} {y = suc b * 4 + 4} (omega arith)
        ∙ sum_from_add (suc b * 4) 4 0 (term y x)
        ∙ ap (λ i. sum_from (suc b * 4) 0 (term y x) + sum_from 4 i (term y x)) {y = suc b * 4}
            (omega arith) in
      let total : ℕ = block_sum (suc b) s wa wb wc pa pb pc y x in
      c_stored (suc b) s wa wb wc pa pb pc y x hy hx
      ∙ ap (λ c. if c then total else add32 (s.sh_C (y * block_size_x + x)) total) later
      ∙ ap₂ add32 (Blocks-sum (suc b) s y x before (omega arith) hy hx)
          (block_sum-eq (suc b) s wa wb wc pa pb pc y x hy hx)
      ∙ omega (arith, more)

  -- In a group of at least one tile, with N a multiple of 4 above 0 and the columns of the block within
  -- the matrix, any blocks that have been stored before and any order of the stores within each
  -- phase: the phases leave in the group's block of C the product of the matrices.
  pub matrix_mul_shared_mem-perform :
      (s : SharedArrays) (C : Array) (wd : List Store) (y x : ℕ)
      → N % 4 ≡ 0
      → 0 < N
      → group_x * block_size_x + block_size_x ≤ P
      → Blocks tiles_x tiles_y grid_x grid_y group_x group_y A B N P block_size_y block_size_x
          (N / block_width)
          s
      → Perm wd (
          phase (shmem2subblock tiles_x tiles_y s.sh_C P block_size_y block_size_x group_y group_x))
      → y < block_size_y
      → x < block_size_x
      → perform wd C (row y * P + x + group_x * block_size_x) ≡ product A B N P (row y) (col x)
  unfolding shmem2subblock
  matrix_mul_shared_mem-perform s C wd y x even some fits blocks pd hy hx =
      let start = group_x * block_size_x in
      let f : ℕ → ℕ =
        λ q. s.sh_C ((q / P - group_y * block_size_y) * block_size_x + (q % P - start)) in
      plane-perform tiles_x tiles_y grid_x grid_y some_x some_y group_x group_y block_size_y
        block_size_x (λ y x. row y * P + x + start) (λ y x. s.sh_C (y * block_size_x + x)) f
        (λ y x hy hx.
          let (eq, er) = flat-div P (row y) (x + start) (omega (arith, fits)) in
          ap₂ (λ a b. s.sh_C (a * block_size_x + b))
            (omega arith ∙ ap (λ r. r - group_y * block_size_y) (sym eq))
            (omega arith ∙ ap (λ r. r - start) (sym er))
          ∙ ap f (omega arith))
        _ (λ tx ty. refl) wd C y x pd hy hx
      ∙ Blocks-sum (N / 4) s y x blocks (omega arith) hy hx
      ∙ ap (λ n. sum_from n 0 (term y x) % 2 ^ 32) {y = N} (omega arith)
