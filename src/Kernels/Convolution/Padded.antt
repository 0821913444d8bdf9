-- ===== src/Kernels/Convolution/Padded.antt =====
-- kernel_conv1d of software/spmd/bsg_cuda_lite_runtime on the padded vector.
use mathlib.Core.List.{Perm}
use bsg_manycore.Prelude.{
  ℕ, ◌+◌, ◌-◌, ◌*◌, ◌<◌, ◌≡◌, ap, ◌∙◌, arith, List, [], ◌∷◌, ltb, leb, ◌&&◌, if◌then◌else◌, fun_ext,
  subst,
}
use bsg_manycore.Kernels.{Array, Store, grid_stores, for_strided}
use bsg_manycore.Kernels.Stores.{perform}
use bsg_manycore.Kernels.Vector.{start_of}
use bsg_manycore.Kernels.Vector.Results.{in_blocks, slice-perform}
use bsg_manycore.Kernels.Matrix.{accumulate}
use bsg_manycore.Kernels.Convolution.{window_sum, kernel_conv1d}

-- the vector between P zeros and zeros without end
abbrev pub padded : (A : Array) (N P : ℕ) → Array
padded A N P i = if ltb i P then 0 else if ltb i (P + N) then A (i - P) else 0

padded_eq :
    (A : Array) (N P i : ℕ) → (if leb P i && ltb (i - P) N then A (i - P) else 0) ≡ padded A N P i
padded_eq A N P i = ground arith

-- the sum of the products of the filter and the padded vector from `first` on
abbrev pub filtered : (fadd fmul : ℕ → ℕ → ℕ) (A filter : Array) (N F P first : ℕ) → ℕ
filtered fadd fmul A filter N F P first =
    accumulate F 0 (λ j res. fadd res (fmul (filter j) (padded A N P (first + j)))) 0

module _ (tiles_x tiles_y grid_x grid_y : ℕ) (some_x : 0 < tiles_x) (some_y : 0 < tiles_y) where
  -- In a group of at least one tile, in any order of the stores, kernel_conv1d leaves the convolution
  -- of the filter and the padded vector, with the stride, in the blocks of the groups, and nothing new
  -- elsewhere.
  pub conv1d-perform :
      (fadd fmul : ℕ → ℕ → ℕ) (A filter B : Array) (N F P S block_size q : ℕ) (ws : List Store)
      → Perm ws (
          grid_stores tiles_x tiles_y grid_x grid_y
            (kernel_conv1d tiles_x tiles_y fadd fmul A N filter F P S block_size))
      → perform ws B q
        ≡ in_blocks
            (grid_x * grid_y * block_size)
            (λ i. filtered fadd fmul A filter N F P (i * S))
            B
            q
  unfolding kernel_conv1d
  conv1d-perform fadd fmul A filter B N F P S block_size q ws p =
      slice-perform tiles_x tiles_y grid_x grid_y some_x some_y block_size
        (λ i. window_sum fadd fmul A filter N F P (i * S)) ws B q
        (subst (λ k. Perm ws (grid_stores tiles_x tiles_y grid_x grid_y k))
          (fun_ext (λ t.
            ap
              (λ start.
                for_strided (start + t.bsg_id) (start + block_size) (tiles_x * tiles_y)
                  (λ i. (i, window_sum fadd fmul A filter N F P (i * S)) ∷ []))
              {y = start_of block_size t} (grind arith)))
          p)
      ∙ ap (λ g. in_blocks (grid_x * grid_y * block_size) g B q)
          (fun_ext (λ i.
            ap (λ (step : ℕ → ℕ → ℕ). accumulate F 0 step 0)
              (fun_ext (λ j.
                fun_ext
                  (λ res. ap (λ a. fadd res (fmul (filter j) a)) (padded_eq A N P (i * S + j)))))))
