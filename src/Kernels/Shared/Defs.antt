-- ===== src/Kernels/Shared/Defs.antt =====
-- The phases of the kernels of Kernels/Shared in one tile group, each in any order of its stores.
use mathlib.Core.List.{Perm}
use bsg_manycore.Prelude.{ℕ, suc, List}
use bsg_manycore.Kernels.{Array, Store, group_stores}
use bsg_manycore.Kernels.Stores.{perform}
use bsg_manycore.Kernels.Shared.{
  block_width, subblock2shmem, subblock2shmem_xposed, subblock_shmem_matrix_mul_xposed,
}

-- the three shared arrays of kernel_matrix_mul_shared_mem
pub record SharedArrays : Type 0 where
  pub sh_A : Array
  pub sh_B : Array
  pub sh_C : Array

module _ (tiles_x tiles_y grid_x grid_y group_x group_y : ℕ) (A B : Array)
    (N P block_size_y block_size_x : ℕ) where
  -- The loop over block_num: the arrays after the first blocks.
  pub data Blocks : ℕ → SharedArrays → Type 0 where
    no_blocks : (s : SharedArrays) → Blocks 0 s
    next_block :
        (block_num : ℕ) (s : SharedArrays) (wa wb wc : List Store)
        → Blocks block_num s
        → Perm wa (
            group_stores tiles_x tiles_y grid_x grid_y
              (subblock2shmem tiles_x tiles_y A N block_size_y block_width group_y block_num)
              group_x
              group_y)
        → Perm wb (
            group_stores tiles_x tiles_y grid_x grid_y
              (subblock2shmem_xposed tiles_x tiles_y B P block_width block_size_x block_num group_x)
              group_x
              group_y)
        → Perm wc (
            group_stores tiles_x tiles_y grid_x grid_y
              (subblock_shmem_matrix_mul_xposed tiles_x tiles_y
                (perform wa s.sh_A)
                (perform wb s.sh_B)
                s.sh_C
                block_size_y
                block_size_x
                block_num)
              group_x
              group_y)
        → Blocks (suc block_num) (record {
          sh_A = perform wa s.sh_A;
          sh_B = perform wb s.sh_B;
          sh_C = perform wc s.sh_C;
        })
