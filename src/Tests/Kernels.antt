-- ===== src/Tests/Kernels.antt =====
-- Kernels of software/spmd/bsg_cuda_lite_runtime in groups of two tiles in a row.
use mathlib.Core.List.Perm
use bsg_manycore.Prelude.{ℕ, ◌+◌, ◌*◌, ◌/◌, ◌≤◌, ◌≡◌, List, arith}
use bsg_manycore.Kernels.{Array, Store, Tile, group_stores, grid_stores}
use bsg_manycore.Kernels.Stores.{perform}
use bsg_manycore.Kernels.Vector.{add32, kernel_device_memcpy, kernel_device_memset}
use bsg_manycore.Kernels.Vector.Results.{in_blocks, device_memcpy-perform}
use bsg_manycore.Kernels.Matrix.{kernel_matrix_mul, kernel_float_matrix_mul, kernel_max_pool2d}
use bsg_manycore.Kernels.Matrix.Multiply.{product, float_product, matrix_mul-perform}
use bsg_manycore.Kernels.Matrix.Pool.{order, Element, max_pool2d-perform}
use bsg_manycore.Kernels.Shared.{
  subblock2shmem, subblock2shmem_xposed, shmem2subblock, subblock_shmem_matrix_mul_xposed,
  load_vector, add_vectors,
}
use bsg_manycore.Kernels.Shared.Defs
use bsg_manycore.Kernels.Shared.Defs.{SharedArrays, Blocks}
use bsg_manycore.Kernels.Shared.Product.{matrix_mul_shared_mem-perform}

abbrev ramp : Array
ramp i = 3 * i + 5

abbrev zeros : Array
zeros i = 0

-- two groups side by side
abbrev grid : (Tile → List Store) → List Store
grid kernel = grid_stores 2 1 2 1 kernel

abbrev group : (Tile → List Store) → List Store
group kernel = group_stores 2 1 2 1 kernel 1 0

device_memcpy-perform_example :
    (perform (grid (kernel_device_memcpy 2 1 ramp 7)) zeros 6
      ≡ in_blocks (2 * 1 * (7 / (1 * 2))) ramp zeros 6)
    × (perform (grid (kernel_device_memset 2 1 9 7)) zeros 6
        ≡ in_blocks (2 * 1 * (7 / (1 * 2))) (λ i. 9) zeros 6)
device_memcpy-perform_example =
    device_memcpy-perform 2 1 2 1 (omega arith) (omega arith) ramp zeros 9 7 6 _ _ (Perm.refl _)
      (Perm.refl _)

matrix_mul-perform_example :
    (perform (grid (kernel_matrix_mul 2 1 ramp ramp 3 4 2 2)) zeros (1 * 4 + 3)
      ≡ product ramp ramp 3 4 1 3)
    × (perform
          (grid (kernel_float_matrix_mul 2 1 (λ a b. a + b) (λ a b. a * b) ramp ramp 3 4 2 2))
          zeros
          (1 * 4 + 3)
        ≡ float_product (λ a b. a + b) (λ a b. a * b) ramp ramp 3 4 1 3)
matrix_mul-perform_example =
    matrix_mul-perform 2 1 2 1 4 2 2 (omega arith) (omega arith) (omega arith) ramp ramp zeros 3
      (λ a b. a + b) (λ a b. a * b) _ _ 1 3 (Perm.refl _) (Perm.refl _) (omega arith) (omega arith)

abbrev pooled : ℕ
pooled = perform (grid (kernel_max_pool2d 2 1 ramp 4 8 2 4 2 2)) zeros (1 * 4 + 3)

max_pool2d-perform_example :
    (order (ramp (2 * 8 + 7)) ≤ order pooled)
    × Element ramp 8 (4 / 2) (8 / 4) (1 * (4 / 2)) (3 * (8 / 4)) pooled
max_pool2d-perform_example =
    max_pool2d-perform 2 1 2 1 ramp zeros 4 8 2 4 2 2 _ 1 3 2 7 (omega arith) (omega arith)
      (omega arith) (Perm.refl _) (omega arith) (omega arith) (omega arith, omega arith)
      (omega arith, omega arith)

abbrev sh_A : Array
sh_A = perform (group (load_vector 2 1 ramp 4)) zeros

abbrev sh_C : Array
sh_C = perform (group (add_vectors 2 1 add32 sh_A sh_A 4)) zeros

-- The matrices are 2 by 4 and 4 by 4, and the group has columns 2 and 3 of the product.
abbrev empty : SharedArrays
empty = record { sh_A = zeros; sh_B = zeros; sh_C = zeros }

abbrev block : SharedArrays
block =
    let a = perform (group (subblock2shmem 2 1 ramp 4 2 4 0 0)) zeros in
    let b = perform (group (subblock2shmem_xposed 2 1 ramp 4 4 2 0 1)) zeros in
    record {
      sh_A = a;
      sh_B = b;
      sh_C = perform (group (subblock_shmem_matrix_mul_xposed 2 1 a b zeros 2 2 0)) zeros;
    }

block-Blocks : Blocks 2 1 2 1 1 0 ramp ramp 4 4 2 2 1 block
block-Blocks =
    Defs.Blocks.next_block 0 empty _ _ _ (Defs.Blocks.no_blocks empty) (Perm.refl _) (Perm.refl _)
      (Perm.refl _)

matrix_mul_shared_mem-perform_example :
    perform (group (shmem2subblock 2 1 block.sh_C 4 2 2 0 1)) zeros ((1 + 0 * 2) * 4 + 1 + 1 * 2)
    ≡ product ramp ramp 4 4 (1 + 0 * 2) (1 + 1 * 2)
matrix_mul_shared_mem-perform_example =
    matrix_mul_shared_mem-perform 2 1 2 1 (omega arith) (omega arith) 1 0 ramp ramp 4 4 2 2 block
      zeros _ 1 1 (omega arith) (omega arith) (omega arith) block-Blocks (Perm.refl _) (omega arith)
      (omega arith)
