-- ===== src/Lib.antt =====
-- A verification library for the parallel runtime of bsg_manycore and for programs that run on
-- it.
--
-- A manycore is a grid of tiles. Each has a local memory of 18-bit addresses, and a 32-bit
-- pointer selects the memory of a tile of the group, a node of the whole grid, or DRAM. On the
-- pointers stand arrays that are spread over the tiles of a group, mutexes and barriers in the
-- memory of one tile or of a row and a column, and queues between two tiles; the programs under
-- software/spmd use these.
--
-- Prelude: lists, tests and bits of native numbers, and names passed on from the libraries.
-- Memory: a byte-addressed memory, its loads and stores.
-- Arch: software/bsg_manycore_lib/bsg_manycore_arch.h and the address macros of bsg_manycore.h
--   (bsg_remote_ptr is remote_ptr, bsg_tile_group_shared_ptr is tile_group_shared_ptr, and so
--   on). The dimensions of the group, which the build sets, are arguments.
-- Tilegroup: software/bsg_manycore_lib/bsg_tilegroup.h, one definition for each function under
--   its name. All memories are one memory, in which the address selects the tile: the memory of
--   a tile is where its remote pointers point. The start of the striped data, placed by the
--   linker, is an argument.
-- TokenQueue: software/bsg_manycore_lib/bsg_token_queue.h, where the prefix bsg_ is dropped; a
--   counter is a word with its wrap-around. TokenQueue/System is
--   software/spmd/bsg_token_queue/main.c: the two tiles take steps in any order, and a store to
--   the other tile is in a list until it is delivered. TokenQueue/Fifo has the invariant of these
--   steps.
-- Barrier: software/bsg_manycore_lib/bsg_mutex.h and bsg_barrier.h, a step for each access to
--   shared memory by one of any number of tiles. From the hardware it takes that `amoswap.w.aq`
--   returns 0 exactly when it takes the lock, and that the stores of one tile to another arrive
--   in order. The numbers of joins and returns of each tile are kept for the statements.
-- GroupBarrier: software/bsg_manycore_lib/bsg_tile_group_barrier.h, a step for each access to
--   memory by a tile of a group of any dimensions. All stores to another tile are in flight until
--   they arrive, in any order. The numbers of calls, returns and passes of each tile are kept for
--   the statements.
-- TileCoordinates: software/bsg_manycore_lib/bsg_set_tile_x_y.c, a step for each access to memory
--   by a tile of a group, where a store to another tile arrives at any later time.
-- CudaRuntime: software/bsg_manycore_lib/bsg_cuda_lite_runtime.h. The assembly is read register
--   by register, and the kernel is an argument: what the code at an address does until it returns.
--   What the runtime relies on is asked of the one call that a round makes.
--   CudaRuntime/Waiting is the wait for a kernel, a step for each access to the pointer.
-- Kernels: software/spmd/bsg_cuda_lite_runtime. A kernel is the list of stores that a tile makes,
--   from its coordinates and its share of a loop nest, and a result holds for every order of the
--   stores of all tiles. Kernels/Vector, Kernels/Matrix and Kernels/Convolution have the kernels
--   on arrays in DRAM, Kernels/Shared those that pass data through shared memory between
--   barriers, Kernels/Softmax the reductions and phases of softmax and log_softmax. An int or a
--   float is its word, the operations on floats are arguments, the arrays of a call do not
--   overlap, and its indices do not overflow.
-- Crc: software/spmd/crc32/main.c and software/spmd/remote_load_crc/main.c. The loads from other
--   tiles are an argument of the second.
-- ChainedCore: software/spmd/bsg_chained_core, the functions of proc.c and a round of the data
--   through the cores. What a core does after the end of a buffer is kept: a buffer is the memory
--   from its address on. ChainedCore/Rounds is proc of main.c, a step for each access to memory,
--   where the content of a buffer is the round in which it was sent, and the flag of a round
--   comes after its data, since the stores of one tile to another arrive in order.
-- Quicksort: software/spmd/quicksort/main.c; an int is its 32-bit word, and the scratch array is
--   passed from call to call.
-- Transpose: software/spmd/bsg_transpose/main.c; TILE_DIM is an argument, the array of each tile
--   is one until main fills it, and the barriers put the phases one after the other.
-- Primes: software/spmd/nprimes/main.c, for any number of primes.
-- Fft: software/spmd/fft/main.c, on any power of 2 of elements. A complex is its word, the
--   operations on complex floats are arguments, the work array is striped over the tiles as
--   complex_remote_load and complex_remote_store place its elements, and a round is the stores of
--   all tiles in any order.
-- PrintStat: the statistics words of software/bsg_manycore_lib/bsg_manycore.h.
-- Tests: the theorems at concrete inputs.
--
-- A loop of a kernel steps by the size of the group, which is above 0, so it has no more rounds
-- than there are indices up to its end. Loops that may not end take fuel and return an option.
-- The copies of Tilegroup need one unit for each word and one more, quicksort as many as the
-- array has elements, the runtime one for each argument on the stack, the search for N primes a
-- number that depends on N, and the checksum of remote_load_crc two, for it ends after two rounds
-- or not at all. fft_swizzle nests as deep as the number of elements has binary digits.
--
-- Not modelled: the hardware under v and the testbenches, input and output through the io node,
-- the libraries copied from other projects, the passes and scripts of the compiler and the loader,
-- and the programs and kernels of software/spmd other than those above: most of them test single
-- instructions, caches or the io node.
pub mod Prelude
pub mod Memory
pub mod Arch
pub mod Tilegroup
pub mod TokenQueue
pub mod Barrier
pub mod GroupBarrier
pub mod TileCoordinates
pub mod CudaRuntime
pub mod Kernels
pub mod ChainedCore
pub mod Crc
pub mod Quicksort
pub mod Transpose
pub mod Primes
pub mod Fft
pub mod PrintStat
pub mod Tests
