-- ===== src/CudaRuntime.antt =====
-- software/bsg_manycore_lib/bsg_cuda_lite_runtime.h: a tile loads the arguments that the host has left
-- for it, calls the kernel, and reports its end. The assembly is read register by register; a register
-- holds a 32-bit word. The addresses of the variables are those that the linker gives.
pub mod Arguments
pub mod Kernel
pub mod Waiting
use bsg_manycore.Prelude.{
  ℕ, zero, suc, ◌+◌, ◌-◌, ◌*◌, ◌%◌, ◌^◌, Bool, ltb, leb, ◌==◌, if◌then◌else◌, Option, none, some,
}
use bsg_manycore.Memory.{Memory, load, store}
use mathlib.Core.Option

pub record Symbols : Type 0 where
  pub cuda_kernel_ptr : ℕ
  pub cuda_argc : ℕ
  pub cuda_argv_ptr : ℕ
  pub cuda_finish_signal_addr : ℕ
  pub cuda_finish_signal_val : ℕ
  pub cuda_kernel_not_loaded_val : ℕ

-- The registers that the code relies on over a call, those of the arguments by their number up to 7,
-- and memory.
pub record Cpu : Type 0 where
  pub s0 : ℕ
  pub s1 : ℕ
  pub s2 : ℕ
  pub s3 : ℕ
  pub s4 : ℕ
  pub sp : ℕ
  pub a : ℕ → ℕ
  pub memory : Memory

-- `<` and `<=` of ints
abbrev pub sign_flipped : ℕ → ℕ
sign_flipped w = (w + 2 ^ 31) % 2 ^ 32

abbrev pub lt_int : ℕ → ℕ → Bool
lt_int v w = ltb (sign_flipped v) (sign_flipped w)

abbrev pub le_int : ℕ → ℕ → Bool
le_int v w = leb (sign_flipped v) (sign_flipped w)

-- __init_param, with the `la` of s0 before it
unfoldable pub init_param : Symbols → Cpu → Cpu
init_param symbols c = record c {
  s0 = symbols.cuda_kernel_ptr;
  s1 = load 4 c.memory symbols.cuda_kernel_ptr;
  s2 = load 4 c.memory symbols.cuda_argc;
  s3 = load 4 c.memory symbols.cuda_argv_ptr;
  s4 = load 4 c.memory symbols.cuda_finish_signal_addr;
}

-- the eight loads of __load_argument
unfoldable pub load_argument : Cpu → Cpu
load_argument c = record c { a = λ i. load 4 c.memory ((c.s3 + 4 * i) % 2 ^ 32) }

-- __load_stack, on t0, t1 and t3
unfoldable pub load_stack : (fuel : ℕ) → Cpu → (t0 t1 t3 : ℕ) → Option Cpu
load_stack zero c t0 t1 t3 = none
load_stack (suc fuel) c t0 t1 t3 =
    let t4 = load 4 c.memory ((t1 + c.s3) % 2 ^ 32) in
    let stored = record c { memory = store 4 c.memory ((t3 + c.sp) % 2 ^ 32) t4 } in
    let t0 = (t0 + 1) % 2 ^ 32 in
    let rest = load_stack fuel stored t0 ((t1 + 4) % 2 ^ 32) ((t3 + 4) % 2 ^ 32) in
    if lt_int t0 c.s2 then rest else some stored

-- (s2 - 8) << 2
abbrev pub stack_bytes : Cpu → ℕ
stack_bytes c = (c.s2 + 2 ^ 32 - 8) % 2 ^ 32 * 4 % 2 ^ 32

-- from the eight loads to __invoke_kernel
unfoldable pub push_arguments : (fuel : ℕ) → Cpu → Option Cpu
push_arguments fuel c =
    let pushed = record c { sp = (c.sp + 2 ^ 32 - stack_bytes c) % 2 ^ 32 } in
    if le_int c.s2 8 then some c else load_stack fuel pushed 8 0x20 0

-- from the return of the kernel to __kernel_return
unfoldable pub pop_arguments : Cpu → Cpu
pop_arguments c = if le_int c.s2 8 then c else record c { sp = (c.sp + stack_bytes c) % 2 ^ 32 }

unfoldable pub kernel_return : Symbols → Cpu → Cpu
kernel_return symbols c = record c {
  memory = store 4 c.memory c.s0 (load 4 c.memory symbols.cuda_kernel_not_loaded_val);
}

unfoldable pub write_finish_signal : Symbols → (bsg_id : ℕ) → Cpu → Cpu
write_finish_signal symbols bsg_id c =
    let signal_ptr = load 4 c.memory symbols.cuda_finish_signal_addr in
    let written = record c {
      memory = store 4 c.memory signal_ptr (load 4 c.memory symbols.cuda_finish_signal_val);
    } in
    if bsg_id == 0 then written else c

-- One round of the loop, from where a kernel is loaded; `call` is what the code at an address does until
-- it returns.
unfoldable pub run_kernel :
    Symbols → (bsg_id : ℕ) → (call : ℕ → Cpu → Cpu) → (fuel : ℕ) → Cpu → Option Cpu
run_kernel symbols bsg_id call fuel c =
    Option.map
      (λ c1.
        write_finish_signal symbols bsg_id (kernel_return symbols (pop_arguments (call c1.s1 c1))))
      (push_arguments fuel (load_argument (init_param symbols c)))
