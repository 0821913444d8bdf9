-- ===== src/CudaRuntime/Arguments.antt =====
-- How the runtime passes the arguments of a kernel.
use bsg_manycore.Prelude.{
  ℕ, zero, suc, ◌+◌, ◌-◌, ◌*◌, ◌%◌, ◌^◌, ◌≤◌, ◌<◌, ◌≡◌, sym, ap, arith, ltb, some, if◌then◌else◌,
  dec_lt,
}
use bsg_manycore.Memory.{Memory, load, store, Apart}
use bsg_manycore.Tilegroup.{copy_strided}
use bsg_manycore.Tilegroup.Copy.{copy_strided_outside, load-copy_strided}
use bsg_manycore.CudaRuntime.{Cpu, load_argument, load_stack, push_arguments, stack_bytes}

-- Where a function with parameters of one word finds parameter i, by the RISC-V calling convention.
abbrev pub argument : Cpu → ℕ → ℕ
argument c i = if ltb i 8 then c.a i else load 4 c.memory (c.sp + 4 * (i - 8))

-- All arguments are there, with the values that are in memory from argv on.
abbrev pub HasArguments : Cpu → Memory → (argc argv : ℕ) → Type 0
HasArguments c m argc argv = (i : ℕ) → i < argc → argument c i ≡ load 4 m (argv + 4 * i)

-- The loop copies the words from s3 + t1 on to the stack from sp + t3 on.
load_stack_lem :
    (k fuel : ℕ) (c : Cpu) (t0 t1 t3 : ℕ)
    → 0 < k
    → k ≤ fuel
    → c.s2 ≡ t0 + k
    → c.s2 < 2 ^ 31
    → load_stack fuel c t0 t1 t3
      ≡ some (record c {
        memory = copy_strided 4 k c.memory ((t3 + c.sp) % 2 ^ 32) ((t1 + c.s3) % 2 ^ 32);
      })
unfolding load_stack copy_strided
load_stack_lem zero fuel c t0 t1 t3 some_k enough e small = absurd (omega arith)
load_stack_lem (suc k) zero c t0 t1 t3 some_k enough e small = absurd (omega arith)
load_stack_lem (suc zero) (suc fuel) c t0 t1 t3 some_k enough e small = ground arith
load_stack_lem (suc (suc k)) (suc fuel) c t0 t1 t3 some_k enough e small = ground (
  arith,
  load_stack_lem (suc k) fuel
      (record c {
        memory = store 4 c.memory ((t3 + c.sp) % 2 ^ 32) (load 4 c.memory ((t1 + c.s3) % 2 ^ 32));
      })
      (t0 + 1) ((t1 + 4) % 2 ^ 32) ((t3 + 4) % 2 ^ 32) (omega arith) (omega arith) (omega arith)
      (omega arith),
)

-- the number of bytes on the stack
abbrev pub stack_size : Cpu → ℕ
stack_size c = 4 * (c.s2 - 8)

-- The arguments, and above the end of the stack the place for those that are no register's, lie in
-- memory, apart from each other.
pub record HasRoom (c : Cpu) : Type 0 where
  pub few : c.s2 < 2 ^ 29
  pub arguments_fit : c.s3 + 4 * c.s2 ≤ 2 ^ 32
  pub sp_fits : c.sp < 2 ^ 32
  pub stack_fits : stack_size c ≤ c.sp
  pub apart : Apart (c.sp - stack_size c) (stack_size c) c.s3 (4 * c.s2)

-- What push_arguments leaves.
abbrev pub pushed : Cpu → Cpu
pushed c = record (load_argument c) {
  sp = c.sp - stack_size c;
  memory = copy_strided 4 (c.s2 - 8) c.memory (c.sp - stack_size c) ((c.s3 + 32) % 2 ^ 32);
}

pushed_few : (c : Cpu) → c.s2 ≤ 8 → pushed c ≡ load_argument c
unfolding load_argument copy_strided
pushed_few c few =
    let none : c.s2 - 8 ≡ 0 = omega arith in
    rw none (ap (λ t. record (load_argument c) { sp = t }) {y = c.sp} (omega arith))

pub push_arguments_lem :
    (fuel : ℕ) (c : Cpu)
    → HasRoom c
    → c.s2 ≤ 8 + fuel
    → push_arguments fuel (load_argument c) ≡ some (pushed c)
unfolding push_arguments load_argument
push_arguments_lem fuel c room enough = elim (dec_lt 8 c.s2) [
  | yes more ↦
      let sp1 = (c.sp + 2 ^ 32 - stack_bytes c) % 2 ^ 32 in
      let e : sp1 ≡ c.sp - stack_size c = omega arith in
      let e1 : (0 + sp1) % 2 ^ 32 ≡ c.sp - stack_size c = omega arith in
      let e2 : (0x20 + c.s3) % 2 ^ 32 ≡ (c.s3 + 32) % 2 ^ 32 = omega arith in
      ground (
        arith,
        load_stack_lem (c.s2 - 8) fuel (record (load_argument c) { sp = sp1 }) 8 0x20 0
            (omega arith) (omega arith) (omega arith) (omega arith),
      )
  | no few ↦ ground (arith, pushed_few c (omega arith))
]

-- Every argument that was left in memory is where the kernel looks for it.
pub argument-pushed :
    (c : Cpu) (i : ℕ)
    → HasRoom c
    → i < c.s2
    → argument (pushed c) i ≡ load 4 c.memory (c.s3 + 4 * i)
unfolding load_argument
argument-pushed c i room below = elim (dec_lt i 8) [
  | yes register ↦ let e : (c.s3 + 4 * i) % 2 ^ 32 ≡ c.s3 + 4 * i = omega arith in ground arith
  | no stacked ↦
      let e : (c.s3 + 32) % 2 ^ 32 ≡ c.s3 + 32 = omega arith in
      let e1 : c.s3 + 32 + 4 * (i - 8) ≡ c.s3 + 4 * i = omega arith in
      ground (
        arith,
        load-copy_strided 4 (c.s2 - 8) c.memory (c.sp - stack_size c) (c.s3 + 32) (i - 8)
            (omega arith) (omega arith) (omega arith) (omega arith) (λ j hj. omega arith),
      )
]

-- Nothing else changes in memory.
pub pushed_outside :
    (c : Cpu) (b : ℕ)
    → HasRoom c
    → Apart (c.sp - stack_size c) (stack_size c) b 1
    → c.memory b ≡ (pushed c).memory b
pushed_outside c b room apart = sym (
    copy_strided_outside 4 (c.s2 - 8) c.memory (c.sp - stack_size c) ((c.s3 + 32) % 2 ^ 32) b
      (omega arith) apart)
