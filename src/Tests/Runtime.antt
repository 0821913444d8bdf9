-- ===== src/Tests/Runtime.antt =====
-- A kernel with ten arguments on CudaRuntime, and a tile that waits for it.
use bsg_manycore.Prelude.{
  ℕ, ◌+◌, ◌-◌, ◌/◌, ◌%◌, ◌≤◌, ◌≡◌, ◌∙◌, ◌≢◌, ◌⊎◌, refl, arith, some, ltb, leb, ◌==◌, if◌then◌else◌,
  ◌&&◌, inl, inr,
}
use bsg_manycore.Memory.{Memory, load, store, Apart, load-store-Apart}
use bsg_manycore.CudaRuntime.{Symbols, Cpu, init_param, load_argument, run_kernel}
use bsg_manycore.CudaRuntime.Arguments.{HasArguments, HasRoom}
use bsg_manycore.CudaRuntime.Kernel.{
  KeepsAbi, KeepsVariables, WellPlaced, entry, returned, run_kernel_lem,
}
use bsg_manycore.CudaRuntime.Waiting
use bsg_manycore.CudaRuntime.Waiting.{
  State, running, initial, check_kernel, host_store, Step, Reach, wakeup_kept,
}

abbrev symbols : Symbols
symbols = record {
  cuda_kernel_ptr = 0x100;
  cuda_argc = 0x104;
  cuda_argv_ptr = 0x108;
  cuda_finish_signal_addr = 0x10c;
  cuda_finish_signal_val = 0x110;
  cuda_kernel_not_loaded_val = 0x114;
}

-- a kernel at 0x3000, ten arguments at 0x200, of which the first is the address 0x300, and the value 7 for the signal at 0x400
abbrev loaded : Memory
loaded b =
    if b == 0x101
    then 0x30
    else if b == 0x104
    then 10
    else if b == 0x109
    then 2
    else if b == 0x10d
    then 4
    else if b == 0x110
    then 7
    else if b == 0x201
    then 3
    else if leb 0x200 b && ltb b 0x228
    then b / 4 % 128
    else 0

abbrev cpu : Cpu
cpu = record { s0 = 0; s1 = 0; s2 = 0; s3 = 0; s4 = 0; sp = 0x1000; a = λ i. 0; memory = loaded }

abbrev tile : ℕ
tile = 0

-- a kernel that saves its first argument in its frame, stores its last argument through it, and leaves
-- other words in the argument registers
abbrev keep_last : ℕ → Cpu → Cpu
keep_last f c = record c {
  a = λ i. f;
  memory = store 4 (store 4 c.memory (c.sp - 4) (c.a 0)) (c.a 0) (load 4 c.memory (c.sp + 4));
}

-- the state in which it is called
called_at : ((entry symbols cpu).a 0 ≡ 0x300) × ((entry symbols cpu).sp ≡ 0xff8)
unfolding init_param load_argument load
called_at = (refl, refl)

keep_last-KeepsAbi : KeepsAbi (entry symbols cpu) (returned symbols keep_last cpu)
keep_last-KeepsAbi = record { sp_kept = refl; s0_kept = refl; s2_kept = refl }

other_word :
    (q : ℕ)
    → q + 4 ≤ 0x300
    → load 4 (returned symbols keep_last cpu).memory q ≡ load 4 (entry symbols cpu).memory q
other_word q below =
    let c = entry symbols cpu in
    load-store-Apart 4 4 (store 4 c.memory (c.sp - 4) (c.a 0)) (c.a 0) q _
      (inl (omega (arith, called_at.0)))
    ∙ load-store-Apart 4 4 c.memory (c.sp - 4) q _ (inl (omega (arith, called_at.1)))

keep_last-KeepsVariables :
    KeepsVariables symbols (entry symbols cpu) (returned symbols keep_last cpu)
keep_last-KeepsVariables = record {
  address_kept = other_word 0x10c (omega arith);
  value_kept = other_word 0x110 (omega arith);
  unloaded_kept = other_word 0x114 (omega arith);
}

cpu-HasRoom : HasRoom (init_param symbols cpu)
unfolding init_param load
cpu-HasRoom = record {
  few = omega arith;
  arguments_fit = omega arith;
  sp_fits = omega arith;
  stack_fits = omega arith;
  apart = inl (omega arith);
}

cpu-WellPlaced : WellPlaced symbols (init_param symbols cpu)
unfolding init_param load
cpu-WellPlaced = record {
  pointer_address = inr (omega arith);
  pointer_value = inr (omega arith);
  signal_pointer = inl (omega arith);
  stack_address = inl (omega arith);
  stack_value = inl (omega arith);
  stack_unloaded = inl (omega arith);
}

enough : (init_param symbols cpu).s2 ≤ 8 + 2
unfolding init_param load
enough = omega arith

signal-Apart : Apart (load 4 loaded 0x10c) 4 0x300 4
unfolding load
signal-Apart = inl (omega arith)

run_kernel_example :
    HasArguments (entry symbols cpu) loaded (load 4 loaded 0x104) (load 4 loaded 0x108)
    × (after : Cpu) × (run_kernel symbols tile keep_last 2 cpu ≡ some after)
    × (after.sp ≡ 0x1000)
    × (load 4 after.memory 0x100 ≡ load 4 loaded 0x114)
    × (load 4 after.memory (load 4 loaded 0x10c) ≡ (
        if tile == 0
        then load 4 loaded 0x110
        else load 4 (returned symbols keep_last cpu).memory (load 4 loaded 0x10c)))
    × (load 4 after.memory 0x300 ≡ load 4 (returned symbols keep_last cpu).memory 0x300)
run_kernel_example =
    run_kernel_lem symbols keep_last tile 2 0x300 cpu keep_last-KeepsAbi keep_last-KeepsVariables
      cpu-HasRoom cpu-WellPlaced enough (inr (omega arith)) signal-Apart

-- the host loads a kernel between the check and the wait
abbrev woken : State
woken = host_store 0 (check_kernel 0 (initial 0)) 0x3000

woken-Reach : Reach 0 woken
woken-Reach =
    Waiting.Reach.step _ _ (Waiting.Reach.step _ _ Waiting.Reach.start (Waiting.Step.checks refl))
      (Waiting.Step.stores 0x3000 (omega arith))

wakeup_kept_example :
    (woken.pc ≡ running → woken.kernel_ptr ≢ 0)
    × (woken.kernel_ptr ≢ 0
        → (woken.pc ≡ running)
          ⊎ ((s1 : State) × Step 0 woken s1
              × (s1.pc ≡ running)
              × (s1.kernel_ptr ≡ woken.kernel_ptr)))
wakeup_kept_example = wakeup_kept 0 woken woken-Reach
