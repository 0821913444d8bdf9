-- ===== src/CudaRuntime/Kernel.antt =====
-- A round of the loop of CudaRuntime.
use bsg_manycore.Prelude.{
  ℕ, ◌+◌, ◌-◌, ◌%◌, ◌^◌, ◌≤◌, ◌<◌, ◌≡◌, refl, sym, ap, ◌∙◌, arith, some, if◌then◌else◌, ◌==◌,
  ℕ_discrete,
}
use mathlib.Core.Option
use native.Mathlib.Nat.{mod-eq_of_lt}
use bsg_manycore.Memory.{
  Memory, load, store, Apart, load-eq_of_eq, load-lt, load-store_self, load-store-Apart,
}
use bsg_manycore.CudaRuntime.{
  Symbols, Cpu, init_param, load_argument, pop_arguments, kernel_return, write_finish_signal,
  run_kernel,
}
use bsg_manycore.CudaRuntime.Arguments.{
  HasArguments, HasRoom, stack_size, pushed, push_arguments_lem, argument-pushed, pushed_outside,
}

-- What a call keeps of the registers that the runtime relies on after it, by the RISC-V calling
-- convention.
pub record KeepsAbi (before after : Cpu) : Type 0 where
  pub sp_kept : after.sp ≡ before.sp
  pub s0_kept : after.s0 ≡ before.s0
  pub s2_kept : after.s2 ≡ before.s2

-- A call that does not write the variables that the runtime reads after it.
pub record KeepsVariables (symbols : Symbols) (before after : Cpu) : Type 0 where
  pub address_kept :
      load 4 after.memory symbols.cuda_finish_signal_addr
      ≡ load 4 before.memory symbols.cuda_finish_signal_addr
  pub value_kept :
      load 4 after.memory symbols.cuda_finish_signal_val
      ≡ load 4 before.memory symbols.cuda_finish_signal_val
  pub unloaded_kept :
      load 4 after.memory symbols.cuda_kernel_not_loaded_val
      ≡ load 4 before.memory symbols.cuda_kernel_not_loaded_val

-- The state in which a round calls the kernel.
abbrev pub entry : Symbols → Cpu → Cpu
entry symbols c = pushed (init_param symbols c)

-- What the kernel at the address in cuda_kernel_ptr makes of that state.
abbrev pub returned : Symbols → (call : ℕ → Cpu → Cpu) → Cpu → Cpu
returned symbols call c = call (load 4 c.memory symbols.cuda_kernel_ptr) (entry symbols c)

module _ (symbols : Symbols) where
  -- The words that the runtime stores to are apart from the variables that it reads later.
  pub record WellPlaced (c : Cpu) : Type 0 where
    pub pointer_address : Apart symbols.cuda_kernel_ptr 4 symbols.cuda_finish_signal_addr 4
    pub pointer_value : Apart symbols.cuda_kernel_ptr 4 symbols.cuda_finish_signal_val 4
    pub signal_pointer :
        Apart (load 4 c.memory symbols.cuda_finish_signal_addr) 4 symbols.cuda_kernel_ptr 4
    pub stack_address : Apart (c.sp - stack_size c) (stack_size c) symbols.cuda_finish_signal_addr 4
    pub stack_value : Apart (c.sp - stack_size c) (stack_size c) symbols.cuda_finish_signal_val 4
    pub stack_unloaded :
        Apart (c.sp - stack_size c) (stack_size c) symbols.cuda_kernel_not_loaded_val 4

  load-pushed :
      (c : Cpu) (q : ℕ)
      → HasRoom c
      → Apart (c.sp - stack_size c) (stack_size c) q 4
      → load 4 (pushed c).memory q ≡ load 4 c.memory q
  load-pushed c q room apart = sym (
      load-eq_of_eq 4 c.memory (pushed c).memory q
        (λ b lo hi. pushed_outside c b room (omega arith)))

  -- The stack is as it was before the arguments.
  sp-pop_arguments :
      (c c2 : Cpu)
      → HasRoom c
      → c2.sp ≡ c.sp - stack_size c
      → c2.s2 ≡ c.s2
      → ((pop_arguments c2).sp ≡ c.sp)
        × ((pop_arguments c2).s0 ≡ c2.s0)
        × ((pop_arguments c2).memory ≡ c2.memory)
  unfolding pop_arguments
  sp-pop_arguments c c2 room e e2 = (ground arith, ground arith, ground arith)

  -- What the two stores at the end leave: a word at `k`, and then by tile 0 one at `address`.
  module _ (bsg_id : ℕ) (m : Memory) (k n address value : ℕ) where
    abbrev signalled : Memory
    signalled = if bsg_id == 0 then store 4 (store 4 m k n) address value else store 4 m k n

    fits : (w : ℕ) → w < 2 ^ 32 → w % 256 ^ 4 ≡ w
    fits w h = mod-eq_of_lt h

    pointer-signalled : n < 2 ^ 32 → Apart address 4 k 4 → load 4 signalled k ≡ n
    pointer-signalled small apart = ground (
      arith,
      load-store-Apart 4 4 (store 4 m k n) address k value apart,
      load-store_self 4 m k n ∙ fits n small,
    )

    value-signalled : value < 2 ^ 32 → bsg_id ≡ 0 → load 4 signalled address ≡ value
    value-signalled small zero_id =
        ground (arith, load-store_self 4 (store 4 m k n) address value ∙ fits value small)

    rest-signalled :
        (q : ℕ)
        → Apart k 4 q 4
        → (bsg_id ≡ 0 → Apart address 4 q 4)
        → load 4 signalled q ≡ load 4 m q
    rest-signalled q apart apart1 = elim (ℕ_discrete bsg_id 0) [
      | yes e ↦ ground (
        arith,
        load-store-Apart 4 4 (store 4 m k n) address q value (apart1 e),
        load-store-Apart 4 4 m k q n apart,
      )
      | no e ↦ ground (arith, load-store-Apart 4 4 m k q n apart)
    ]

    address-signalled :
        value < 2 ^ 32
        → Apart address 4 k 4
        → load 4 signalled address ≡ (if bsg_id == 0 then value else load 4 m address)
    address-signalled small apart = elim (ℕ_discrete bsg_id 0) [
      | yes e ↦ let f = value-signalled small e in ground (arith, f)
      | no e ↦ let f = rest-signalled address (omega arith) (λ z. absurd (e z)) in ground (arith, f)
    ]

  signal_lem :
      (bsg_id : ℕ) (c : Cpu)
      → c.s0 ≡ symbols.cuda_kernel_ptr
      → Apart symbols.cuda_kernel_ptr 4 symbols.cuda_finish_signal_addr 4
      → Apart symbols.cuda_kernel_ptr 4 symbols.cuda_finish_signal_val 4
      → let c1 = write_finish_signal symbols bsg_id (kernel_return symbols c) in
        (c1.sp ≡ c.sp)
        × (c1.memory
            ≡ signalled bsg_id c.memory symbols.cuda_kernel_ptr
                (load 4 c.memory symbols.cuda_kernel_not_loaded_val)
                (load 4 c.memory symbols.cuda_finish_signal_addr)
                (load 4 c.memory symbols.cuda_finish_signal_val))
  unfolding write_finish_signal kernel_return
  signal_lem bsg_id c e ka kv =
      let n = load 4 c.memory symbols.cuda_kernel_not_loaded_val in
      let ea =
        load-store-Apart 4 4 c.memory symbols.cuda_kernel_ptr symbols.cuda_finish_signal_addr n
          ka in
      let ev =
        load-store-Apart 4 4 c.memory symbols.cuda_kernel_ptr symbols.cuda_finish_signal_val n kv in
      (ground arith, rw e (rw (ea, ev) (ground arith)))

  -- With variables, arguments and stack apart and enough room for fewer than 2 ^ 29 arguments, and a
  -- kernel that, called with these arguments, returns, keeps sp, s0 and s2 and does not write the three
  -- variables that the runtime reads after it, a round with a unit of fuel for each argument on the
  -- stack returns. The kernel whose address is in cuda_kernel_ptr finds every argument where the calling
  -- convention says. At the end the stack pointer is as before, cuda_kernel_ptr holds
  -- cuda_kernel_not_loaded_val, the word for the finish signal has its value if the tile is tile 0 and is
  -- as the kernel has left it if not, and every other word is as the kernel has left it.
  pub run_kernel_lem :
      (call : ℕ → Cpu → Cpu) (bsg_id fuel q : ℕ) (c : Cpu)
      → KeepsAbi (entry symbols c) (returned symbols call c)
      → KeepsVariables symbols (entry symbols c) (returned symbols call c)
      → HasRoom (init_param symbols c)
      → WellPlaced (init_param symbols c)
      → (init_param symbols c).s2 ≤ 8 + fuel
      → Apart symbols.cuda_kernel_ptr 4 q 4
      → Apart (load 4 c.memory symbols.cuda_finish_signal_addr) 4 q 4
      → let address = load 4 c.memory symbols.cuda_finish_signal_addr in
        let value = load 4 c.memory symbols.cuda_finish_signal_val in
        HasArguments
          (entry symbols c)
          c.memory
          (load 4 c.memory symbols.cuda_argc)
          (load 4 c.memory symbols.cuda_argv_ptr)
        × (after : Cpu) × (run_kernel symbols bsg_id call fuel c ≡ some after)
        × (after.sp ≡ c.sp)
        × (load 4 after.memory symbols.cuda_kernel_ptr
            ≡ load 4 c.memory symbols.cuda_kernel_not_loaded_val)
        × (load 4 after.memory address
            ≡ (if bsg_id == 0 then value else load 4 (returned symbols call c).memory address))
        × (load 4 after.memory q ≡ load 4 (returned symbols call c).memory q)
  unfolding run_kernel init_param load_argument
  run_kernel_lem call bsg_id fuel q c abi variables room placed enough apart apart1 =
      let c1 = init_param symbols c in
      let c3 = returned symbols call c in
      let popped = sp-pop_arguments c1 c3 room abi.sp_kept abi.s2_kept in
      let c4 = pop_arguments c3 in
      let after = write_finish_signal symbols bsg_id (kernel_return symbols c4) in
      let (sp_after, memory_after) =
        signal_lem bsg_id c4 (popped.1 ∙ abi.s0_kept) placed.pointer_address placed.pointer_value in
      let k = symbols.cuda_kernel_ptr in
      let n = load 4 c.memory symbols.cuda_kernel_not_loaded_val in
      let address = load 4 c.memory symbols.cuda_finish_signal_addr in
      let value = load 4 c.memory symbols.cuda_finish_signal_val in
      let en : load 4 c3.memory symbols.cuda_kernel_not_loaded_val ≡ n =
        variables.unloaded_kept ∙ load-pushed c1 _ room placed.stack_unloaded in
      let ea : load 4 c3.memory symbols.cuda_finish_signal_addr ≡ address =
        variables.address_kept ∙ load-pushed c1 _ room placed.stack_address in
      let ev : load 4 c3.memory symbols.cuda_finish_signal_val ≡ value =
        variables.value_kept ∙ load-pushed c1 _ room placed.stack_value in
      let ends : Memory → Memory = λ m.
        signalled bsg_id m k (load 4 m symbols.cuda_kernel_not_loaded_val)
          (load 4 m symbols.cuda_finish_signal_addr) (load 4 m symbols.cuda_finish_signal_val) in
      let shape : after.memory ≡ signalled bsg_id c3.memory k n address value =
        memory_after ∙ ap ends popped.2 ∙ rw (en, ea, ev) refl in
      (
        (λ i below. argument-pushed c1 i room below),
        after,
        ap (Option.map _) (push_arguments_lem fuel c1 room enough),
        sp_after ∙ popped.0,
        ap (λ (m : Memory). load 4 m k) shape
            ∙ pointer-signalled bsg_id c3.memory k n address value (load-lt 4 c.memory _)
                placed.signal_pointer,
        ap (λ (m : Memory). load 4 m address) shape
            ∙ address-signalled bsg_id c3.memory k n address value (load-lt 4 c.memory _)
                placed.signal_pointer,
        ap (λ (m : Memory). load 4 m q) shape
            ∙ rest-signalled bsg_id c3.memory k n address value q apart (λ _. apart1),
      )
