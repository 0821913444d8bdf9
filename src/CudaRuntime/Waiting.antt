-- ===== src/CudaRuntime/Waiting.antt =====
-- __wait_until_valid_func of CudaRuntime, up to __init_param: how a tile waits for a kernel. From the
-- hardware it takes that `lr.w` sets a reservation, that a store to the address clears it, and that
-- `lr.w.aq` waits until it is cleared. The host stores only addresses of kernels.
use bsg_manycore.Prelude.{
  ℕ, Bool, true, false, ◌==◌, ◌≡◌, ◌≢◌, ◌⊎◌, inl, inr, refl, ap, arith, if◌then◌else◌, Bool-cases,
}

pub data Pc : Type 0 where
  checking : Pc
  stalled : Pc
  running : Pc

pub record State : Type 0 where
  pub pc : Pc
  pub kernel_ptr : ℕ
  pub reserved : Bool

abbrev place : Pc → ℕ
place checking = 0
place stalled = 1
place running = 2

-- `not_loaded` is what cuda_kernel_not_loaded_val holds
module _ (not_loaded : ℕ) where
  abbrev pub initial : State
  initial = record { pc = checking; kernel_ptr = not_loaded; reserved = false }

  -- `lr.w` and `bne`
  abbrev pub check_kernel : State → State
  check_kernel s = record s {
    pc = if s.kernel_ptr == not_loaded then stalled else running;
    reserved = true;
  }

  -- the store to cuda_kernel_ptr after the kernel, and the jump back
  abbrev pub unload_kernel : State → State
  unload_kernel s = record { pc = checking; kernel_ptr = not_loaded; reserved = false }

  abbrev pub host_store : State → ℕ → State
  host_store s kernel = record s { kernel_ptr = kernel; reserved = false }

  pub data Step (s : State) : State → Type 0 where
    checks : s.pc ≡ checking → Step s (check_kernel s)
    resumes : s.pc ≡ stalled → s.reserved ≡ false → Step s (record s { pc = running })
    returns : s.pc ≡ running → Step s (unload_kernel s)
    stores : (kernel : ℕ) → kernel ≢ not_loaded → Step s (host_store s kernel)

  pub data Reach : State → Type 0 where
    start : Reach initial
    step : (s s1 : State) → Reach s → Step s s1 → Reach s1

  -- While a tile waits with its reservation nothing is loaded, and when it has lost it, or runs, a
  -- kernel is.
  record Loaded (s : State) : Type 0 where
    held : place s.pc ≡ 1 → s.reserved ≡ true → s.kernel_ptr ≡ not_loaded
    lost : place s.pc ≡ 1 → s.reserved ≡ false → s.kernel_ptr ≢ not_loaded
    loaded : place s.pc ≡ 2 → s.kernel_ptr ≢ not_loaded

  module _ (s : State) (inv : Loaded s) where
    checks-Loaded : s.pc ≡ checking → Loaded (check_kernel s)
    checks-Loaded e = record { held = ground arith; lost = ground arith; loaded = ground arith }

    resumes-Loaded : s.pc ≡ stalled → s.reserved ≡ false → Loaded (record s { pc = running })
    resumes-Loaded e e1 = let f = ap place e in grind arith

    returns-Loaded : s.pc ≡ running → Loaded (unload_kernel s)
    returns-Loaded e = grind arith

    stores-Loaded : (kernel : ℕ) → kernel ≢ not_loaded → Loaded (host_store s kernel)
    stores-Loaded kernel h = grind arith

  Reach-Loaded : (s : State) → Reach s → Loaded s
  Reach-Loaded _ Reach.start = grind arith
  Reach-Loaded _ (Reach.step s _ r (Step.checks e)) = checks-Loaded s (Reach-Loaded s r) e
  Reach-Loaded _ (Reach.step s _ r (Step.resumes e e1)) = resumes-Loaded s (Reach-Loaded s r) e e1
  Reach-Loaded _ (Reach.step s _ r (Step.returns e)) = returns-Loaded s (Reach-Loaded s r) e
  Reach-Loaded _ (Reach.step s _ r (Step.stores k h)) = stores-Loaded s (Reach-Loaded s r) k h

  -- A tile that does not run goes on to run by a step of its own when a kernel is loaded.
  starts :
      (s : State) (p : Pc)
      → Loaded s
      → s.kernel_ptr ≢ not_loaded
      → s.pc ≡ p
      → (s.pc ≡ running)
        ⊎ ((s1 : State) × Step s s1 × (s1.pc ≡ running) × (s1.kernel_ptr ≡ s.kernel_ptr))
  starts s checking inv h e = inr (check_kernel s, Step.checks e, ground arith, refl)
  starts s stalled inv h e = inr (
    record s { pc = running },
    Step.resumes e (elim (Bool-cases s.reserved) [
      | inl held ↦ absurd (h (inv.held (ap place e) held))
      | inr lost ↦ lost
    ]),
    refl,
    refl,
  )
  starts s running inv h e = inl e

  -- In every reachable state a tile runs only while a kernel is loaded, and when a kernel is loaded the
  -- tile runs, or its next step takes it there with this kernel.
  pub wakeup_kept :
      (s : State)
      → Reach s
      → (s.pc ≡ running → s.kernel_ptr ≢ not_loaded)
        × (s.kernel_ptr ≢ not_loaded
            → (s.pc ≡ running)
              ⊎ ((s1 : State) × Step s s1 × (s1.pc ≡ running) × (s1.kernel_ptr ≡ s.kernel_ptr)))
  wakeup_kept s r =
      let inv = Reach-Loaded s r in
      ((λ e. inv.loaded (ap place e)), (λ h. starts s s.pc inv h refl))
