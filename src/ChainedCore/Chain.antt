-- ===== src/ChainedCore/Chain.antt =====
-- The data of software/spmd/bsg_chained_core on its way through the cores.
use bsg_manycore.Prelude.{
  ℕ, zero, suc, ◌+◌, ◌-◌, ◌%◌, ◌^◌, ◌<◌, ◌≡◌, refl, ap, ◌∙◌, arith, ltb, true, some, Bool-cases,
  inl, inr, ◌==◌, if◌then◌else◌, Option, ◌⊎◌,
}
use bsg_manycore.Kernels.{Array}
use bsg_manycore.ChainedCore.{
  value_of, rounds_of, cores_of, tagged, copy_proc, Config, all_pass_funcs, one_copy_funcs,
  all_tag_pass_funcs, ProcFunc, pass, tag_pass, copy, init_func_array, run_func, first_buffer,
}
use bsg_manycore.ChainedCore.Passes.{sent_to, pass_proc_lem, tag_pass_proc_lem}

-- the sum of the identifiers below k
abbrev pub ids_below : ℕ → ℕ
ids_below zero = 0
ids_below (suc k) = ids_below k + k

tagged_fields :
    (rounds id word : ℕ)
    → (value_of (tagged rounds id word) ≡ value_of word)
      × (rounds_of (tagged rounds id word) ≡ rounds % 2 ^ 8)
      × (cores_of (tagged rounds id word) ≡ (cores_of word + id) % 2 ^ 16)
tagged_fields rounds id word = (omega arith, omega arith, omega arith)

-- In one round core k has in its buffer what core k - 1 has put there; the buffers held `before`.
module _ (config : Config) (num_tiles : ℕ) (local_buffer first : Array) (before : ℕ → Array)
    (num rounds : ℕ) where
  unfoldable pub pipeline : ℕ → Array
  unfolding init_func_array run_func
  pipeline zero = first
  pipeline (suc k) =
      run_func (init_func_array config num_tiles k) local_buffer (pipeline k) (before (suc k)) num
        rounds k

module _ (num_tiles : ℕ) (local_buffer : Array) (before : ℕ → Array) (num rounds i : ℕ)
    (in_buffer : i < num) where
  abbrev in_round : Config → Array → ℕ → ℕ
  in_round config first k = pipeline config num_tiles local_buffer first before num rounds k i

  sent :
      (change : ℕ → ℕ) (local_ptr remote_ptr : Array) (id : ℕ)
      → sent_to local_ptr remote_ptr num rounds id change i ≡ change (local_ptr i)
  sent change local_ptr remote_ptr id = ground arith

  tag_step :
      (first : Array) (k : ℕ)
      → suc k < num_tiles
      → in_round all_tag_pass_funcs first (suc k)
        ≡ tagged rounds k (in_round all_tag_pass_funcs first k)
  unfolding pipeline init_func_array run_func
  tag_step first k h =
      let local_ptr : Array =
        pipeline all_tag_pass_funcs num_tiles local_buffer first before num rounds k in
      let inside : ltb k (num_tiles - 1) ≡ true = ground arith in
      ap
        (λ b.
          run_func (if b then some tag_pass else Option.none) local_buffer local_ptr
            (before (suc k)) num rounds k i)
        inside
      ∙ (tag_pass_proc_lem local_ptr (before (suc k)) num rounds k i).0
      ∙ sent (tagged rounds k) local_ptr (before (suc k)) k

  Tags : ℕ → ℕ → Type 0
  Tags k word =
      (value_of word ≡ i % 2 ^ 8)
      × (cores_of word ≡ ids_below k % 2 ^ 16)
      × (0 < k → rounds_of word ≡ rounds % 2 ^ 8)

  pipeline-Tags : (k : ℕ) → k < num_tiles → Tags k (in_round all_tag_pass_funcs first_buffer k)
  unfolding pipeline Tags
  pipeline-Tags zero h = (omega arith, omega arith, λ pos. absurd (omega arith))
  pipeline-Tags (suc k) h =
      let (value, cores, round) = pipeline-Tags k (omega arith) in
      let (tv, tr, tc) = tagged_fields rounds k (in_round all_tag_pass_funcs first_buffer k) in
      let step = tag_step first_buffer k h in
      (
        ap value_of step ∙ tv ∙ value,
        ap cores_of step ∙ tc ∙ omega (arith, cores),
        λ pos. ap rounds_of step ∙ tr,
      )

  -- With all cores tagging, in a round in which each core takes over what the one before it has put
  -- into its buffer, for any number of elements: each element of the buffer of a core after the first
  -- has the value that main gave it in core 0, the round, and the sum of the identifiers of the cores
  -- that it has passed, each reduced to the width of its field.
  pub pipeline_tags :
      (k : ℕ)
      → suc k < num_tiles
      → let word = in_round all_tag_pass_funcs first_buffer (suc k) in
        (value_of word ≡ i % 2 ^ 8)
        × (rounds_of word ≡ rounds % 2 ^ 8)
        × (cores_of word ≡ ids_below (suc k) % 2 ^ 16)
  unfolding Tags
  pipeline_tags k h =
      let (value, cores, round) = pipeline-Tags (suc k) h in (value, round (omega arith), cores)

  pass_step :
      (f : Option ProcFunc) (local_ptr remote_ptr : Array) (k : ℕ)
      → (f ≡ some pass) ⊎ (f ≡ some copy)
      → run_func f local_buffer local_ptr remote_ptr num rounds k i ≡ local_ptr i
  unfolding run_func copy_proc
  pass_step f local_ptr remote_ptr k (inl e) =
      ap (λ f. run_func f local_buffer local_ptr remote_ptr num rounds k i) e
      ∙ pass_proc_lem local_ptr remote_ptr num rounds k i
      ∙ sent (λ word. word) local_ptr remote_ptr k
  pass_step f local_ptr remote_ptr k (inr e) =
      ap (λ f. run_func f local_buffer local_ptr remote_ptr num rounds k i) e
      ∙ pass_proc_lem local_ptr remote_ptr num rounds k i
      ∙ sent (λ word. word) local_ptr remote_ptr k

  passes : (k : ℕ) → suc k < num_tiles → init_func_array all_pass_funcs num_tiles k ≡ some pass
  unfolding init_func_array
  passes k h = let inside : ltb k (num_tiles - 1) ≡ true = ground arith in rw inside refl

  copies :
      (k : ℕ)
      → suc k < num_tiles
      → (init_func_array one_copy_funcs num_tiles k ≡ some pass)
        ⊎ (init_func_array one_copy_funcs num_tiles k ≡ some copy)
  unfolding init_func_array
  copies k h =
      let inside : ltb k (num_tiles - 1) ≡ true = ground arith in
      elim (Bool-cases (k == 1)) [
        | inl one ↦ inr (rw one refl)
        | inr other ↦ inl (rw (other, inside) refl)
      ]

  -- With all cores passing the data on, also if core 1 copies it as well, the elements of the buffer
  -- of every core in such a round are those of the first.
  pub pipeline_passes :
      (first : Array) (k : ℕ)
      → k < num_tiles
      → (in_round all_pass_funcs first k ≡ first i) × (in_round one_copy_funcs first k ≡ first i)
  unfolding pipeline
  pipeline_passes first zero h = (refl, refl)
  pipeline_passes first (suc k) h =
      let (all, one) = pipeline_passes first k (omega arith) in
      (
        pass_step _ _ (before (suc k)) k (inl (passes k h)) ∙ all,
        pass_step _ _ (before (suc k)) k (copies k h) ∙ one,
      )
