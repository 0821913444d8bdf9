-- ===== src/ChainedCore/Passes.antt =====
-- What the functions of ChainedCore leave in the buffers.
use mathlib.Core.List.{Mem, mem-cons, not-mem-nil}
use mathlib.Core.Logic.Or
use native.Mathlib.Nat.{ℕ_set}
use bsg_manycore.Prelude.{
  ℕ, ◌+◌, ◌-◌, ◌*◌, ◌/◌, ◌%◌, ◌<◌, ◌≡◌, inl, inr, refl, ap, sym, ◌∙◌, arith, List, [], ◌∷◌, ◌⊎◌,
  ltb, ◌==◌, if◌then◌else◌, ◌&&◌, ℕ_discrete, Bool-cases, true, subst,
}
use bsg_manycore.Kernels.{Array, Store}
use bsg_manycore.Kernels.Stores.{
  put, put_self, put_ne, perform, perform-Sound, perform-Spares, for_strided-rounds,
  for_strided-Mem, visits,
}
use bsg_manycore.ChainedCore.{send_pairs, tagged, pass_proc, tag_pass_proc}

module _ (change : ℕ → ℕ) (local_ptr : Array) (num : ℕ) where
  abbrev pair : ℕ → List Store
  pair i = (i, change (local_ptr i)) ∷ (i + 1, change (local_ptr (i + 1))) ∷ []

  -- the first index after the pairs
  abbrev pairs_end : ℕ
  pairs_end = num + num % 2

  pair-every :
      (P : Store → Type 0) (prop : (w : Store) → IsProp (P w)) (i : ℕ)
      → P (i, change (local_ptr i))
      → P (i + 1, change (local_ptr (i + 1)))
      → (w : Store) → Mem w (pair i)
      → P w
  pair-every P prop i h k w m =
      Or.elim (prop w) (mem-cons.0 m) (λ e. subst P (sym e) h)
        (λ m.
          Or.elim (prop w) (mem-cons.0 m) (λ e. subst P (sym e) k) (λ m. absurd (not-mem-nil m)))

  send_pairs-every :
      (P : Store → Type 0) (prop : (w : Store) → IsProp (P w))
      → ((q : ℕ) → q < pairs_end → P (q, change (local_ptr q)))
      → (w : Store) → Mem w (send_pairs change local_ptr num)
      → P w
  unfolding send_pairs
  send_pairs-every P prop h =
      for_strided-rounds num 2 pair P prop 0
        (λ k lt. pair-every P prop (0 + k * 2) (h _ (omega arith)) (h _ (omega arith)))

  send_pairs-Mem :
      (q : ℕ) → q < pairs_end → Mem (q, change (local_ptr q)) (send_pairs change local_ptr num)
  unfolding send_pairs
  send_pairs-Mem q lt =
      for_strided-Mem num 2 pair 0 (q - q % 2) _ (omega arith)
        (visits 2 (q - q % 2) 0 (q / 2) (omega arith) (omega arith)) (omega arith)
        (in_pair (q - q % 2) q
          (elim (ℕ_discrete (q % 2) 0) [ yes e ↦ inl (omega arith) | no n ↦ inr (omega arith) ]))
    where
      in_pair : (i q : ℕ) → (q ≡ i) ⊎ (q ≡ i + 1) → Mem (q, change (local_ptr q)) (pair i)
      in_pair i q (inl e) = mem-cons.1 (Or.inl (ap (λ q. (q, change (local_ptr q))) e))
      in_pair i q (inr e) =
          mem-cons.1 (Or.inr (mem-cons.1 (Or.inl (ap (λ q. (q, change (local_ptr q))) e))))

  -- the indices of whole pairs have the changed words
  send_pairs-perform :
      (remote_ptr : Array) (q : ℕ)
      → perform (send_pairs change local_ptr num) remote_ptr q
        ≡ (if ltb q pairs_end then change (local_ptr q) else remote_ptr q)
  send_pairs-perform remote_ptr q = elim (Bool-cases (ltb q pairs_end)) [
    | inl lt ↦ rw lt (
        perform-Sound (λ q. change (local_ptr q)) (send_pairs change local_ptr num) remote_ptr q
          (λ p v m.
            send_pairs-every (λ w. w.1 ≡ change (local_ptr w.0)) (λ w. ℕ_set _ _) (λ q h. refl)
              (p, v) m)
          (inr (send_pairs-Mem q (ground arith))))
    | inr ge ↦ rw ge (
        perform-Spares (send_pairs change local_ptr num) remote_ptr q (λ v m.
          let below : q + 1 - pairs_end ≡ 0 =
            send_pairs-every (λ w. w.0 + 1 - pairs_end ≡ 0) (λ w. ℕ_set _ _) (λ q h. omega arith)
              (q, v) m in
          ground arith))
  ]

-- The statement after the loop, for an odd number of elements.
with_tail :
    (num v q : ℕ) (sent g : Array)
    → sent q ≡ g q
    → (num % 2 ≡ 1 → v ≡ g (num - 1))
    → (if num % 2 == 1 then put sent (num - 1) v else sent) q ≡ g q
with_tail num v q sent g same last = elim (Bool-cases (num % 2 == 1)) [
  | inl odd ↦ rw odd (elim (ℕ_discrete q (num - 1)) [
    | yes e ↦ put_self sent (num - 1) v q e ∙ last (ground arith) ∙ ap g (sym e)
    | no n ↦ put_ne sent (num - 1) v q n ∙ same
  ])
  | inr even ↦ rw even same
]

module _ (local_ptr remote_ptr : Array) (num rounds id : ℕ) where
  -- the indices below `num`, and `num` itself if it is odd
  abbrev pub sent_to : (change : ℕ → ℕ) → Array
  sent_to change q = if ltb q (num + num % 2) then change (local_ptr q) else remote_ptr q

  last_sent :
      (change : ℕ → ℕ) → num % 2 ≡ 1 → change (local_ptr (num - 1)) ≡ sent_to change (num - 1)
  last_sent change odd = let lt : ltb (num - 1) (num + num % 2) ≡ true = ground arith in rw lt refl

  pub pass_proc_lem :
      (q : ℕ) → pass_proc local_ptr remote_ptr num rounds id q ≡ sent_to (λ word. word) q
  unfolding pass_proc
  pass_proc_lem q =
      with_tail num (local_ptr (num - 1)) q
        (perform (send_pairs (λ word. word) local_ptr num) remote_ptr) (sent_to (λ word. word))
        (send_pairs-perform (λ word. word) local_ptr num remote_ptr q) (last_sent (λ word. word))

  -- In the buffer of the next core tag_pass_proc sets every element below `num` to its own, with the
  -- round and with the core added, and for an odd `num` also the word after the buffer; of its own
  -- buffer it changes only the last element, for an odd `num`.
  pub tag_pass_proc_lem :
      (q : ℕ)
      → ((tag_pass_proc local_ptr remote_ptr num rounds id).1 q ≡ sent_to (tagged rounds id) q)
        × ((tag_pass_proc local_ptr remote_ptr num rounds id).0 q ≡ (
            if (num % 2 == 1) && (q == num - 1)
            then tagged rounds id (local_ptr q)
            else local_ptr q))
  unfolding tag_pass_proc
  tag_pass_proc_lem q =
      let t = tagged rounds id in
      let tail =
        with_tail num (t (local_ptr (num - 1))) q (perform (send_pairs t local_ptr num) remote_ptr)
          (sent_to t) (send_pairs-perform t local_ptr num remote_ptr q) (last_sent t) in
      (
        tail,
        elim (ℕ_discrete q (num - 1)) [
          | yes e ↦ let same = ap (λ q. tagged rounds id (local_ptr q)) e in ground arith
          | no n ↦ ground arith
        ],
      )
