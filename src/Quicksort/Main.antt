-- ===== src/Quicksort/Main.antt =====
-- The whole of quicksort in software/spmd/quicksort/main.c.
use mathlib.Core.List.{Perm, append-nil, not-mem-nil, perm_middle}
use mathlib.Core.List.Perm
use bsg_manycore.Prelude.{
  ℕ, zero, suc, ◌+◌, ◌-◌, ◌≤◌, ◌<◌, ◌≡◌, refl, ap, ap₂, sym, ◌∙◌, arith, List, [], ◌∷◌, ◌++◌,
  length, ◌==◌, true, false, subst, inl, inr,
}
use bsg_manycore.Quicksort.{
  update, window, Split, partition, Result, sort_parts, sort_body, quicksort,
}
use bsg_manycore.Quicksort.Partition.{
  smaller, larger_onto, window-append, length-window, Parted, partition-Parted, window-update,
}
use bsg_manycore.Quicksort.Correct.{
  Sorts, SortsBelow, smaller-lt, larger_onto-ge, parts-perm, sort_parts-Sorts,
}

-- The array after the loop and the store of the center: the smaller elements, the center, the others.
module _ (f : ℕ → ℕ) (c : ℕ) (rest : List ℕ) where
  abbrev begin : Split
  begin = record { local_lst = f; front = 0; back = length rest }

  abbrev parted : Split
  parted = partition c rest begin

  abbrev low : List ℕ
  low = smaller c rest

  abbrev high : List ℕ
  high = larger_onto c rest []

  facts : Parted c rest begin parted 0
  facts = partition-Parted c rest begin 0 (omega arith)

  front-back : parted.front ≡ parted.back
  front-back = omega (arith, facts.meet)

  low_eq : window parted.local_lst 0 parted.front ≡ low
  unfolding window
  low_eq = facts.low

  high_eq : window parted.local_lst (parted.back + 1) (length rest - parted.back) ≡ high
  unfolding window
  high_eq = ap (window parted.local_lst (parted.back + 1)) (omega arith) ∙ facts.high

  front-length : parted.front ≡ length low
  front-length = sym (length-window parted.local_lst 0 parted.front) ∙ ap length low_eq

  back-length : length rest - parted.back ≡ length high
  back-length =
      sym (length-window parted.local_lst (parted.back + 1) (length rest - parted.back))
      ∙ ap length high_eq

  total-length : suc (length rest) ≡ length low + suc (length high)
  total-length = omega (arith, facts.moved, front-length, back-length, front-back)

  abbrev scratch : ℕ → ℕ
  scratch = update parted.local_lst parted.back c

  scratch_low : window scratch 0 parted.front ≡ low
  scratch_low =
      window-update parted.local_lst parted.back c 0 parted.front (inr (omega (arith, front-back)))
      ∙ low_eq

  scratch_high : window scratch parted.front (suc (length rest - parted.back)) ≡ c ∷ high
  unfolding window
  scratch_high = ap₂ ◌∷◌ (ground (arith, front-back)) (
      ap (λ t. window scratch (t + 1) (length rest - parted.back)) front-back
      ∙ window-update parted.local_lst parted.back c (parted.back + 1) (length rest - parted.back)
          (inl (omega arith))
      ∙ high_eq)

  array_eq : window scratch 0 (suc (length rest)) ≡ low ++ (c ∷ high)
  array_eq =
      ap (window scratch 0) {y = parted.front + suc (length rest - parted.back)}
        (omega (arith, facts.moved, front-back))
      ∙ window-append scratch 0 parted.front (suc (length rest - parted.back))
      ∙ ap₂ ◌++◌ scratch_low (
          ap (λ t. window scratch t (suc (length rest - parted.back))) (omega arith) ∙ scratch_high)

  abbrev sorting : ((ℕ → ℕ) → List ℕ → Result) → (front back n : ℕ) → List ℕ → Result
  sorting rec = sort_parts rec scratch

  sort_body_eq :
      (rec : (ℕ → ℕ) → List ℕ → Result)
      → 0 < length rest
      → sort_body rec f c rest
        ≡ sort_parts rec scratch
            (length low)
            (length low)
            (length low + suc (length high))
            (low ++ (c ∷ high))
  unfolding sort_body
  sort_body_eq rec some_rest =
      let many : (suc (length rest) == 1) ≡ false = ground arith in
      let met : (parted.back == parted.front) ≡ true = ground (arith, front-back) in
      let minus : suc (length rest) - 1 ≡ length rest = omega arith in
      rw (minus, many, met)
        (ap₂
            (λ a b.
              sort_parts rec scratch a b (suc (length rest)) (window scratch 0 (suc (length rest))))
            front-length (sym front-back ∙ front-length)
          ∙ ap₂ (sort_parts rec scratch (length low) (length low)) total-length array_eq)

  parted-perm : Perm (low ++ (c ∷ high)) (c ∷ rest)
  parted-perm =
      Perm.trans (perm_middle low high)
        (Perm.cons c (subst (Perm (low ++ high)) (append-nil rest) (parts-perm c rest [])))

  sort_body-Sorts :
      (rec : (ℕ → ℕ) → List ℕ → Result)
      → SortsBelow rec (length rest)
      → 0 < length rest
      → Sorts (sort_body rec f c rest) (c ∷ rest)
  sort_body-Sorts rec ih some_rest =
      let parts =
        sort_parts-Sorts rec (length rest) scratch c low high ih
          (omega (arith, total-length), omega (arith, total-length)) (λ y. smaller-lt c y rest)
          (λ y. larger_onto-ge c y rest [] (λ z m. absurd (not-mem-nil m))) in
      let (g, ys, e, sorted, p) = parts in
      (g, ys, sort_body_eq rec some_rest ∙ e, sorted, Perm.trans p parted-perm)

-- quicksort on a non-empty array, with fuel for each of its elements: the call returns, never by
-- bsg_fail_x, and leaves a rearrangement of the array in the order of ints.
pub quicksort-Sorts :
    (fuel : ℕ) (local_lst : ℕ → ℕ) (lst : List ℕ)
    → 0 < length lst
    → length lst ≤ fuel
    → Sorts (quicksort fuel local_lst lst) lst
unfolding quicksort sort_body
quicksort-Sorts zero f l some_l enough = absurd (omega arith)
quicksort-Sorts (suc fuel) f [] some_l enough = elim some_l [ ]
quicksort-Sorts (suc fuel) f (c ∷ []) some_l enough =
    (f, c ∷ [], refl, ((λ y m. absurd (not-mem-nil m)), tt), Perm.refl (c ∷ []))
quicksort-Sorts (suc fuel) f (c ∷ (d ∷ rest)) some_l enough =
    sort_body-Sorts f c (d ∷ rest) (quicksort fuel)
      (λ g l h k. quicksort-Sorts fuel g l h (omega arith)) (omega arith)
