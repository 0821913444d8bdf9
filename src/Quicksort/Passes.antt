-- ===== src/Quicksort/Passes.antt =====
-- The test that main of software/spmd/quicksort/main.c makes of the sorted data: the order of
-- neighbours and the sum.
use mathlib.Core.HLevel.{hedberg}
use mathlib.Core.List.{Perm, foldr, mem-cons}
use mathlib.Core.List.Perm
use mathlib.Core.Logic.Or
use bsg_manycore.Prelude.{
  ℕ, ◌+◌, ◌%◌, ◌^◌, ◌≤◌, ◌<◌, ◌≡◌, refl, ap, sym, ◌∙◌, arith, List, [], ◌∷◌, length, if◌then◌else◌,
  ◌==◌, true, some, ℕ_discrete,
}
use bsg_manycore.Quicksort.{
  bias, ge_int, in_order, sum_words, main_sort, test_sorted, passed, failed, answer,
}
use bsg_manycore.Quicksort.Correct.{Sorted}
use bsg_manycore.Quicksort.Main.{quicksort-Sorts}

abbrev add : ℕ → ℕ → ℕ
add x t = x + t

abbrev total : List ℕ → ℕ
total l = foldr add 0 l

total-Perm : (l m : List ℕ) → Perm l m → total l ≡ total m
total-Perm l m p = Perm.foldr-eq (hedberg ℕ_discrete) add (λ a b x. omega arith) p 0

sum_words_lem : (s : ℕ) (l : List ℕ) → s < 2 ^ 32 → sum_words s l ≡ (s + total l) % 2 ^ 32
unfolding sum_words
sum_words_lem s [] h = omega arith
sum_words_lem s (x ∷ l) h = sum_words_lem ((s + x) % 2 ^ 32) l (omega arith) ∙ omega arith

sum_words-Perm : (l m : List ℕ) → Perm l m → sum_words 0 l ≡ sum_words 0 m
sum_words-Perm l m p =
    sum_words_lem 0 l (omega arith)
    ∙ ap (λ t. (0 + t) % 2 ^ 32) (total-Perm l m p)
    ∙ sym (sum_words_lem 0 m (omega arith))

in_order-Sorted : (l : List ℕ) → Sorted l → in_order l ≡ true
unfolding in_order
in_order-Sorted [] s = refl
in_order-Sorted (x ∷ []) s = refl
in_order-Sorted (x ∷ (y ∷ l)) s =
    let le : bias x ≤ bias y = s.0 y (mem-cons.1 (Or.inl refl)) in
    let ge : ge_int y x ≡ true = ground arith in rw ge (in_order-Sorted (y ∷ l) s.1)

-- main's test of a tile ends for any data of at least one element, with fuel for each: it passes
-- exactly when the 32-bit sum of the unsorted data is the expected one.
pub main_sort_lem :
    (fuel : ℕ) (local_lst : ℕ → ℕ) (data_copy : List ℕ)
    → 0 < length data_copy
    → length data_copy ≤ fuel
    → main_sort fuel local_lst data_copy
      ≡ some (if sum_words 0 data_copy == answer then passed else failed)
unfolding main_sort test_sorted
main_sort_lem fuel local_lst data_copy some_data enough =
    let (g, ys, e, sorted, p) = quicksort-Sorts fuel local_lst data_copy some_data enough in
    ap test_sorted e ∙ rw (in_order-Sorted ys sorted, sum_words-Perm ys data_copy p) refl
