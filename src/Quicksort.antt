-- ===== src/Quicksort.antt =====
-- software/spmd/quicksort/main.c: every tile sorts its copy of the data through the scratch array
-- `local_lst` and tests the result. An int is its 32-bit word.
pub mod Data
pub mod Partition
pub mod Correct
pub mod Main
pub mod Passes
use bsg_manycore.Prelude.{
  ℕ, zero, suc, ◌+◌, ◌-◌, ◌%◌, ◌^◌, Bool, not, List, [], ◌∷◌, ◌++◌, Option, none, some, length,
  take, drop, ltb, leb, true, ◌&&◌, ◌==◌, if◌then◌else◌,
}

-- the order of ints: the place of a word when the sign bit is turned over
abbrev pub bias : ℕ → ℕ
bias w = (w + 2 ^ 31) % 2 ^ 32

-- `a >= b` of ints
abbrev pub ge_int : ℕ → ℕ → Bool
ge_int a b = leb (bias b) (bias a)

-- an array and the elements that it holds from an index on
abbrev pub update : (ℕ → ℕ) → ℕ → ℕ → ℕ → ℕ
update f i v j = if j == i then v else f j

unfoldable pub window : (ℕ → ℕ) → (start count : ℕ) → List ℕ
window f i zero = []
window f i (suc n) = f i ∷ window f (i + 1) n

pub record Split : Type 0 where
  pub local_lst : ℕ → ℕ
  pub front : ℕ
  pub back : ℕ

-- the loop over lst[1], lst[2], …; `back` is above 0 when it is decreased (Quicksort/Partition)
unfoldable pub partition : (center : ℕ) → List ℕ → Split → Split
partition center [] s = s
partition center (temp ∷ rest) s = partition center rest (
    if ge_int temp center
    then record { local_lst = update s.local_lst s.back temp; front = s.front; back = s.back - 1 }
    else record { local_lst = update s.local_lst s.front temp; front = s.front + 1; back = s.back })

-- A call of quicksort returns the scratch array and the sorted part; `none` is bsg_fail_x, a read of
-- lst[0] of no elements, or fuel that has run out.
abbrev pub Result : Type 0
Result = Option ((ℕ → ℕ) × List ℕ)

infixl 5 ◌>>=◌
abbrev pub ◌>>=◌ : Result → ((ℕ → ℕ) × List ℕ → Result) → Result
none >>= k = none
some r >>= k = k r

abbrev pub sort_part : ((ℕ → ℕ) → List ℕ → Result) → Bool → (ℕ → ℕ) → List ℕ → Result
sort_part rec nonempty local_lst part =
    if nonempty then rec local_lst part else some (local_lst, part)

-- The two recursive calls of quicksort, with `rec` for quicksort, on the array `lst` of `n` elements
-- whose center has its place.
unfoldable pub sort_parts :
    ((ℕ → ℕ) → List ℕ → Result) → (ℕ → ℕ) → (front back n : ℕ) → List ℕ → Result
sort_parts rec local_lst front back n lst = do
  left ← sort_part rec (not (front == 0)) local_lst (take front lst)
  right ← sort_part rec (not (back == n - 1)) left.0 (drop (back + 1) lst)
  some (right.0, left.1 ++ (take 1 (drop front lst) ++ right.1))

-- The body of quicksort on lst = center ∷ rest.
unfoldable pub sort_body : ((ℕ → ℕ) → List ℕ → Result) → (ℕ → ℕ) → (center : ℕ) → List ℕ → Result
sort_body rec local_lst center rest =
    let n = length (center ∷ rest) in
    let s = partition center rest (record { local_lst = local_lst; front = 0; back = n - 1 }) in
    let scratch = update s.local_lst s.back center in
    if n == 1
    then some (local_lst, center ∷ rest)
    else if s.back == s.front
    then sort_parts rec scratch s.front s.back n (window scratch 0 n)
    else none

unfoldable pub quicksort : (fuel : ℕ) → (ℕ → ℕ) → List ℕ → Result
unfolding sort_body sort_parts partition window
quicksort zero local_lst lst = none
quicksort (suc fuel) local_lst [] = none
quicksort (suc fuel) local_lst (center ∷ rest) = sort_body (quicksort fuel) local_lst center rest

abbrev pub answer : ℕ
answer = 25247145

-- How main ends at a tile.
pub data Outcome : Type 0 where
  passed : Outcome
  failed : Outcome

-- the sum of the sorted data, in 32-bit words
unfoldable pub sum_words : (sum : ℕ) → List ℕ → ℕ
sum_words sum [] = sum
sum_words sum (x ∷ xs) = sum_words ((sum + x) % 2 ^ 32) xs

-- no element is greater than the next
unfoldable pub in_order : List ℕ → Bool
in_order [] = true
in_order (x ∷ []) = true
in_order (x ∷ (y ∷ l)) = ge_int y x && in_order (y ∷ l)

-- the test of the sorted data by main
unfoldable pub test_sorted : Result → Option Outcome
unfolding sum_words in_order
test_sorted none = none
test_sorted (some (local_lst, sorted)) =
    some (
      if in_order sorted then (if sum_words 0 sorted == answer then passed else failed) else failed)

-- main between its barriers: copy, sort, test the order and the sum.
unfoldable pub main_sort : (fuel : ℕ) → (ℕ → ℕ) → List ℕ → Option Outcome
unfolding quicksort test_sorted
main_sort fuel local_lst data_copy = test_sorted (quicksort fuel local_lst data_copy)
