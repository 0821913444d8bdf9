-- ===== src/Tests/Programs.antt =====
-- The programs of software/spmd/crc32, remote_load_crc, quicksort and bsg_transpose, and the words of
-- software/bsg_manycore_lib/bsg_manycore.h, at concrete inputs.
use bsg_manycore.Prelude.{
  ℕ, ◌*◌, ◌/◌, ◌%◌, ◌++◌, bit_or, ◌+◌, ◌-◌, ◌^◌, ◌≡◌, arith, refl, List, [], ◌∷◌, none, some, suc,
  if◌then◌else◌, ◌==◌, length,
}
use bsg_manycore.Crc
use bsg_manycore.Crc.Table
use bsg_manycore.Crc.{finish, int_rounds, int_crc32, node_vec, table_loop, proc0, table_crc}
use bsg_manycore.Crc.Bitwise.{bitwise_loop, table_loop-eq-bitwise}
use bsg_manycore.Crc.RemoteLoad.{int_crc32-none, proc0-finish}
use bsg_manycore.Quicksort.{quicksort, main_sort, passed, failed, sum_words, Result}
use bsg_manycore.Quicksort
use bsg_manycore.Arch.{shl}
use bsg_manycore.Transpose.{Array, for_below, main_transpose}
use bsg_manycore.Transpose.Output.{main_transpose_lem}
use bsg_manycore.PrintStat.{Place, stat_word}
use bsg_manycore.PrintStat.Fields.{stat_word_fields}
use bsg_manycore.Quicksort.Data.{data_words}
use bsg_manycore.Quicksort.Correct.{Sorts}
use bsg_manycore.Quicksort.Main.{quicksort-Sorts}
use bsg_manycore.Quicksort.Passes.{main_sort_lem}

-- the check value of CRC-32: the text 123456789
abbrev digits : List ℕ
digits = 49 ∷ 50 ∷ 51 ∷ 52 ∷ 53 ∷ 54 ∷ 55 ∷ 56 ∷ 57 ∷ []

digits_crc : table_crc digits ≡ 0xcbf43926
unfolding table_crc Crc.table_step Table.table
digits_crc = refl

table_loop-eq-bitwise_example : table_loop 0xffffffff digits ≡ bitwise_loop 0xffffffff digits
table_loop-eq-bitwise_example = table_loop-eq-bitwise 0xffffffff digits (
  omega arith,
  (
    omega arith,
    (
      omega arith,
      (omega arith, (omega arith, (omega arith, (omega arith, (omega arith, (omega arith, tt)))))),
    ),
  ),
)

abbrev counting : ℕ → ℕ
counting i = i + 3

int_crc32-none_example : int_crc32 500 counting 34 ≡ none
int_crc32-none_example = int_crc32-none 500 counting 34 (omega arith)

-- tiles of which only the first word is as initialised
abbrev damaged : ℕ → ℕ → ℕ → ℕ
damaged x y i = if i == 0 then node_vec x y 0 else 12345

proc0-finish_example : proc0 (suc (suc 0)) damaged ≡ some finish
proc0-finish_example = proc0-finish 0 damaged (
  refl,
  (
    refl,
    (
      refl,
      (
        refl,
        (
          refl,
          (
            refl,
            (refl, (refl, (refl, (refl, (refl, (refl, (refl, (refl, (refl, (refl, tt)))))))))),
          ),
        ),
      ),
    ),
  ),
)

abbrev unsorted : List ℕ
unsorted = 5 ∷ 2 ∷ 9 ∷ 2 ∷ (2 ^ 32 - 1) ∷ 7 ∷ []

abbrev scratch : ℕ → ℕ
scratch i = 0

quicksort-Sorts_example : Sorts (quicksort 6 scratch unsorted) unsorted
quicksort-Sorts_example = quicksort-Sorts 6 scratch unsorted (omega arith) (omega arith)

data_length : length data_words ≡ 512
unfolding data_words
data_length = refl

main_sort_example :
    main_sort 512 scratch data_words
    ≡ some (if sum_words 0 data_words == Quicksort.answer then passed else failed)
main_sort_example =
    main_sort_lem 512 scratch data_words (omega (arith, data_length)) (omega (arith, data_length))

data_sum : sum_words 0 data_words ≡ Quicksort.answer
unfolding sum_words data_words
data_sum = refl

abbrev empty : ℕ → ℕ → Array
empty x y i j = 0

-- 4 by 4 tiles with blocks of 2 by 3
main_transpose_example :
    main_transpose 2 3 4 empty empty
    ≡ for_below
        (2 * 4)
        (λ i. for_below (3 * 4) (λ j out. out ++ (bit_or (shl i 16) j ∷ [])))
        (0xcab0 ∷ 0xcab1 ∷ [])
main_transpose_example =
    main_transpose_lem 2 3 4 empty empty (omega arith) (omega arith) (omega arith)

abbrev corner : Place
corner = record { grp_org_x = 8; grp_org_y = 4; bsg_x = 3; bsg_y = 2; tile_group_id = 5 }

stat_word_fields_example :
    let w = stat_word corner 9 2 in
    (w / 2 ^ 30 ≡ 2)
    × (w / 2 ^ 24 % 64 ≡ (4 + 2) % 64)
    × (w / 2 ^ 18 % 64 ≡ (8 + 3) % 64)
    × (w / 2 ^ 4 % 2 ^ 14 ≡ 5 % 2 ^ 14)
    × (w % 16 ≡ 9 % 16)
stat_word_fields_example = stat_word_fields corner 9 2 (omega arith)
