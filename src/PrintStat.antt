-- ===== src/PrintStat.antt =====
-- The statistics words of software/bsg_manycore_lib/bsg_manycore.h, which bsg_cuda_print_stat_type
-- packs and stores to the io node.
pub mod Fields
use bsg_manycore.Prelude.{ℕ, ◌+◌, ◌-◌, ◌^◌, bit_and, bit_or}
use bsg_manycore.Arch.{shl}

abbrev pub tag_width : ℕ
tag_width = 4

abbrev pub tg_id_width : ℕ
tg_id_width = 14

abbrev pub x_width : ℕ
x_width = 6

abbrev pub y_width : ℕ
y_width = 6

abbrev pub tag_shift : ℕ
tag_shift = 0

abbrev pub tg_id_shift : ℕ
tg_id_shift = tag_shift + tag_width

abbrev pub x_shift : ℕ
x_shift = tg_id_shift + tg_id_width

abbrev pub y_shift : ℕ
y_shift = x_shift + x_width

abbrev pub type_shift : ℕ
type_shift = y_shift + y_width

abbrev pub tag_mask : ℕ
tag_mask = 2 ^ tag_width - 1

abbrev pub tg_id_mask : ℕ
tg_id_mask = 2 ^ tg_id_width - 1

abbrev pub x_mask : ℕ
x_mask = 2 ^ x_width - 1

abbrev pub y_mask : ℕ
y_mask = 2 ^ y_width - 1

-- the identifiers of the tile that prints, __bsg_grp_org_x and so on
pub record Place : Type 0 where
  pub grp_org_x : ℕ
  pub grp_org_y : ℕ
  pub bsg_x : ℕ
  pub bsg_y : ℕ
  pub tile_group_id : ℕ

-- the word that bsg_cuda_print_stat_type stores
unfoldable pub stat_word : Place → (tag stat_type : ℕ) → ℕ
stat_word p tag stat_type =
    bit_or
      (bit_or
        (bit_or
          (bit_or (shl stat_type type_shift) (shl (bit_and (p.grp_org_y + p.bsg_y) y_mask) y_shift))
          (shl (bit_and (p.grp_org_x + p.bsg_x) x_mask) x_shift))
        (shl (bit_and p.tile_group_id tg_id_mask) tg_id_shift))
      (shl (bit_and tag tag_mask) tag_shift)

-- bsg_cuda_print_stat, bsg_cuda_print_stat_start and bsg_cuda_print_stat_end
unfoldable pub cuda_print_stat : Place → (tag : ℕ) → ℕ
unfolding stat_word
cuda_print_stat p tag = stat_word p tag 0

unfoldable pub cuda_print_stat_start : Place → (tag : ℕ) → ℕ
unfolding stat_word
cuda_print_stat_start p tag = stat_word p tag 1

unfoldable pub cuda_print_stat_end : Place → (tag : ℕ) → ℕ
unfolding stat_word
cuda_print_stat_end p tag = stat_word p tag 2
