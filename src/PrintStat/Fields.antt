-- ===== src/PrintStat/Fields.antt =====
-- The fields of a statistics word of software/bsg_manycore_lib/bsg_manycore.h.
use bsg_manycore.Prelude.{ℕ, ◌+◌, ◌*◌, ◌/◌, ◌%◌, ◌^◌, ◌<◌, ◌≡◌, ◌≢◌, bit_or, arith, ap, ◌∙◌}
use bsg_manycore.Prelude.Bits.{bit_or_fields, bit_and_mask}
use bsg_manycore.PrintStat.{
  Place, stat_word, cuda_print_stat, cuda_print_stat_start, cuda_print_stat_end,
}

joined_fields :
    (s y x g t : ℕ)
    → y < 64
    → x < 64
    → g < 2 ^ 14
    → t < 16
    → bit_or (bit_or (bit_or (bit_or (s * 2 ^ 30) (y * 2 ^ 24)) (x * 2 ^ 18)) (g * 2 ^ 4)) t
      ≡ (((s * 64 + y) * 64 + x) * 2 ^ 14 + g) * 16 + t
joined_fields s y x g t hy hx hg ht =
    ap (λ w. bit_or (bit_or (bit_or w (x * 2 ^ 18)) (g * 2 ^ 4)) t)
      (bit_or_fields 30 s (y * 2 ^ 24) (omega arith) ∙ up)
    ∙ ap (λ w. bit_or (bit_or w (g * 2 ^ 4)) t)
        (bit_or_fields 24 (s * 64 + y) (x * 2 ^ 18) (omega arith) ∙ right)
    ∙ ap (λ w. bit_or w t)
        (bit_or_fields 18 ((s * 64 + y) * 64 + x) (g * 2 ^ 4) (omega arith) ∙ inner)
    ∙ bit_or_fields 4 (((s * 64 + y) * 64 + x) * 2 ^ 14 + g) t ht
  where
    up : s * 2 ^ 30 + y * 2 ^ 24 ≡ (s * 64 + y) * 2 ^ 24
    up = omega arith

    right : (s * 64 + y) * 2 ^ 24 + x * 2 ^ 18 ≡ ((s * 64 + y) * 64 + x) * 2 ^ 18
    right = omega arith

    inner :
        ((s * 64 + y) * 64 + x) * 2 ^ 18 + g * 2 ^ 4
        ≡ (((s * 64 + y) * 64 + x) * 2 ^ 14 + g) * 2 ^ 4
    inner = omega arith

-- The word of a type below 4 holds the type, the y and the x coordinate of the tile in the whole grid,
-- the tile group and the tag, in this order from the top, each reduced to the width of its field.
pub stat_word_fields :
    (p : Place) (tag stat_type : ℕ)
    → stat_type < 4
    → let w = stat_word p tag stat_type in
      (w / 2 ^ 30 ≡ stat_type)
      × (w / 2 ^ 24 % 64 ≡ (p.grp_org_y + p.bsg_y) % 64)
      × (w / 2 ^ 18 % 64 ≡ (p.grp_org_x + p.bsg_x) % 64)
      × (w / 2 ^ 4 % 2 ^ 14 ≡ p.tile_group_id % 2 ^ 14)
      × (w % 16 ≡ tag % 16)
unfolding stat_word
stat_word_fields p tag stat_type h =
    rw
      (
        bit_and_mask 6 (p.grp_org_y + p.bsg_y),
        bit_and_mask 6 (p.grp_org_x + p.bsg_x),
        bit_and_mask 14 p.tile_group_id,
        bit_and_mask 4 tag,
        low_s,
        low_y,
        low_x,
        low_g,
        low_t,
      )
      (omega (
        arith,
        joined_fields stat_type ((p.grp_org_y + p.bsg_y) % 64) ((p.grp_org_x + p.bsg_x) % 64)
            (p.tile_group_id % 2 ^ 14) (tag % 16) (omega arith) (omega arith) (omega arith)
            (omega arith),
      ))
  where
    low_s : stat_type * 2 ^ 30 % 2 ^ 32 ≡ stat_type * 2 ^ 30
    low_s = omega arith

    low_y : (p.grp_org_y + p.bsg_y) % 64 * 2 ^ 24 % 2 ^ 32 ≡ (p.grp_org_y + p.bsg_y) % 64 * 2 ^ 24
    low_y = omega arith

    low_x : (p.grp_org_x + p.bsg_x) % 64 * 2 ^ 18 % 2 ^ 32 ≡ (p.grp_org_x + p.bsg_x) % 64 * 2 ^ 18
    low_x = omega arith

    low_g : p.tile_group_id % 2 ^ 14 * 2 ^ 4 % 2 ^ 32 ≡ p.tile_group_id % 2 ^ 14 * 2 ^ 4
    low_g = omega arith

    low_t : tag % 16 * 2 ^ 0 % 2 ^ 32 ≡ tag % 16
    low_t = omega arith

-- The words of the three kinds of statistics are different, whichever tiles print them and with
-- whichever tags.
pub stat_kinds_disjoint :
    (p q r : Place) (a b c : ℕ)
    → (cuda_print_stat p a ≢ cuda_print_stat_start q b)
      × (cuda_print_stat_start q b ≢ cuda_print_stat_end r c)
      × (cuda_print_stat p a ≢ cuda_print_stat_end r c)
unfolding cuda_print_stat cuda_print_stat_start cuda_print_stat_end
stat_kinds_disjoint p q r a b c = omega (
  arith,
  (stat_word_fields p a 0 (omega arith)).0,
  (stat_word_fields q b 1 (omega arith)).0,
  (stat_word_fields r c 2 (omega arith)).0,
)
