-- ===== src/Crc/Bitwise.antt =====
-- The table of software/spmd/crc32/main.c against CRC-32 by single bits.
use native.Mathlib.Nat.{pow-suc}
use bsg_manycore.Prelude.{
  ℕ, zero, suc, ◌+◌, ◌*◌, ◌/◌, ◌%◌, ◌^◌, ◌<◌, bit_xor, ◌≡◌, refl, ap, ap₂, sym, ◌∙◌, arith, List,
  [], ◌∷◌, get_or, length, ◌==◌, ==_iff, if◌then◌else◌, Bool, true, ◌&&◌, ◌⊎◌, inl, inr,
}
use bsg_manycore.Prelude.Bits.{
  bit_and_mask, bit_xor_halves, bit_xor_interchange, bit_xor-zero, bit_xor_fields, bit_xor_shift,
}
use bsg_manycore.Crc.{crc_32_poly, table_step, table_loop}
use bsg_manycore.Crc.Table.{table}

-- CRC-32 in the reflected form: one bit, and the eight bits of a byte.
abbrev mask : ℕ → ℕ
mask bit = if bit == 1 then crc_32_poly else 0

pub bit_step : ℕ → ℕ
bit_step crc = bit_xor (crc / 2) (mask (crc % 2))

pub bit_steps : ℕ → ℕ → ℕ
unfolding bit_step
bit_steps zero crc = crc
bit_steps (suc n) crc = bit_steps n (bit_step crc)

pub bitwise_loop : ℕ → List ℕ → ℕ
unfolding bit_steps
bitwise_loop crc [] = crc
bitwise_loop crc (byte ∷ bytes) = bitwise_loop (bit_steps 8 (bit_xor crc byte)) bytes

mask-xor : (a b : ℕ) → mask ((a + b) % 2) ≡ bit_xor (mask (a % 2)) (mask (b % 2))
mask-xor a b = elim (digit a) [
  | inl ea ↦ elim (digit b) [
    | inl eb ↦ at_digits 0 0 0 ea eb (omega arith) refl
    | inr eb ↦ at_digits 0 1 1 ea eb (omega arith) refl
  ]
  | inr ea ↦ elim (digit b) [
    | inl eb ↦ at_digits 1 0 1 ea eb (omega arith) refl
    | inr eb ↦ at_digits 1 1 0 ea eb (omega arith) refl
  ]
]
  where
    digit : (n : ℕ) → (n % 2 ≡ 0) ⊎ (n % 2 ≡ 1)
    digit n = omega arith

    at_digits :
        (x y z : ℕ)
        → a % 2 ≡ x
        → b % 2 ≡ y
        → (a + b) % 2 ≡ z
        → mask z ≡ bit_xor (mask x) (mask y)
        → mask ((a + b) % 2) ≡ bit_xor (mask (a % 2)) (mask (b % 2))
    at_digits x y z ex ey ez h = rw (ex, ey, ez) h

bit_step-xor : (a b : ℕ) → bit_step (bit_xor a b) ≡ bit_xor (bit_step a) (bit_step b)
unfolding bit_step
bit_step-xor a b =
    ap₂ (λ h l. bit_xor h (mask l)) (bit_xor_halves a b).0 (bit_xor_halves a b).1
    ∙ ap (bit_xor (bit_xor (a / 2) (b / 2))) (mask-xor a b)
    ∙ bit_xor_interchange (a / 2) (b / 2) (mask (a % 2)) (mask (b % 2))

bit_steps-xor : (n a b : ℕ) → bit_steps n (bit_xor a b) ≡ bit_xor (bit_steps n a) (bit_steps n b)
unfolding bit_steps
bit_steps-xor zero a b = refl
bit_steps-xor (suc n) a b =
    ap (bit_steps n) (bit_step-xor a b) ∙ bit_steps-xor n (bit_step a) (bit_step b)

-- Zero bits only shift.
bit_step-even : (a : ℕ) → bit_step (a * 2) ≡ a
unfolding bit_step
bit_step-even a = rw (half, low) (bit_xor-zero a)
  where
    half : a * 2 / 2 ≡ a
    half = omega arith

    low : a * 2 % 2 ≡ 0
    low = omega arith

bit_steps-shift : (n a : ℕ) → bit_steps n (a * 2 ^ n) ≡ a
unfolding bit_steps
bit_steps-shift zero a = omega arith
bit_steps-shift (suc n) a =
    ap (λ t. bit_steps n (bit_step t)) {x = a * 2 ^ suc n} {y = a * 2 ^ n * 2}
      (ap (λ t. a * t) (pow-suc 2 n) ∙ omega arith)
    ∙ ap (bit_steps n) (bit_step-even (a * 2 ^ n))
    ∙ bit_steps-shift n a

-- The entries of a part of the table, from place `from` on, are eight rounds on their places.
entries_match : (entries : List ℕ) (from : ℕ) → Bool
entries_match [] from = true
entries_match (e ∷ entries) from = e == bit_steps 8 from && entries_match entries (from + 1)

entry-eq :
    (entries : List ℕ) (from k : ℕ)
    → entries_match entries from ≡ true
    → k < length entries
    → get_or entries k 0 ≡ bit_steps 8 (k + from)
unfolding entries_match
entry-eq [] from k good here = elim here [ ]
entry-eq (e ∷ entries) from zero good here =
    let first : (e == bit_steps 8 from) ≡ true = ground arith in
    (==_iff _ _).0 first ∙ ap (bit_steps 8) (omega arith)
entry-eq (e ∷ entries) from (suc k) good here =
    entry-eq entries (from + 1) k (ground arith) (omega arith) ∙ ap (bit_steps 8) (omega arith)

table_matches : (entries_match table 0 ≡ true) × (length table ≡ 256)
unfolding entries_match bit_steps table
table_matches = (refl, refl)

table-eq-bit_steps : (i : ℕ) → i < 256 → get_or table i 0 ≡ bit_steps 8 i
table-eq-bit_steps i h =
    entry-eq table 0 i table_matches.0 (omega (arith, table_matches.1))
    ∙ ap (bit_steps 8) (omega arith)

-- One round of the table-driven loop is eight rounds of the bitwise one, for a byte.
table_step-eq : (crc byte : ℕ) → byte < 256 → table_step crc byte ≡ bit_steps 8 (bit_xor crc byte)
unfolding table_step
table_step-eq crc byte h =
    ap₂ (λ i c. bit_xor c (get_or table i 0)) (bit_and_mask 8 x) high
    ∙ ap (bit_xor (x / 256)) (table-eq-bit_steps (x % 256) (omega arith))
    ∙ ap (λ t. bit_xor t (bit_steps 8 (x % 256))) (sym (bit_steps-shift 8 (x / 256)))
    ∙ sym (bit_steps-xor 8 (x / 256 * 2 ^ 8) (x % 256))
    ∙ ap (bit_steps 8) (bit_xor_fields 8 (x / 256) (x % 256) (omega arith) ∙ omega arith)
  where
    x : ℕ
    x = bit_xor crc byte

    high : crc / 2 ^ 8 ≡ x / 256
    high = sym (
        bit_xor_shift 8 crc byte
        ∙ ap (bit_xor (crc / 2 ^ 8)) {x = byte / 2 ^ 8} {y = 0} (omega arith)
        ∙ bit_xor-zero (crc / 2 ^ 8))

-- The table-driven loop computes CRC-32 from every starting value, on every list of bytes.
abbrev pub AllBytes : List ℕ → Type 0
AllBytes [] = Unit
AllBytes (b ∷ bs) = (b < 256) × AllBytes bs

-- On every list of bytes and from every starting value the table-driven loop ends in the value of the
-- loop that feeds CRC-32 the bits of each byte one at a time.
pub table_loop-eq-bitwise :
    (crc : ℕ) (bytes : List ℕ) → AllBytes bytes → table_loop crc bytes ≡ bitwise_loop crc bytes
unfolding table_loop bitwise_loop
table_loop-eq-bitwise crc [] h = refl
table_loop-eq-bitwise crc (b ∷ bs) h =
    ap (λ t. table_loop t bs) (table_step-eq crc b h.0)
    ∙ table_loop-eq-bitwise (bit_steps 8 (bit_xor crc b)) bs h.1
