-- ===== src/Prelude/Bits.antt =====
-- Laws of the digitwise operations at variables: the equation of the lowest digit, a field above a
-- field as a sum, a low mask as a remainder, and the algebra of exclusive or.
use Prim.Native.Nat.{
  ℕ, zero, suc, ◌+◌, ◌-◌, ◌*◌, ◌/◌, ◌%◌, ◌^◌, ◌<◌, ◌≤◌, min, max, bit_and, bit_or, bit_xor, digits,
  bitwise, differ, bit_and-bitwise, bit_or-bitwise, bit_xor-bitwise,
}
use mathlib.Core.Path.{◌≡◌, refl, sym, ap, ◌∙◌, ◌≡⟨◌⟩◌, ◌∎}
use mathlib.Core.Logic.{◌⊎◌}
use native.Mathlib.Nat.{pow-suc, pow-succ', one-le-pow, div-one, div-div-eq-div-mul}
use native.Mathlib.Omega.{arith}

-- The recursion of `bitwise` on binary digits has fuel; fuel that is left over changes nothing.
module _ (alone : ℕ → ℕ) (op : ℕ → ℕ → ℕ) where
  one_more : (fuel x y : ℕ) → x ≤ fuel → digits alone op (suc fuel) x y ≡ digits alone op fuel x y
  one_more zero zero y enough = refl
  one_more (suc fuel) zero y enough = refl
  one_more zero (suc x) y enough = elim enough [ ]
  one_more (suc fuel) (suc x) y enough =
      ap (λ (t : ℕ). t * 2 + op (suc x % 2) (y % 2))
        (one_more fuel (suc x / 2) (y / 2) (omega arith))

  left_over : (spare x y : ℕ) → digits alone op (spare + x) x y ≡ digits alone op x x y
  left_over zero x y = ap (λ t. digits alone op t x y) (omega arith)
  left_over (suc spare) x y =
      ap (λ t. digits alone op t x y) {y = suc (spare + x)} (omega arith)
      ∙ one_more (spare + x) x y (omega arith)
      ∙ left_over spare x y

  lowest_digit :
      (x y : ℕ)
      → bitwise alone op (suc x) y
        ≡ bitwise alone op (suc x / 2) (y / 2) * 2 + op (suc x % 2) (y % 2)
  lowest_digit x y =
      ap (λ (t : ℕ). t * 2 + op (suc x % 2) (y % 2))
        (ap (λ t. digits alone op t (suc x / 2) (y / 2)) {y = x - suc x / 2 + suc x / 2}
            (omega arith)
          ∙ left_over (x - suc x / 2) (suc x / 2) (y / 2))

zero-differ : (b : ℕ) → differ 0 b ≡ b
zero-differ b = refl

pub zero-bit_xor : (b : ℕ) → bit_xor 0 b ≡ b
zero-bit_xor b = bit_xor-bitwise 0 b

bit_xor-differ : (x y : ℕ) → bit_xor x y ≡ bit_xor (x / 2) (y / 2) * 2 + differ (x % 2) (y % 2)
bit_xor-differ zero y = omega (arith, zero-bit_xor y, zero-bit_xor (y / 2))
bit_xor-differ (suc x) y = simp bit_xor-bitwise (lowest_digit (λ t. t) differ x y)

pub bit_and_digit : (x y : ℕ) → min (x % 2) (y % 2) + bit_and (x / 2) (y / 2) * 2 ≡ bit_and x y
bit_and_digit zero y = simp bit_and-bitwise (omega arith)
bit_and_digit (suc x) y = simp bit_and-bitwise (omega (arith, lowest_digit (λ t. 0) min x y))

pub bit_or_digit : (x y : ℕ) → bit_or x y ≡ bit_or (x / 2) (y / 2) * 2 + max (x % 2) (y % 2)
bit_or_digit zero y = simp bit_or-bitwise (omega arith)
bit_or_digit (suc x) y = simp bit_or-bitwise (lowest_digit (λ t. t) max x y)

-- Both operations with 0, for numbers up to a bound.
ends_zero : (n x : ℕ) → x ≤ n → (bit_or x 0 ≡ x) × (bit_and x 0 ≡ 0)
ends_zero zero x h = let e : x ≡ 0 = omega arith in rw e (refl, refl)
ends_zero (suc n) x h =
    let (o, a) = ends_zero n (x / 2) (omega arith) in
    (omega (arith, bit_or_digit x 0, o), omega (arith, bit_and_digit x 0, a))

bit_or-zero : (x : ℕ) → bit_or x 0 ≡ x
bit_or-zero x = (ends_zero x x (omega arith)).0

-- A field shifted by one more place is even, and half of it is shifted by one place less.
mul-two-pow-suc : (hi k : ℕ) → hi * 2 ^ suc k ≡ 2 * (hi * 2 ^ k)
mul-two-pow-suc hi k = omega (arith, ap (λ (p : ℕ). hi * p) (pow-suc 2 k))

-- A field above `k` bits and one within them: `|` adds them, and the mask of `k` bits gives back the
-- low one.
fields :
    (k hi lo : ℕ)
    → lo < 2 ^ k
    → (bit_or (hi * 2 ^ k) lo ≡ hi * 2 ^ k + lo) × (bit_and (hi * 2 ^ k + lo) (2 ^ k - 1) ≡ lo)
fields zero hi lo small =
    let none : lo ≡ 0 = omega arith in
    (
      ground (arith, bit_or-zero hi),
      rw (ends_zero (hi * 1 + lo) (hi * 1 + lo) (omega arith)).1 (omega arith),
    )
fields (suc k) hi lo small =
    let (above, below) = fields k hi (lo / 2) (omega arith) in
    (
      ground (arith, bit_or_digit (hi * 2 ^ suc k) lo, mul-two-pow-suc hi k, above),
      ground (
        arith,
        bit_and_digit (hi * 2 ^ suc k + lo) (2 ^ suc k - 1),
        mul-two-pow-suc hi k,
        pow-suc 2 k,
        below,
      ),
    )

pub bit_or_fields : (k hi lo : ℕ) → lo < 2 ^ k → bit_or (hi * 2 ^ k) lo ≡ hi * 2 ^ k + lo
bit_or_fields k hi lo small = (fields k hi lo small).0

-- `& (2 ^ k - 1)` is the remainder by 2 ^ k.
pub bit_and_mask : (k p : ℕ) → bit_and p (2 ^ k - 1) ≡ p % 2 ^ k
bit_and_mask k p =
    ground
      (arith, one-le-pow k 2, (fields k (p / 2 ^ k) (p % 2 ^ k) (ground (arith, one-le-pow k 2))).1)

-- The lowest digit of an exclusive or is the sum of the lowest digits.
differ-eq-mod : (x y : ℕ) → differ (x % 2) (y % 2) ≡ (x + y) % 2
differ-eq-mod x y = ground (arith, bit x, bit y)
  where
    bit : (n : ℕ) → (n % 2 ≡ 0) ⊎ (n % 2 ≡ 1)
    bit n = omega arith

pub bit_xor_digit : (a b : ℕ) → bit_xor a b ≡ bit_xor (a / 2) (b / 2) * 2 + (a + b) % 2
bit_xor_digit a b = omega (arith, bit_xor-differ a b, differ-eq-mod a b)

pub bit_xor_halves :
    (a b : ℕ) → (bit_xor a b / 2 ≡ bit_xor (a / 2) (b / 2)) × (bit_xor a b % 2 ≡ (a + b) % 2)
bit_xor_halves a b = omega (arith, bit_xor_digit a b)

bit_xor_comm_below : (n a b : ℕ) → a ≤ n → b ≤ n → bit_xor a b ≡ bit_xor b a
bit_xor_comm_below zero a b ha hb =
    let ea : a ≡ 0 = omega arith in let eb : b ≡ 0 = omega arith in rw (ea, eb)
bit_xor_comm_below (suc n) a b ha hb = omega (
  arith,
  bit_xor_digit a b,
  bit_xor_digit b a,
  bit_xor_comm_below n (a / 2) (b / 2) (omega arith) (omega arith),
)

pub bit_xor_comm : (a b : ℕ) → bit_xor a b ≡ bit_xor b a
bit_xor_comm a b = bit_xor_comm_below (a + b) a b (omega arith) (omega arith)

-- One digit of associativity, from the digits above.
bit_xor_assoc_step :
    (a b c : ℕ)
    → bit_xor (bit_xor (a / 2) (b / 2)) (c / 2) ≡ bit_xor (a / 2) (bit_xor (b / 2) (c / 2))
    → bit_xor (bit_xor a b) c ≡ bit_xor a (bit_xor b c)
bit_xor_assoc_step a b c ih =
    bit_xor (bit_xor a b) c
    ≡⟨ bit_xor_digit (bit_xor a b) c ⟩ bit_xor (bit_xor a b / 2) (c / 2) * 2 + (bit_xor a b + c) % 2
    ≡⟨ ap (λ t. bit_xor t (c / 2) * 2 + (bit_xor a b + c) % 2) (bit_xor_halves a b).0 ⟩
      bit_xor (bit_xor (a / 2) (b / 2)) (c / 2) * 2 + (bit_xor a b + c) % 2
    ≡⟨ omega (arith, ih, bit_xor_halves a b, bit_xor_halves b c) ⟩
      bit_xor (a / 2) (bit_xor (b / 2) (c / 2)) * 2 + (a + bit_xor b c) % 2
    ≡⟨ ap (λ t. bit_xor (a / 2) t * 2 + (a + bit_xor b c) % 2) (sym (bit_xor_halves b c).0) ⟩
      bit_xor (a / 2) (bit_xor b c / 2) * 2 + (a + bit_xor b c) % 2
    ≡⟨ sym (bit_xor_digit a (bit_xor b c)) ⟩ bit_xor a (bit_xor b c) ∎

bit_xor_assoc_below :
    (n a b c : ℕ) → a ≤ n → b ≤ n → c ≤ n → bit_xor (bit_xor a b) c ≡ bit_xor a (bit_xor b c)
bit_xor_assoc_below zero a b c ha hb hc =
    let ea : a ≡ 0 = omega arith in
    let eb : b ≡ 0 = omega arith in let ec : c ≡ 0 = omega arith in rw (ea, eb, ec)
bit_xor_assoc_below (suc n) a b c ha hb hc =
    bit_xor_assoc_step a b c
      (bit_xor_assoc_below n (a / 2) (b / 2) (c / 2) (omega arith) (omega arith) (omega arith))

pub bit_xor_assoc : (a b c : ℕ) → bit_xor (bit_xor a b) c ≡ bit_xor a (bit_xor b c)
bit_xor_assoc a b c =
    bit_xor_assoc_below (a + b + c) a b c (omega arith) (omega arith) (omega arith)

-- Exclusive or stays within a width.
pub bit_xor-lt_pow : (k a b : ℕ) → a < 2 ^ k → b < 2 ^ k → bit_xor a b < 2 ^ k
bit_xor-lt_pow zero a b ha hb =
    let ea : a ≡ 0 = omega arith in let eb : b ≡ 0 = omega arith in rw (ea, eb) (omega arith)
bit_xor-lt_pow (suc k) a b ha hb = omega (
  arith,
  pow-suc 2 k,
  bit_xor_digit a b,
  bit_xor-lt_pow k (a / 2) (b / 2) (omega (arith, pow-suc 2 k)) (omega (arith, pow-suc 2 k)),
)

bit_or_halves :
    (a b : ℕ) → (bit_or a b / 2 ≡ bit_or (a / 2) (b / 2)) × (bit_or a b % 2 ≡ max (a % 2) (b % 2))
bit_or_halves a b = omega (arith, bit_or_digit a b)

bit_or_comm_below : (n a b : ℕ) → a ≤ n → b ≤ n → bit_or a b ≡ bit_or b a
bit_or_comm_below zero a b ha hb =
    let ea : a ≡ 0 = omega arith in let eb : b ≡ 0 = omega arith in rw (ea, eb)
bit_or_comm_below (suc n) a b ha hb = omega (
  arith,
  bit_or_digit a b,
  bit_or_digit b a,
  bit_or_comm_below n (a / 2) (b / 2) (omega arith) (omega arith),
)

pub bit_or_comm : (a b : ℕ) → bit_or a b ≡ bit_or b a
bit_or_comm a b = bit_or_comm_below (a + b) a b (omega arith) (omega arith)

bit_or_assoc_step :
    (a b c : ℕ)
    → bit_or (bit_or (a / 2) (b / 2)) (c / 2) ≡ bit_or (a / 2) (bit_or (b / 2) (c / 2))
    → bit_or (bit_or a b) c ≡ bit_or a (bit_or b c)
bit_or_assoc_step a b c ih =
    bit_or (bit_or a b) c
    ≡⟨ bit_or_digit (bit_or a b) c ⟩
      bit_or (bit_or a b / 2) (c / 2) * 2 + max (bit_or a b % 2) (c % 2)
    ≡⟨ ap (λ t. bit_or t (c / 2) * 2 + max (bit_or a b % 2) (c % 2)) (bit_or_halves a b).0 ⟩
      bit_or (bit_or (a / 2) (b / 2)) (c / 2) * 2 + max (bit_or a b % 2) (c % 2)
    ≡⟨ omega (arith, ih, bit_or_halves a b, bit_or_halves b c) ⟩
      bit_or (a / 2) (bit_or (b / 2) (c / 2)) * 2 + max (a % 2) (bit_or b c % 2)
    ≡⟨ ap (λ t. bit_or (a / 2) t * 2 + max (a % 2) (bit_or b c % 2)) (sym (bit_or_halves b c).0) ⟩
      bit_or (a / 2) (bit_or b c / 2) * 2 + max (a % 2) (bit_or b c % 2)
    ≡⟨ sym (bit_or_digit a (bit_or b c)) ⟩ bit_or a (bit_or b c) ∎

bit_or_assoc_below :
    (n a b c : ℕ) → a ≤ n → b ≤ n → c ≤ n → bit_or (bit_or a b) c ≡ bit_or a (bit_or b c)
bit_or_assoc_below zero a b c ha hb hc =
    let ea : a ≡ 0 = omega arith in
    let eb : b ≡ 0 = omega arith in let ec : c ≡ 0 = omega arith in rw (ea, eb, ec)
bit_or_assoc_below (suc n) a b c ha hb hc =
    bit_or_assoc_step a b c
      (bit_or_assoc_below n (a / 2) (b / 2) (c / 2) (omega arith) (omega arith) (omega arith))

pub bit_or_assoc : (a b c : ℕ) → bit_or (bit_or a b) c ≡ bit_or a (bit_or b c)
bit_or_assoc a b c = bit_or_assoc_below (a + b + c) a b c (omega arith) (omega arith) (omega arith)

-- Two fields may be or-ed in either order.
pub bit_or_swap : (a b c : ℕ) → bit_or (bit_or a b) c ≡ bit_or (bit_or a c) b
bit_or_swap a b c =
    bit_or_assoc a b c ∙ ap (λ t. bit_or a t) (bit_or_comm b c) ∙ sym (bit_or_assoc a c b)

-- Exclusive or digit by digit: fields, halves and regrouping.
pub bit_xor-zero : (a : ℕ) → bit_xor a 0 ≡ a
bit_xor-zero a = bit_xor_comm a 0 ∙ zero-bit_xor a

pub bit_xor_fields : (k q r : ℕ) → r < 2 ^ k → bit_xor (q * 2 ^ k) r ≡ q * 2 ^ k + r
bit_xor_fields zero q r fits = ground (arith, bit_xor-zero q)
bit_xor_fields (suc k) q r fits = ground (
  arith,
  bit_xor_digit (q * 2 ^ suc k) r,
  mul-two-pow-suc q k,
  bit_xor_fields k q (r / 2) (omega arith),
)

pub bit_xor_shift : (k a b : ℕ) → bit_xor a b / 2 ^ k ≡ bit_xor (a / 2 ^ k) (b / 2 ^ k)
bit_xor_shift zero a b = rw (div-one (bit_xor a b), div-one a, div-one b)
bit_xor_shift (suc k) a b =
    rw
      (
        pow-succ' 2 k,
        ← div-div-eq-div-mul (bit_xor a b) 2 (2 ^ k),
        ← div-div-eq-div-mul a 2 (2 ^ k),
        ← div-div-eq-div-mul b 2 (2 ^ k),
        (bit_xor_halves a b).0,
      )
      (bit_xor_shift k (a / 2) (b / 2))

pub bit_xor_interchange :
    (a b c d : ℕ) → bit_xor (bit_xor a b) (bit_xor c d) ≡ bit_xor (bit_xor a c) (bit_xor b d)
bit_xor_interchange a b c d =
    bit_xor_assoc a b (bit_xor c d)
    ∙ ap (bit_xor a)
        (sym (bit_xor_assoc b c d) ∙ ap (λ t. bit_xor t d) (bit_xor_comm b c) ∙ bit_xor_assoc c b d)
    ∙ sym (bit_xor_assoc a c (bit_xor b d))

pub zero-bit_or : (b : ℕ) → bit_or 0 b ≡ b
zero-bit_or b = bit_or-bitwise 0 b

bit_xor_self_below : (n a : ℕ) → a ≤ n → bit_xor a a ≡ 0
bit_xor_self_below zero a h = let e : a ≡ 0 = omega arith in rw e
bit_xor_self_below (suc n) a h =
    omega (arith, bit_xor_digit a a, bit_xor_self_below n (a / 2) (omega arith))

pub bit_xor_self : (a : ℕ) → bit_xor a a ≡ 0
bit_xor_self a = bit_xor_self_below a a (omega arith)
