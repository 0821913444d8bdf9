-- ===== src/Primes/Divisors.antt =====
-- Prime numbers, and the least divisor of a number.
use native.Mathlib.Nat.{div-add-mod', mod_self, mul-mod_left}
use bsg_manycore.Prelude.{
  ℕ, zero, suc, ◌+◌, ◌-◌, ◌*◌, ◌/◌, ◌%◌, ◌≤◌, ◌<◌, ◌≡◌, ◌≢◌, ap, sym, ◌∙◌, arith, ℕ_discrete,
  dec_lt,
}

pub record IsPrime (p : ℕ) : Type 0 where
  pub at_least_two : 2 ≤ p
  pub undivided : (d : ℕ) → 2 ≤ d → d < p → p % d ≢ 0

-- the least divisor of `n` above 1
pub record LeastDivisor (n d : ℕ) : Type 0 where
  pub above_one : 2 ≤ d
  pub divides : n % d ≡ 0
  pub least : (e : ℕ) → 2 ≤ e → e < d → n % e ≢ 0

mod_trans : (n d e : ℕ) → n % d ≡ 0 → d % e ≡ 0 → 0 < e → n % e ≡ 0
mod_trans n d e nd de pos =
    let product : n ≡ n / d * (d / e) * e = grind (arith, div-add-mod' n d, div-add-mod' d e) in
    ap (λ t. t % e) product ∙ mul-mod_left (n / d * (d / e)) e

search_up :
    (k n d : ℕ)
    → d + k ≡ n
    → 2 ≤ d
    → ((e : ℕ) → 2 ≤ e → e < d → n % e ≢ 0)
    → (c : ℕ) × (c ≤ n) × LeastDivisor n c
search_up zero n d e two above = (
  d,
  omega arith,
  record {
    above_one = two;
    divides = ap (λ t. t % d) {x = n} {y = d} (omega arith) ∙ mod_self d;
    least = above;
  },
)
search_up (suc k) n d e two above = elim (ℕ_discrete (n % d) 0) [
  | yes divides ↦ (d, omega arith, record { above_one = two; divides = divides; least = above })
  | no undivided ↦ search_up k n (d + 1) (omega arith) (omega arith) (λ c lo hi divides.
      elim (ℕ_discrete c d) [
        | yes e ↦ undivided (ap (λ t. n % t) (sym e) ∙ divides)
        | no ne ↦ above c lo (omega arith) divides
      ])
]

pub least_divisor : (n : ℕ) → 2 ≤ n → (d : ℕ) × (d ≤ n) × LeastDivisor n d
least_divisor n two =
    search_up (n - 2) n 2 (omega arith) (omega arith) (λ e lo hi. absurd (omega arith))

pub LeastDivisor-IsPrime : (n d : ℕ) → LeastDivisor n d → IsPrime d
LeastDivisor-IsPrime n d l = record {
  at_least_two = l.above_one;
  undivided =
      λ e two below divides. l.least e two below (mod_trans n d e l.divides divides (omega arith));
}

-- Of a number that is no prime the square of the least divisor is at most the number.
pub LeastDivisor-le : (n d : ℕ) → LeastDivisor n d → d < n → d * d ≤ n
LeastDivisor-le n d l below =
    let product : n ≡ d * (n / d) = grind (arith, div-add-mod' n d) in
    let two : 2 ≤ n / d = grind arith in
    let divides : n % (n / d) ≡ 0 = ap (λ t. t % (n / d)) product ∙ mul-mod_left d (n / d) in
    let large : d ≤ n / d = elim (dec_lt (n / d) d) [
      | yes lt ↦ absurd (l.least (n / d) two lt divides)
      | no le ↦ omega arith
    ] in
    grind arith
