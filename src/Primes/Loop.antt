-- ===== src/Primes/Loop.antt =====
-- The loop of Primes ends, for there are primes above every number.
use native.Mathlib.Nat.{mul-mod_left, div-add-mod', add-mul-mod_self_right, mod-eq_of_lt}
use bsg_manycore.Prelude.{
  ℕ, zero, suc, ◌+◌, ◌-◌, ◌*◌, ◌/◌, ◌%◌, ◌≤◌, ◌<◌, ◌≡◌, refl, ap, ◌∙◌, arith, ℕ_discrete, dec_lt,
  Bool, true, false, if◌then◌else◌, Bool-cases, inl, inr, subst, some,
}
use bsg_manycore.Primes.{State, divisor_loop, next_number, prime_loop, first_prime}
use bsg_manycore.Primes.Divisors.{IsPrime, least_divisor, LeastDivisor-IsPrime}
use bsg_manycore.Primes.Table.{IsTable, next_number-IsTable, prime_passes, first_prime-IsTable}

-- the product of the numbers from 1 to k
abbrev product_to : ℕ → ℕ
product_to zero = 1
product_to (suc k) = product_to k * suc k

divided_product : (k d : ℕ) → 0 < d → d ≤ k → product_to k % d ≡ 0
divided_product zero d pos le = absurd (omega arith)
divided_product (suc k) d pos le = elim (ℕ_discrete d (suc k)) [
  | yes e ↦ ap (λ t. product_to k * suc k % t) e ∙ mul-mod_left (product_to k) (suc k)
  | no ne ↦
      let below = divided_product k d pos (omega arith) in
      let product : product_to k * suc k ≡ product_to k / d * suc k * d =
        grind (arith, div-add-mod' (product_to k) d) in
      ap (λ t. t % d) product ∙ mul-mod_left (product_to k / d * suc k) d
]

some_product : (k : ℕ) → 0 < product_to k
some_product zero = omega arith
some_product (suc k) = let h = some_product k in grind arith

next_undivided : (a d : ℕ) → 2 ≤ d → a % d ≡ 0 → (a + 1) % d ≡ 0 → ⊥
next_undivided a d two h h1 =
    let one : (a + 1) % d ≡ 1 =
      ap (λ t. t % d) {x = a + 1} {y = 1 + a / d * d} (omega (arith, div-add-mod' a d))
      ∙ add-mul-mod_self_right 1 (a / d) d
      ∙ mod-eq_of_lt (omega arith) in
    omega arith

-- There is a prime above every number.
pub IsPrime-above : (k : ℕ) → (p : ℕ) × (k < p) × IsPrime p
IsPrime-above k =
    let next = product_to k + 1 in
    let (d, le, l) = least_divisor next (let h = some_product k in omega arith) in
    let above : k < d = elim (dec_lt k d) [
      | yes lt ↦ lt
      | no ge ↦
          let divided = divided_product k d (let h = l.above_one in omega arith) (omega arith) in
          absurd (next_undivided (product_to k) d l.above_one divided l.divides)
    ] in
    (d, above, LeastDivisor-IsPrime next d l)

abbrev Ends : ℕ → State → Type 0
Ends N s =
    (fuel : ℕ) × (after : State) × (prime_loop fuel N s ≡ some after)
    × IsTable after
    × (after.n ≡ N)

one_round : (N : ℕ) (s : State) → s.n < N → Ends N (next_number s) → Ends N s
unfolding prime_loop
one_round N s lt (fuel, after, e, t, n) = (suc fuel, after, ground (arith, e), t, n)

next_number-fields :
    (s : State) (b : Bool)
    → divisor_loop s.n 0 s.prime s.curr true ≡ b
    → ((next_number s).curr ≡ s.curr + 1) × ((next_number s).n ≡ s.n + (if b then 1 else 0))
unfolding next_number
next_number-fields s true e = rw e (refl, refl)
next_number-fields s false e = rw e (refl, omega arith)

-- The loop ends after a prime has been found, if it ends with one prime less to come.
Ends-found :
    (N missing : ℕ) (s : State)
    → ((gap p : ℕ) (s : State)
        → IsTable s
        → 2 < s.curr
        → N ≡ s.n + missing
        → IsPrime p
        → p ≡ s.curr + gap
        → Ends N s)
    → IsTable s
    → 2 < s.curr
    → N ≡ s.n + suc missing
    → divisor_loop s.n 0 s.prime s.curr true ≡ true
    → Ends N s
Ends-found N missing s less t two e passed =
    let (c, n) = next_number-fields s true passed in
    let (p, above, q) = IsPrime-above (s.curr) in
    one_round N s (omega arith) (
      less (p - (s.curr + 1)) p (next_number s) (next_number-IsTable s t two) (omega arith)
        (omega arith) q (omega arith))

-- From a table with `missing` primes to come and a prime `gap` above curr, the loop ends.
ends :
    (N missing gap p : ℕ) (s : State)
    → IsTable s
    → 2 < s.curr
    → N ≡ s.n + missing
    → IsPrime p
    → p ≡ s.curr + gap
    → Ends N s
unfolding prime_loop
ends N zero gap p s t two e q ep = (1, s, ground arith, t, omega arith)
ends N (suc missing) zero p s t two e q ep =
    Ends-found N missing s (ends N missing) t two e
      (prime_passes s t two (subst IsPrime {x = p} {y = s.curr} (omega arith) q))
ends N (suc missing) (suc gap) p s t two e q ep =
    elim (Bool-cases (divisor_loop s.n 0 s.prime s.curr true)) [
      | inl passed ↦ Ends-found N missing s (ends N missing) t two e passed
      | inr failed ↦
          let (c, n) = next_number-fields s false failed in
          one_round N s (omega arith) (
            ends N (suc missing) gap p (next_number s) (next_number-IsTable s t two) (omega arith)
              (omega arith) q (omega arith))
    ]

-- For every N above 0 there is a fuel with which the loop of main ends, and then the array holds exactly
-- the first N primes, in increasing order: they are all the primes below curr.
pub prime_loop_lem :
    (N : ℕ)
    → 0 < N
    → (fuel : ℕ) × (after : State) × (prime_loop fuel N first_prime ≡ some after)
      × IsTable after
      × (after.n ≡ N)
prime_loop_lem N some_n =
    let (p, above, q) = IsPrime-above 2 in
    ends N (N - 1) (p - 3) p first_prime first_prime-IsTable (omega arith) (omega arith) q
      (omega arith)
