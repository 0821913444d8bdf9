-- ===== src/Primes.antt =====
-- software/spmd/nprimes/main.c: the sum of the first N primes. With N = 20 no int exceeds 71 * 71.
pub mod Divisors
pub mod Table
pub mod Loop
use mathlib.Core.Option
use bsg_manycore.Prelude.{
  ℕ, zero, suc, ◌+◌, ◌*◌, ◌%◌, Bool, true, false, ltb, ◌==◌, if◌then◌else◌, Option, none, some,
}

-- `prime` and the variables n and curr
pub record State : Type 0 where
  pub prime : ℕ → ℕ
  pub n : ℕ
  pub curr : ℕ

-- `rounds` of the loop over i, to the end or to `break`
unfoldable pub divisor_loop :
    (rounds i : ℕ) → (prime : ℕ → ℕ) → (curr : ℕ) → (is_prime : Bool) → Bool
divisor_loop zero i prime curr is_prime = is_prime
divisor_loop (suc rounds) i prime curr is_prime =
    let divided = if curr % prime i == 0 then false else is_prime in
    let rest = divisor_loop rounds (i + 1) prime curr divided in
    if ltb curr (prime i * prime i) then is_prime else rest

abbrev pub put : (ℕ → ℕ) → ℕ → ℕ → ℕ → ℕ
put prime i p j = if j == i then p else prime j

-- a round of `while (n < N)`
unfoldable pub next_number : State → State
next_number s =
    if divisor_loop s.n 0 s.prime s.curr true
    then (record { prime = put s.prime s.n s.curr; n = s.n + 1; curr = s.curr + 1 })
    else (record s { curr = s.curr + 1 })

-- `none` is a loop that has not ended when the fuel runs out
unfoldable pub prime_loop : (fuel N : ℕ) → State → Option State
prime_loop zero N s = none
prime_loop (suc fuel) N s =
    let rest = prime_loop fuel N (next_number s) in if ltb s.n N then rest else some s

-- what main starts the loop with
abbrev pub first_prime : State
first_prime = record { prime = put (λ i. 0) 0 2; n = 1; curr = 3 }

-- the sum of the first `rounds` elements
unfoldable pub sum_primes : (rounds : ℕ) → (prime : ℕ → ℕ) → ℕ
sum_primes zero prime = 0
sum_primes (suc rounds) prime = sum_primes rounds prime + prime rounds

-- main with N = 20 and ANSWER = 639: whether it ends with bsg_finish
unfoldable pub main_nprimes : (fuel : ℕ) → Option Bool
unfolding prime_loop sum_primes
main_nprimes fuel = Option.map (λ s. sum_primes 20 s.prime == 639) (prime_loop fuel 20 first_prime)
