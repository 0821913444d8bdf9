-- ===== src/Tests/Sieve.antt =====
-- The loop of Primes for the 20 primes of main.
use bsg_manycore.Prelude.{ℕ, ◌≡◌, refl, arith, some, true}
use bsg_manycore.Primes.{
  State, first_prime, divisor_loop, next_number, prime_loop, sum_primes, main_nprimes,
}
use bsg_manycore.Primes.Table.{IsTable}
use bsg_manycore.Primes.Loop.{prime_loop_lem}

-- main finds the sum 639 in 70 rounds.
main_nprimes_passes : main_nprimes 70 ≡ some true
unfolding main_nprimes prime_loop next_number divisor_loop sum_primes
main_nprimes_passes = refl

prime_loop_example :
    (fuel : ℕ) × (after : State) × (prime_loop fuel 20 first_prime ≡ some after)
    × IsTable after
    × (after.n ≡ 20)
prime_loop_example = prime_loop_lem 20 (omega arith)
