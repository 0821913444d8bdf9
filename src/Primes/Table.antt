-- ===== src/Primes/Table.antt =====
-- What the array of primes holds in the loop of Primes.
use bsg_manycore.Prelude.{
  ℕ, zero, suc, ◌+◌, ◌*◌, ◌%◌, ◌≤◌, ◌<◌, ◌≡◌, ◌≢◌, refl, ap, sym, ◌∙◌, arith, ℕ_discrete, true,
  false, subst,
}
use bsg_manycore.Primes.{State, divisor_loop, put, next_number, first_prime}
use bsg_manycore.Primes.Divisors.{
  IsPrime, LeastDivisor, least_divisor, LeastDivisor-IsPrime, LeastDivisor-le,
}

-- The first n elements are the primes below curr, in order.
pub record IsTable (s : State) : Type 0 where
  pub prime_here : (i : ℕ) → i < s.n → IsPrime (s.prime i)
  pub below : (i : ℕ) → i < s.n → s.prime i < s.curr
  pub increasing : (i j : ℕ) → i < j → j < s.n → s.prime i < s.prime j
  pub complete : (p : ℕ) → IsPrime p → p < s.curr → (i : ℕ) × (i < s.n) × (s.prime i ≡ p)

-- The loop keeps is_prime exactly if no prime that it comes to divides curr.
divisor_loop-false :
    (rounds i : ℕ) (prime : ℕ → ℕ) (curr : ℕ) → divisor_loop rounds i prime curr false ≡ false
unfolding divisor_loop
divisor_loop-false zero i prime curr = refl
divisor_loop-false (suc rounds) i prime curr =
    ground (arith, divisor_loop-false rounds (i + 1) prime curr)

divisor_loop-found :
    (rounds i k : ℕ) (prime : ℕ → ℕ) (curr : ℕ)
    → i ≤ k
    → k < i + rounds
    → ((j : ℕ) → i ≤ j → j ≤ k → prime j * prime j ≤ curr)
    → curr % prime k ≡ 0
    → divisor_loop rounds i prime curr true ≡ false
unfolding divisor_loop
divisor_loop-found zero i k prime curr le lt small divides = absurd (omega arith)
divisor_loop-found (suc rounds) i k prime curr le lt small divides =
    let here = small i (omega arith) le in
    elim (ℕ_discrete i k) [
      | yes e ↦
          let d : curr % prime i ≡ 0 = ap (λ j. curr % prime j) e ∙ divides in
          ground (arith, divisor_loop-false rounds (i + 1) prime curr)
      | no ne ↦
          let rest =
            divisor_loop-found rounds (i + 1) k prime curr (omega arith) (omega arith)
              (λ j lo hi. small j (omega arith) hi) divides in
          ground (arith, divisor_loop-false rounds (i + 1) prime curr)
    ]

divisor_loop-kept :
    (rounds i : ℕ) (prime : ℕ → ℕ) (curr : ℕ)
    → ((j : ℕ) → i ≤ j → j < i + rounds → curr % prime j ≢ 0)
    → divisor_loop rounds i prime curr true ≡ true
unfolding divisor_loop
divisor_loop-kept zero i prime curr h = refl
divisor_loop-kept (suc rounds) i prime curr h =
    let here = h i (omega arith) (omega arith) in
    let rest =
      divisor_loop-kept rounds (i + 1) prime curr (λ j lo hi. h j (omega arith) (omega arith)) in
    ground arith

square_le : (a b n : ℕ) → a ≤ b → b * b ≤ n → a * a ≤ n
square_le a b n le h = grind arith

module _ (s : State) (t : IsTable s) (two : 2 < s.curr) where
  -- A number passes exactly if it is prime.
  pub prime_passes : IsPrime s.curr → divisor_loop s.n 0 s.prime s.curr true ≡ true
  prime_passes p = divisor_loop-kept s.n 0 s.prime s.curr (λ j _ hi divides.
      p.undivided (s.prime j) ((t.prime_here j (omega arith)).at_least_two)
        (t.below j (omega arith)) divides)

  composite_found :
      (d : ℕ) → LeastDivisor s.curr d → d < s.curr → divisor_loop s.n 0 s.prime s.curr true ≡ false
  composite_found d l lt =
      let (k, below, e) = t.complete d (LeastDivisor-IsPrime s.curr d l) lt in
      divisor_loop-found s.n 0 k s.prime s.curr (omega arith) (omega arith)
        (λ j _ le.
          let up : s.prime j ≤ s.prime k = elim (ℕ_discrete j k) [
            | yes e1 ↦ omega (arith, ap s.prime e1)
            | no ne ↦ omega (arith, t.increasing j k (omega arith) below)
          ] in
          let square = LeastDivisor-le s.curr d l lt in
          square_le (s.prime j) d s.curr (omega arith) square)
        (ap (λ q. s.curr % q) e ∙ l.divides)

  added :
      IsPrime s.curr
      → IsTable (record { prime = put s.prime s.n s.curr; n = s.n + 1; curr = s.curr + 1 })
  added p = record {
    prime_here = λ i lt. elim (ℕ_discrete i s.n) [
      | yes e ↦ let f : put s.prime s.n s.curr i ≡ s.curr = ground arith in subst IsPrime (sym f) p
      | no ne ↦
          let f : put s.prime s.n s.curr i ≡ s.prime i = ground arith in
          subst IsPrime (sym f) (t.prime_here i (omega arith))
    ];
    below = λ i lt. let h = t.below i in ground arith;
    increasing = λ i j lt hj. let h = t.increasing i j lt in let h1 = t.below i in ground arith;
    complete = λ p q lt. elim (ℕ_discrete p s.curr) [
      | yes e ↦ (s.n, omega arith, ground arith)
      | no ne ↦ let (i, hi, e) = t.complete p q (omega arith) in (i, omega arith, ground arith)
    ];
  }

  skipped : ¬ IsPrime s.curr → IsTable (record s { curr = s.curr + 1 })
  skipped composite = record {
    prime_here = t.prime_here;
    below = λ i lt. omega (arith, t.below i lt);
    increasing = t.increasing;
    complete = λ p q lt. elim (ℕ_discrete p s.curr) [
      | yes e ↦ absurd (composite (subst IsPrime e q))
      | no ne ↦ t.complete p q (omega arith)
    ];
  }

  pub next_number-IsTable : IsTable (next_number s)
  unfolding next_number
  next_number-IsTable =
      let (d, le, l) = least_divisor s.curr (omega arith) in
      elim (ℕ_discrete d s.curr) [
        | yes e ↦
            let p = subst IsPrime e (LeastDivisor-IsPrime s.curr d l) in
            rw (prime_passes p) (added p)
        | no ne ↦
            rw (composite_found d l (omega arith))
              (skipped (λ p. p.undivided d l.above_one (omega arith) l.divides))
      ]

two-IsPrime : IsPrime 2
two-IsPrime = record { at_least_two = omega arith; undivided = λ d lo hi. absurd (omega arith) }

pub first_prime-IsTable : IsTable first_prime
first_prime-IsTable = record {
  prime_here =
      λ i lt. let f : put (λ i. 0) 0 2 i ≡ 2 = ground arith in subst IsPrime (sym f) two-IsPrime;
  below = λ i lt. ground arith;
  increasing = λ i j lt hj. absurd (omega arith);
  complete = λ p q lt. (0, omega arith, let h = q.at_least_two in omega arith);
}
