-- ===== src/Kernels/Softmax/Maximum.antt =====
-- The maximum that the reduction of Kernels/Softmax with max finds.
use bsg_manycore.Prelude.{
  ℕ, ◌*◌, ◌<◌, ◌≡◌, ◌⊎◌, inl, inr, refl, ap₂, sym, arith, Bool, true, false, Bool-cases, subst,
}
use bsg_manycore.Kernels.Softmax.{max_by}
use bsg_manycore.Kernels.Softmax.Combined
use bsg_manycore.Kernels.Softmax.Combined.{Combined, one_at}

one_place : (y x i j : ℕ) → 0 < one_at y i * one_at x j → (i ≡ y) × (j ≡ x)
one_place y x i j some = (grind arith, grind arith)

-- The comparison of floats that are no NaN.
pub record OrdersNumbers (number : ℕ → Type 0) (gt : ℕ → ℕ → Bool) (minus_infinity : ℕ)
    : Type 0 where
  pub irreflexive : (a : ℕ) → number a → gt a a ≡ false
  pub asymmetric : (a b : ℕ) → number a → number b → gt a b ≡ true → gt b a ≡ false
  pub transitive :
      (a b c : ℕ)
      → number a
      → number b
      → number c
      → gt a b ≡ false
      → gt b c ≡ false
      → gt a c ≡ false
  pub least : number minus_infinity

module _ (number : ℕ → Type 0) (gt : ℕ → ℕ → Bool) (minus_infinity : ℕ)
    (order : OrdersNumbers number gt minus_infinity) (f : ℕ → ℕ → ℕ) where
  -- `v` is a maximum of the elements that are taken in, or of none.
  pub record IsMaximum (count : ℕ → ℕ → ℕ) (v : ℕ) : Type 0 where
    pub is_number : number v
    pub bound : (y x : ℕ) → 0 < count y x → gt (f y x) v ≡ false
    pub attained : (v ≡ minus_infinity) ⊎ ((y : ℕ) × (x : ℕ) × (0 < count y x) × (v ≡ f y x))

  -- Of two maxima the one that the other does not exceed is that of all.
  joined :
      (count l r : ℕ → ℕ → ℕ) (a b : ℕ)
      → ((y x : ℕ) → 0 < count y x → number (f y x))
      → ((y x : ℕ) → 0 < count y x → (0 < l y x) ⊎ (0 < r y x))
      → ((y x : ℕ) → 0 < l y x → 0 < count y x)
      → IsMaximum l a
      → IsMaximum r b
      → gt b a ≡ false
      → IsMaximum count a
  joined count l r a b n split in_l left right e = record {
    is_number = left.is_number;
    bound = λ y x some. elim (split y x some) [
      | inl here ↦ left.bound y x here
      | inr there ↦
          order.transitive (f y x) b a (n y x some) right.is_number left.is_number
            (right.bound y x there) e
    ];
    attained = elim left.attained [
      | inl empty ↦ inl empty
      | inr (y, x, here, e) ↦ inr (y, x, in_l y x here, e)
    ];
  }

  pub Combined-IsMaximum :
      (count : ℕ → ℕ → ℕ) (v : ℕ)
      → ((y x : ℕ) → 0 < count y x → number (f y x))
      → Combined (max_by gt) minus_infinity f count v
      → IsMaximum count v
  Combined-IsMaximum count _ n (Combined.Combined.nothing _ h) = record {
    is_number = order.least;
    bound = λ y x some. absurd (omega (arith, h y x));
    attained = inl refl;
  }
  Combined-IsMaximum count _ n (Combined.Combined.element _ y x h) =
      let here : 0 < count y x = ground (arith, h y x) in
      record {
        is_number = n y x here;
        bound = λ i j some.
            let (ei, ej) = one_place y x i j (subst (λ c. 0 < c) (h i j) some) in
            subst (λ t. gt t (f y x) ≡ false) (ap₂ f (sym ei) (sym ej))
              (order.irreflexive (f y x) (n y x here));
        attained = inr (y, x, here, refl);
      }
  Combined-IsMaximum count _ n (Combined.Combined.both _ l r a b p q h) =
      let left = Combined-IsMaximum l a (λ y x some. n y x (omega (arith, h y x))) p in
      let right = Combined-IsMaximum r b (λ y x some. n y x (omega (arith, h y x))) q in
      let in_l : (y x : ℕ) → 0 < l y x → 0 < count y x = λ y x some. omega (arith, h y x) in
      let in_r : (y x : ℕ) → 0 < r y x → 0 < count y x = λ y x some. omega (arith, h y x) in
      elim (Bool-cases (gt a b)) [
        | inl e ↦ rw e (
            joined count l r a b n (λ y x some. omega (arith, h y x)) in_l left right
              (order.asymmetric a b left.is_number right.is_number e))
        | inr e ↦ rw e (joined count r l b a n (λ y x some. omega (arith, h y x)) in_r right left e)
      ]
