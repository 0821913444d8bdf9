-- ===== src/Memory.antt =====
-- Byte-addressed, little-endian memory as the processor sees it: what a C access of one, two or four
-- bytes through a pointer reads and writes. A pointer is a 32-bit address.
use bsg_manycore.Prelude.{
  ℕ, zero, suc, ◌+◌, ◌*◌, ◌/◌, ◌%◌, ◌^◌, ◌≤◌, ◌<◌, ◌≡◌, ◌⊎◌, inl, refl, ◌==◌, if◌then◌else◌, arith,
  ap, ap₂, sym, ◌∙◌,
}
use native.Mathlib.Nat.{pow-succ', div-add-mod', div-div-eq-div-mul}

-- the byte at each address; a load takes its low 8 bits
abbrev pub Memory : Type 0
Memory = ℕ → ℕ

abbrev pub update : Memory → ℕ → ℕ → Memory
update m a v b = if b == a then v else m b

-- a load of `n` bytes at `p`
unfoldable pub load : ℕ → Memory → ℕ → ℕ
load zero m p = 0
load (suc n) m p = m p % 256 + 256 * load n m (p + 1)

-- a store of the low `n` bytes of `v` at `p`
unfoldable pub store : ℕ → Memory → ℕ → ℕ → Memory
store zero m p v = m
store (suc n) m p v = store n (update m p (v % 256)) (p + 1) (v / 256)

-- The ranges [p, p + n) and [q, q + k) do not meet.
abbrev pub Apart : ℕ → ℕ → ℕ → ℕ → Type 0
Apart p n q k = (q + k ≤ p) ⊎ (p + n ≤ q)

pub store_outside : (n : ℕ) (m : Memory) (p v b : ℕ) → Apart p n b 1 → store n m p v b ≡ m b
unfolding store
store_outside zero m p v b h = refl
store_outside (suc n) m p v b h =
    store_outside n (update m p (v % 256)) (p + 1) (v / 256) b (omega arith) ∙ ground arith

pub load-eq_of_eq :
    (k : ℕ) (m m' : Memory) (q : ℕ)
    → ((b : ℕ) → q ≤ b → b < q + k → m b ≡ m' b)
    → load k m q ≡ load k m' q
unfolding load
load-eq_of_eq zero m m' q h = refl
load-eq_of_eq (suc k) m m' q h = omega (
  arith,
  h q (omega arith) (omega arith),
  load-eq_of_eq k m m' (q + 1) (λ b lo hi. h b (omega arith) (omega arith)),
)

mod-mul_split : (a b v : ℕ) → 0 < a → v % a + a * (v / a % b) ≡ v % (a * b)
mod-mul_split a b v h = omega (
  arith,
  div-add-mod' v a,
  div-add-mod' v (a * b),
  ap (λ (t : ℕ). t * a) (div-add-mod' (v / a) b),
  ap (λ (t : ℕ). t * b * a) (div-div-eq-div-mul v a b),
)

pub load-lt : (n : ℕ) (m : Memory) (p : ℕ) → load n m p < 256 ^ n
unfolding load
load-lt zero m p = omega arith
load-lt (suc n) m p = omega (arith, pow-succ' 256 n, load-lt n m (p + 1))

-- A load gives back the low bytes of what was stored at the same pointer.
pub load-store_self : (n : ℕ) (m : Memory) (p v : ℕ) → load n (store n m p v) p ≡ v % 256 ^ n
unfolding load store
load-store_self zero m p v = omega arith
load-store_self (suc n) m p v =
    ap₂ (λ b r. b % 256 + 256 * r)
      (store_outside n m' (p + 1) (v / 256) p (inl (omega arith)) ∙ here)
      (load-store_self n m' (p + 1) (v / 256))
    ∙ omega arith
    ∙ mod-mul_split 256 (256 ^ n) v (omega arith)
    ∙ ap (λ t. v % t) (sym (pow-succ' 256 n))
  where
    m' : Memory
    m' = update m p (v % 256)

    here : m' p ≡ v % 256
    here = ground arith

-- A store leaves loads elsewhere alone.
pub load-store-Apart :
    (k n : ℕ) (m : Memory) (p q v : ℕ) → Apart p n q k → load k (store n m p v) q ≡ load k m q
load-store-Apart k n m p q v h =
    load-eq_of_eq k (store n m p v) m q (λ b lo hi. store_outside n m p v b (omega arith))
