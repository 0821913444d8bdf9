-- ===== src/Quicksort/Correct.antt =====
-- The order of ints, and what the two recursive calls of quicksort in software/spmd/quicksort/main.c
-- make of a partitioned array.
use mathlib.Core.Logic.Or
use mathlib.Core.List.{Mem, Perm, mem-cons, not-mem-nil, mem-append, perm_middle}
use mathlib.Core.List.Perm
use native.Mathlib.Bridge.{le_prop}
use bsg_manycore.Prelude.{
  ℕ, suc, ◌+◌, ◌-◌, ◌≤◌, ◌<◌, ◌≡◌, refl, ap, ◌∙◌, arith, List, [], ◌∷◌, ◌++◌, length, ◌==◌, Bool,
  Bool-cases, inl, inr, true, false, not, some, take, drop,
}
use bsg_manycore.Quicksort.{bias, ge_int, Result, sort_part, sort_parts}
use bsg_manycore.Quicksort.Partition.{smaller, larger_onto}

-- in the order of ints, each element before all that follow
abbrev pub Sorted : List ℕ → Type 0
Sorted [] = Unit
Sorted (x ∷ xs) = ((y : ℕ) → Mem y xs → bias x ≤ bias y) × Sorted xs

pub smaller-lt : (c y : ℕ) (xs : List ℕ) → Mem y (smaller c xs) → bias y ≤ bias c
smaller-lt c y [] m = absurd (not-mem-nil m)
smaller-lt c y (x ∷ xs) m = elim (Bool-cases (ge_int x c)) [
  | inl ge ↦ smaller-lt c y xs (rw ge at m)
  | inr lt ↦
      let m' : Mem y (x ∷ smaller c xs) = rw lt at m in
      Or.elim le_prop (mem-cons.0 m') (λ e. rw e (below lt)) (smaller-lt c y xs)
]
  where
    below : ge_int x c ≡ false → bias x ≤ bias c
    below h = ground arith

pub larger_onto-ge :
    (c y : ℕ) (xs acc : List ℕ)
    → ((z : ℕ) → Mem z acc → bias c ≤ bias z)
    → Mem y (larger_onto c xs acc)
    → bias c ≤ bias y
larger_onto-ge c y [] acc h m = h y m
larger_onto-ge c y (x ∷ xs) acc h m = elim (Bool-cases (ge_int x c)) [
  | inl ge ↦ larger_onto-ge c y xs (x ∷ acc) (extend ge) (rw ge at m)
  | inr lt ↦ larger_onto-ge c y xs acc h (rw lt at m)
]
  where
    above : ge_int x c ≡ true → bias c ≤ bias x
    above e = ground arith

    extend : ge_int x c ≡ true → (z : ℕ) → Mem z (x ∷ acc) → bias c ≤ bias z
    extend e z mz = Or.elim le_prop (mem-cons.0 mz) (λ ez. rw ez (above e)) (h z)

pub parts-perm : (c : ℕ) (xs acc : List ℕ) → Perm (smaller c xs ++ larger_onto c xs acc) (xs ++ acc)
parts-perm c [] acc = Perm.refl acc
parts-perm c (x ∷ xs) acc = elim (Bool-cases (ge_int x c)) [
  | inl ge ↦ rw ge (Perm.trans (parts-perm c xs (x ∷ acc)) (perm_middle xs acc))
  | inr lt ↦ rw lt (Perm.cons x (parts-perm c xs acc))
]

Sorted-join :
    (c : ℕ) (l r : List ℕ)
    → Sorted l
    → Sorted r
    → ((y : ℕ) → Mem y l → bias y ≤ bias c)
    → ((y : ℕ) → Mem y r → bias c ≤ bias y)
    → Sorted (l ++ (c ∷ r))
Sorted-join c [] r sl sr hl hr = (hr, sr)
Sorted-join c (x ∷ l) r sl sr hl hr =
    (above, Sorted-join c l r sl.1 sr (λ y m. hl y (mem-cons.1 (Or.inr m))) hr)
  where
    xc : bias x ≤ bias c
    xc = hl x (mem-cons.1 (Or.inl refl))

    later : (y : ℕ) → Mem y (c ∷ r) → bias x ≤ bias y
    later y m = Or.elim le_prop (mem-cons.0 m) (λ e. rw e xc) (λ mr. omega (arith, xc, hr y mr))

    above : (y : ℕ) → Mem y (l ++ (c ∷ r)) → bias x ≤ bias y
    above y m = Or.elim le_prop (mem-append.0 m) (sl.0 y) (later y)

-- A call that returns a sorted rearrangement of `l`.
abbrev pub Sorts : Result → List ℕ → Type 0
Sorts r l = (f : ℕ → ℕ) × (ys : List ℕ) × (r ≡ some (f, ys)) × Sorted ys × Perm ys l

abbrev pub SortsBelow : ((ℕ → ℕ) → List ℕ → Result) → ℕ → Type 0
SortsBelow rec n = (f : ℕ → ℕ) (l : List ℕ) → 0 < length l → length l ≤ n → Sorts (rec f l) l

sort_part-Sorts :
    (rec : (ℕ → ℕ) → List ℕ → Result) (n : ℕ) (f : ℕ → ℕ) (b : Bool) (l : List ℕ)
    → SortsBelow rec n
    → length l ≤ n
    → b ≡ not (length l == 0)
    → Sorts (sort_part rec b f l) l
sort_part-Sorts rec n f b [] ih h e = (f, [], rw e refl, tt, Perm.refl [])
sort_part-Sorts rec n f b (x ∷ l) ih h e =
    let nonempty : b ≡ true = ground arith in rw nonempty (ih f (x ∷ l) (omega arith) h)

-- The parts of the array around the center.
take-length : (l r : List ℕ) → take (length l) (l ++ r) ≡ l
take-length [] r = refl
take-length (x ∷ l) r = ap (◌∷◌ x) (take-length l r)

drop-length : (l r : List ℕ) → drop (length l) (l ++ r) ≡ r
drop-length [] r = refl
drop-length (x ∷ l) r = drop-length l r

drop-length_suc : (l r : List ℕ) (c : ℕ) → drop (length l + 1) (l ++ (c ∷ r)) ≡ r
drop-length_suc l r c = ap (λ t. drop t (l ++ (c ∷ r))) {y = suc (length l)} (omega arith) ∙ go l
  where
    go : (l : List ℕ) → drop (suc (length l)) (l ++ (c ∷ r)) ≡ r
    go [] = refl
    go (x ∷ l) = go l

pub sort_parts-Sorts :
    (rec : (ℕ → ℕ) → List ℕ → Result) (n : ℕ) (f : ℕ → ℕ) (c : ℕ) (low high : List ℕ)
    → SortsBelow rec n
    → (length low ≤ n) × (length high ≤ n)
    → ((y : ℕ) → Mem y low → bias y ≤ bias c)
    → ((y : ℕ) → Mem y high → bias c ≤ bias y)
    → Sorts
        (sort_parts rec f
          (length low)
          (length low)
          (length low + suc (length high))
          (low ++ (c ∷ high)))
        (low ++ (c ∷ high))
unfolding sort_parts
sort_parts-Sorts rec n f c low high ih (hl, hr) below above =
    let (f1, ys, e1, s1, p1) = sort_part-Sorts rec n f (not (length low == 0)) low ih hl refl in
    let (f2, zs, e2, s2, p2) =
      sort_part-Sorts rec n f1 (not (length low == length low + suc (length high) - 1)) high ih hr
        (ground arith) in
    (
      f2,
      ys ++ (c ∷ zs),
      rw
          (
            take-length low (c ∷ high),
            drop-length_suc low high c,
            drop-length low (c ∷ high),
            e1,
            e2,
          )
          refl,
      Sorted-join c ys zs s1 s2 (λ y m. below y ((Perm.mem_iff p1).0 m))
          (λ y m. above y ((Perm.mem_iff p2).0 m)),
      Perm.append p1 (Perm.cons c p2),
    )
