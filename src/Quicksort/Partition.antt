-- ===== src/Quicksort/Partition.antt =====
-- What the partition loop of software/spmd/quicksort/main.c leaves in the scratch array.
use mathlib.Core.List.{append_assoc, append-nil}
use bsg_manycore.Prelude.{
  ℕ, zero, suc, ◌+◌, ◌-◌, ◌≤◌, ◌<◌, ◌≡◌, ◌⊎◌, refl, ap, ap₂, sym, ◌∙◌, arith, List, [], ◌∷◌, ◌++◌,
  length, if◌then◌else◌, Bool-cases, inl, inr, true, false,
}
use bsg_manycore.Quicksort.{ge_int, update, window, Split, partition}

-- the elements below the center, in order
abbrev pub smaller : ℕ → List ℕ → List ℕ
smaller c [] = []
smaller c (x ∷ xs) = if ge_int x c then smaller c xs else x ∷ smaller c xs

-- the others, the last first, before `acc`
abbrev pub larger_onto : ℕ → List ℕ → List ℕ → List ℕ
larger_onto c [] acc = acc
larger_onto c (x ∷ xs) acc = larger_onto c xs (if ge_int x c then x ∷ acc else acc)

pub window-update :
    (f : ℕ → ℕ) (i v s n : ℕ) → (i < s) ⊎ (s + n ≤ i) → window (update f i v) s n ≡ window f s n
unfolding window
window-update f i v s zero h = refl
window-update f i v s (suc n) h =
    ap₂ ◌∷◌ (ground arith) (window-update f i v (s + 1) n (omega arith))

pub window-append :
    (f : ℕ → ℕ) (s n k : ℕ) → window f s (n + k) ≡ window f s n ++ window f (s + n) k
unfolding window
window-append f s zero k = ap₂ (window f) (omega arith) (omega arith)
window-append f s (suc n) k =
    ap (window f s) {y = suc (n + k)} (omega arith)
    ∙ ap (◌∷◌ (f s))
        (window-append f (s + 1) n k ∙ ap (λ t. window f (s + 1) n ++ window f t k) (omega arith))

pub length-window : (f : ℕ → ℕ) (s n : ℕ) → length (window f s n) ≡ n
unfolding window
length-window f s zero = refl
length-window f s (suc n) = ap suc (length-window f (s + 1) n)

-- A write at the end of a window extends it, at either end.
window-update_end :
    (f : ℕ → ℕ) (n v : ℕ) → window (update f n v) 0 (n + 1) ≡ window f 0 n ++ (v ∷ [])
unfolding window
window-update_end f n v =
    window-append (update f n v) 0 n 1
    ∙ ap₂ ◌++◌ (window-update f n v 0 n (inr (omega arith))) (ground arith)

window-update_start :
    (f : ℕ → ℕ) (i j n v : ℕ) → i ≡ j → window (update f j v) i (suc n) ≡ v ∷ window f (j + 1) n
unfolding window
window-update_start f i j n v e = ap₂ ◌∷◌ (ground arith) (
    ap (λ t. window (update f j v) (t + 1) n) e ∙ window-update f j v (j + 1) n (inl (omega arith)))

-- From a place for each remaining element and one more between `front` and `back`, the loop leaves the
-- smaller elements after those in front, the larger ones before those at the back, and one place.
pub record Parted (c : ℕ) (xs : List ℕ) (s t : Split) (behind : ℕ) : Type 0 where
  pub low : window t.local_lst 0 t.front ≡ window s.local_lst 0 s.front ++ smaller c xs
  pub high :
      window t.local_lst (t.back + 1) (s.back - t.back + behind)
      ≡ larger_onto c xs (window s.local_lst (s.back + 1) behind)
  pub meet : t.front + s.back ≡ s.front + t.back + length xs
  pub moved : (t.back ≤ s.back) × (s.front ≤ t.front)

abbrev put_back : Split → ℕ → Split
put_back s x = record {
  local_lst = update s.local_lst s.back x;
  front = s.front;
  back = s.back - 1;
}

abbrev put_front : Split → ℕ → Split
put_front s x = record {
  local_lst = update s.local_lst s.front x;
  front = s.front + 1;
  back = s.back;
}

back-Parted :
    (c x : ℕ) (xs : List ℕ) (s t : Split) (behind : ℕ)
    → ge_int x c ≡ true
    → s.front + length (x ∷ xs) ≤ s.back
    → Parted c xs (put_back s x) t (suc behind)
    → Parted c (x ∷ xs) s t behind
back-Parted c x xs s t behind ge room h = record {
  low =
      h.low
      ∙ ap₂ ◌++◌ (window-update s.local_lst s.back x 0 s.front (inr (omega arith))) (rw ge refl);
  high =
      ap (window t.local_lst (t.back + 1)) (omega (arith, h.moved))
      ∙ h.high
      ∙ ap (larger_onto c xs)
          (window-update_start s.local_lst (s.back - 1 + 1) s.back behind x (omega arith))
      ∙ rw ge refl;
  meet = omega (arith, h.meet);
  moved = omega (arith, h.moved);
}

front-Parted :
    (c x : ℕ) (xs : List ℕ) (s t : Split) (behind : ℕ)
    → ge_int x c ≡ false
    → s.front + length (x ∷ xs) ≤ s.back
    → Parted c xs (put_front s x) t behind
    → Parted c (x ∷ xs) s t behind
front-Parted c x xs s t behind lt room h = record {
  low =
      h.low
      ∙ ap (λ l. l ++ smaller c xs) (window-update_end s.local_lst s.front x)
      ∙ append_assoc (window s.local_lst 0 s.front) (x ∷ []) (smaller c xs)
      ∙ rw lt refl;
  high =
      h.high
      ∙ ap (larger_onto c xs)
          (window-update s.local_lst s.front x (s.back + 1) behind (inl (omega arith)))
      ∙ rw lt refl;
  meet = omega (arith, h.meet);
  moved = omega (arith, h.moved);
}

pub partition-Parted :
    (c : ℕ) (xs : List ℕ) (s : Split) (behind : ℕ)
    → s.front + length xs ≤ s.back
    → Parted c xs s (partition c xs s) behind
unfolding partition
partition-Parted c [] s behind room = record {
  low = sym (append-nil _);
  high = ap (window s.local_lst (s.back + 1)) (omega arith);
  meet = omega arith;
  moved = omega arith;
}
partition-Parted c (x ∷ xs) s behind room = elim (Bool-cases (ge_int x c)) [
  | inl ge ↦
      back-Parted c x xs s _ behind ge room
        (rw ge (partition-Parted c xs (put_back s x) (suc behind) (omega arith)))
  | inr lt ↦
      front-Parted c x xs s _ behind lt room
        (rw lt (partition-Parted c xs (put_front s x) behind (omega arith)))
]
