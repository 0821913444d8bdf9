-- ===== src/Prelude/Updates.antt =====
-- Functions of two indices that are changed at one place, and the stores that are on their way.
use bsg_manycore.Prelude.{ℕ, ◌+◌, ◌-◌, ◌&&◌, ◌==◌, if◌then◌else◌}

abbrev pub put2 {ℓ} : {A : Type ℓ} → (ℕ → ℕ → A) → ℕ → ℕ → A → ℕ → ℕ → A
put2 f i j v i1 j1 = if (i1 == i) && (j1 == j) then v else f i1 j1

-- for each word, by its two indices, the number of stores of each value that are on their way
abbrev pub Flights : Type 0
Flights = ℕ → ℕ → ℕ → ℕ

abbrev pub add : Flights → (i j v : ℕ) → Flights
add f i j v i1 j1 v1 = if ((i1 == i) && (j1 == j)) && (v1 == v) then f i j v + 1 else f i1 j1 v1

abbrev pub remove : Flights → (i j v : ℕ) → Flights
remove f i j v i1 j1 v1 = if ((i1 == i) && (j1 == j)) && (v1 == v) then f i j v - 1 else f i1 j1 v1
