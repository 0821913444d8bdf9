-- ===== src/Fft.antt =====
-- software/spmd/fft/main.c: a transform of N = 2 ^ levels elements in place, by all tiles of a group. A
-- float complex is its word, and the operations on them are arguments. The work array is striped over
-- the tiles of the group, as complex_remote_load and complex_remote_store place its elements.
pub mod Swizzle
pub mod Places
pub mod Outside
pub mod Stage
pub mod Round
pub mod Transform
use mathlib.Core.List.{Perm}
use bsg_manycore.Prelude.{
  ℕ, zero, suc, ◌+◌, ◌-◌, ◌*◌, ◌/◌, ◌%◌, ◌^◌, ◌≤◌, List, [], ◌∷◌, ◌++◌, ltb, ◌==◌, ◌&&◌,
  if◌then◌else◌,
}
use bsg_manycore.Kernels.{Array, Store, for_strided}

-- fft_work_arr of all tiles: the element at an index in the array of tile (tile_x, tile_y). Each tile's
-- has N / bsg_group_size elements; what is stored at other tiles or indices goes elsewhere in memory.
abbrev pub WorkArray : Type 0
WorkArray = (tile_x tile_y index : ℕ) → ℕ

module _ (tiles_x group_size : ℕ) where
  -- tile_x, tile_y and index of complex_remote_load and complex_remote_store
  unfoldable pub complex_place : (i : ℕ) → ℕ × ℕ × ℕ
  complex_place i =
      let tile_id = i % group_size in (tile_id / tiles_x, tile_id % tiles_x, i / group_size)

  unfoldable pub complex_remote_load : WorkArray → (i : ℕ) → ℕ
  unfolding complex_place
  complex_remote_load A i = let place = complex_place i in A place.0 place.1 place.2

  unfoldable pub complex_remote_store : WorkArray → (i val : ℕ) → WorkArray
  unfolding complex_place
  complex_remote_store A i val tile_x tile_y index =
      let place = complex_place i in
      if tile_x == place.0 && (tile_y == place.1 && index == place.2)
      then val
      else A tile_x tile_y index

  -- calls of complex_remote_store, one after the other
  unfoldable pub remote_stores : List Store → WorkArray → WorkArray
  unfolding complex_remote_store
  remote_stores [] A = A
  remote_stores ((i, val) ∷ ws) A = remote_stores ws (complex_remote_store A i val)

-- output and work_arr_idx
pub record Work : Type 0 where
  pub output : WorkArray
  pub work_arr_idx : ℕ

-- `complex` makes a complex of an int; the calls nest at most `fuel` deep
unfoldable pub fft_swizzle :
    (tiles_x group_size : ℕ) (complex : ℕ → ℕ) (N : ℕ) (fuel start stride : ℕ) (input : Array)
    → Work
    → Work
unfolding complex_remote_store
fft_swizzle tiles_x group_size complex N zero start stride input s = s
fft_swizzle tiles_x group_size complex N (suc fuel) start stride input s =
    let s1 = fft_swizzle tiles_x group_size complex N fuel start (stride * 2) input s in
    let s2 = fft_swizzle tiles_x group_size complex N fuel (start + stride) (stride * 2) input s1 in
    let stored : Work = record {
      output =
          complex_remote_store tiles_x group_size s.output s.work_arr_idx (complex (input start));
      work_arr_idx = s.work_arr_idx + 1;
    } in
    if ltb stride N then s2 else stored

-- the stores to output in fft_kernel, by tile 0
unfoldable pub copy_output : (tiles_x group_size N : ℕ) (fft_work_arr : WorkArray) → List Store
unfolding for_strided complex_remote_load
copy_output tiles_x group_size N fft_work_arr =
    for_strided 0 N 1 (λ i. (i, complex_remote_load tiles_x group_size fft_work_arr i) ∷ [])

-- `twiddle k n` is cexp(exp_val)
module _ (plus minus times twiddle : ℕ → ℕ → ℕ) (N group_size : ℕ) where
  -- the two stores of the loop over k; `X i` is what complex_remote_load gives for i
  unfoldable pub butterfly : (n i k : ℕ) → Array → List Store
  butterfly n i k X =
      let even_idx = i + k in
      let odd_idx = even_idx + n / 2 in
      let t_val = times (twiddle k n) (X odd_idx) in
      (odd_idx, minus (X even_idx) t_val) ∷ (even_idx, plus (X even_idx) t_val) ∷ []

  -- `rounds` of the loop over k by the tile `id`, and what work_id is then
  unfoldable pub butterflies : (id n i : ℕ) (X : Array) (rounds k work_id : ℕ) → List Store × ℕ
  unfolding butterfly
  butterflies id n i X zero k work_id = ([], work_id)
  butterflies id n i X (suc rounds) k work_id =
      let rest = butterflies id n i X rounds (k + 1) ((work_id + 1) % group_size) in
      (if work_id == id then butterfly n i k X ++ rest.0 else rest.0, rest.1)

  -- the loop over i, in at most `fuel` rounds
  unfoldable pub blocks : (id n : ℕ) (X : Array) (fuel i work_id : ℕ) → List Store
  unfolding butterflies
  blocks id n X zero i work_id = []
  blocks id n X (suc fuel) i work_id =
      let row = butterflies id n i X (n / 2) 0 work_id in
      let rest = blocks id n X fuel (i + n) row.1 in if ltb i N then row.0 ++ rest else []

  -- A round of the loop over n by the tile `id`. No tile loads what another stores.
  unfoldable pub stage : (n : ℕ) → Array → (id : ℕ) → List Store
  unfolding blocks
  stage n X id = blocks id n X N 0 0

  -- the stores of all tiles
  unfoldable pub stage_stores : (n : ℕ) → Array → List Store
  unfolding stage for_strided
  stage_stores n X = for_strided 0 group_size 1 (stage n X)

  -- The loop over n from 2, with the barrier after each round: the work array when n has a value.
  pub data Stages (tiles_x : ℕ) (X : WorkArray) : ℕ → WorkArray → Type 0 where
    first : Stages tiles_x X 2 X
    next :
        (n : ℕ) (Y : WorkArray) (ws : List Store)
        → Stages tiles_x X n Y
        → n ≤ N
        → Perm ws (stage_stores n (complex_remote_load tiles_x group_size Y))
        → Stages tiles_x X (n * 2) (remote_stores tiles_x group_size ws Y)
