-- ===== src/Fft/Places.antt =====
-- Where the elements of the work array of Fft are.
use native.Mathlib.Nat.{div-add-mod'}
use mathlib.Core.Path.{fun_ext}
use bsg_manycore.Prelude.{
  ℕ, ◌+◌, ◌*◌, ◌/◌, ◌%◌, ◌≡◌, ◌≢◌, refl, ap, ap₂, sym, ◌∙◌, arith, List, [], ◌∷◌, ℕ_discrete,
}
use bsg_manycore.Kernels.{Array, Store}
use bsg_manycore.Kernels.Stores.{put, perform}
use bsg_manycore.Fft.{
  WorkArray, complex_place, complex_remote_load, complex_remote_store, remote_stores,
}

-- No two elements have the same place.
pub complex_place-injective :
    (tiles_x group_size i j : ℕ)
    → complex_place tiles_x group_size i ≡ complex_place tiles_x group_size j
    → i ≡ j
unfolding complex_place
complex_place-injective tiles_x g i j e =
    let column = ap (λ (p : ℕ × ℕ × ℕ). p.0) e in
    let row = ap (λ (p : ℕ × ℕ × ℕ). p.1) e in
    let index = ap (λ (p : ℕ × ℕ × ℕ). p.2) e in
    let id : i % g ≡ j % g =
      sym (div-add-mod' (i % g) tiles_x)
      ∙ ap₂ (λ a b. a * tiles_x + b) column row
      ∙ div-add-mod' (j % g) tiles_x in
    sym (div-add-mod' i g) ∙ ap₂ (λ a b. a * g + b) index id ∙ div-add-mod' j g

module _ (tiles_x group_size : ℕ) where
  -- what is loaded for each index
  abbrev pub loaded : WorkArray → Array
  loaded A i = complex_remote_load tiles_x group_size A i

  load-store_other :
      (A : WorkArray) (i v q : ℕ)
      → q ≢ i
      → loaded (complex_remote_store tiles_x group_size A i v) q ≡ loaded A q
  unfolding complex_remote_load complex_remote_store complex_place
  load-store_other A i v q ne =
      elim (ℕ_discrete (q % group_size / tiles_x) (i % group_size / tiles_x)) [
        | no nx ↦ ground arith
        | yes ex ↦ elim (ℕ_discrete (q % group_size % tiles_x) (i % group_size % tiles_x)) [
          | no ny ↦ ground arith
          | yes ey ↦ elim (ℕ_discrete (q / group_size) (i / group_size)) [
            | no ni ↦ ground arith
            | yes ei ↦
                absurd
                  (ne (complex_place-injective tiles_x group_size q i (λ t. (ex t, ey t, ei t))))
          ]
        ]
      ]

  load-store_same :
      (A : WorkArray) (i v : ℕ) → loaded (complex_remote_store tiles_x group_size A i v) i ≡ v
  unfolding complex_remote_load complex_remote_store complex_place
  load-store_same A i v = ground arith

  -- A store for an index changes what is loaded for that index.
  pub loaded-store :
      (A : WorkArray) (i v : ℕ)
      → loaded (complex_remote_store tiles_x group_size A i v) ≡ put (loaded A) i v
  loaded-store A i v = fun_ext λ q. elim (ℕ_discrete q i) [
    | yes e ↦ rw e (load-store_same A i v ∙ ground arith)
    | no n ↦ load-store_other A i v q n ∙ ground arith
  ]

  pub loaded-remote_stores :
      (ws : List Store) (A : WorkArray)
      → loaded (remote_stores tiles_x group_size ws A) ≡ perform ws (loaded A)
  unfolding remote_stores perform
  loaded-remote_stores [] A = refl
  loaded-remote_stores ((i, v) ∷ ws) A =
      loaded-remote_stores ws (complex_remote_store tiles_x group_size A i v)
      ∙ ap (perform ws) (loaded-store A i v)
