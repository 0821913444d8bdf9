-- ===== src/Kernels/Softmax/Reduction.antt =====
-- The reduction of the tiles of a group to one value through agg, in Kernels/Softmax.
use mathlib.Core.List.{Mem, Perm, mem-cons, not-mem-nil}
use mathlib.Core.List.Perm
use mathlib.Core.Logic.Or
use native.Mathlib.Nat.{ℕ_set}
use bsg_manycore.Prelude.{
  ℕ, ◌+◌, ◌*◌, ◌/◌, ◌%◌, ◌<◌, ◌≡◌, refl, ap, ap₂, sym, ◌∙◌, arith, inr, List, [], ◌∷◌, ◌==◌, ◌&&◌,
  true, Bool, false, if◌then◌else◌, ==_iff,
}
use bsg_manycore.Kernels.{Array, Store, Tile, tile_at, group_stores}
use bsg_manycore.Kernels.Stores.{perform, perform-Sound}
use bsg_manycore.Kernels.Grid.{group_stores-every, group_stores-Mem}
use bsg_manycore.Kernels.Vector.Blocks.{one_store}
use bsg_manycore.Kernels.Matrix.Blocks.{flat-div}
use bsg_manycore.Kernels.Softmax.{store_partial, column_total, store_column, row_total, store_row}

guarded_store :
    (f : ℕ → ℕ) (b : Bool) (v w : Store)
    → (b ≡ true → v.1 ≡ f v.0)
    → Mem w (if b then v ∷ [] else [])
    → w.1 ≡ f w.0
guarded_store f true v w h m = one_store (λ w. w.1 ≡ f w.0) (λ w. ℕ_set _ _) v w (h refl) m
guarded_store f false v w h m = absurd (not-mem-nil m)

first_tile : (x y : ℕ) → ((y == 0) && (x == 0)) ≡ true → (y ≡ 0) × (x ≡ 0)
first_tile x y e = (ground arith, ground arith)

module _ (tiles_x tiles_y grid_x grid_y group_x group_y : ℕ) where
  abbrev pub at : ℕ → ℕ → Tile
  at = tile_at tiles_x tiles_y grid_x grid_y group_x group_y

  abbrev pub phase : (Tile → List Store) → List Store
  phase kernel = group_stores tiles_x tiles_y grid_x grid_y kernel group_x group_y

  -- agg in the phases of a reduction, each in any order of its stores
  pub record Reduction (op : ℕ → ℕ → ℕ) (partial : Tile → ℕ) (last : ℕ → ℕ) (agg : Array)
      : Type 0 where
    pub partial_stores : List Store
    pub column_stores : List Store
    pub row_stores : List Store
    pub partials : Array
    pub columns : Array
    pub result : ℕ
    pub after_partials : partials ≡ perform partial_stores agg
    pub after_columns : columns ≡ perform column_stores partials
    pub loaded : result ≡ perform row_stores columns 0
    pub partial_phase : Perm partial_stores (phase (store_partial tiles_x tiles_y op partial))
    pub column_phase : Perm column_stores (phase (store_column tiles_x tiles_y op partial partials))
    pub row_phase :
        Perm row_stores (phase (store_row tiles_x tiles_y op partial last partials columns))

  -- What an index holds after a phase, by the stores of each tile.
  phase-perform :
      (kernel : Tile → List Store) (f : ℕ → ℕ) (ws : List Store) (C : Array) (q x y : ℕ)
      → Perm ws (phase kernel)
      → ((x y : ℕ)
          → x < tiles_x
          → y < tiles_y
          → (w : Store) → Mem w (kernel (at x y))
          → w.1 ≡ f w.0)
      → x < tiles_x
      → y < tiles_y
      → Mem (q, f q) (kernel (at x y))
      → perform ws C q ≡ f q
  phase-perform kernel f ws C q x y p sound hx hy m =
      perform-Sound f ws C q
        (λ q v m.
          group_stores-every tiles_x tiles_y grid_x grid_y kernel (λ w. w.1 ≡ f w.0)
            (λ w. ℕ_set _ _) group_x group_y sound (q, v) ((Perm.mem_iff p).0 m))
        (inr (
          (Perm.mem_iff p).1
            (group_stores-Mem tiles_x tiles_y grid_x grid_y kernel group_x group_y x y _ hx hy m)))

  module _ (op : ℕ → ℕ → ℕ) (partial : Tile → ℕ) (last : ℕ → ℕ) (agg : Array)
      (r : Reduction op partial last agg) where
    pub partials_eq :
        (x y : ℕ) → x < tiles_x → y < tiles_y → r.partials (y * tiles_x + x) ≡ partial (at x y)
    unfolding store_partial
    partials_eq x y hx hy =
        let f : ℕ → ℕ = λ q. partial (at (q % tiles_x) (q / tiles_x)) in
        let same : (x y : ℕ) → x < tiles_x → f (y * tiles_x + x) ≡ partial (at x y) =
          λ x y hx. let (eq, er) = flat-div tiles_x y x hx in ap₂ (λ x y. partial (at x y)) er eq in
        ap (λ (a : Array). a (y * tiles_x + x)) r.after_partials
        ∙ phase-perform _ f r.partial_stores agg (y * tiles_x + x) x y r.partial_phase
            (λ x y hx hy w. one_store (λ w. w.1 ≡ f w.0) (λ w. ℕ_set _ _) _ w (sym (same x y hx)))
            hx hy (mem-cons.1 (Or.inl (ap (λ v. (y * tiles_x + x, v)) (same x y hx))))
        ∙ same x y hx

    pub columns_eq :
        (x : ℕ)
        → x < tiles_x
        → 0 < tiles_y
        → r.columns x ≡ column_total tiles_x tiles_y op partial r.partials (at x 0)
    unfolding store_column
    columns_eq x hx hy =
        let f : ℕ → ℕ = λ q. column_total tiles_x tiles_y op partial r.partials (at q 0) in
        ap (λ (a : Array). a x) r.after_columns
        ∙ phase-perform _ f r.column_stores r.partials x x 0 r.column_phase
            (λ x y hx hy w. guarded_store f (y == 0) _ w (λ e.
              ap (λ y. column_total tiles_x tiles_y op partial r.partials (at x y))
                ((==_iff y 0).0 e)))
            hx hy (mem-cons.1 (Or.inl refl))

    pub result_eq :
        0 < tiles_x
        → 0 < tiles_y
        → r.result ≡ last (row_total tiles_x tiles_y op partial r.partials r.columns (at 0 0))
    unfolding store_row
    result_eq hx hy =
        let total : ℕ → ℕ → ℕ =
          λ x y. last (row_total tiles_x tiles_y op partial r.partials r.columns (at x y)) in
        let f : ℕ → ℕ = λ q. total 0 0 in
        r.loaded
        ∙ phase-perform _ f r.row_stores r.columns 0 0 0 r.row_phase
            (λ x y hx hy w.
              guarded_store f ((y == 0) && (x == 0)) _ w
                (λ e. ap₂ total (first_tile x y e).1 (first_tile x y e).0))
            hx hy (mem-cons.1 (Or.inl refl))
