-- ===== src/Transpose.antt =====
-- software/spmd/bsg_transpose/main.c: a matrix is spread over the tiles in blocks, each tile fetches the
-- transposed block from the tile opposite, and tile 0 prints the result. A tile is given by its
-- coordinates; the barriers put the phases one after the other.
pub mod Output
use bsg_manycore.Prelude.{
  ℕ, zero, suc, ◌+◌, ◌*◌, ◌/◌, ◌%◌, bit_or, List, [], ◌∷◌, ◌++◌, ◌==◌, ◌&&◌, Bool, ltb,
  if◌then◌else◌,
}
use bsg_manycore.Arch.{shl}

-- a two-dimensional array of words
abbrev pub Array : Type 0
Array = ℕ → ℕ → ℕ

abbrev pub store_at : Array → (i j v : ℕ) → Array
store_at a i j v i' j' = if i' == i && j' == j then v else a i' j'

-- `for (k = 0; k < n; k++) body`
abbrev pub for_below {ℓ} : {S : Type ℓ} → (n : ℕ) → (ℕ → S → S) → S → S
for_below zero body s = s
for_below (suc n) body s = body n (for_below n body s)

-- the test on the coordinates in main; NUM_X_TILES and NUM_Y_TILES are both TILE_DIM
abbrev pub takes_part : (tile_dim bsg_x bsg_y : ℕ) → Bool
takes_part tile_dim bsg_x bsg_y = ltb bsg_x tile_dim && ltb bsg_y tile_dim

-- `rows` is SUB_ROW_NUM, `cols` SUB_COL_NUM.
module _ (rows cols : ℕ) where
  unfoldable pub init_source : (bsg_x bsg_y : ℕ) → Array → Array
  init_source bsg_x bsg_y p_source =
      let sub_i_start = bsg_y * rows in
      let sub_j_start = bsg_x * cols in
      for_below rows
        (λ i. for_below cols (λ j a.
          let msb = shl (i + sub_i_start) 16 in
          let lsb = j + sub_j_start in store_at a i j (bit_or msb lsb)))
        p_source

  -- `source x y` is the array of tile (x, y).
  unfoldable pub transpose : (source : ℕ → ℕ → Array) (bsg_x bsg_y : ℕ) → Array → Array
  transpose source bsg_x bsg_y p_dest =
      let p_remote_source = source bsg_y bsg_x in
      for_below rows (λ i. for_below cols (λ j a. store_at a j i (p_remote_source i j))) p_dest

  -- The words stored to the io node, in order.
  unfoldable pub print_result :
      (matrix_rows matrix_cols : ℕ) (dest : ℕ → ℕ → Array) → List ℕ → List ℕ
  print_result matrix_rows matrix_cols dest out =
      for_below matrix_rows
        (λ i. for_below matrix_cols (λ j out.
          let y_cord = j / cols in
          let x_cord = i / rows in
          let row_id = j % cols in
          let col_id = i % rows in out ++ (dest x_cord y_cord row_id col_id ∷ [])))
        out

  -- main: the words that reach the io node, in order. The tiles that take part fill their blocks, and
  -- after the first barrier fetch; tile 0 stores a word before it fetches and one after the second
  -- barrier, and then prints. A tile that does not take part leaves its arrays alone.
  unfoldable pub main_transpose : (tile_dim : ℕ) (local_source local_dest : ℕ → ℕ → Array) → List ℕ
  unfolding init_source transpose print_result
  main_transpose tile_dim local_source local_dest =
      let source : ℕ → ℕ → Array = λ x y.
        if takes_part tile_dim x y then init_source x y (local_source x y) else local_source x y in
      let dest : ℕ → ℕ → Array = λ x y.
        if takes_part tile_dim x y then transpose source x y (local_dest x y) else local_dest x y in
      let matrix_rows = rows * tile_dim in
      let matrix_cols = cols * tile_dim in
      if takes_part tile_dim 0 0
      then print_result matrix_rows matrix_cols dest (0xcab0 ∷ 0xcab1 ∷ [])
      else []
