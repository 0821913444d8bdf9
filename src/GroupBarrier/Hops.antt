-- ===== src/GroupBarrier/Hops.antt =====
-- A tile of GroupBarrier that goes on from p to p': each part of the invariant asks for something of the two.
use bsg_manycore.Prelude.{ℕ, ◌-◌, ◌≤◌, ◌≡◌, ap, arith}
use bsg_manycore.GroupBarrier.{Pc, State, move}
use bsg_manycore.GroupBarrier.Defs.{
  row_live, col_live, row_polled, col_polled, col_unsent, row_unsent, col_alert_live, alert_live,
  RowDone, RowPolled, ColDone, ColPolled, ColAlert, RowAlert, Account, inside,
}
use bsg_manycore.GroupBarrier.Steps.{cx}

module _ (x_start x_end y_start y_end : ℕ) (s : State) (a b : ℕ) (p p' : Pc)
    (at : s.pc a b ≡ p) where
  abbrev next : State
  next = move s a b p'

  pub RowDone-move :
      ((i v : ℕ) → row_live p' i v ≤ row_live p i v)
      → RowDone x_start x_end y_start y_end s
      → RowDone x_start x_end y_start y_end next
  RowDone-move less inv x y hx hy =
      let h = inv x y hx hy in
      let l = less (x - x_start) (s.row_done.value (x - x_start) y) in
      let e = ap (λ p. row_live p (x - x_start) (s.row_done.value (x - x_start) y)) at in
      grind arith

  pub RowPolled-move :
      ((i : ℕ) → row_polled p' i ≤ row_polled p i)
      → RowPolled x_start x_end y_start y_end s
      → RowPolled x_start x_end y_start y_end next
  RowPolled-move less inv i y =
      let h = inv i y in let l = less i in let e = ap (λ p. row_polled p i) at in grind arith

  pub ColDone-move :
      ((i v : ℕ) → col_live p' i v ≤ col_live p i v)
      → ColDone x_start x_end y_start y_end s
      → ColDone x_start x_end y_start y_end next
  ColDone-move less inv y hy =
      let v = s.col_done.value (cx x_start x_end y_start y_end) (y - y_start) in
      let h = inv y hy in
      let l = less (y - y_start) v in let e = ap (λ p. col_live p (y - y_start) v) at in grind arith

  pub ColPolled-move :
      ((i : ℕ) → col_polled p' i ≤ col_polled p i)
      → ColPolled x_start x_end y_start y_end s
      → ColPolled x_start x_end y_start y_end next
  ColPolled-move less inv i =
      let h = inv i in let l = less i in let e = ap (λ p. col_polled p i) at in grind arith

  pub ColAlert-move :
      ((v : ℕ) → col_alert_live p' v ≤ col_alert_live p v)
      → ((y : ℕ) → col_unsent p' y ≤ col_unsent p y)
      → ColAlert x_start x_end y_start y_end s
      → ColAlert x_start x_end y_start y_end next
  ColAlert-move less sent inv y hy =
      let v = s.col_alert.value (cx x_start x_end y_start y_end) y in
      let h = inv y hy in
      let l = less v in
      let m = sent y in
      let e = ap (λ p. col_alert_live p v) at in let f = ap (λ p. col_unsent p y) at in grind arith

  pub RowAlert-move :
      ((v : ℕ) → alert_live p' v ≤ alert_live p v)
      → ((x : ℕ) → row_unsent p' x ≤ row_unsent p x)
      → RowAlert x_start x_end y_start y_end s
      → RowAlert x_start x_end y_start y_end next
  RowAlert-move less sent inv x y hx hy =
      let v = s.row_alert.value x y in
      let h = inv x y hx hy in
      let l = less v in
      let m = sent x in
      let e = ap (λ p. alert_live p v) at in let f = ap (λ p. row_unsent p x) at in grind arith

  pub Account-move :
      inside p' ≡ inside p
      → Account x_start x_end y_start y_end s
      → Account x_start x_end y_start y_end next
  Account-move same inv x y = let h = inv x y in let e = ap inside at in grind arith
