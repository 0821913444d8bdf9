-- ===== src/GroupBarrier/Lost.antt =====
-- What follows in GroupBarrier when bsg_row_barrier_alert clears the entry of a tile that has called
-- again: an arrival is lost.
use bsg_manycore.Prelude.{ℕ, ◌+◌, ◌-◌, ◌≤◌, ◌<◌, ◌≡◌, refl, ap, ◌∙◌, arith}
use bsg_manycore.GroupBarrier.{outside, polling_row, State, increment, post}
use bsg_manycore.GroupBarrier.Steps
use bsg_manycore.GroupBarrier.Defs.{Inv, inside, row_polled}
use bsg_manycore.GroupBarrier.Steps.{InX, InY, Step, Reach, cx, last_x}
use bsg_manycore.GroupBarrier.Safety.{inside_le, Reach-Inv}

module _ (x_start x_end y_start y_end : ℕ) where
  abbrev mid_x : ℕ
  mid_x = cx x_start x_end y_start y_end

  -- any number of steps
  pub data Later (s : State) : State → Type 0 where
    now : Later s s
    later : (s1 s2 : State) → Later s s1 → Step x_start x_end y_start y_end s1 s2 → Later s s2

  Later-Reach :
      (s s1 : State)
      → Reach x_start x_end y_start y_end s
      → Later s s1
      → Reach x_start x_end y_start y_end s1
  Later-Reach s _ r now = r
  Later-Reach s _ r (later s1 s2 l d) = Steps.Reach.step s1 s2 (Later-Reach s s1 r l) d

  module _ (x y : ℕ) (hx : InX x_start x_end y_start y_end x)
      (hy : InY x_start x_end y_start y_end y) where
    -- The tile's last call is not counted at the center of its row, and has left no trace.
    abbrev pub Lost : State → Type 0
    Lost s =
        (s.syncs mid_x y < s.calls x y)
        × (s.row_done.value (x - x_start) y ≡ 0)
        × (s.row_done.flight (x - x_start) y ≡ 0)

    abbrev Stays : State → State → Type 0
    Stays s s1 = Lost s1 × (s1.syncs mid_x y ≡ s.syncs mid_x y)

    -- a tile whose arrival is lost is in the function
    Lost-inside : (s : State) → Inv x_start x_end y_start y_end s → Lost s → inside (s.pc x y) ≡ 1
    Lost-inside s inv (waits, gone, none) = omega (
      arith,
      inv.account x y,
      inv.row_alert x y hx hy,
      inv.col_alert y hy,
      inv.col_done y hy,
      inside_le (s.pc x y),
    )

    call-Lost :
        (s : State) (x1 y1 : ℕ)
        → Inv x_start x_end y_start y_end s
        → InX x_start x_end y_start y_end x1
        → s.pc x1 y1 ≡ outside
        → Lost s
        → (s.syncs mid_x y < increment s.calls x1 y1 x y)
          × ((post s.row_done (x1 - x_start) y1).value (x - x_start) y ≡ 0)
          × ((post s.row_done (x1 - x_start) y1).flight (x - x_start) y ≡ 0)
    call-Lost s x1 y1 inv hx1 e l =
        let h = Lost-inside s inv l in
        let g = ap inside e in let (waits, gone, none) = l in (ground arith, gone, ground arith)

    polled-Lost :
        (s : State) (y1 i : ℕ)
        → Inv x_start x_end y_start y_end s
        → s.pc mid_x y1 ≡ polling_row i
        → last_x x_start x_end y_start y_end < i
        → Lost s
        → increment s.syncs mid_x y1 mid_x y ≡ s.syncs mid_x y
    polled-Lost s y1 i inv e all (waits, gone, none) =
        let h = inv.row_polled_by (x - x_start) y in
        let g = ap (λ p. row_polled p (x - x_start)) e in ground arith

    step-Lost :
        (s s1 : State)
        → Inv x_start x_end y_start y_end s
        → Lost s
        → Step x_start x_end y_start y_end s s1
        → Stays s s1
    step-Lost s _ inv l (Steps.Step.call x1 y1 h1 h2 e) = (call-Lost s x1 y1 inv h1 e l, refl)
    step-Lost s _ inv l (Steps.Step.poll_row y1 i h e k) = (l, refl)
    step-Lost s _ inv l (Steps.Step.row_polled_all y1 i h e k) =
        let same = polled-Lost s y1 i inv e k l in ((omega (arith, same, l.0), l.1, l.2), same)
    step-Lost s _ inv l (Steps.Step.poll_col i e k) = (l, refl)
    step-Lost s _ inv l (Steps.Step.col_polled_all i e k) = (l, refl)
    step-Lost s _ inv l (Steps.Step.alert_col_next i e k) = (l, refl)
    step-Lost s _ inv l (Steps.Step.col_alerted i e k) = (l, refl)
    step-Lost s _ inv l (Steps.Step.clear_col_next i e k) = (l, refl)
    step-Lost s _ inv l (Steps.Step.col_cleared i e k) = (l, refl)
    step-Lost s _ inv l (Steps.Step.col_alert_seen y1 h e k) = (l, refl)
    step-Lost s _ inv l (Steps.Step.alert_row_next y1 i h e k) = (l, refl)
    step-Lost s _ inv l (Steps.Step.row_alerted y1 i h e k) = (l, refl)
    step-Lost s _ inv l (Steps.Step.clear_row_next y1 i h e k) =
        let gone = l.1 in ((l.0, ground arith, l.2), refl)
    step-Lost s _ inv l (Steps.Step.row_cleared y1 i h e k) = (l, refl)
    step-Lost s _ inv l (Steps.Step.col_alert_cleared y1 h e) = (l, refl)
    step-Lost s _ inv l (Steps.Step.alert_seen x1 y1 h1 h2 e k) = (l, refl)
    step-Lost s _ inv l (Steps.Step.leave x1 y1 h1 h2 e) = (l, refl)
    step-Lost s _ inv l (Steps.Step.row_done_arrives i y1 k) =
        let (waits, gone, none) = l in ((waits, ground arith, ground arith), refl)
    step-Lost s _ inv l (Steps.Step.col_done_arrives x1 i k) = (l, refl)
    step-Lost s _ inv l (Steps.Step.col_alert_arrives x1 y1 k) = (l, refl)
    step-Lost s _ inv l (Steps.Step.row_alert_arrives x1 y1 k) = (l, refl)

    Later-Lost :
        (s s1 : State) → Reach x_start x_end y_start y_end s → Lost s → Later s s1 → Stays s s1
    Later-Lost s _ r l now = (l, refl)
    Later-Lost s _ r l (later s1 s2 m d) =
        let (l1, same) = Later-Lost s s1 r l m in
        let (l2, same2) =
          step-Lost s1 s2 (Reach-Inv x_start x_end y_start y_end s1 (Later-Reach s s1 r m)) l1 d in
        (l2, same2 ∙ same)

    -- If the arrival of a tile of the group is lost in a reachable state, then in every later state the
    -- tile is still in that call, and no tile of the group has returned more often than the center of
    -- that tile's row had passed bsg_col_barrier_sync when the arrival was lost.
    pub Lost-returns :
        (s s1 : State)
        → Reach x_start x_end y_start y_end s
        → Lost s
        → Later s s1
        → (x1 y1 : ℕ) → InX x_start x_end y_start y_end x1
        → InY x_start x_end y_start y_end y1
        → (s1.returns x1 y1 ≤ s.syncs mid_x y)
          × (s1.calls x y ≡ s.syncs mid_x y + 1)
          × (inside (s1.pc x y) ≡ 1)
    Lost-returns s s1 r l m x1 y1 hx1 hy1 =
        let r1 = Later-Reach s s1 r m in
        let inv = Reach-Inv x_start x_end y_start y_end s1 r1 in
        let (l1, same) = Later-Lost s s1 r l m in
        let still = Lost-inside s1 inv l1 in
        (
          omega (arith, inv.row_alert x1 y1 hx1 hy1, inv.col_alert y1 hy1, inv.col_done y hy),
          omega (
            arith,
            inv.account x y,
            l1.0,
            inv.row_alert x y hx hy,
            inv.col_alert y hy,
            inv.col_done y hy,
          ),
          still,
        )
