-- ===== src/Outbox/Selection.antt =====
-- What SqliteOutbox.due selects.
use navigator_eventbus.Prelude.{
  ℕ, zero, suc, ◌≤◌, inl, inr, Bool, List, [], ◌∷◌, arith, ltb, leb, length, length-take-le, keep,
  take, All, Bool-cases,
}
use navigator_eventbus.Prelude.Sorting.{insert_by, sort_by, sort_by-IsOrdered, IsOrdered}
use navigator_eventbus.Outbox.{Row, select_due}

module _ {W : Type 0} where
  abbrev pub later : Row W → Row W → Bool
  later y x = ltb y.created_at x.created_at

  All-insert :
      (P : Row W → Type 0) (before : Row W → Row W → Bool) (x : Row W) (l : List (Row W))
      → P x
      → All P l
      → All P (insert_by before x l)
  unfolding insert_by
  All-insert P before x [] hx h = (hx, tt)
  All-insert P before x (y ∷ ys) hx h = elim (Bool-cases (before y x)) [
    | inl e ↦ rw e (h.0, All-insert P before x ys hx h.1)
    | inr e ↦ rw e (hx, h)
  ]

  All-sort :
      (P : Row W → Type 0) (before : Row W → Row W → Bool) (l : List (Row W))
      → All P l
      → All P (sort_by before l)
  unfolding sort_by
  All-sort P before [] h = tt
  All-sort P before (x ∷ xs) h =
      All-insert P before x (sort_by before xs) h.0 (All-sort P before xs h.1)

  All-take : (P : Row W → Type 0) (n : ℕ) (l : List (Row W)) → All P l → All P (take n l)
  All-take P (suc n) (x ∷ xs) h = (h.0, All-take P n xs h.1)
  All-take P zero xs h = tt
  All-take P (suc n) [] h = tt

  IsOrdered-take :
      (before : Row W → Row W → Bool) (n : ℕ) (l : List (Row W))
      → IsOrdered before l
      → IsOrdered before (take n l)
  IsOrdered-take before zero l h = tt
  IsOrdered-take before (suc n) [] h = tt
  IsOrdered-take before (suc zero) (x ∷ []) h = tt
  IsOrdered-take before (suc (suc n)) (x ∷ []) h = tt
  IsOrdered-take before (suc zero) (x ∷ y ∷ ys) h = tt
  IsOrdered-take before (suc (suc n)) (x ∷ y ∷ ys) h =
      (h.0, IsOrdered-take before (suc n) (y ∷ ys) h.1)

  abbrev pub IsDue : ℕ → Row W → Type 0
  IsDue now r = r.next_try_at ≤ now

  keep-IsDue : (now : ℕ) (l : List (Row W)) → All (IsDue now) (keep (λ r. leb r.next_try_at now) l)
  keep-IsDue now [] = tt
  keep-IsDue now (r ∷ l) = elim (Bool-cases (leb r.next_try_at now)) [
    | inl e ↦ let at_hand : r.next_try_at ≤ now = ground arith in rw e (at_hand, keep-IsDue now l)
    | inr e ↦ rw e (keep-IsDue now l)
  ]

  -- A read hands out rows whose time to retry has come, the oldest first, and no more of them than
  -- the limit.
  pub select_due_lem :
      (now limit : ℕ) (rows : List (Row W))
      → All (IsDue now) (select_due now limit rows)
        × IsOrdered later (select_due now limit rows)
        × (length (select_due now limit rows) ≤ limit)
  unfolding select_due
  select_due_lem now limit rows =
      let fit = keep (λ (r : Row W). leb r.next_try_at now) rows in
      (
        All-take (IsDue now) limit (sort_by later fit)
            (All-sort (IsDue now) later fit (keep-IsDue now rows)),
        IsOrdered-take later limit (sort_by later fit)
            (sort_by-IsOrdered later (λ a b h. ground arith) fit),
        length-take-le limit (sort_by later fit),
      )
