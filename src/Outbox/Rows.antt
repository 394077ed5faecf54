-- ===== src/Outbox/Rows.antt =====
-- What the statements of SqliteOutbox do to the list of its rows.
use navigator_eventbus.Prelude.{
  ℕ, suc, ◌≤◌, ◌<◌, ◌≡◌, refl, sym, ap, subst, ◌⊎◌, inl, inr, String, Bool, true, false, List, [],
  ◌∷◌, ◌++◌, ◌==◌, eq_iff, eq_refl, arith, ltb, length, length-keep-le, keep, Bool-cases,
  if◌then◌else◌,
}
use navigator_eventbus.Outbox.{
  Overflow, reject_new, drop_oldest, Row, has_id, delete_id, oldest, drop_oldest_row, nack_row,
  nack_rows,
}

pub Overflow-cases : (o : Overflow) → (o ≡ reject_new) ⊎ (o ≡ drop_oldest)
Overflow-cases reject_new = inl refl
Overflow-cases drop_oldest = inr refl

module _ {W : Type 0} where
  -- No two rows have one id.
  abbrev pub Distinct : List (Row W) → Type 0
  Distinct [] = Unit
  Distinct (r ∷ l) = (has_id r.event_id l ≡ false) × Distinct l

  has_id-keep :
      (p : Row W → Bool) (k : String) (l : List (Row W))
      → has_id k l ≡ false
      → has_id k (keep p l) ≡ false
  has_id-keep p k [] h = refl
  has_id-keep p k (r ∷ l) h = ground (arith, has_id-keep p k l)

  pub keep-Distinct : (p : Row W → Bool) (l : List (Row W)) → Distinct l → Distinct (keep p l)
  keep-Distinct p [] h = tt
  keep-Distinct p (r ∷ l) h = elim (Bool-cases (p r)) [
    | inl e ↦ rw e (has_id-keep p r.event_id l h.0, keep-Distinct p l h.1)
    | inr e ↦ rw e (keep-Distinct p l h.1)
  ]

  pub has_id-snoc :
      (k : String) (l : List (Row W)) (r : Row W)
      → has_id k (l ++ r ∷ []) ≡ (if r.event_id == k then true else has_id k l)
  has_id-snoc k [] r = refl
  has_id-snoc k (s ∷ l) r = ground (arith, has_id-snoc k l r)

  pub snoc-Distinct :
      (l : List (Row W)) (r : Row W)
      → has_id r.event_id l ≡ false
      → Distinct l
      → Distinct (l ++ r ∷ [])
  snoc-Distinct [] r h d = (refl, tt)
  snoc-Distinct (s ∷ l) r h d = (
    ground (
      arith,
      has_id-snoc s.event_id l r,
      eq_iff r.event_id s.event_id,
      eq_iff s.event_id r.event_id,
    ),
    snoc-Distinct l r (ground arith) d.1,
  )

  pub has_id-nack_rows :
      (j k error : String) (next : ℕ) (l : List (Row W))
      → has_id j (nack_rows k error next l) ≡ has_id j l
  unfolding nack_rows nack_row
  has_id-nack_rows j k error next [] = refl
  has_id-nack_rows j k error next (r ∷ l) = ground (arith, has_id-nack_rows j k error next l)

  pub length-nack_rows :
      (k error : String) (next : ℕ) (l : List (Row W))
      → length (nack_rows k error next l) ≡ length l
  unfolding nack_rows
  length-nack_rows k error next [] = refl
  length-nack_rows k error next (r ∷ l) = omega (arith, length-nack_rows k error next l)

  pub nack_rows-Distinct :
      (k error : String) (next : ℕ) (l : List (Row W))
      → Distinct l
      → Distinct (nack_rows k error next l)
  unfolding nack_rows nack_row
  nack_rows-Distinct k error next [] h = tt
  nack_rows-Distinct k error next (r ∷ l) h = (
    ground (arith, has_id-nack_rows r.event_id k error next l),
    nack_rows-Distinct k error next l h.1,
  )

  -- A deletion by id finds the row, if it is there.
  length-delete_id :
      (k : String) (l : List (Row W)) → has_id k l ≡ true → suc (length (delete_id k l)) ≤ length l
  unfolding delete_id
  length-delete_id k [] h = cc
  length-delete_id k (r ∷ l) h = ground (
    arith,
    length-delete_id k l,
    length-keep-le (λ (x : Row W). if x.event_id == k then false else true) l,
  )

  oldest_first :
      (r s : Row W) (l : List (Row W))
      → ltb s.created_at r.created_at ≡ true
      → oldest r (s ∷ l) ≡ oldest s l
  unfolding oldest
  oldest_first r s l e = ap (λ b. oldest (if b then s else r) l) e

  oldest_stays :
      (r s : Row W) (l : List (Row W))
      → ltb s.created_at r.created_at ≡ false
      → oldest r (s ∷ l) ≡ oldest r l
  unfolding oldest
  oldest_stays r s l e = ap (λ b. oldest (if b then s else r) l) e

  has_id-oldest : (r : Row W) (l : List (Row W)) → has_id (oldest r l).event_id (r ∷ l) ≡ true
  has_id-oldest r [] = unfold oldest in ground (arith, eq_refl r.event_id)
  has_id-oldest r (s ∷ l) = elim (Bool-cases (ltb s.created_at r.created_at)) [
    | inl e ↦
        subst (λ x. has_id x.event_id (r ∷ s ∷ l) ≡ true) (sym (oldest_first r s l e))
          (ground (arith, has_id-oldest s l))
    | inr e ↦
        subst (λ x. has_id x.event_id (r ∷ s ∷ l) ≡ true) (sym (oldest_stays r s l e))
          (ground (arith, has_id-oldest r l))
  ]

  -- The eviction of a store that holds a row makes room.
  pub length-drop_oldest_row :
      (l : List (Row W)) → 0 < length l → suc (length (drop_oldest_row l)) ≤ length l
  unfolding drop_oldest_row
  length-drop_oldest_row [] h = absurd (omega arith)
  length-drop_oldest_row (r ∷ l) h =
      length-delete_id (oldest r l).event_id (r ∷ l) (has_id-oldest r l)

  pub delete_id-Distinct : (k : String) (l : List (Row W)) → Distinct l → Distinct (delete_id k l)
  unfolding delete_id
  delete_id-Distinct k l h = keep-Distinct (λ r. if r.event_id == k then false else true) l h

  pub drop_oldest_row-Distinct : (l : List (Row W)) → Distinct l → Distinct (drop_oldest_row l)
  unfolding drop_oldest_row
  drop_oldest_row-Distinct [] h = tt
  drop_oldest_row-Distinct (r ∷ l) h = delete_id-Distinct (oldest r l).event_id (r ∷ l) h
