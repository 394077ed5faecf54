-- ===== src/Outbox/Reading.antt =====
-- Where a row can go that was once appended to a SqliteOutbox.
use navigator_eventbus.Prelude.{
  ℕ, ◌+◌, ◌-◌, ◌≤◌, ◌<◌, ◌≡◌, refl, sym, subst, ◌⊎◌, inl, inr, String, Bool, true, false, Option,
  List, [], ◌∷◌, ◌==◌, eq_refl, eq_iff, arith, ltb, leb, length, length-keep-le, keep, All,
  Bool-cases, Option-cases, if◌then◌else◌,
}
use navigator_eventbus.Outbox.{
  Row, Store, Limits, has_id, delete_id, drop_oldest_row, oldest, insert_or_ignore, new_row, evict,
  append, ack, nack, purge, decode_rows, select_due, due, Call, appending, acking, nacking, reading,
  call, calls, store_of,
}
use navigator_eventbus.Outbox.Rows.{has_id-snoc, has_id-nack_rows, Overflow-cases}
use navigator_eventbus.Outbox.Counting.{
  append_rejects, append_evicts, delete_corrupt, decode_bad, decode_good,
}

module _ {W : Type 0} where
  -- The rows that left the table without an acknowledgement, as the statistics count them.
  abbrev pub losses : Store W → ℕ
  losses s = s.expired + s.dropped + s.corrupt

  has_id-deletion :
      (p : Row W → Bool) (k : String) (l : List (Row W))
      → has_id k l ≡ true
      → (has_id k (keep p l) ≡ true) ⊎ (0 < length l - length (keep p l))
  has_id-deletion p k [] h = inl h
  has_id-deletion p k (r ∷ l) h = ground (arith, has_id-deletion p k l, length-keep-le p l)

  -- A step from `s` to `t` keeps the row of `k`, or counts a loss.
  record Accounted (k : String) (s t : Store W) : Type 0 where
    grows : losses s ≤ losses t
    kept : has_id k s.rows ≡ true → (has_id k t.rows ≡ true) ⊎ (losses s < losses t)

  Accounted-refl : (k : String) (s : Store W) → Accounted k s s
  Accounted-refl k s = record { grows = omega arith; kept = λ h. inl h }

  Accounted-trans :
      {k : String} {s t u : Store W} → Accounted k s t → Accounted k t u → Accounted k s u
  Accounted-trans a b = record {
    grows = omega (arith, a.grows, b.grows);
    kept = λ h. elim (a.kept h) [
      | inl there ↦ elim (b.kept there) [
        | inl still ↦ inl still
        | inr lost ↦ inr (omega (arith, a.grows, lost))
      ]
      | inr lost ↦ inr (omega (arith, b.grows, lost))
    ];
  }

  has_id-delete_id :
      (j k : String) (l : List (Row W))
      → has_id k l ≡ true
      → (has_id k (delete_id j l) ≡ true) ⊎ (0 < length l - length (delete_id j l))
  unfolding delete_id
  has_id-delete_id j k l h = has_id-deletion (λ r. if r.event_id == j then false else true) k l h

  has_id-delete_other :
      (j k : String) (l : List (Row W))
      → j == k ≡ false
      → has_id k l ≡ true
      → has_id k (delete_id j l) ≡ true
  unfolding delete_id
  has_id-delete_other j k [] other h = h
  has_id-delete_other j k (r ∷ l) other h =
      ground (
        arith,
        has_id-delete_other j k l other,
        eq_iff r.event_id j,
        eq_iff r.event_id k,
        eq_refl k,
      )

  insert_or_ignore-Accounted :
      (k j : String) (w : W) (now : ℕ) (s : Store W) → Accounted k s (insert_or_ignore j w now s)
  unfolding insert_or_ignore
  insert_or_ignore-Accounted k j w now s = elim (Bool-cases (has_id j s.rows)) [
    | inl there ↦ rw there (Accounted-refl k s)
    | inr absent ↦ rw absent (record {
      grows = omega arith;
      kept = λ h. inl (ground (arith, has_id-snoc k s.rows (new_row j w now)));
    })
  ]

  -- A deletion whose row count goes to one of the three counters.
  deletion-Accounted :
      (k : String) (s : Store W) (l : List (Row W)) (t : Store W)
      → (has_id k s.rows ≡ true → (has_id k l ≡ true) ⊎ (0 < length s.rows - length l))
      → t.rows ≡ l
      → losses t ≡ losses s + (length s.rows - length l)
      → Accounted k s t
  deletion-Accounted k s l t found same total = record {
    grows = omega (arith, total);
    kept = λ h. elim (found h) [
      | inl there ↦ inl (rw same there)
      | inr fewer ↦ inr (omega (arith, total, fewer))
    ];
  }

  has_id-drop_oldest_row :
      (k : String) (l : List (Row W))
      → has_id k l ≡ true
      → (has_id k (drop_oldest_row l) ≡ true) ⊎ (0 < length l - length (drop_oldest_row l))
  unfolding drop_oldest_row
  has_id-drop_oldest_row k [] h = inl h
  has_id-drop_oldest_row k (r ∷ l) h = has_id-delete_id (oldest r l).event_id k (r ∷ l) h

  evict-Accounted : (k : String) (s : Store W) → Accounted k s (evict s)
  unfolding evict
  evict-Accounted k s =
      deletion-Accounted k s (drop_oldest_row s.rows) (evict s)
        (λ h. has_id-drop_oldest_row k s.rows h) refl (omega arith)

  append-Accounted :
      (lim : Limits) (k j : String) (w : W) (now : ℕ) (s : Store W)
      → Accounted k s (store_of (append lim j w now s))
  unfolding append
  append-Accounted lim k j w now s = elim (Bool-cases (leb lim.max_rows s.pending)) [
    | inl at_cap ↦ elim (Overflow-cases lim.overflow) [
      | inl policy ↦
          subst (λ a. Accounted k s (store_of a)) (sym (append_rejects lim j w now s at_cap policy))
            (record { grows = omega arith; kept = λ h. inl h })
      | inr policy ↦
          subst (λ a. Accounted k s (store_of a)) (sym (append_evicts lim j w now s at_cap policy))
            (Accounted-trans (evict-Accounted k s) (insert_or_ignore-Accounted k j w now (evict s)))
    ]
    | inr below ↦ rw below (insert_or_ignore-Accounted k j w now s)
  ]

  ack-Accounted : (k j : String) (s : Store W) → j == k ≡ false → Accounted k s (ack j s)
  unfolding ack
  ack-Accounted k j s other = record {
    grows = omega arith;
    kept = λ h. inl (has_id-delete_other j k s.rows other h);
  }

  nack-Accounted :
      (k j error : String) (next : ℕ) (s : Store W) → Accounted k s (nack j error next s)
  unfolding nack
  nack-Accounted k j error next s = record {
    grows = omega arith;
    kept = λ h. inl (rw (has_id-nack_rows k j error next s.rows) h);
  }

  purge-Accounted :
      (lim : Limits) (k : String) (now : ℕ) (s : Store W) → Accounted k s (purge lim now s)
  unfolding purge
  purge-Accounted lim k now s =
      let young = λ (r : Row W). if ltb (r.created_at + lim.max_age) now then false else true in
      deletion-Accounted k s (keep young s.rows) (purge lim now s)
        (λ h. has_id-deletion young k s.rows h) refl (omega arith)

  decode_rows-Accounted :
      {E : Type 0} (lim : Limits) (decode : W → Option E) (k : String) (l : List (Row W))
      (s : Store W)
      → Accounted k s (decode_rows decode l s).1
  decode_rows-Accounted lim decode k [] s = unfold decode_rows in Accounted-refl k s
  decode_rows-Accounted lim decode k (r ∷ l) s = elim (Option-cases (decode r.envelope)) [
    | inl bad ↦
        let t = delete_corrupt lim r.event_id s in
        subst (λ p. Accounted k s p.1) (sym (decode_bad lim decode r l s bad))
          (Accounted-trans
            (deletion-Accounted k s (delete_id r.event_id s.rows) t
              (λ h. has_id-delete_id r.event_id k s.rows h) refl (omega arith))
            (decode_rows-Accounted lim decode k l t))
    | inr (e, good) ↦
        subst (λ p. Accounted k s p.1) (sym (decode_good lim decode r l s e good))
          (decode_rows-Accounted lim decode k l s)
  ]

  -- A call that does not acknowledge `k`.
  abbrev pub Leaves : String → Call W → Type 0
  Leaves k (acking j) = j == k ≡ false
  Leaves k c = Unit

module _ {W E : Type 0} (lim : Limits) (decode : W → Option E) (k : String) where
  call-Accounted : (c : Call W) (s : Store W) → Leaves k c → Accounted k s (call lim decode c s)
  unfolding call
  call-Accounted (appending j w now) s h = append-Accounted lim k j w now s
  call-Accounted (acking j) s h = ack-Accounted k j s h
  call-Accounted (nacking j error next) s h = nack-Accounted k j error next s
  call-Accounted (reading now limit) s h =
      unfold due in
      Accounted-trans (purge-Accounted lim k now s) (
        decode_rows-Accounted lim decode k (select_due now limit (purge lim now s).rows)
          (purge lim now s))

  calls-Accounted :
      (cs : List (Call W)) (s : Store W) → All (Leaves k) cs → Accounted k s (calls lim decode cs s)
  unfolding calls
  calls-Accounted [] s h = Accounted-refl k s
  calls-Accounted (c ∷ cs) s h =
      Accounted-trans (call-Accounted c s h.0) (calls-Accounted cs (call lim decode c s) h.1)

  -- No envelope is lost silently: one that is in the store is still there after any calls that do
  -- not acknowledge it, or one of the counters `expired`, `dropped` and `corrupt` has grown.
  pub calls-accounts :
      (cs : List (Call W)) (s : Store W)
      → All (Leaves k) cs
      → has_id k s.rows ≡ true
      → (has_id k (calls lim decode cs s).rows ≡ true) ⊎ (losses s < losses (calls lim decode cs s))
  calls-accounts cs s h there = (calls-Accounted cs s h).kept there
