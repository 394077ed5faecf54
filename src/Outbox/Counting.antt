-- ===== src/Outbox/Counting.antt =====
-- The counter `pending`, the primary key and the row cap of SqliteOutbox over sequences of calls.
use navigator_eventbus.Prelude.{
  ℕ, ◌+◌, ◌-◌, ◌≤◌, ◌<◌, ◌≡◌, sym, subst, inl, inr, String, true, false, Option, none, some, List,
  [], ◌∷◌, ◌==◌, arith, ltb, leb, length, length-append, length-keep-le, keep, Bool-cases,
  Option-cases, if◌then◌else◌,
}
use navigator_eventbus.Outbox.{
  reject_new, drop_oldest, Row, Store, Limits, stored, full, has_id, delete_id, new_row,
  insert_or_ignore, evict, append, ack, nack, purge, decode_rows, select_due, due, Call, appending,
  acking, nacking, reading, call, calls, store_of,
}
use navigator_eventbus.Outbox.Rows.{
  Overflow-cases, Distinct, keep-Distinct, snoc-Distinct, length-nack_rows, nack_rows-Distinct,
  length-drop_oldest_row, delete_id-Distinct, drop_oldest_row-Distinct,
}

module _ {W : Type 0} where
  pub record IsValid (lim : Limits) (s : Store W) : Type 0 where
    pub counted : s.pending ≡ length s.rows
    pub distinct : Distinct s.rows
    pub bounded : length s.rows ≤ lim.max_rows

module _ {W : Type 0} (lim : Limits) where
  -- An insertion where there is room.
  insert_or_ignore-IsValid :
      (k : String) (w : W) (now : ℕ) (s : Store W)
      → length s.rows < lim.max_rows
      → IsValid lim s
      → IsValid lim (insert_or_ignore k w now s)
  unfolding insert_or_ignore
  insert_or_ignore-IsValid k w now s room v = elim (Bool-cases (has_id k s.rows)) [
    | inl there ↦ rw there v
    | inr absent ↦ rw absent (record {
      counted = omega (arith, v.counted, length-append s.rows (new_row k w now ∷ []));
      distinct = snoc-Distinct s.rows (new_row k w now) (unfold new_row in absent) v.distinct;
      bounded = omega (arith, length-append s.rows (new_row k w now ∷ []));
    })
  ]

  evict-IsValid :
      (s : Store W)
      → 0 < length s.rows
      → IsValid lim s
      → IsValid lim (evict s) × (length (evict s).rows < lim.max_rows)
  unfolding evict
  evict-IsValid s h v =
      let fewer = length-drop_oldest_row s.rows h in
      (
        record {
          counted = omega (arith, v.counted, fewer);
          distinct = drop_oldest_row-Distinct s.rows v.distinct;
          bounded = omega (arith, v.bounded, fewer);
        },
        omega (arith, v.bounded, fewer),
      )

  -- A full store, by its policy.
  pub append_rejects :
      (k : String) (w : W) (now : ℕ) (s : Store W)
      → leb lim.max_rows s.pending ≡ true
      → lim.overflow ≡ reject_new
      → append lim k w now s ≡ full (record s { rejected = s.rejected + 1 })
  unfolding append
  append_rejects k w now s at_cap policy = simp (at_cap, policy)

  pub append_evicts :
      (k : String) (w : W) (now : ℕ) (s : Store W)
      → leb lim.max_rows s.pending ≡ true
      → lim.overflow ≡ drop_oldest
      → append lim k w now s ≡ stored (insert_or_ignore k w now (evict s))
  unfolding append
  append_evicts k w now s at_cap policy = simp (at_cap, policy)

  append-IsValid :
      (k : String) (w : W) (now : ℕ) (s : Store W)
      → 0 < lim.max_rows
      → IsValid lim s
      → IsValid lim (store_of (append lim k w now s))
  unfolding append
  append-IsValid k w now s h v = elim (Bool-cases (leb lim.max_rows s.pending)) [
    | inl at_cap ↦
        let some_row : 0 < length s.rows = ground arith in
        let (evicted, room) = evict-IsValid s some_row v in
        elim (Overflow-cases lim.overflow) [
          | inl policy ↦
              subst (λ a. IsValid lim (store_of a)) (sym (append_rejects k w now s at_cap policy))
                (record { counted = v.counted; distinct = v.distinct; bounded = v.bounded })
          | inr policy ↦
              subst (λ a. IsValid lim (store_of a)) (sym (append_evicts k w now s at_cap policy))
                (insert_or_ignore-IsValid k w now (evict s) room evicted)
        ]
    | inr below ↦ rw below (insert_or_ignore-IsValid k w now s (ground arith) v)
  ]

  -- Deleting rows, and counting what was deleted.
  deletion-IsValid :
      (rows : List (Row W)) (s : Store W)
      → length rows ≤ length s.rows
      → Distinct rows
      → IsValid lim s
      → IsValid lim (record s { rows = rows; pending = s.pending - (length s.rows - length rows) })
  deletion-IsValid rows s fewer d v = record {
    counted = omega (arith, v.counted, fewer);
    distinct = d;
    bounded = omega (arith, v.bounded, fewer);
  }

  delete_id-IsValid :
      (k : String) (s : Store W)
      → IsValid lim s
      → IsValid lim (record s {
        rows = delete_id k s.rows;
        pending = s.pending - (length s.rows - length (delete_id k s.rows));
      })
  delete_id-IsValid k s v =
      deletion-IsValid (delete_id k s.rows) s
        (unfold delete_id in
          length-keep-le (λ (x : Row W). if x.event_id == k then false else true) s.rows)
        (delete_id-Distinct k s.rows v.distinct) v

  purge-IsValid : (now : ℕ) (s : Store W) → IsValid lim s → IsValid lim (purge lim now s)
  unfolding purge
  purge-IsValid now s v =
      let young = λ (r : Row W). if ltb (r.created_at + lim.max_age) now then false else true in
      let w =
        deletion-IsValid (keep young s.rows) s (length-keep-le young s.rows)
          (keep-Distinct young s.rows v.distinct) v in
      record { counted = w.counted; distinct = w.distinct; bounded = w.bounded }

  -- The row is deleted and counted as corrupt.
  abbrev pub delete_corrupt : String → Store W → Store W
  delete_corrupt k s =
      let rows = delete_id k s.rows in
      let gone = length s.rows - length rows in
      record s { rows = rows; pending = s.pending - gone; corrupt = s.corrupt + gone }

  pub decode_bad :
      {E : Type 0} (decode : W → Option E) (r : Row W) (l : List (Row W)) (s : Store W)
      → decode r.envelope ≡ none
      → decode_rows decode (r ∷ l) s ≡ decode_rows decode l (delete_corrupt r.event_id s)
  unfolding decode_rows
  decode_bad decode r l s bad = rw (bad, decode_rows)

  pub decode_good :
      {E : Type 0} (decode : W → Option E) (r : Row W) (l : List (Row W)) (s : Store W) (e : E)
      → decode r.envelope ≡ some e
      → decode_rows decode (r ∷ l) s ≡ (e ∷ (decode_rows decode l s).0, (decode_rows decode l s).1)
  unfolding decode_rows
  decode_good decode r l s e good = rw (good, decode_rows)

  decode_rows-IsValid :
      {E : Type 0} (decode : W → Option E) (l : List (Row W)) (s : Store W)
      → IsValid lim s
      → IsValid lim (decode_rows decode l s).1
  decode_rows-IsValid decode [] s v = unfold decode_rows in v
  decode_rows-IsValid decode (r ∷ l) s v = elim (Option-cases (decode r.envelope)) [
    | inl bad ↦
        let w = delete_id-IsValid r.event_id s v in
        subst (λ p. IsValid lim p.1) (sym (decode_bad decode r l s bad))
          (decode_rows-IsValid decode l (delete_corrupt r.event_id s)
            (record { counted = w.counted; distinct = w.distinct; bounded = w.bounded }))
    | inr (e, good) ↦
        subst (λ p. IsValid lim p.1) (sym (decode_good decode r l s e good))
          (decode_rows-IsValid decode l s v)
  ]

module _ {W E : Type 0} (lim : Limits) (decode : W → Option E) (room : 0 < lim.max_rows) where
  call-IsValid : (c : Call W) (s : Store W) → IsValid lim s → IsValid lim (call lim decode c s)
  unfolding call
  call-IsValid (appending k w now) s v = append-IsValid lim k w now s room v
  call-IsValid (acking k) s v =
      let w = delete_id-IsValid lim k s v in
      unfold ack in record { counted = w.counted; distinct = w.distinct; bounded = w.bounded }
  call-IsValid (nacking k error next) s v =
      unfold nack in
      (record {
        counted = omega (arith, v.counted, length-nack_rows k error next s.rows);
        distinct = nack_rows-Distinct k error next s.rows v.distinct;
        bounded = omega (arith, v.bounded, length-nack_rows k error next s.rows);
      })
  call-IsValid (reading now limit) s v =
      unfold due in
      decode_rows-IsValid lim decode (select_due now limit (purge lim now s).rows) (purge lim now s)
        (purge-IsValid lim now s v)

  -- After any calls on a store that was valid, whichever of them raise: the counter `pending` is
  -- the number of rows, no two rows have the same event id, and there are at most `max_rows`
  -- rows, if `max_rows` is not 0.
  pub calls-IsValid :
      (cs : List (Call W)) (s : Store W) → IsValid lim s → IsValid lim (calls lim decode cs s)
  unfolding calls
  calls-IsValid [] s v = v
  calls-IsValid (c ∷ cs) s v = calls-IsValid cs (call lim decode c s) (call-IsValid c s v)
