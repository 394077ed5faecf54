-- ===== src/Outbox.antt =====
-- src/navigator_eventbus/outbox.py: SqliteOutbox, with its table as a list of rows in the order
-- of insertion.
-- Times are whole ticks. A row holds its envelope in the serialised form; reading it back may
-- fail, which `decode` tells.
pub mod Rows
pub mod Counting
pub mod Reading
pub mod Selection
use navigator_eventbus.Prelude.{
  ℕ, zero, suc, ◌+◌, ◌-◌, String, Bool, true, false, Option, none, some, List, [], ◌∷◌, ◌++◌, ◌==◌,
  ltb, leb, length, keep, take, Result, ok, raise, if◌then◌else◌,
}
use navigator_eventbus.Prelude.Sorting.{sort_by}

pub data Overflow : Type 0 where
  reject_new drop_oldest : Overflow

pub record Row (W : Type 0) : Type 0 where
  pub event_id : String
  pub envelope : W
  pub created_at : ℕ
  pub attempts : ℕ
  pub next_try_at : ℕ
  pub last_error : Option String

pub record Store (W : Type 0) : Type 0 where
  pub rows : List (Row W)
  pub pending : ℕ
  pub expired : ℕ
  pub dropped : ℕ
  pub rejected : ℕ
  pub corrupt : ℕ

pub record Limits : Type 0 where
  pub max_rows : ℕ
  pub max_age : ℕ
  pub overflow : Overflow

-- The two ways in which `append` returns.
pub data Appended (W : Type 0) : Type 0 where
  stored : Store W → Appended W
  full : Store W → Appended W

module _ {W : Type 0} where
  abbrev pub has_id : String → List (Row W) → Bool
  has_id k [] = false
  has_id k (r ∷ l) = let rest = has_id k l in if r.event_id == k then true else rest

  -- DELETE FROM evb_outbox WHERE event_id = ?
  unfoldable pub delete_id : String → List (Row W) → List (Row W)
  delete_id k l = keep (λ r. if r.event_id == k then false else true) l

  -- The row that ORDER BY created_at LIMIT 1 selects; of equal ones, the one inserted first.
  unfoldable pub oldest : Row W → List (Row W) → Row W
  oldest r [] = r
  oldest r (s ∷ l) = oldest (if ltb s.created_at r.created_at then s else r) l

  unfoldable pub drop_oldest_row : List (Row W) → List (Row W)
  drop_oldest_row [] = []
  drop_oldest_row (r ∷ l) = delete_id (oldest r l).event_id (r ∷ l)

  -- `pending -= cur.rowcount`, where the statement took `before` to `after`.
  abbrev rowcount : List (Row W) → List (Row W) → ℕ
  rowcount before after = length before - length after

  unfoldable pub new_row : String → W → ℕ → Row W
  new_row k w now = record {
    event_id = k;
    envelope = w;
    created_at = now;
    attempts = 0;
    next_try_at = now;
    last_error = none;
  }

  -- INSERT OR IGNORE, and the count of what it inserted.
  unfoldable pub insert_or_ignore : String → W → ℕ → Store W → Store W
  insert_or_ignore k w now s =
      if has_id k s.rows
      then s
      else record s { rows = s.rows ++ new_row k w now ∷ []; pending = s.pending + 1 }

  unfoldable pub evict : Store W → Store W
  evict s =
      let rows = drop_oldest_row s.rows in
      let gone = rowcount s.rows rows in
      record s { rows = rows; pending = s.pending - gone; dropped = s.dropped + gone }

  unfoldable pub append : Limits → String → W → ℕ → Store W → Appended W
  append lim k w now s =
      if leb lim.max_rows s.pending
      then elim lim.overflow [
        | reject_new ↦ full (record s { rejected = s.rejected + 1 })
        | drop_oldest ↦ stored (insert_or_ignore k w now (evict s))
      ]
      else stored (insert_or_ignore k w now s)

  unfoldable pub ack : String → Store W → Store W
  ack k s =
      let rows = delete_id k s.rows in
      record s { rows = rows; pending = s.pending - rowcount s.rows rows }

  unfoldable pub nack_row : String → String → ℕ → Row W → Row W
  nack_row k error next r =
      if r.event_id == k
      then record r { attempts = r.attempts + 1; last_error = some error; next_try_at = next }
      else r

  unfoldable pub nack_rows : String → String → ℕ → List (Row W) → List (Row W)
  nack_rows k error next [] = []
  nack_rows k error next (r ∷ l) = nack_row k error next r ∷ nack_rows k error next l

  unfoldable pub nack : String → String → ℕ → Store W → Store W
  nack k error next s = record s { rows = nack_rows k error next s.rows }

  -- DELETE ... WHERE created_at < now - max_age; the difference may be negative.
  unfoldable pub purge : Limits → ℕ → Store W → Store W
  purge lim now s =
      let rows = keep (λ r. if ltb (r.created_at + lim.max_age) now then false else true) s.rows in
      let gone = rowcount s.rows rows in
      record s { rows = rows; pending = s.pending - gone; expired = s.expired + gone }

  -- Reading the selected rows: a row that cannot be decoded is deleted.
  unfoldable pub decode_rows :
      {E : Type 0} → (W → Option E) → List (Row W) → Store W → List E × Store W
  decode_rows decode [] s = ([], s)
  decode_rows decode (r ∷ l) s = elim (decode r.envelope) [
    | some e ↦ let (es, s') = decode_rows decode l s in (e ∷ es, s')
    | none ↦
        let rows = delete_id r.event_id s.rows in
        let gone = rowcount s.rows rows in
        decode_rows decode l
          (record s { rows = rows; pending = s.pending - gone; corrupt = s.corrupt + gone })
  ]

  -- SELECT ... WHERE next_try_at <= now ORDER BY created_at LIMIT limit.
  unfoldable pub select_due : ℕ → ℕ → List (Row W) → List (Row W)
  select_due now limit rows = take limit (
      sort_by (λ later earlier. ltb later.created_at earlier.created_at)
        (keep (λ r. leb r.next_try_at now) rows))

  unfoldable pub due : {E : Type 0} → Limits → (W → Option E) → ℕ → ℕ → Store W → List E × Store W
  due lim decode now limit s =
      let s' = purge lim now s in decode_rows decode (select_due now limit s'.rows) s'

-- A call of the store, as OutboxStore offers them.
pub data Call (W : Type 0) : Type 0 where
  appending : String → W → ℕ → Call W
  acking : String → Call W
  nacking : String → String → ℕ → Call W
  reading : ℕ → ℕ → Call W

abbrev pub store_of : {W : Type 0} → Appended W → Store W
store_of (stored s) = s
store_of (full s) = s

module _ {W E : Type 0} (lim : Limits) (decode : W → Option E) where
  -- The store after a call, whether the call returned or raised.
  unfoldable pub call : Call W → Store W → Store W
  call (appending k w now) s = store_of (append lim k w now s)
  call (acking k) s = ack k s
  call (nacking k error next) s = nack k error next s
  call (reading now limit) s = (due lim decode now limit s).1

  unfoldable pub calls : List (Call W) → Store W → Store W
  unfolding call
  calls [] s = s
  calls (c ∷ cs) s = calls cs (call c s)

abbrev pub empty : {W : Type 0} → Store W
empty = record { rows = []; pending = 0; expired = 0; dropped = 0; rejected = 0; corrupt = 0 }
