-- ===== src/Queues/Requests.antt =====
-- src/navigator_eventbus/queues/models.py: the bodies of the requests, as JSON gives them and as the
-- models accept them.
use navigator_eventbus.Prelude.{
  ℕ, String, Bool, not, ◌&&◌, Option, none, some, List, [], ◌∷◌, ◌==◌, map, ltb, leb, length,
  any_of, ◌>>=◌, Result, ok, raise, guard, ◌>>◌, if◌then◌else◌,
}
use navigator_eventbus.Prelude.Int.{ℤ, pos, negsuc}

-- MAX_BATCH_ENTRIES and MAX_WAIT_TIME_SECONDS
abbrev pub max_batch_entries : ℕ
max_batch_entries = 10

abbrev pub max_wait_time_seconds : ℕ
max_wait_time_seconds = 20

-- The constraint that a field does not meet.
pub data Invalid : Type 0 where
  too_short too_small too_large duplicate_id : Invalid

pub record RawReceive : Type 0 where
  pub group : String
  pub max_messages : ℤ
  pub wait_time_seconds : ℤ
  pub visibility_timeout_seconds : Option ℤ

pub record ReceiveRequest : Type 0 where
  pub group : String
  pub max_messages : ℕ
  pub wait_time_seconds : ℕ
  pub visibility_timeout_seconds : Option ℕ

-- `min_length=1`, `ge=low` and `le=high`.
abbrev pub non_empty : String → Result Invalid (Unit {0})
non_empty text = guard (not (text == "")) too_short

unfoldable pub at_least : ℕ → ℤ → Result Invalid ℕ
at_least low (negsuc n) = raise too_small
at_least low (pos n) = if ltb n low then raise too_small else ok n

unfoldable pub at_most : ℕ → ℕ → Result Invalid ℕ
at_most high n = if ltb high n then raise too_large else ok n

unfoldable pub optional : Option ℤ → Result Invalid (Option ℕ)
unfolding at_least
optional none = ok none
optional (some n) = at_least 0 n >>= λ m. ok (some m)

unfoldable pub validate_receive : RawReceive → Result Invalid ReceiveRequest
unfolding at_least at_most optional
validate_receive raw = non_empty raw.group >>= λ _. at_least 1 raw.max_messages >>= λ m.
    at_most max_batch_entries m >>= λ messages. at_least 0 raw.wait_time_seconds >>= λ t.
    at_most max_wait_time_seconds t >>= λ wait.
    optional raw.visibility_timeout_seconds >>= λ visibility. ok (record {
      group = raw.group;
      max_messages = messages;
      wait_time_seconds = wait;
      visibility_timeout_seconds = visibility;
    })

-- class DeleteEntry and ChangeVisibilityEntry; a handle is text as a list of codes.
pub record DeleteEntry : Type 0 where
  pub id : String
  pub receipt_handle : List ℕ

pub record VisibilityEntry : Type 0 where
  pub id : String
  pub receipt_handle : List ℕ
  pub visibility_timeout_seconds : ℕ

-- class DeleteRequest and ChangeVisibilityRequest
pub record Batch (E : Type 0) : Type 0 where
  pub group : String
  pub entries : List E

-- `_reject_duplicate_ids`
unfoldable pub reject_duplicate_ids : List String → List String → Result Invalid (Unit {0})
reject_duplicate_ids seen [] = ok tt
reject_duplicate_ids seen (i ∷ ids) =
    guard (not (any_of (λ j. j == i) seen)) duplicate_id >> reject_duplicate_ids (i ∷ seen) ids

-- The lengths that a batch's list admits.
unfoldable pub batch_size : ℕ → Result Invalid (Unit {0})
batch_size n = guard (ltb 0 n) too_short >> guard (leb n max_batch_entries) too_large

-- The list of a batch, by the constraints of its entries and their ids.
unfoldable pub validate_entries {ℓ} :
    {E : Type ℓ} → (E → Bool) → (E → String) → List E → Result Invalid (Unit {0})
unfolding batch_size reject_duplicate_ids
validate_entries fine id_of entries =
    batch_size (length entries)
    >> guard (not (any_of (λ e. not (fine e)) entries)) too_short
    >> reject_duplicate_ids [] (map id_of entries)

abbrev pub fine_delete : DeleteEntry → Bool
fine_delete e = not (e.id == "") && ltb 0 (length e.receipt_handle)

abbrev pub fine_visibility : VisibilityEntry → Bool
fine_visibility e = not (e.id == "") && ltb 0 (length e.receipt_handle)

unfoldable pub validate_delete : Batch DeleteEntry → Result Invalid (Batch DeleteEntry)
unfolding validate_entries
validate_delete batch =
    non_empty batch.group >> validate_entries fine_delete (λ e. e.id) batch.entries >> ok batch

unfoldable pub validate_visibility : Batch VisibilityEntry → Result Invalid (Batch VisibilityEntry)
unfolding validate_entries
validate_visibility batch =
    non_empty batch.group >> validate_entries fine_visibility (λ e. e.id) batch.entries >> ok batch
