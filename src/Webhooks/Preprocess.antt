-- ===== src/Webhooks/Preprocess.antt =====
-- preprocess.py: what becomes of a preprocessor's answer.
use navigator_eventbus.Prelude.{Bool, false, Option, none, some, List, []}
use navigator_eventbus.Webhooks.{Text, Payload}

-- class PreprocessResult; `failure` is the entry `preprocessor_error` of the metadata, and the rest of
-- the metadata is a list of names and values.
pub record PreprocessResult (J : Type 0) : Type 0 where
  pub payload : Payload J
  pub event_type : Option Text
  pub task : Option Text
  pub metadata : List (Text × Text)
  pub failure : Option Text
  pub ignore : Bool

-- What the callable gives back: an exception (a timeout too), None, one of the accepted shapes, a pair
-- whose parts have other types, or anything else.
pub data Returned (J : Type 0) : Type 0 where
  raised : Text → Returned J
  nothing : Returned J
  result : PreprocessResult J → Returned J
  mapping : Payload J → Returned J
  pair : Payload J → Option Text → Returned J
  bad_pair : Text → Returned J
  other : Text → Returned J

module _ {J : Type 0} where
  abbrev pub plain : Payload J → Option Text → Option Text → PreprocessResult J
  plain payload event_type failure = record {
    payload = payload;
    event_type = event_type;
    task = none;
    metadata = [];
    failure = failure;
    ignore = false;
  }

  -- `_coerce`, within the handler of `run_preprocessor`; the texts are those of the TypeErrors.
  unfoldable pub coerce : Payload J → Returned J → PreprocessResult J
  coerce payload (raised e) = plain payload none (some e)
  coerce payload nothing = plain payload none none
  coerce payload (result r) = r
  coerce payload (mapping p) = plain p none none
  coerce payload (pair p event_type) = plain p event_type none
  coerce payload (bad_pair e) = plain payload none (some e)
  coerce payload (other e) = plain payload none (some e)

  unfoldable pub run_preprocessor : Option (Payload J → Returned J) → Payload J → PreprocessResult J
  unfolding coerce
  run_preprocessor none payload = plain payload none none
  run_preprocessor (some fn) payload = coerce payload (fn payload)
