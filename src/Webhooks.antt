-- ===== src/Webhooks.antt =====
-- src/navigator_eventbus/hooks/webhook: receiver.py and preprocess.py, with the fields of an endpoint
-- and its counters from models.py. Text and bytes are lists of codes; times are whole seconds of one
-- clock. What the language does with JSON, forms, UTF-8 and addresses is a parameter.
pub mod Dedup
pub mod Bodies
pub mod Preprocess
pub mod Ingest
use navigator_eventbus.Prelude.{ℕ, Bool, Option, List}
use navigator_eventbus.Signatures.{Headers}

abbrev pub Text : Type 0
Text = List ℕ

-- A payload: a JSON object, any other JSON value under `data`, the pairs of a form, or a body that was
-- not parsed, as text or in hexadecimal, with its content type.
pub data Payload (J : Type 0) : Type 0 where
  object : J → Payload J
  data_of : J → Payload J
  form_of : List (Text × Text) → Payload J
  raw_text : Text → Text → Payload J
  raw_hex : Text → Text → Payload J

-- The request as the pipeline reads it: its declared length, and the chunks of its body.
pub record Request : Type 0 where
  pub headers : Headers
  pub remote : Option Text
  pub content_length : Option ℕ
  pub chunks : List Text
