-- ===== src/Webhooks/Bodies.antt =====
-- The helpers of receiver.py: read_capped, client_ip, ip_allowed and parse_body.
use navigator_eventbus.Prelude.{
  ℕ, Bool, true, false, ◌||◌, Option, none, some, List, [], ◌∷◌, ◌++◌, codes, codes_eq, until_code,
  has_part, ltb, length, any_of, if◌then◌else◌,
}
use navigator_eventbus.Signatures.{Primitives, strip, get_header, is_empty}
use navigator_eventbus.Webhooks.{
  Text, Payload, object, data_of, form_of, raw_text, raw_hex, Request,
}

-- ipaddress.ip_address, `address in network`, bytes.decode, json.loads (where `none` is an exception or
-- a null), whether its value is a dict, parse_qsl and bytes.hex.
pub record Formats (J A N : Type 0) : Type 0 where
  pub ip_address : Text → Option A
  pub within : A → N → Bool
  pub utf8 : Text → Option Text
  pub loads : Text → Option J
  pub is_dict : J → Bool
  pub parse_qsl : Text → Option (List (Text × Text))
  pub hex : Text → Text

-- The loop over the chunks; `none` is BodyTooLarge.
unfoldable pub read_chunks : ℕ → Text → List Text → Option Text
read_chunks limit buffer [] = some buffer
read_chunks limit buffer (c ∷ cs) =
    let rest = read_chunks limit (buffer ++ c) cs in
    if ltb limit (length (buffer ++ c)) then none else rest

abbrev over : ℕ → Option ℕ → Bool
over limit none = false
over limit (some n) = ltb limit n

unfoldable pub read_capped : Request → ℕ → Option Text
unfolding read_chunks
read_capped request limit =
    if over limit request.content_length then none else read_chunks limit [] request.chunks

module _ (prim : Primitives) where
  -- The first entry of X-Forwarded-For, if it is to be trusted and not empty.
  abbrev first_hop : Option Text → Option Text
  first_hop none = none
  first_hop (some forwarded) =
      let first = strip prim (until_code b',' forwarded) in
      if is_empty first then none else some first

  unfoldable pub client_ip : Bool → Request → Option Text
  unfolding strip
  client_ip false request = request.remote
  client_ip true request =
      elim (first_hop (get_header prim (codes "X-Forwarded-For") request.headers)) [
        | some ip ↦ some ip
        | none ↦ request.remote
      ]

  module _ {J A N : Type 0} (formats : Formats J A N) where
    abbrev listed : Option A → List N → Bool
    listed none networks = false
    listed (some address) networks = any_of (formats.within address) networks

    unfoldable pub ip_allowed : Option Text → List N → Bool
    ip_allowed ip [] = true
    ip_allowed none (n ∷ ns) = false
    ip_allowed (some ip) (n ∷ ns) =
        if is_empty ip then false else listed (formats.ip_address ip) (n ∷ ns)

    abbrev as_payload : J → Payload J
    as_payload j = if formats.is_dict j then object j else data_of j

    abbrev json_of : Text → Option (Payload J)
    json_of text = elim (formats.loads text) [ none ↦ none | some j ↦ some (as_payload j) ]

    abbrev form : Text → Option (Payload J)
    form text = elim (formats.parse_qsl text) [ none ↦ none | some pairs ↦ some (form_of pairs) ]

    -- `content_type.split(";")[0].strip().lower()`
    abbrev base_type : Text → Text
    base_type content_type = prim.lower (strip prim (until_code b';' content_type))

    -- A form is a form; anything else is tried as JSON.
    abbrev parsed_as : Text → Text → Option (Payload J)
    parsed_as base text =
        if any_of (λ token. has_part token base)
            (codes "application/json" ∷ codes "+json" ∷ codes "text/json" ∷ [])
          || is_empty base
        then json_of text
        else if codes_eq base (codes "application/x-www-form-urlencoded")
        then form text
        else json_of text

    abbrev parsed_text : Text → Option Text → Option (Payload J)
    parsed_text base none = none
    parsed_text base (some text) = parsed_as base text

    abbrev fallback : Text → Text → Option Text → Payload J
    fallback body content_type (some text) = raw_text text content_type
    fallback body content_type none = raw_hex (formats.hex body) content_type

    -- `none` is the ValueError.
    unfoldable pub parse_body : Text → Text → Bool → Option (Payload J)
    unfolding strip
    parse_body body content_type allow_non_json =
        elim (parsed_text (base_type content_type) (formats.utf8 body)) [
          | some p ↦ some p
          | none ↦
              if allow_non_json then some (fallback body content_type (formats.utf8 body)) else none
        ]
