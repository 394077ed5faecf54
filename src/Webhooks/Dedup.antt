-- ===== src/Webhooks/Dedup.antt =====
-- WebhookIngestMixin._delivery_id and _is_duplicate, in receiver.py. The cache holds keys and times,
-- the oldest first.
pub mod Window
use navigator_eventbus.Prelude.{
  ℕ, ◌-◌, Bool, true, false, Option, none, some, List, [], ◌∷◌, ◌++◌, codes, codes_eq, ltb, leb,
  length, any_of, if◌then◌else◌,
}

abbrev pub Cache : Type 0
Cache = List (List ℕ × ℕ)

-- The loop that drops what is older than the time to live, until one is not.
unfoldable pub prune_old : ℕ → ℕ → Cache → Cache
prune_old ttl now [] = []
prune_old ttl now ((k, t) ∷ c) =
    let rest = prune_old ttl now c in if leb (now - t) ttl then (k, t) ∷ c else rest

-- The loop that drops the oldest while there are too many.
unfoldable pub trim : ℕ → Cache → Cache
trim size [] = []
trim size (e ∷ c) = let rest = trim size c in if ltb size (length (e ∷ c)) then rest else e ∷ c

-- `full_key in cache`
abbrev pub has_key : List ℕ → Cache → Bool
has_key k c = any_of (λ e. codes_eq e.0 k) c

abbrev pub full_key : List ℕ → List ℕ → List ℕ
full_key path key = path ++ b':' ∷ key

-- The key is looked up, and recorded if it is new.
unfoldable pub look_up : ℕ → ℕ → List ℕ → Cache → Bool × Cache
unfolding trim
look_up size now k c = if has_key k c then (true, c) else (false, trim size (c ++ (k, now) ∷ []))

-- The delivery's id is the value of the header, if there is one that is not empty.
unfoldable pub is_duplicate : ℕ → ℕ → List ℕ → Option (List ℕ) → ℕ → Cache → Bool × Cache
unfolding look_up prune_old
is_duplicate ttl size path none now c = (false, c)
is_duplicate ttl size path (some []) now c = (false, c)
is_duplicate ttl size path (some (x ∷ key)) now c =
    if ltb 0 ttl
    then look_up size now (full_key path (x ∷ key)) (prune_old ttl now c)
    else (false, c)
