-- ===== src/Delivery.antt =====
-- src/navigator_eventbus/subscribers/_delivery.py: HttpDelivery. Times are whole ticks; the answers
-- of the endpoint and the random draws are parameters, by the number of the attempt.
pub mod Attempts
use navigator_eventbus.Prelude.{
  ℕ, zero, suc, ◌+◌, ◌*◌, ◌-◌, ◌^◌, String, Bool, true, false, ◌&&◌, ◌||◌, Option, none, some, List,
  [], ◌∷◌, ltb, leb, eqb, any_of, if◌then◌else◌,
}

-- What one request gives: a response status, or a client error or timeout with its text.
pub data Answer : Type 0 where
  status : ℕ → Answer
  fails : String → Answer

-- class DeliveryOutcome
pub record Outcome : Type 0 where
  pub delivered : Bool
  pub attempts : ℕ
  pub last_status : Option ℕ
  pub error : Option String

pub record HttpDelivery : Type 0 where
  pub max_attempts : ℕ
  pub backoff_base : ℕ
  pub backoff_max : ℕ
  pub jitter : Bool
  pub retry_statuses : List ℕ

-- The constructor: at least one attempt, and 429 where no status is given.
unfoldable pub http_delivery : ℕ → ℕ → ℕ → Bool → List ℕ → HttpDelivery
http_delivery max_attempts backoff_base backoff_max jitter retry_statuses = record {
  max_attempts = if ltb max_attempts 1 then 1 else max_attempts;
  backoff_base = backoff_base;
  backoff_max = backoff_max;
  jitter = jitter;
  retry_statuses = elim retry_statuses [ [] ↦ 429 ∷ [] | s ∷ more ↦ s ∷ more ];
}

unfoldable pub should_retry : HttpDelivery → ℕ → Bool
should_retry h s = leb 500 s || any_of (λ r. eqb r s) h.retry_statuses

-- `draw n d` is random.uniform(0, d).
unfoldable pub delay_for : HttpDelivery → (ℕ → ℕ → ℕ) → ℕ → ℕ
delay_for h draw attempt =
    let raw = h.backoff_base * 2 ^ (attempt - 1) in
    let delay = if leb h.backoff_max raw then h.backoff_max else raw in
    if h.jitter then draw attempt delay else delay

-- The outcome with which an answer to attempt `n` ends the loop, if it does.
unfoldable pub conclusion : HttpDelivery → ℕ → Answer → Option Outcome
conclusion h n (status s) =
    if leb 200 s && ltb s 300
    then some (record { delivered = true; attempts = n; last_status = some s; error = none })
    else if should_retry h s
    then none
    else some
        (record { delivered = false; attempts = n; last_status = some s; error = some "permanent" })
conclusion h n (fails text) = none

abbrev pub status_after : Answer → Option ℕ → Option ℕ
status_after (status s) last = some s
status_after (fails text) last = last

abbrev pub error_after : Answer → Option String → Option String
error_after (status s) last = last
error_after (fails text) last = some text

module _ (h : HttpDelivery) (draw : ℕ → ℕ → ℕ) (answer : ℕ → Answer) where
  abbrev pub exhausted : Option ℕ → Option String → Outcome
  exhausted last_status last_error = record {
    delivered = false;
    attempts = h.max_attempts;
    last_status = last_status;
    error = elim last_error [ none ↦ some "exhausted" | some text ↦ some text ];
  }

  -- The attempts from number `n` on, of which `left` are left, and the pauses made.
  unfoldable pub post_from : ℕ → ℕ → Option ℕ → Option String → Outcome × List ℕ
  post_from zero n last_status last_error = (exhausted last_status last_error, [])
  post_from (suc left) n last_status last_error = elim (conclusion h n (answer n)) [
    | some outcome ↦ (outcome, [])
    | none ↦
        let (outcome, pauses) =
          post_from left (n + 1) (status_after (answer n) last_status)
            (error_after (answer n) last_error) in
        (outcome, if ltb n h.max_attempts then delay_for h draw n ∷ pauses else pauses)
  ]

  unfoldable pub post : Outcome × List ℕ
  post = post_from h.max_attempts 1 none none
