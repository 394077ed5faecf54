-- ===== src/Tests/Deliveries.antt =====
-- An endpoint that is overloaded twice and then accepts, and one that stays so.
use navigator_eventbus.Prelude.{
  ℕ, ◌≤◌, ◌≡◌, refl, true, none, some, [], ◌∷◌, arith, ltb, length, if◌then◌else◌,
}
use navigator_eventbus.Delivery.{
  Answer, status, Outcome, HttpDelivery, should_retry, conclusion, post,
}
use navigator_eventbus.Delivery.Attempts.{Transient, post-Transient}

abbrev patient : HttpDelivery
patient = record {
  max_attempts = 3;
  backoff_base = 5;
  backoff_max = 8;
  jitter = true;
  retry_statuses = 429 ∷ [];
}

abbrev half : ℕ → ℕ → ℕ
half n d = 0

abbrev recovering : ℕ → Answer
recovering n = if ltb n 3 then status 503 else status 204

abbrev accepted : Outcome
accepted = record { delivered = true; attempts = 3; last_status = some 204; error = none }

overloaded : Transient patient recovering 1 2
unfolding conclusion should_retry
overloaded = (refl, (refl, tt))

then_accepts : conclusion patient 3 (status 204) ≡ some accepted
unfolding conclusion
then_accepts = refl

post-Transient_example :
    ((post patient half recovering).0 ≡ accepted) × (length (post patient half recovering).1 ≡ 2)
post-Transient_example =
    post-Transient patient half recovering 2 accepted (omega arith) overloaded then_accepts

abbrev refusing : ℕ → Answer
refusing n = status 429

limited : Transient patient refusing 1 3
unfolding conclusion should_retry
limited = (refl, (refl, (refl, tt)))

fair : (n d : ℕ) → half n d ≤ d
fair n d = omega arith
