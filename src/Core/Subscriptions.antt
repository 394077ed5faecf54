-- ===== src/Core/Subscriptions.antt =====
-- BusCore.subscribe, match_count, unsubscribe and _matching_subscriptions.
pub mod Matching
pub mod Removal
use navigator_eventbus.Prelude.{
  ℕ, ◌+◌, String, Bool, true, false, ◌||◌, Option, none, some, List, [], ◌∷◌, ◌++◌, ◌==◌, length,
  keep, codes, has_code, if◌then◌else◌,
}
use navigator_eventbus.Prelude.Int.{ℤ, lt_int}
use navigator_eventbus.Prelude.Sorting.{sort_by}
use navigator_eventbus.Envelope.{EventEnvelope, Severity}
use navigator_eventbus.Glob.{fnmatch}
use navigator_eventbus.Core.{Bus, Subscription, Filtered, Error}

-- sort(key=lambda s: -s.priority): a later, higher priority comes forward.
abbrev pub by_priority : Subscription → Subscription → Bool
by_priority later earlier = lt_int earlier.priority later.priority

-- `"*" in pattern or "?" in pattern`
unfoldable pub is_glob : String → Bool
is_glob pattern = has_code b'*' (codes pattern) || has_code b'?' (codes pattern)

-- self._subscriptions.setdefault(pattern, []).append(subscription), and the sort of that list.
unfoldable pub add_exact :
    String → Subscription → List (String × List Subscription) → List (String × List Subscription)
add_exact p sub [] = (p, sort_by by_priority (sub ∷ [])) ∷ []
add_exact p sub ((q, subs) ∷ rest) =
    let others = add_exact p sub rest in
    if q == p then (q, sort_by by_priority (subs ++ sub ∷ [])) ∷ rest else (q, subs) ∷ others

-- self._subscriptions.get(topic, ())
unfoldable pub exact_at : String → List (String × List Subscription) → List Subscription
exact_at topic [] = []
exact_at topic ((q, subs) ∷ rest) =
    let others = exact_at topic rest in if q == topic then subs else others

-- `uuid` is the fresh subscriber id.
unfoldable pub subscribe :
    String
    → String
    → (ℕ → EventEnvelope → Option Error)
    → ℤ
    → Option (EventEnvelope → Filtered)
    → Option Severity
    → Bus
    → String × Bus
unfolding is_glob add_exact
subscribe uuid pattern handler priority filter_fn min_severity b =
    let sub : Subscription = record {
      pattern = pattern;
      handler = handler;
      subscriber_id = uuid;
      priority = priority;
      filter_fn = filter_fn;
      min_severity = min_severity;
    } in
    (
      uuid,
      if is_glob pattern
          then record b {
            pattern_subscriptions = sort_by by_priority (b.pattern_subscriptions ++ sub ∷ []);
          }
          else record b { subscriptions = add_exact pattern sub b.subscriptions },
    )

unfoldable pub match_count : String → Bus → ℕ
unfolding exact_at
match_count topic b =
    length (exact_at topic b.subscriptions)
    + length (keep (λ s. fnmatch topic s.pattern) b.pattern_subscriptions)

unfoldable pub matching_subscriptions : String → Bus → List Subscription
unfolding exact_at
matching_subscriptions topic b =
    sort_by by_priority (
      exact_at topic b.subscriptions ++ keep (λ s. fnmatch topic s.pattern) b.pattern_subscriptions)

-- The list without its first subscription of that id, if it has one.
unfoldable pub remove_id : String → List Subscription → Option (List Subscription)
remove_id sid [] = none
remove_id sid (s ∷ subs) =
    let rest = remove_id sid subs in
    if s.subscriber_id == sid then some subs else elim rest [ none ↦ none | some l ↦ some (s ∷ l) ]

unfoldable pub remove_exact :
    String → List (String × List Subscription) → Option (List (String × List Subscription))
remove_exact sid [] = none
remove_exact sid ((p, subs) ∷ rest) =
    let others = remove_exact sid rest in
    elim (remove_id sid subs) [
      | some l ↦ some ((p, l) ∷ rest)
      | none ↦ elim others [ none ↦ none | some r ↦ some ((p, subs) ∷ r) ]
    ]

unfoldable pub unsubscribe : String → Bus → Bool × Bus
unsubscribe sid b = elim (remove_exact sid b.subscriptions) [
  | some subs ↦ (true, record b { subscriptions = subs })
  | none ↦ elim (remove_id sid b.pattern_subscriptions) [
    | some l ↦ (true, record b { pattern_subscriptions = l })
    | none ↦ (false, b)
  ]
]
