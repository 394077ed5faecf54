-- ===== src/Core/Subscriptions/Matching.antt =====
-- Which subscriptions a topic reaches, in which order, and how subscribing changes that.
use mathlib.Core.List.{Perm}
use navigator_eventbus.Prelude.{
  ℕ, ◌+◌, ◌≡◌, refl, inl, inr, String, Bool, true, false, Option, List, [], ◌∷◌, ◌++◌, ◌==◌, eq_iff,
  arith, length, length-append, keep, Bool-cases, if◌then◌else◌,
}
use navigator_eventbus.Prelude.Int.{ℤ, pos, negsuc, lt_int}
use navigator_eventbus.Prelude.Sorting.{
  sort_by, IsOrdered, sort_by-perm, length-sort_by, sort_by-IsOrdered, insert_by,
}
use navigator_eventbus.Envelope.{EventEnvelope, Severity}
use navigator_eventbus.Glob.{fnmatch}
use navigator_eventbus.Core.{Bus, Subscription, Filtered, Error}
use navigator_eventbus.Core.Subscriptions.{
  by_priority, is_glob, add_exact, exact_at, subscribe, match_count, matching_subscriptions,
}

lt_int_asym : (a b : ℤ) → lt_int a b ≡ true → lt_int b a ≡ false
lt_int_asym (pos a) (pos b) h = ground arith
lt_int_asym (pos a) (negsuc b) h = cc
lt_int_asym (negsuc a) (pos b) h = refl
lt_int_asym (negsuc a) (negsuc b) h = ground arith

by_priority_asym : (a b : Subscription) → by_priority a b ≡ true → by_priority b a ≡ false
by_priority_asym a b h = lt_int_asym b.priority a.priority h

-- The subscriptions that a topic reaches are those under its exact name and those whose glob
-- pattern matches it, no more and no fewer, highest priority first.
pub matching_subscriptions_lem :
    (topic : String) (b : Bus)
    → Perm (matching_subscriptions topic b) (
        exact_at topic b.subscriptions
        ++ keep (λ s. fnmatch topic s.pattern) b.pattern_subscriptions)
      × IsOrdered by_priority (matching_subscriptions topic b)
unfolding matching_subscriptions
matching_subscriptions_lem topic b =
    (sort_by-perm by_priority _, sort_by-IsOrdered by_priority by_priority_asym _)

-- The count that `publish` reports is the number of subscriptions that the dispatch would visit.
pub match_count-matching :
    (topic : String) (b : Bus) → match_count topic b ≡ length (matching_subscriptions topic b)
unfolding match_count matching_subscriptions
match_count-matching topic b = omega (
  arith,
  length-sort_by by_priority (
      exact_at topic b.subscriptions
      ++ keep (λ s. fnmatch topic s.pattern) b.pattern_subscriptions),
  length-append (exact_at topic b.subscriptions)
      (keep (λ s. fnmatch topic s.pattern) b.pattern_subscriptions),
)

-- Whether a subscription to the pattern is reached by the topic.
abbrev pub reaches : String → String → Bool
reaches topic pattern = if is_glob pattern then fnmatch topic pattern else pattern == topic

abbrev pub one_if : Bool → ℕ
one_if b = if b then 1 else 0

module _ (p : Subscription → Bool) where
  pub length-keep-insert_by :
      (x : Subscription) (xs : List Subscription)
      → length (keep p (insert_by by_priority x xs)) ≡ length (keep p xs) + one_if (p x)
  unfolding insert_by
  length-keep-insert_by x [] = ground arith
  length-keep-insert_by x (y ∷ ys) = elim (Bool-cases (by_priority y x)) [
    | inl e ↦ rw e (ground (arith, length-keep-insert_by x ys))
    | inr e ↦ rw e (ground arith)
  ]

  length-keep-sort_by :
      (xs : List Subscription) → length (keep p (sort_by by_priority xs)) ≡ length (keep p xs)
  unfolding sort_by
  length-keep-sort_by [] = refl
  length-keep-sort_by (x ∷ xs) =
      ground (arith, length-keep-insert_by x (sort_by by_priority xs), length-keep-sort_by xs)

  length-keep-snoc :
      (xs : List Subscription) (x : Subscription)
      → length (keep p (xs ++ x ∷ [])) ≡ length (keep p xs) + one_if (p x)
  length-keep-snoc [] x = ground arith
  length-keep-snoc (y ∷ ys) x = ground (arith, length-keep-snoc ys x)

length-exact_at-add_exact :
    (topic p : String) (sub : Subscription) (d : List (String × List Subscription))
    → length (exact_at topic (add_exact p sub d)) ≡ length (exact_at topic d) + one_if (p == topic)
unfolding exact_at add_exact
length-exact_at-add_exact topic p sub [] = ground (arith, length-sort_by by_priority (sub ∷ []))
length-exact_at-add_exact topic p sub ((q, subs) ∷ d) = ground (
  arith,
  length-exact_at-add_exact topic p sub d,
  length-sort_by by_priority (subs ++ sub ∷ []),
  length-append subs (sub ∷ []),
  eq_iff q p,
  eq_iff q topic,
  eq_iff p topic,
)

module _ (uuid pattern : String) (handler : ℕ → EventEnvelope → Option Error) (priority : ℤ)
    (filter_fn : Option (EventEnvelope → Filtered)) (min_severity : Option Severity) (b : Bus) where
  unfoldable pub added : Subscription
  added = record {
    pattern = pattern;
    handler = handler;
    subscriber_id = uuid;
    priority = priority;
    filter_fn = filter_fn;
    min_severity = min_severity;
  }

  -- A subscription adds one to the count of each topic that it reaches, and nothing to any other.
  pub match_count-subscribe :
      (topic : String)
      → match_count topic (subscribe uuid pattern handler priority filter_fn min_severity b).1
        ≡ match_count topic b + (if reaches topic pattern then 1 else 0)
  unfolding match_count subscribe added
  match_count-subscribe topic = elim (Bool-cases (is_glob pattern)) [
    | inl e ↦
        let globbed = λ (s : Subscription). fnmatch topic s.pattern in
        rw e (
          omega (
            arith,
            length-keep-sort_by globbed (b.pattern_subscriptions ++ added ∷ []),
            length-keep-snoc globbed b.pattern_subscriptions added,
          ))
    | inr e ↦ rw e (omega (arith, length-exact_at-add_exact topic pattern added b.subscriptions))
  ]
