-- ===== src/Queues/Grants.antt =====
-- What QueueStore.receive grants: the counts of the messages it hands out, and their leases.
pub mod Reclaimed
pub mod Leased
pub mod Granted
pub mod Parked
use navigator_eventbus.Prelude.{
  IsIn, ℕ, ◌+◌, ◌≤◌, ◌≡◌, ◌⊎◌, refl, sym, ap, subst, ◌∙◌, inl, inr, String, Option, none, some,
  List, [], ◌∷◌, ◌++◌, map, ◌==◌, eq_iff, eq_refl, arith, ltb, Bool-cases, Option-cases,
  if◌then◌else◌, Result, ok, raise,
}
use navigator_eventbus.Keyed.Runs.Index.{none-ne-some}
use navigator_eventbus.Envelope.{Fields}
use navigator_eventbus.Queues.{QueueConfig, receives_cap}
use navigator_eventbus.Queues.Streams.{Text, Pending, Commands, IsStreams}
use navigator_eventbus.Queues.Receiving.{
  QueueStore, World, Usable, count_of, over_cap, or_zero, park_to_dlq, usable,
}

pub count_of-IsIn :
    (j : String) (k : ℕ) (ns : List (String × ℕ)) → count_of j ns ≡ some k → IsIn (j, k) ns
unfolding count_of
count_of-IsIn j k [] h = cc
count_of-IsIn j k ((i, n) ∷ ns) h = elim (Option-cases (count_of j ns)) [
  | inr (m, there) ↦ inr (count_of-IsIn j k ns (there ∙ rw (there, count_of) at h))
  | inl no_more ↦ elim (Bool-cases (i == j)) [
    | inl e ↦
        let at_n : some n ≡ some k = rw (no_more, count_of, e) at h in
        inl (pair_eq (sym ((eq_iff i j).0 e)) (sym (inner at_n)))
    | inr e ↦ absurd (none-ne-some k (rw (no_more, count_of, e) at h))
  ]
]
  where
    inner : {a b : ℕ} → some a ≡ some b → a ≡ b
    inner h = cc

    pair_eq : {a b : String} {c d : ℕ} → a ≡ b → c ≡ d → ◌≡◌ {A = String × ℕ} (a, c) (b, d)
    pair_eq p q = rw (p, q) refl

pub count_of-some :
    (j : String) (ns : List (String × ℕ))
    → IsIn j (map (λ e. e.0) ns)
    → (k : ℕ) × (count_of j ns ≡ some k)
unfolding count_of
count_of-some j [] h = absurd h
count_of-some j ((i, n) ∷ ns) h = elim (Option-cases (count_of j ns)) [
  | inr (m, there) ↦ (m, rw (there, count_of) refl)
  | inl no_more ↦ elim h [
    | inl e ↦ (n, rw (no_more, count_of, sym e, eq_refl j) refl)
    | inr rest ↦
        let (k, found) = count_of-some j ns rest in absurd (none-ne-some k (sym no_more ∙ found))
  ]
]

over_cap-le : (cap : ℕ) (o : Option ℕ) → over_cap cap o ≡ none → or_zero o ≤ cap
unfolding over_cap
over_cap-le cap none h = omega arith
over_cap-le cap (some n) h = ground arith

module _ {R : Type 0} (cmd : Commands R) (store : QueueStore) (s g : String) where
  -- What is left after the reclaim: claimed, its count one more than XPENDING said, and not over the
  -- cap before it was claimed.
  pub usable-count :
      (cap : ℕ) (ns : List (String × ℕ)) (es : List (String × Fields)) (w : World R) (u : Usable)
      → IsIn u (usable cmd store s g cap ns es w).1
      → IsIn u.0 (map (λ e. e.0) es) × (u.2 ≡ or_zero (count_of u.0 ns) + 1) × (u.2 ≤ cap + 1)
  unfolding usable
  usable-count cap ns [] w u h = absurd h
  usable-count cap ns ((mid, f) ∷ es) w u h = elim (Option-cases (over_cap cap (count_of mid ns))) [
    | inr (n, over) ↦
        let (there, count, low) =
          usable-count cap ns es (park_to_dlq cmd store s g mid f n w) u (rw (over, usable) at h) in
        (inr there, count, low)
    | inl fine ↦ elim (rw (fine, usable) at h) [
      | inl e ↦
          let at_id : u.0 ≡ mid = ap (λ x. x.0) e in
          let at_n : u.2 ≡ or_zero (count_of mid ns) + 1 = ap (λ x. x.2) e in
          let low = over_cap-le cap (count_of mid ns) fine in
          (inl at_id, rw at_id at_n, omega (arith, at_n, low))
      | inr rest ↦
          let (there, count, low) = usable-count cap ns es w u rest in (inr there, count, low)
    ]
  ]
