-- ===== src/Queues/Api/Access.antt =====
-- Which requests reach the store, and with what bounds.
use navigator_eventbus.Prelude.{
  IsIn-append, IsIn, ◌≡◌, ◌≢◌, ◌⊎◌, refl, sym, ap, ◌∙◌, inl, inr, String, true, Option, none, some,
  List, [], ◌∷◌, ◌==◌, eq_iff, any_of, any_of-IsIn, Bool-cases, Result, ok, raise,
}
use navigator_eventbus.Keyed.Runs.Index.{true-ne-false}
use navigator_eventbus.Queues.{QueueConfig, get_queue}
use navigator_eventbus.Queues.Api.{
  Role, Caller, Refusal, presented_token, role_tokens, candidates, shared, truthy, matches,
  authorized, authorized_by, admitted, turned_away, found, resolve, others,
}

get_queue-IsIn :
    (name : String) (queues : List QueueConfig) (cfg : QueueConfig)
    → get_queue name queues ≡ some cfg
    → IsIn cfg queues × (cfg.name ≡ name)
unfolding get_queue
get_queue-IsIn name [] cfg h = cc
get_queue-IsIn name (q ∷ qs) cfg h = elim (Bool-cases (q.name == name)) [
  | inl e ↦
      let same : q ≡ cfg = inner (rw e at h) in
      (inl (sym same), ap (λ x. x.name) (sym same) ∙ (eq_iff q.name name).0 e)
  | inr e ↦ let (there, named) = get_queue-IsIn name qs cfg (rw e at h) in (inr there, named)
]
  where
    inner : {a b : QueueConfig} → some a ≡ some b → a ≡ b
    inner k = cc

shared-IsIn : (o : Option String) (t : String) → IsIn t (shared (truthy o)) → o ≡ some t
shared-IsIn none t h = absurd h
shared-IsIn (some u) t h = elim (Bool-cases (u == "")) [
  | inl e ↦ absurd (rw e at h)
  | inr e ↦ elim (rw e at h) [ inl same ↦ ap (λ x. some x) (sym same) | inr more ↦ absurd more ]
]

matches-equal : (t c : String) → matches t c ≡ true → (c ≡ t) × (c ≢ "")
matches-equal t c h = elim (Bool-cases (c == "")) [
  | inl e ↦ absurd (true-ne-false (sym (rw e at h)))
  | inr e ↦
      (sym ((eq_iff t c).0 (rw e at h)), λ empty. true-ne-false (sym ((eq_iff c "").1 empty) ∙ e))
]

-- A token of the role, or the shared one.
abbrev pub IsKnown : Option String → Role → QueueConfig → String → Type 0
IsKnown auth_token role cfg t = IsIn t (role_tokens role cfg) ⊎ (auth_token ≡ some t)

authorized_by-IsKnown :
    (auth_token : Option String) (role : Role) (cfg : QueueConfig) (o : Option String)
    → authorized_by auth_token role cfg o ≡ true
    → (t : String) × (o ≡ some t) × (t ≢ "") × IsKnown auth_token role cfg t
authorized_by-IsKnown auth_token role cfg none h = cc
authorized_by-IsKnown auth_token role cfg (some t) h =
    let (c, there, same) = any_of-IsIn (matches t) (candidates auth_token role cfg) h in
    let (at_t, not_empty) = matches-equal t c same in
    let known = IsIn-append c (role_tokens role cfg) (shared (truthy auth_token)) there in
    (
      t,
      refl,
      rw (← at_t) not_empty,
      elim known [
        | inl own ↦ inl (rw (← at_t) own)
        | inr both ↦ inr (shared-IsIn auth_token c both ∙ ap (λ x. some x) at_t)
      ],
    )

module _ (auth_token : Option String) (queues : List QueueConfig) (role : Role)
    (caller : Caller) where
  -- A caller is let through to a queue only if it is declared, has the name of the path, and the token
  -- that the caller presents is not empty and is one of the queue's tokens for the role or the shared
  -- token. The tokens that are declared for a group of the queue let nobody through.
  pub resolve-IsKnown :
      (cfg : QueueConfig)
      → resolve auth_token queues role caller ≡ ok cfg
      → IsIn cfg queues
        × (cfg.name ≡ caller.queue)
        × ((t : String) × (presented_token caller ≡ some t)
            × (t ≢ "")
            × IsKnown auth_token role cfg t)
  unfolding resolve authorized
  resolve-IsKnown cfg = at (get_queue caller.queue queues) refl
    where
      ok-inj : {a b : QueueConfig} → ◌≡◌ {A = Result Refusal QueueConfig} (ok a) (ok b) → a ≡ b
      ok-inj k = cc

      let_in :
          (q : QueueConfig) (o : Option String)
          → admitted auth_token role q caller o ≡ ok cfg
          → (authorized auth_token role q caller ≡ true) × (q ≡ cfg)
      let_in q none h = cc
      let_in q (some t) h = elim (Bool-cases (authorized auth_token role q caller)) [
        | inl e ↦ (e, ok-inj (rw (e, authorized) at h))
        | inr e ↦
            let out = any_of (λ other. authorized auth_token other q caller) (others role) in
            let wrong : ◌≡◌ {A = Result Refusal QueueConfig} (raise (turned_away out)) (ok cfg) =
              rw (e, authorized) at h in
            cc
      ]

      at :
          (o : Option QueueConfig)
          → get_queue caller.queue queues ≡ o
          → found auth_token role caller o ≡ ok cfg
          → IsIn cfg queues
            × (cfg.name ≡ caller.queue)
            × ((t : String) × (presented_token caller ≡ some t)
                × (t ≢ "")
                × IsKnown auth_token role cfg t)
      at none e h = cc
      at (some q) e h =
          let (good, same) = let_in q (presented_token caller) h in
          let (there, named) = get_queue-IsIn caller.queue queues q e in
          rw (← same)
            (there, named, authorized_by-IsKnown auth_token role q (presented_token caller) good)
