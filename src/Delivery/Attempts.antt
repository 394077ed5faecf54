-- ===== src/Delivery/Attempts.antt =====
-- Which attempt ends a delivery, and how long the pauses are.
use navigator_eventbus.Prelude.{
  ℕ, zero, suc, ◌+◌, ◌*◌, ◌-◌, ◌^◌, ◌≤◌, ◌<◌, ◌≡◌, refl, sym, ap, subst, ◌∙◌, inl, inr, String,
  true, false, Option, none, some, [], ◌∷◌, All, arith, ltb, leb, length, Bool-cases, Option-cases,
  if◌then◌else◌,
}
use navigator_eventbus.Delivery.{
  Answer, Outcome, HttpDelivery, conclusion, delay_for, status_after, error_after, post_from, post,
}

-- No answer to the `k` attempts from number `n` on ends the loop.
abbrev pub Transient : HttpDelivery → (ℕ → Answer) → ℕ → ℕ → Type 0
Transient h answer n zero = Unit
Transient h answer n (suc k) = (conclusion h n (answer n) ≡ none) × Transient h answer (n + 1) k

module _ (h : HttpDelivery) (draw : ℕ → ℕ → ℕ) (answer : ℕ → Answer) where
  ends :
      (left n : ℕ) (s : Option ℕ) (x : Option String) (o : Outcome)
      → conclusion h n (answer n) ≡ some o
      → post_from h draw answer (suc left) n s x ≡ (o, [])
  unfolding post_from
  ends left n s x o e = rw (e, post_from) refl

  goes_on :
      (left n : ℕ) (s : Option ℕ) (x : Option String)
      → conclusion h n (answer n) ≡ none
      → post_from h draw answer (suc left) n s x ≡ (
        (post_from h draw answer left
            (n + 1)
            (status_after (answer n) s)
            (error_after (answer n) x)).0,
        if ltb n h.max_attempts
            then delay_for h draw n
              ∷ (post_from h draw answer left
                  (n + 1)
                  (status_after (answer n) s)
                  (error_after (answer n) x)).1
            else (post_from h draw answer left
                (n + 1)
                (status_after (answer n) s)
                (error_after (answer n) x)).1,
      )
  unfolding post_from
  goes_on left n s x e = rw (e, post_from) refl

  post_from-Transient :
      (k left n : ℕ) (s : Option ℕ) (x : Option String) (o : Outcome)
      → k < left
      → n + left ≡ h.max_attempts + 1
      → Transient h answer n k
      → conclusion h (n + k) (answer (n + k)) ≡ some o
      → ((post_from h draw answer left n s x).0 ≡ o)
        × (length (post_from h draw answer left n s x).1 ≡ k)
  post_from-Transient k zero n s x o lt total t e = absurd (omega arith)
  post_from-Transient zero (suc left) n s x o lt total t e =
      let same : n + 0 ≡ n = omega arith in
      let done = ends left n s x o (subst (λ m. conclusion h m (answer m) ≡ some o) same e) in
      (ap (λ p. p.0) done, ap (λ p. length p.1) done)
  post_from-Transient (suc k) (suc left) n s x o lt total (t, ts) e =
      let same : n + suc k ≡ n + 1 + k = omega arith in
      let early : ltb n h.max_attempts ≡ true = ground arith in
      let (outcome, pauses) =
        post_from-Transient k left (n + 1) (status_after (answer n) s) (error_after (answer n) x) o
          (omega arith) (omega arith) ts (subst (λ m. conclusion h m (answer m) ≡ some o) same e) in
      let on = goes_on left n s x t in
      (
        ap (λ p. p.0) on ∙ outcome,
        ap (λ p. length p.1) on
            ∙ ap
                (λ b. length (
                  if b
                  then delay_for h draw n
                    ∷ (post_from h draw answer left (n + 1) (status_after (answer n) s)
                        (error_after (answer n) x)).1
                  else (post_from h draw answer left (n + 1) (status_after (answer n) s)
                      (error_after (answer n) x)).1))
                early
            ∙ omega (arith, pauses),
      )

  -- A delivery ends with the first answer that is a success or a permanent failure, if one of its
  -- attempts has such an answer: its outcome is that of this answer, and there was one pause before
  -- each attempt but the first.
  pub post-Transient :
      (k : ℕ) (o : Outcome)
      → k < h.max_attempts
      → Transient h answer 1 k
      → conclusion h (1 + k) (answer (1 + k)) ≡ some o
      → ((post h draw answer).0 ≡ o) × (length (post h draw answer).1 ≡ k)
  unfolding post
  post-Transient k o lt t e =
      post_from-Transient k h.max_attempts 1 none none o lt (omega arith) t e

  post_from_exhausted :
      (left n : ℕ) (s : Option ℕ) (x : Option String)
      → Transient h answer n left
      → ((post_from h draw answer left n s x).0.delivered ≡ false)
        × ((post_from h draw answer left n s x).0.attempts ≡ h.max_attempts)
  post_from_exhausted zero n s x t = unfold post_from in (refl, refl)
  post_from_exhausted (suc left) n s x (t, ts) =
      let on = goes_on left n s x t in
      let (failed, all) =
        post_from_exhausted left (n + 1) (status_after (answer n) s) (error_after (answer n) x)
          ts in
      (ap (λ p. p.0.delivered) on ∙ failed, ap (λ p. p.0.attempts) on ∙ all)

  -- A delivery of which no attempt has such an answer is not delivered, after all its attempts.
  pub post_exhausted :
      Transient h answer 1 h.max_attempts
      → ((post h draw answer).0.delivered ≡ false)
        × ((post h draw answer).0.attempts ≡ h.max_attempts)
  unfolding post
  post_exhausted t = post_from_exhausted h.max_attempts 1 none none t

  module _ (fair : (n d : ℕ) → draw n d ≤ d) where
    delay_for_bound : (n : ℕ) → delay_for h draw n ≤ h.backoff_max
    unfolding delay_for
    delay_for_bound n =
        let raw = h.backoff_base * 2 ^ (n - 1) in
        let delay = if leb h.backoff_max raw then h.backoff_max else raw in
        let capped : delay ≤ h.backoff_max = ground arith in
        elim (Bool-cases h.jitter) [
          | inl e ↦ rw e (omega (arith, capped, fair n delay))
          | inr e ↦ rw e capped
        ]

    pauses_bound :
        (left n : ℕ) (s : Option ℕ) (x : Option String)
        → All (λ d. d ≤ h.backoff_max) (post_from h draw answer left n s x).1
    pauses_bound zero n s x = unfold post_from in tt
    pauses_bound (suc left) n s x = elim (Option-cases (conclusion h n (answer n))) [
      | inl more ↦
          let rest =
            pauses_bound left (n + 1) (status_after (answer n) s) (error_after (answer n) x) in
          subst (λ p. All (λ d. d ≤ h.backoff_max) p.1) (sym (goes_on left n s x more))
            (elim (Bool-cases (ltb n h.max_attempts)) [
              | inl e ↦ rw e (delay_for_bound n, rest)
              | inr e ↦ rw e rest
            ])
      | inr (o, stop) ↦
          subst (λ p. All (λ d. d ≤ h.backoff_max) p.1) (sym (ends left n s x o stop)) tt
    ]

    -- No pause is longer than `backoff_max`, if a random draw does not exceed its bound.
    pub post_pauses : All (λ d. d ≤ h.backoff_max) (post h draw answer).1
    unfolding post
    post_pauses = pauses_bound h.max_attempts 1 none none
