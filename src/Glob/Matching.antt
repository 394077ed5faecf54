-- ===== src/Glob/Matching.antt =====
-- The matcher decides what a pattern means.
use navigator_eventbus.Prelude.{
  ℕ, ◌≡◌, refl, true, List, [], ◌∷◌, arith, inl, inr, Bool-cases, String, codes, ◌↔◌,
}
use navigator_eventbus.Glob.{
  GlobToken, star, any_char, lit, char_class, fits, glob, tokens, fnmatch,
}

-- A text matches a list of tokens: a `*` takes any run of characters, every other token one.
pub data Matches : List GlobToken → List ℕ → Type 0 where
  done : Matches [] []
  stop : {ts : List GlobToken} {s : List ℕ} → Matches ts s → Matches (star ∷ ts) s
  more :
      {ts : List GlobToken} {c : ℕ} {s : List ℕ}
      → Matches (star ∷ ts) s
      → Matches (star ∷ ts) (c ∷ s)
  one :
      {t : GlobToken} {ts : List GlobToken} {c : ℕ} {s : List ℕ}
      → fits t c ≡ true
      → Matches ts s
      → Matches (t ∷ ts) (c ∷ s)

fits_any : (c : ℕ) → fits any_char c ≡ true
unfolding fits
fits_any c = refl

glob_sound : (ts : List GlobToken) (s : List ℕ) → glob ts s ≡ true → Matches ts s
unfolding glob
glob_sound [] [] h = done
glob_sound [] (c ∷ s) h = cc
glob_sound (star ∷ ts) [] h = stop (glob_sound ts [] h)
glob_sound (star ∷ ts) (c ∷ s) h = elim (Bool-cases (glob ts (c ∷ s))) [
  | inl e ↦ stop (glob_sound ts (c ∷ s) e)
  | inr e ↦ more (glob_sound (star ∷ ts) s (rw e at h))
]
glob_sound (any_char ∷ ts) [] h = cc
glob_sound (any_char ∷ ts) (c ∷ s) h = one {c = c} (fits_any c) (glob_sound ts s (ground arith))
glob_sound (lit a ∷ ts) [] h = cc
glob_sound (lit a ∷ ts) (c ∷ s) h = one (ground arith) (glob_sound ts s (ground arith))
glob_sound (char_class n r ∷ ts) [] h = cc
glob_sound (char_class n r ∷ ts) (c ∷ s) h = one (ground arith) (glob_sound ts s (ground arith))

glob-star : (ts : List GlobToken) (s : List ℕ) → glob ts s ≡ true → glob (star ∷ ts) s ≡ true
unfolding glob
glob-star ts [] h = h
glob-star ts (c ∷ s) h = rw h

glob-one :
    (t : GlobToken) (ts : List GlobToken) (c : ℕ) (s : List ℕ)
    → fits t c ≡ true
    → glob ts s ≡ true
    → glob (t ∷ ts) (c ∷ s) ≡ true
unfolding glob fits
glob-one star ts c s f h = cc
glob-one any_char ts c s f h = h
glob-one (lit a) ts c s f h = rw (f, h)
glob-one (char_class n r) ts c s f h = rw (f, h)

glob-more :
    (ts : List GlobToken) (c : ℕ) (s : List ℕ)
    → glob (star ∷ ts) s ≡ true
    → glob (star ∷ ts) (c ∷ s) ≡ true
unfolding glob
glob-more ts c s h = ground arith

glob_complete : {ts : List GlobToken} {s : List ℕ} → Matches ts s → glob ts s ≡ true
glob_complete done = unfold glob in refl
glob_complete (stop {ts = ts} {s = s} m) = glob-star ts s (glob_complete m)
glob_complete (more {ts = ts} {c = c} {s = s} m) = glob-more ts c s (glob_complete m)
glob_complete (one {t = t} {ts = ts} {c = c} {s = s} f m) = glob-one t ts c s f (glob_complete m)

-- A name matches a pattern exactly when the pattern's tokens can be laid over the whole name, a
-- `*` over any run of characters and every other token over one character that fits it.
pub fnmatch-Matches :
    (name pattern : String) → (fnmatch name pattern ≡ true) ↔ Matches (tokens pattern) (codes name)
unfolding fnmatch
fnmatch-Matches name pattern = (glob_sound (tokens pattern) (codes name), glob_complete)
