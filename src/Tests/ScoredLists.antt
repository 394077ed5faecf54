-- ===== src/Tests/ScoredLists.antt =====
-- A sorted set as a list of its members with their scores.
use navigator_eventbus.Prelude.{
  IsIn, ℕ, ◌<◌, ◌≤◌, ◌≡◌, refl, sym, ◌∙◌, inl, inr, arith, String, true, false, not, Option, none,
  some, List, [], ◌∷◌, ◌==◌, eq_iff, ltb, Bool-cases, Option-cases, ap, subst, keep, length, All,
  length-keep-le, if◌then◌else◌,
}
use navigator_eventbus.Keyed.Runs.Index.{none-ne-some}
use navigator_eventbus.Keyed.Sets.{SortedSet, IsSortedSet}

abbrev pub Scored : Type 0
Scored = List (String × ℕ)

some-inj : {A : Type 0} (a b : A) → some a ≡ some b → a ≡ b
some-inj a b h = cc

-- The lower of two scores, where there are two.
abbrev lower : ℕ → Option ℕ → ℕ
lower n none = n
lower n (some m) = if ltb m n then m else n

abbrev zscore : String → Scored → Option ℕ
zscore j [] = none
zscore j ((k, n) ∷ z) = let rest = zscore j z in if k == j then some (lower n rest) else rest

abbrev zrem : String → Scored → Scored
zrem k z = keep (λ e. not (e.0 == k)) z

-- The entry of the lowest score, of `k` with `n` and those of a list.
abbrev least : String → ℕ → Scored → String × ℕ
least k n [] = (k, n)
least k n ((j, m) ∷ z) =
    let left = least k n z in let right = least j m z in if ltb m n then right else left

abbrev zhead : Scored → Option String
zhead [] = none
zhead ((k, n) ∷ z) = some (least k n z).0

abbrev pub scored : SortedSet Scored
scored = record {
  nothing = [];
  zadd = λ k n z. (k, n) ∷ zrem k z;
  zrem = zrem;
  zhead = zhead;
  zscore = zscore;
  zcard = length;
  zdrop = λ n z. keep (λ e. ltb n e.1) z;
}

zscore-zrem :
    (j k : String) (z : Scored) → zscore j (zrem k z) ≡ (if k == j then none else zscore j z)
zscore-zrem j k [] = elim (Bool-cases (k == j)) [ inl e ↦ rw e refl | inr e ↦ rw e refl ]
zscore-zrem j k ((i, n) ∷ z) = elim (Bool-cases (i == k)) [
  | inl e ↦ elim (Bool-cases (k == j)) [
    | inl f ↦ rw (e, zscore-zrem j k z, f) refl
    | inr f ↦
        let apart : i == j ≡ false = rw ((eq_iff i k).0 e) f in
        rw (e, zscore-zrem j k z, f, apart) refl
  ]
  | inr e ↦ elim (Bool-cases (k == j)) [
    | inl f ↦
        let apart : i == j ≡ false = rw (← (eq_iff k j).0 f) e in
        rw (e, apart, zscore-zrem j k z, f) refl
    | inr f ↦ rw (e, zscore-zrem j k z, f) refl
  ]
]

zscore-zadd :
    (j k : String) (n : ℕ) (z : Scored)
    → zscore j ((k, n) ∷ zrem k z) ≡ (if k == j then some n else zscore j z)
zscore-zadd j k n z = elim (Bool-cases (k == j)) [
  | inl e ↦ rw (zscore-zrem j k z, e) refl
  | inr e ↦ rw (zscore-zrem j k z, e) refl
]

lower-le : (n : ℕ) (o : Option ℕ) → lower n o ≤ n
lower-le n none = omega arith
lower-le n (some m) = ground arith

zscore-le :
    (j : String) (n : ℕ) (z : Scored) → IsIn (j, n) z → (m : ℕ) × (zscore j z ≡ some m) × (m ≤ n)
zscore-le j n [] h = absurd h
zscore-le j n ((k, m) ∷ z) (inl e) =
    let at_k : k == j ≡ true = (eq_iff k j).1 (sym (ap (λ x. x.0) e)) in
    let at_m = ap (λ x. x.1) e in
    let low = lower-le m (zscore j z) in
    (lower m (zscore j z), rw at_k refl, omega (arith, at_m, low))
zscore-le j n ((k, m) ∷ z) (inr h) =
    let (found, there, low) = zscore-le j n z h in
    elim (Bool-cases (k == j)) [
      | inl e ↦ (lower m (some found), rw (e, there) refl, ground arith)
      | inr e ↦ (found, rw (e, there) refl, low)
    ]

least_lower :
    (k j : String) (n m : ℕ) (z : Scored) → ltb m n ≡ true → least k n ((j, m) ∷ z) ≡ least j m z
least_lower k j n m z e = rw e refl

least_kept :
    (k j : String) (n m : ℕ) (z : Scored) → ltb m n ≡ false → least k n ((j, m) ∷ z) ≡ least k n z
least_kept k j n m z e = rw e refl

least-IsIn : (k : String) (n : ℕ) (z : Scored) → IsIn (least k n z) ((k, n) ∷ z)
least-IsIn k n [] = inl refl
least-IsIn k n ((j, m) ∷ z) = elim (Bool-cases (ltb m n)) [
  | inl e ↦
      subst (λ x. IsIn x ((k, n) ∷ (j, m) ∷ z)) (sym (least_lower k j n m z e))
        (inr (least-IsIn j m z))
  | inr e ↦
      subst (λ x. IsIn x ((k, n) ∷ (j, m) ∷ z)) (sym (least_kept k j n m z e))
        (elim (least-IsIn k n z) [ inl f ↦ inl f | inr f ↦ inr (inr f) ])
]

abbrev IsBelow : ℕ → Scored → Type 0
IsBelow c z = All (λ e. c ≤ e.1) z

zscore-ge : (c : ℕ) (j : String) (m : ℕ) (z : Scored) → IsBelow c z → zscore j z ≡ some m → c ≤ m
zscore-ge c j m [] low h = absurd (none-ne-some m h)
zscore-ge c j m ((k, n) ∷ z) low h = elim (Bool-cases (k == j)) [
  | inr e ↦ zscore-ge c j m z low.1 (rw e at h)
  | inl e ↦
      let given : some (lower n (zscore j z)) ≡ some m = rw e at h in
      elim (Option-cases (zscore j z)) [
        | inl f ↦ let at_n : some n ≡ some m = rw f at given in let first = low.0 in ground arith
        | inr (r, f) ↦
            let rest = zscore-ge c j r z low.1 f in
            let at_low : some (lower n (some r)) ≡ some m = rw f at given in
            let first = low.0 in ground arith
      ]
]

least-le : (k : String) (n : ℕ) (z : Scored) → IsBelow (least k n z).1 ((k, n) ∷ z)
least-le k n [] = (omega arith, tt)
least-le k n ((j, m) ∷ z) = elim (Bool-cases (ltb m n)) [
  | inl e ↦
      let low = least-le j m z in
      let first = low.0 in
      subst (λ x. IsBelow x.1 ((k, n) ∷ (j, m) ∷ z)) (sym (least_lower k j n m z e))
        (ground arith, low)
  | inr e ↦
      let low = least-le k n z in
      let first = low.0 in
      subst (λ x. IsBelow x.1 ((k, n) ∷ (j, m) ∷ z)) (sym (least_kept k j n m z e))
        (first, (ground arith, low.1))
]

zhead-found : (z : Scored) (k : String) → zhead z ≡ some k → (n : ℕ) × (zscore k z ≡ some n)
zhead-found [] k h = absurd (none-ne-some k h)
zhead-found ((j, m) ∷ z) k h =
    let (n, there, low) =
      zscore-le (least j m z).0 (least j m z).1 ((j, m) ∷ z) (least-IsIn j m z) in
    (n, subst (λ i. zscore i ((j, m) ∷ z) ≡ some n) (some-inj (least j m z).0 k h) there)

zhead-le :
    (z : Scored) (k j : String) (n m : ℕ)
    → zhead z ≡ some k
    → zscore k z ≡ some n
    → zscore j z ≡ some m
    → n ≤ m
zhead-le [] k j n m h f g = absurd (none-ne-some k h)
zhead-le ((i, c) ∷ z) k j n m h f g =
    let (x, there, low) =
      zscore-le (least i c z).0 (least i c z).1 ((i, c) ∷ z) (least-IsIn i c z) in
    let at_x : some x ≡ some n =
      sym there ∙ ap (λ y. zscore y ((i, c) ∷ z)) (some-inj (least i c z).0 k h) ∙ f in
    let above = zscore-ge (least i c z).1 j m ((i, c) ∷ z) (least-le i c z) g in ground arith

zhead-none : (z : Scored) → zhead z ≡ none → (k : String) → zscore k z ≡ none
zhead-none [] h k = refl
zhead-none ((j, m) ∷ z) h k = absurd (none-ne-some (least j m z).0 (sym h))

length-zrem : (z : Scored) (k : String) (n : ℕ) → zscore k z ≡ some n → length (zrem k z) < length z
length-zrem [] k n h = absurd (none-ne-some n h)
length-zrem ((j, m) ∷ z) k n h = elim (Bool-cases (j == k)) [
  | inl e ↦ let kept = length-keep-le (λ e. not (e.0 == k)) z in rw e (omega (arith, kept))
  | inr e ↦ let rest = length-zrem z k n (rw e at h) in rw e (omega (arith, rest))
]

pub scored-IsSortedSet : IsSortedSet scored
scored-IsSortedSet = record {
  zscore-nothing = λ j. refl;
  zscore-zadd = zscore-zadd;
  zscore-zrem = zscore-zrem;
  zscore-zhead = zhead-found;
  zhead_least = zhead-le;
  zscore_no_head = zhead-none;
  zcard-zrem = length-zrem;
}
