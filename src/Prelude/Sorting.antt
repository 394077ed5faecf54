-- ===== src/Prelude/Sorting.antt =====
-- `list.sort(key=...)` : a stable insertion sort by a Boolean order test, and what it keeps.
use mathlib.Core.List.{Perm}
use mathlib.Core.List.Perm
use mathlib.Core.Bool.{Bool, true, false}
use mathlib.Core.Path.{◌≡◌, refl}
use mathlib.Core.List.{List, [], ◌∷◌}
use mathlib.Core.Logic.{inl, inr}
use native.Mathlib.Omega.{arith}
use Prim.Native.Nat.{suc}
use navigator_eventbus.Prelude.Tests.{if◌then◌else◌, Bool-cases}
use navigator_eventbus.Prelude.Lists.{length}

module _ {ℓ} {A : Type ℓ} where
  -- `before y x`: an earlier `x` has to give way to a later `y`.
  unfoldable pub insert_by : (A → A → Bool) → A → List A → List A
  insert_by before x [] = x ∷ []
  insert_by before x (y ∷ ys) =
      let rest = insert_by before x ys in if before y x then y ∷ rest else x ∷ y ∷ ys

  unfoldable pub sort_by : (A → A → Bool) → List A → List A
  unfolding insert_by
  sort_by before [] = []
  sort_by before (x ∷ xs) = insert_by before x (sort_by before xs)

  -- No element has to give way to its successor.
  abbrev pub IsOrdered : (A → A → Bool) → List A → Type 0
  IsOrdered before [] = Unit {0}
  IsOrdered before (x ∷ []) = Unit {0}
  IsOrdered before (x ∷ y ∷ ys) = (before y x ≡ false) × IsOrdered before (y ∷ ys)

module _ {ℓ} {A : Type ℓ} (before : A → A → Bool) where
  insert_by-perm : (x : A) (xs : List A) → Perm (insert_by before x xs) (x ∷ xs)
  unfolding insert_by
  insert_by-perm x [] = Perm.refl _
  insert_by-perm x (y ∷ ys) = elim (Bool-cases (before y x)) [
    | inl e ↦ rw e (Perm.trans (Perm.cons y (insert_by-perm x ys)) (Perm.swap _ _ _))
    | inr e ↦ rw e (Perm.refl _)
  ]

  pub sort_by-perm : (xs : List A) → Perm (sort_by before xs) xs
  unfolding sort_by
  sort_by-perm [] = Perm.refl _
  sort_by-perm (x ∷ xs) =
      Perm.trans (insert_by-perm x (sort_by before xs)) (Perm.cons x (sort_by-perm xs))

  length-insert_by : (x : A) (xs : List A) → length (insert_by before x xs) ≡ suc (length xs)
  unfolding insert_by
  length-insert_by x [] = refl
  length-insert_by x (y ∷ ys) = ground (arith, length-insert_by x ys)

  pub length-sort_by : (xs : List A) → length (sort_by before xs) ≡ length xs
  unfolding sort_by
  length-sort_by [] = refl
  length-sort_by (x ∷ xs) = omega (arith, length-sort_by xs, length-insert_by x (sort_by before xs))

  module _ (asym : (a b : A) → before a b ≡ true → before b a ≡ false) where
    insert_by-IsOrdered :
        (x : A) (xs : List A) → IsOrdered before xs → IsOrdered before (insert_by before x xs)
    unfolding insert_by
    insert_by-IsOrdered x [] h = tt
    insert_by-IsOrdered x (y ∷ []) h = elim (Bool-cases (before y x)) [
      | inl e ↦ rw e (asym y x e, tt)
      | inr e ↦ rw e (e, tt)
    ]
    insert_by-IsOrdered x (y ∷ z ∷ ys) h = elim (Bool-cases (before y x)) [
      | inl e ↦ elim (Bool-cases (before z x)) [
        | inl f ↦ rw (e, f) (h.0, rw f at (insert_by-IsOrdered x (z ∷ ys) h.1))
        | inr f ↦ rw (e, f) (asym y x e, (f, h.1))
      ]
      | inr e ↦ rw e (e, h)
    ]

    pub sort_by-IsOrdered : (xs : List A) → IsOrdered before (sort_by before xs)
    unfolding sort_by
    sort_by-IsOrdered [] = tt
    sort_by-IsOrdered (x ∷ xs) = insert_by-IsOrdered x (sort_by before xs) (sort_by-IsOrdered xs)
