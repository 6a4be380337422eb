-- ===== src/Prelude/Lists.antt =====
-- Lists as the program uses them: length, membership by a test, and membership as a type.
use Prim.Native.Nat.{ℕ, suc, ◌+◌}
use mathlib.Core.Bool.{Bool, true, false, ◌||◌}
use mathlib.Core.List.{List, [], ◌∷◌, ◌++◌}
use mathlib.Core.Logic.{◌↔◌, ◌⊎◌, inl, inr}
use mathlib.Core.Option.{Option, none, some}
use mathlib.Core.Path.{◌≡◌, sym, subst}
use native.Mathlib.Omega.{arith}
use openshift_capi_alicloud.Prelude.Tests.{Eq, ◌==◌}

-- What is in a slice of Go, which may be nil.
abbrev pub elements : {A : Type 0} → Option (List A) → List A
elements none = []
elements (some xs) = xs

module _ {ℓ} {A : Type ℓ} where
  abbrev pub length : List A → ℕ
  length [] = 0
  length (x ∷ xs) = suc (length xs)

  pub length-append : (xs ys : List A) → length (xs ++ ys) ≡ length xs + length ys
  length-append [] ys = omega arith
  length-append (x ∷ xs) ys = omega (arith, length-append xs ys)

-- The value is in the list, with the place kept.
abbrev pub Elem : {A : Type 0} → A → List A → Type 0
Elem a [] = ⊥
Elem a (x ∷ xs) = (a ≡ x) ⊎ Elem a xs

abbrev pub All : {A : Type 0} → (A → Type 0) → List A → Type 0
All P [] = Unit
All P (x ∷ xs) = P x × All P xs

-- No value stands twice in the list.
abbrev pub IsDistinct : {A : Type 0} → List A → Type 0
IsDistinct [] = Unit
IsDistinct (x ∷ xs) = ¬ (Elem x xs) × IsDistinct xs

module _ {A : Type 0} where
  pub Elem-append_left : (a : A) (xs ys : List A) → Elem a xs → Elem a (xs ++ ys)
  Elem-append_left a [] ys h = elim h [ ]
  Elem-append_left a (x ∷ xs) ys (inl e) = inl e
  Elem-append_left a (x ∷ xs) ys (inr h) = inr (Elem-append_left a xs ys h)

  pub All-Elem : (P : A → Type 0) (xs : List A) (a : A) → All P xs → Elem a xs → P a
  All-Elem P [] a h m = elim m [ ]
  All-Elem P (x ∷ xs) a (p, h) (inl e) = subst P (sym e) p
  All-Elem P (x ∷ xs) a (p, h) (inr m) = All-Elem P xs a h m

module _ {A : Type 0} ⦃e : Eq A⦄ where
  unfoldable pub contains : List A → A → Bool
  contains [] a = false
  contains (x ∷ xs) a = x == a || contains xs a

  pub Elem-of_contains : (xs : List A) (a : A) → contains xs a ≡ true → Elem a xs
  unfolding contains
  Elem-of_contains [] a h = cc
  Elem-of_contains (x ∷ xs) a h = ground (arith, e.same_iff x a, Elem-of_contains xs a)

  pub contains_of_Elem : (xs : List A) (a : A) → Elem a xs → contains xs a ≡ true
  unfolding contains
  contains_of_Elem [] a h = elim h [ ]
  contains_of_Elem (x ∷ xs) a (inl p) = ground (arith, e.same_iff x a)
  contains_of_Elem (x ∷ xs) a (inr m) = ground (arith, contains_of_Elem xs a m)

  pub contains_iff : (xs : List A) (a : A) → (contains xs a ≡ true) ↔ Elem a xs
  contains_iff xs a = (Elem-of_contains xs a, contains_of_Elem xs a)
