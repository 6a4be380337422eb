-- ===== src/Prelude/Maps.antt =====
-- A Go map as an association list with one entry for a key.
use mathlib.Core.List.{List, [], ◌∷◌}
use mathlib.Core.Logic.{◌≢◌}
use mathlib.Core.Option.{Option, none, some}
use mathlib.Core.Path.{◌≡◌, refl, subst, ◌∙◌}
use native.Mathlib.Omega.{arith}
use openshift_capi_alicloud.Prelude.Lists.{All}
use openshift_capi_alicloud.Prelude.Tests.{Eq, ◌==◌, if◌then◌else◌, if-split}

module _ {K V : Type 0} ⦃e : Eq K⦄ where
  -- m[k]
  unfoldable pub lookup : K → List (K × V) → Option V
  lookup k [] = none
  lookup k ((q, v) ∷ m) = let rest = lookup k m in if q == k then some v else rest

  -- m[k] = v
  unfoldable pub assign : K → V → List (K × V) → List (K × V)
  assign k w [] = (k, w) ∷ []
  assign k w ((q, v) ∷ m) = let rest = assign k w m in if q == k then (k, w) ∷ m else (q, v) ∷ rest

  pub lookup-assign : (k : K) (w : V) (m : List (K × V)) → lookup k (assign k w m) ≡ some w
  unfolding lookup assign
  lookup-assign k w [] = ground (arith, e.same_iff k k)
  lookup-assign k w ((q, v) ∷ m) =
      ground (arith, e.same_iff q k, e.same_iff k k, lookup-assign k w m)

  pub lookup-assign_other :
      (k p : K) (w : V) (m : List (K × V)) → p ≢ k → lookup p (assign k w m) ≡ lookup p m
  unfolding lookup assign
  lookup-assign_other k p w [] h = ground (arith, e.same_iff k p)
  lookup-assign_other k p w ((q, v) ∷ m) h =
      ground (arith, e.same_iff q k, e.same_iff q p, e.same_iff k p, lookup-assign_other k p w m h)

  -- No key stands twice.
  abbrev pub IsKeyed : List (K × V) → Type 0
  IsKeyed [] = Unit
  IsKeyed ((k, v) ∷ m) = (lookup k m ≡ none) × IsKeyed m

  pub assign-IsKeyed : (k : K) (w : V) (m : List (K × V)) → IsKeyed m → IsKeyed (assign k w m)
  unfolding assign lookup
  assign-IsKeyed k w [] h = (refl, tt)
  assign-IsKeyed k w ((q, v) ∷ m) (n, h) =
      if-split IsKeyed (q == k) (λ p. (subst (λ x. lookup x m ≡ none) ((e.same_iff q k).0 p) n, h))
        (λ p. (
          lookup-assign_other k q w m (λ r. ground (arith, e.same_iff q k, p, r)) ∙ n,
          assign-IsKeyed k w m h,
        ))

  pub assign-All :
      (P : K × V → Type 0) (k : K) (w : V) (m : List (K × V))
      → P (k, w)
      → All P m
      → All P (assign k w m)
  unfolding assign
  assign-All P k w [] p h = (p, tt)
  assign-All P k w ((q, v) ∷ m) p (x, h) =
      if-split (All P) (q == k) (λ _. (p, h)) (λ _. (x, assign-All P k w m p h))

  -- delete(m, k)
  unfoldable pub discard : K → List (K × V) → List (K × V)
  discard k [] = []
  discard k ((q, v) ∷ m) = let rest = discard k m in if q == k then rest else (q, v) ∷ rest

  pub lookup-discard : (k : K) (m : List (K × V)) → lookup k (discard k m) ≡ none
  unfolding lookup discard
  lookup-discard k [] = refl
  lookup-discard k ((q, v) ∷ m) = ground (arith, lookup-discard k m)

  pub lookup-discard_other :
      (k p : K) (m : List (K × V)) → p ≢ k → lookup p (discard k m) ≡ lookup p m
  unfolding lookup discard
  lookup-discard_other k p [] h = refl
  lookup-discard_other k p ((q, v) ∷ m) h =
      ground (arith, e.same_iff q k, e.same_iff q p, lookup-discard_other k p m h)
