-- ===== src/CapiCore/Laws.antt =====
-- What the classification of internal/controller/capi_core.go says of the deployments.
use openshift_capi_alicloud.Prelude.{
  ◌==◌, Elem-of_contains, contains_of_Elem, false, [], ◌∷◌, refl, inl, inr, ◌≡◌, ◌≢◌, ◌⊎◌, ◌↔◌,
  String, List, Elem, IsDistinct, arith, string_eq, Bool-cases, if-cases, contains, ok, subst, sym,
}
use openshift_capi_alicloud.CapiCore.{
  ocp_hosted_capi_namespace, classify_capi_core, detect_capi_core_namespaces, seen_namespaces,
  conflict,
}

-- The documented behaviour of sort.Strings that matters here: the same values, none twice more.
pub record SortLaws (sort : List String → List String) : Type 0 where
  pub same_values : (x : String) (xs : List String) → Elem x (sort xs) ↔ Elem x xs
  pub keeps_distinct : (xs : List String) → IsDistinct xs → IsDistinct (sort xs)

not-contains : (xs : List String) (a : String) → contains xs a ≡ false → ¬ Elem a xs
not-contains xs a h m = ground (arith, contains_of_Elem xs a m)

seen_sound :
    (seen ns : List String) (x : String)
    → Elem x (seen_namespaces seen ns)
    → Elem x ns × ¬ Elem x seen
unfolding seen_namespaces
seen_sound seen [] x h = elim h [ ]
seen_sound seen (n ∷ ns) x h = elim (Bool-cases (contains seen n)) [
  | inl c ↦ let (i, o) = seen_sound seen ns x (ground arith) in (inr i, o)
  | inr c ↦ ground (arith, not-contains seen n c, seen_sound (n ∷ seen) ns x, new n seen)
]
  where
    new : (a : String) (seen : List String) → x ≡ a → Elem x seen → Elem a seen
    new a seen e m = subst (λ y. Elem y seen) e m

seen_complete :
    (seen ns : List String) (x : String)
    → Elem x ns
    → Elem x seen ⊎ Elem x (seen_namespaces seen ns)
unfolding seen_namespaces
seen_complete seen [] x h = elim h [ ]
seen_complete seen (n ∷ ns) x h = elim (Bool-cases (contains seen n)) [
  | inl c ↦ ground (arith, old n seen, Elem-of_contains seen n c, seen_complete seen ns x)
  | inr c ↦ ground (arith, seen_complete (n ∷ seen) ns x)
]
  where
    old : (a : String) (seen : List String) → x ≡ a → Elem a seen → Elem x seen
    old a seen e m = subst (λ y. Elem y seen) (sym e) m

seen-IsDistinct : (seen ns : List String) → IsDistinct (seen_namespaces seen ns)
unfolding seen_namespaces
seen-IsDistinct seen [] = tt
seen-IsDistinct seen (n ∷ ns) = elim (Bool-cases (contains seen n)) [
  | inl c ↦ ground (arith, seen-IsDistinct seen ns)
  | inr c ↦ ground (arith, seen-IsDistinct (n ∷ seen) ns, seen_sound (n ∷ seen) ns n, here)
]
  where
    here : Elem n (n ∷ seen)
    here = inl refl

-- Two of the deployments stand in different namespaces.
abbrev pub Differ : List String → Type 0
Differ ds = (a : String) × (b : String) × Elem a ds × Elem b ds × (a ≢ b)

classify_iff :
    (out : List String) → IsDistinct out → (classify_capi_core out ≡ conflict) ↔ Differ out
unfolding classify_capi_core
classify_iff [] d = (λ h. cc, λ w. elim w.2 [ ])
classify_iff (n ∷ []) d = (not_conflict, λ w. alone w)
  where
    not_conflict : classify_capi_core (n ∷ []) ≡ conflict → Differ (n ∷ [])
    not_conflict h = elim (if-cases (n == ocp_hosted_capi_namespace) _ _ h) [
      | inl (_, h) ↦ cc
      | inr (_, h) ↦ cc
    ]

    alone : Differ (n ∷ []) → classify_capi_core (n ∷ []) ≡ conflict
    alone (a, b, p, q, ne) = ground arith
classify_iff (n ∷ (m ∷ ns)) (out, d) =
    (λ _. (n, m, inl refl, inr (inl refl), λ e. out (inl e)), λ _. refl)

module _ (sort : List String → List String) (laws : SortLaws sort) where
  -- The mode is Conflict exactly when two of the labelled deployments stand in different namespaces.
  pub classify-detect_conflict_iff :
      (deployments out : List String)
      → detect_capi_core_namespaces sort (ok deployments) ≡ ok out
      → (classify_capi_core out ≡ conflict) ↔ Differ deployments
  unfolding detect_capi_core_namespaces
  classify-detect_conflict_iff deployments out h = (
    λ c.
        let (a, b, p, q, ne) = (classify_iff out distinct).0 c in
        (a, b, (same a).0 p, (same b).0 q, ne),
    λ w.
        let (a, b, p, q, ne) = w in
        (classify_iff out distinct).1 (a, b, (same a).1 p, (same b).1 q, ne),
  )
    where
      sorted : out ≡ sort (seen_namespaces [] deployments)
      sorted = cc

      distinct : IsDistinct out
      distinct =
          subst IsDistinct (sym sorted) (laws.keeps_distinct _ (seen-IsDistinct [] deployments))

      kept : (x : String) → Elem x (seen_namespaces [] deployments) ↔ Elem x deployments
      kept x = (
        λ m. (seen_sound [] deployments x m).0,
        λ m. elim (seen_complete [] deployments x m) [ inl e ↦ elim e [ ] | inr e ↦ e ],
      )

      same : (x : String) → Elem x out ↔ Elem x deployments
      same x = (
        λ m. (kept x).0 ((laws.same_values x _).0 (subst (Elem x) sorted m)),
        λ m. subst (Elem x) (sym sorted) ((laws.same_values x _).1 ((kept x).1 m)),
      )
