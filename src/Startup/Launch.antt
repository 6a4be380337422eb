-- ===== src/Startup/Launch.antt =====
-- When the manager of cmd/main.go starts, and when the process fails.
use openshift_capi_alicloud.Prelude.{
  String, Bool, true, false, List, [], ◌∷◌, ◌++◌, Result, ok, err, ◌≡◌, ◌≢◌, ◌↔◌, ◌⊎◌, inl, inr,
  refl, Elem, All, ap, sym, ◌∙◌, subst, arith,
}
use openshift_capi_alicloud.CapiCore.{
  CapiCoreMode, bundled, reused, conflict, no_core, detect_capi_core_namespaces,
}
use openshift_capi_alicloud.CapiCore.Laws.{SortLaws, Differ, classify-detect_conflict_iff}
use openshift_capi_alicloud.Startup.{
  exited, Part, health_check, ready_check, start, webhook, Cluster, Exit, before_preflight,
  after_preflight, webhooks, returned, attempted, launch, unless_conflict, preflight, main,
}

module _ (c : Cluster) where
  abbrev pub Succeeds : Part → Type 0
  Succeeds p = c.attempt p ≡ ok tt

  -- The labelled deployments can be listed, and stand in different namespaces.
  abbrev pub IsConflict : Type 0
  IsConflict =
      (deployments : List String) × (c.list_core_deployments ≡ ok deployments) × Differ deployments

  attempted-ok :
      (p : Part) (rest : Exit) {P : Type 0} (r : Result (Unit {0}))
      → c.attempt p ≡ r
      → ((rest.code ≡ 0) ↔ P)
      → ((attempted c p r rest).code ≡ 0) ↔ (Succeeds p × P)
  attempted-ok p rest (err e) q h = (λ k. absurd (omega arith), λ k. absurd (ground (arith, k, q)))
  attempted-ok p rest (ok u) q h = (λ k. (q, h.0 k), λ k. h.1 k.1)

  launch-ok :
      (ps : List Part) (rest : Exit)
      → ((launch c ps rest).code ≡ 0) ↔ (All Succeeds (ps) × (rest.code ≡ 0))
  unfolding launch
  launch-ok [] rest = (λ h. (tt, h), λ h. h.1)
  launch-ok (p ∷ ps) rest =
      let (f, g) = attempted-ok p (launch c ps rest) (c.attempt p) refl (launch-ok ps rest) in
      (λ h. let (a, (b, d)) = f h in ((a, b), d), λ h. g (h.0.0, (h.0.1, h.1)))

  -- What the start was attempted after.
  abbrev Passed : List Part → Exit → List Part → Type 0
  Passed ps rest all = All Succeeds ps × Elem start rest.attempted × (all ≡ ps ++ rest.attempted)

  attempted-start :
      (p : Part) (ps : List Part) (rest next : Exit) (r : Result (Unit {0}))
      → c.attempt p ≡ r
      → start ≢ p
      → (Elem start next.attempted → Passed ps rest next.attempted)
      → Elem start (attempted c p r next).attempted
      → Passed (p ∷ ps) rest (attempted c p r next).attempted
  attempted-start p ps rest next (err e) q n k (inl e') = absurd (n e')
  attempted-start p ps rest next (err e) q n k (inr m) = elim m [ ]
  attempted-start p ps rest next (ok u) q n k (inl e') = absurd (n e')
  attempted-start p ps rest next (ok u) q n k (inr m) =
      let (a, b, d) = k m in ((q, a), b, ap (◌∷◌ p) d)

  -- What comes after the parts is attempted only where they all succeed.
  launch-start :
      (ps : List Part) (rest : Exit)
      → All (λ p. start ≢ p) ps
      → Elem start (launch c ps rest).attempted
      → Passed ps rest (launch c ps rest).attempted
  unfolding launch
  launch-start [] rest n m = (tt, m, refl)
  launch-start (p ∷ ps) rest (n, ns) m =
      attempted-start p ps rest (launch c ps rest) (c.attempt p) refl n (launch-start ps rest ns) m

  module _ (laws : SortLaws c.sort_strings) where
    abbrev namespaces : Result (List String)
    namespaces = detect_capi_core_namespaces c.sort_strings c.list_core_deployments

    -- The preflight lets pass, or ends the process.
    abbrev Gated : Exit → Exit → Type 0
    Gated rest out = ((out ≡ rest) × ¬ IsConflict) ⊎ ((out ≡ exited) × IsConflict)

    mode-Gated :
        (rest : Exit) (m : CapiCoreMode)
        → (m ≡ conflict) ↔ IsConflict
        → Gated rest (unless_conflict c m rest)
    mode-Gated rest conflict h = inr (refl, h.0 refl)
    mode-Gated rest bundled h = inl (refl, λ k. let e : bundled ≡ conflict = h.1 k in cc)
    mode-Gated rest reused h = inl (refl, λ k. let e : reused ≡ conflict = h.1 k in cc)
    mode-Gated rest no_core h = inl (refl, λ k. let e : no_core ≡ conflict = h.1 k in cc)

    preflight-Gated :
        (rest : Exit) (l : Result (List String))
        → c.list_core_deployments ≡ l
        → Gated rest (preflight c (detect_capi_core_namespaces c.sort_strings l) rest)
    unfolding detect_capi_core_namespaces
    preflight-Gated rest (err e) q =
        inl (refl, λ k. let e : c.list_core_deployments ≡ ok k.0 = k.1 in cc)
    preflight-Gated rest (ok deployments) q =
        let (f, g) = classify-detect_conflict_iff c.sort_strings laws deployments _ refl in
        mode-Gated rest _ (
          λ m. (deployments, q, f m),
          λ k. let same : k.0 ≡ deployments = ground (arith, q, k.1) in g (subst Differ same k.2),
        )

    abbrev last : Exit
    last = launch c (start ∷ []) returned

    webhooks-All :
        (P : Part → Type 0) (b : Bool) (rest : List Part)
        → ((kind : String) → P (webhook kind))
        → All P rest
        → All P (webhooks b ++ rest)
    webhooks-All P true rest h r = (h _, (h _, r))
    webhooks-All P false rest h r = r

    -- No part before the last is the start.
    after-All : (b : Bool) → All (λ p. start ≢ p) (after_preflight b)
    after-All b =
        let tail =
          webhooks-All (λ p. start ≢ p) b (health_check ∷ ready_check ∷ []) (λ k e. cc)
            (λ e. cc, (λ e. cc, tt)) in
        (λ e. cc, (λ e. cc, (λ e. cc, (λ e. cc, (λ e. cc, tail)))))

    last-attempted : (r : Result (Unit {0})) → (attempted c start r returned).attempted ≡ start ∷ []
    last-attempted (ok u) = refl
    last-attempted (err e) = refl

    last-ok : (last.code ≡ 0) ↔ Succeeds start
    last-ok =
        let (f, g) = launch-ok (start ∷ []) returned in (λ h. (f h).0.0, λ h. g ((h, tt), refl))

    abbrev rest : Bool → Exit
    rest b = launch c (after_preflight b) last

    Gated-ok :
        (b : Bool) (out : Exit)
        → Gated (rest b) out
        → (out.code ≡ 0) ↔ (¬ IsConflict × ((rest b).code ≡ 0))
    Gated-ok b out (inl (e, n)) =
        (λ h. (n, ap (λ x. x.code) (sym e) ∙ h), λ h. ap (λ x. x.code) e ∙ h.1)
    Gated-ok b out (inr (e, k)) = (
      λ h. let one : 1 ≡ 0 = ap (λ x. x.code) (sym e) ∙ h in absurd (omega arith),
      λ h. absurd (h.0 k),
    )

    -- All that comes before the start.
    abbrev pub setup : Bool → List Part
    setup b = before_preflight ++ after_preflight b

    pub record Started (b : Bool) (out : Exit) : Type 0 where
      pub done : All Succeeds (setup b)
      pub alone : ¬ IsConflict
      pub order : out.attempted ≡ setup b ++ (start ∷ [])

    order_of :
        (b : Bool) (out : Exit)
        → Gated (rest b) out
        → Passed before_preflight out (launch c before_preflight out).attempted
        → Started b (launch c before_preflight out)
    unfolding launch
    order_of b out (inr (e, k)) (_, m, _) = elim (subst (λ x. Elem start x.attempted) e m) [ ]
    order_of b out (inl (e, n)) ((d0, (d1, _)), m, o) =
        let (d2, _, o2) =
          launch-start (after_preflight b) last (after-All b)
            (subst (λ x. Elem start x.attempted) e m) in
        record {
          done = (d0, (d1, d2));
          alone = n;
          order =
              o
              ∙ ap (λ x. before_preflight ++ x)
                  (ap (λ x. x.attempted) e
                    ∙ o2
                    ∙ ap (λ x. after_preflight b ++ x) (last-attempted (c.attempt start)));
        }

    -- The manager starts only after every other part, the webhooks among them where they are enabled,
    -- has succeeded, in the order of the source, and where no two namespaces have a deployment of
    -- the Cluster API core, or these cannot be listed. The process ends with code 0 exactly where all
    -- that holds and the start succeeds.
    pub main-Started :
        (b : Bool)
        → (Elem start (main c b).attempted → Started b (main c b))
          × (((main c b).code ≡ 0) ↔ (All Succeeds (setup b) × Succeeds start × ¬ IsConflict))
    unfolding main
    main-Started b =
        let gated = preflight c namespaces (rest b) in
        let g : Gated (rest b) gated = preflight-Gated (rest b) c.list_core_deployments refl in
        (
          λ m. order_of b gated g (launch-start before_preflight gated (λ e. cc, (λ e. cc, tt)) m),
          (
            λ h.
                let ((d0, (d1, _)), k) = (launch-ok before_preflight gated).0 h in
                let (n, r) = (Gated-ok b gated g).0 k in
                let (d2, l) = (launch-ok (after_preflight b) last).0 r in
                ((d0, (d1, d2)), last-ok.0 l, n),
            λ h.
                let (d0, (d1, d2)) = h.0 in
                (launch-ok before_preflight gated).1 (
                  (d0, (d1, tt)),
                  (Gated-ok b gated g).1
                      (h.2, (launch-ok (after_preflight b) last).1 (d2, last-ok.1 h.1)),
                ),
          ),
        )
