-- ===== src/ControlPlane/Adoption.antt =====
-- What a reconcile of a control plane reports
-- (internal/controller/alibabacloudcontrolplane_controller.go).
use text.Mathlib.TextEquality.{eq_iff}
use openshift_capi_alicloud.Prelude.{
  inl, inr, none, err, ok, sym, subst, Error, ap, Result, if-elim, String, Bool, true, false,
  Option, some, refl, ◌≡◌, ◌⊎◌, ◌||◌, ◌==◌, string_eq, if-split, arith,
}
use openshift_capi_alicloud.Api.ControlPlane.{
  AlibabaCloudControlPlaneSpec, AlibabaCloudControlPlane,
  AlibabaCloudControlPlaneInitializationStatus, control_plane_mode_external,
}
use openshift_capi_alicloud.Api.Kube.{
  found, finished, not_found, failed, Outcome, Fetched, ObjectMeta, Kube, KubeLaws, Condition,
  find_condition, ready_condition,
}
use openshift_capi_alicloud.Api.Reconciling.{patched, Surroundings}
use openshift_capi_alicloud.ControlPlane.{
  with_helper, with_owner, with_fetched, reconcile, adopted, unsupported, reconcile_external,
  by_mode,
}

abbrev pub ready_of : AlibabaCloudControlPlane → Option Condition
ready_of cp = find_condition ready_condition cp.status.conditions

-- What the Cluster API reads of a status besides the conditions.
abbrev pub signals :
    AlibabaCloudControlPlane
    → Bool × Option Bool × Option AlibabaCloudControlPlaneInitializationStatus × String
signals cp = (
  cp.status.ready, cp.status.external_managed_control_plane, cp.status.initialization,
  cp.status.version,
)

abbrev pub IsExternalMode : String → Type 0
IsExternalMode mode = (mode ≡ control_plane_mode_external) ⊎ (mode ≡ "")

abbrev pub IsExternal : AlibabaCloudControlPlane → Type 0
IsExternal cp = IsExternalMode cp.spec.mode

module _ (k : Kube) where
  -- Initialized, ready and managed from outside, at the version that the specification names.
  pub record IsAdopted (cp : AlibabaCloudControlPlane) : Type 0 where
    pub signalled : signals cp ≡ (
      true,
      some true,
      some (record { control_plane_initialized = some true }),
      cp.spec.version,
    )
    pub condition : ready_of cp ≡ some (adopted k)

  pub record IsRefused (before after : AlibabaCloudControlPlane) : Type 0 where
    pub signalled : signals after ≡ signals before
    pub condition : ready_of after ≡ some (unsupported k before.spec.mode)

  pub data Reported (before : AlibabaCloudControlPlane) : AlibabaCloudControlPlane → Type 0 where
    deleted : before.metadata.is_deleted ≡ true → Reported before before
    external :
        (after : AlibabaCloudControlPlane)
        → before.metadata.is_deleted ≡ false
        → IsExternal before
        → IsAdopted after
        → Reported before after
    other :
        (after : AlibabaCloudControlPlane)
        → before.metadata.is_deleted ≡ false
        → ¬ IsExternal before
        → IsRefused before after
        → Reported before after

  module _ (laws : KubeLaws k) where
    by_mode-Reported :
        (cp : AlibabaCloudControlPlane)
        → cp.metadata.is_deleted ≡ false
        → Reported cp (by_mode k cp)
    unfolding reconcile_external
    by_mode-Reported cp d =
        if-split (Reported cp) (cp.spec.mode == control_plane_mode_external || cp.spec.mode == "")
          (λ e.
            external _ d
              (ground
                (arith, eq_iff cp.spec.mode control_plane_mode_external, eq_iff cp.spec.mode ""))
              (record { signalled = refl; condition = laws.find-set (adopted k) _ }))
          (λ e.
            other _ d
              (ground
                (arith, eq_iff cp.spec.mode control_plane_mode_external, eq_iff cp.spec.mode ""))
              (record {
                signalled = refl;
                condition = laws.find-set (unsupported k cp.spec.mode) _;
              }))

    abbrev kept : AlibabaCloudControlPlane → ObjectMeta × AlibabaCloudControlPlaneSpec
    kept cp = (cp.metadata, cp.spec)

    by_mode-kept : (cp : AlibabaCloudControlPlane) → kept (by_mode k cp) ≡ kept cp
    unfolding reconcile_external
    by_mode-kept cp =
        if-elim (λ after. kept after ≡ kept cp)
          (cp.spec.mode == control_plane_mode_external || cp.spec.mode == "") refl refl

    module _ (around : Surroundings AlibabaCloudControlPlane) where
      -- Why nothing is patched, and the result then.
      pub data Skipped : Result Outcome → Type 0 where
        absent : around.get ≡ not_found → Skipped (ok finished)
        unread : (e : Error) → around.get ≡ failed e → Skipped (err e)
        unowned :
            (cp : AlibabaCloudControlPlane) (e : Error)
            → around.get ≡ found cp
            → around.owner_cluster cp ≡ err e
            → Skipped (err e)
        paused :
            (cp : AlibabaCloudControlPlane) (cluster : String)
            → around.get ≡ found cp
            → around.owner_cluster cp ≡ ok (some cluster)
            → around.is_paused cluster cp ≡ true
            → Skipped (ok finished)
        unhelped :
            (cp : AlibabaCloudControlPlane) (e : Error)
            → around.get ≡ found cp
            → around.patch_helper cp ≡ err e
            → Skipped (err e)

      -- It has no owner cluster yet, or one that it is not paused with.
      abbrev pub NotPaused : AlibabaCloudControlPlane → Type 0
      NotPaused cp =
          (around.owner_cluster cp ≡ ok none)
          ⊎ ((cluster : String) × (around.owner_cluster cp ≡ ok (some cluster))
              × (around.is_paused cluster cp ≡ false))

      -- The deferred patch has the last word.
      abbrev pub Concludes : Result (Unit {0}) → Result Outcome → Type 0
      Concludes (ok _) r = r ≡ ok finished
      Concludes (err e) r = r ≡ err e

      pub record Patched (r : Result Outcome) (after : AlibabaCloudControlPlane) : Type 0 where
        pub before : AlibabaCloudControlPlane
        pub fetched : around.get ≡ found before
        pub unpaused : NotPaused before
        pub helped : around.patch_helper before ≡ ok tt
        pub metadata : after.metadata ≡ before.metadata
        pub spec : after.spec ≡ before.spec
        pub reported : Reported before after
        pub concluded : Concludes (around.patch before after) r

      abbrev pub Account : Result Outcome × Option AlibabaCloudControlPlane → Type 0
      Account (r, none) = Skipped r
      Account (r, some after) = Patched r after

      finish-Account :
          (before after : AlibabaCloudControlPlane) (p : Result (Unit {0}))
          → around.patch before after ≡ p
          → around.get ≡ found before
          → NotPaused before
          → around.patch_helper before ≡ ok tt
          → kept after ≡ kept before
          → Reported before after
          → Account (patched p (ok finished, after))
      finish-Account before after (ok _) q g n u h r = record {
        before = before;
        fetched = g;
        unpaused = n;
        helped = u;
        metadata = ap (λ x. x.0) h;
        spec = ap (λ x. x.1) h;
        reported = r;
        concluded = subst (λ p. Concludes p (ok finished)) (sym q) refl;
      }
      finish-Account before after (err e) q g n u h r = record {
        before = before;
        fetched = g;
        unpaused = n;
        helped = u;
        metadata = ap (λ x. x.0) h;
        spec = ap (λ x. x.1) h;
        reported = r;
        concluded = subst (λ p. Concludes p (err e)) (sym q) refl;
      }

      helper-Account :
          (cp : AlibabaCloudControlPlane) (p : Result (Unit {0}))
          → around.patch_helper cp ≡ p
          → around.get ≡ found cp
          → NotPaused cp
          → Account (with_helper k around cp p)
      helper-Account cp (err e) q g n = unhelped cp e g q
      helper-Account cp (ok _) q g n =
          if-split Account cp.metadata.is_deleted
            (λ d. finish-Account cp cp _ refl g n q refl (deleted d))
            (λ d. finish-Account cp _ _ refl g n q (by_mode-kept cp) (by_mode-Reported cp d))

      owner-Account :
          (cp : AlibabaCloudControlPlane) (o : Result (Option String))
          → around.owner_cluster cp ≡ o
          → around.get ≡ found cp
          → Account (with_owner k around cp o)
      owner-Account cp (err e) q g = unowned cp e g q
      owner-Account cp (ok none) q g = helper-Account cp _ refl g (inl q)
      owner-Account cp (ok (some cluster)) q g =
          if-split Account (around.is_paused cluster cp) (λ p. paused cp cluster g q p)
            (λ p. helper-Account cp _ refl g (inr (cluster, q, p)))

      fetched-Account :
          (f : Fetched AlibabaCloudControlPlane)
          → around.get ≡ f
          → Account (with_fetched k around f)
      fetched-Account not_found q = absent q
      fetched-Account (failed e) q = unread e q
      fetched-Account (found cp) q = owner-Account cp _ refl q

      -- A reconcile patches nothing exactly where the control plane is gone, cannot be read, has an
      -- owner that cannot be read, is paused, or has no patch helper, and returns that error or
      -- none. Otherwise it patches the control plane that it fetched, with its metadata and its
      -- specification kept, and returns what the patch returns: it has no owner or is not paused
      -- with it, and there is a patch helper. What it patches is unchanged for a
      -- deletion; initialized, ready and at the version of the specification for the mode
      -- `external` or an empty mode; and for any other mode it has a false Ready condition, and the
      -- signals that it had.
      pub reconcile-Account : Account (reconcile k around)
      unfolding reconcile
      reconcile-Account = fetched-Account around.get refl
