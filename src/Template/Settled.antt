-- ===== src/Template/Settled.antt =====
-- The whole reconcile of a template, and a second one after it
-- (internal/controller/alibabacloudmachinetemplate_controller.go).
use text.Mathlib.TextEquality.{eq_iff}
use openshift_capi_alicloud.Prelude.{
  differs, ◌≢◌, ℤ, String, true, false, Option, none, some, Result, ok, err, Error, ◌≡◌, ◌⊎◌, inl,
  inr, refl, lookup, ◌==◌, string_eq, if-split, if-elim, subst, ap, ◌∙◌,
}
use openshift_capi_alicloud.Api.Kube.{finished, Fetched, found, not_found, failed, Outcome}
use openshift_capi_alicloud.Api.Machine.{AlibabaCloudMachineSpec}
use openshift_capi_alicloud.Api.Template.{ResourceList, AlibabaCloudMachineTemplate}
use openshift_capi_alicloud.Template.{
  TemplateApi, Around, Reconciler, extend, with_capacity, with_template, with_fetched, patched,
  set_capacity, reconcile,
}
use openshift_capi_alicloud.Template.Capacity.{
  Reachable, AreStatic, entry, Refused, Resolved, resolve_capacity-Resolved,
}

module _ {E : Type 0} (api : TemplateApi E) (specs : String → ℤ × ℤ)
    (static : AreStatic api specs) where
  abbrev spec_of : AlibabaCloudMachineTemplate → AlibabaCloudMachineSpec
  spec_of tmpl = tmpl.spec.template.spec

  -- The capacity that the table gives the template.
  abbrev pub capacity_of : AlibabaCloudMachineTemplate → ResourceList
  capacity_of tmpl = extend (spec_of tmpl) (entry specs (spec_of tmpl).instance_type)

  module _ (around : Around) where
    abbrev pub IsNamed : AlibabaCloudMachineTemplate → Type 0
    IsNamed tmpl = ((spec_of tmpl).instance_type ≢ "") × ((spec_of tmpl).region_id ≢ "")

    -- Why nothing is patched.
    pub data Unpatched (s : Reconciler E) : Result Outcome → Reconciler E → Type 0 where
      gone : around.get ≡ not_found → Unpatched s (ok finished) s
      unread : (e : Error) → around.get ≡ failed e → Unpatched s (err e) s
      unnamed :
          (tmpl : AlibabaCloudMachineTemplate)
          → around.get ≡ found tmpl
          → ((spec_of tmpl).instance_type ≡ "") ⊎ ((spec_of tmpl).region_id ≡ "")
          → Unpatched s (ok finished) s
      unresolved :
          (tmpl : AlibabaCloudMachineTemplate) (t : Reconciler E) (e : Error)
          → around.get ≡ found tmpl
          → IsNamed tmpl
          → t.cache ≡ s.cache
          → Refused api (spec_of tmpl) s e
          → Unpatched s (err e) t
      current :
          (tmpl : AlibabaCloudMachineTemplate) (t : Reconciler E)
          → around.get ≡ found tmpl
          → IsNamed tmpl
          → api.deep_equal tmpl.status.capacity (capacity_of tmpl) ≡ true
          → Unpatched s (ok finished) t

    -- The patch has the last word.
    abbrev pub Concludes : Result (Unit {0}) → Result Outcome → Type 0
    Concludes (ok _) r = r ≡ ok finished
    Concludes (err e) r = r ≡ err e

    pub record Patches (r : Result Outcome) (t : Reconciler E) (after : AlibabaCloudMachineTemplate)
        : Type 0 where
      pub before : AlibabaCloudMachineTemplate
      pub fetched : around.get ≡ found before
      pub named : IsNamed before
      pub stale : api.deep_equal before.status.capacity (capacity_of before) ≡ false
      pub set : after ≡ set_capacity api (capacity_of before) before
      pub cached :
          lookup (spec_of before).instance_type t.cache
          ≡ some (entry specs (spec_of before).instance_type)
      pub concluded : Concludes (around.patch before after) r

    abbrev pub Told :
        Reconciler E → Result Outcome → Reconciler E → Option AlibabaCloudMachineTemplate → Type 0
    Told s r t none = Unpatched s r t
    Told s r t (some after) = Patches r t after

    abbrev pub Account :
        Reconciler E → Result Outcome × (Reconciler E × Option AlibabaCloudMachineTemplate) → Type 0
    Account s (r, (t, o)) = Reachable api t.cache × Told s r t o

    patched-Account :
        (s t : Reconciler E) (tmpl after : AlibabaCloudMachineTemplate) (p : Result (Unit {0}))
        → Reachable api t.cache
        → ((r : Result Outcome) → Concludes p r → Patches r t after)
        → Account s (patched api after p t)
    patched-Account s t tmpl after (ok _) r k = (r, k (ok finished) refl)
    patched-Account s t tmpl after (err e) r k = (r, k (err e) refl)

    capacity-Account :
        (s : Reconciler E) (tmpl : AlibabaCloudMachineTemplate)
        (p : Result ResourceList × Reconciler E)
        → around.get ≡ found tmpl
        → IsNamed tmpl
        → Resolved api specs static (spec_of tmpl) s p
        → Account s (with_capacity api around tmpl p)
    capacity-Account s tmpl (err e, t) g n h =
        (h.reachable, unresolved tmpl t e g n h.answers.0 h.answers.2)
    capacity-Account s tmpl (ok capacity, t) g n h =
        let same : capacity ≡ capacity_of tmpl = h.answers.0 in
        if-split (Account s) (api.deep_equal tmpl.status.capacity capacity)
          (λ q. (
            h.reachable,
            current tmpl t g n (subst (λ c. api.deep_equal tmpl.status.capacity c ≡ true) same q),
          ))
          (λ q. patched-Account s t tmpl _ _ h.reachable (λ r c. record {
            before = tmpl;
            fetched = g;
            named = n;
            stale = subst (λ c. api.deep_equal tmpl.status.capacity c ≡ false) same q;
            set = ap (λ c. set_capacity api c tmpl) same;
            cached = h.answers.1;
            concluded = c;
          }))

    template-Account :
        (s : Reconciler E) (tmpl : AlibabaCloudMachineTemplate)
        → around.get ≡ found tmpl
        → Reachable api s.cache
        → Account s (with_template api around tmpl s)
    template-Account s tmpl g r =
        if-split (Account s) ((spec_of tmpl).instance_type == "")
          (λ q. (r, unnamed tmpl g (inl ((eq_iff (spec_of tmpl).instance_type "").0 q))))
          (λ p.
            if-split (Account s) ((spec_of tmpl).region_id == "")
              (λ q. (r, unnamed tmpl g (inr ((eq_iff (spec_of tmpl).region_id "").0 q))))
              (λ q.
                capacity-Account s tmpl _ g (differs _ _ p, differs _ _ q)
                  (resolve_capacity-Resolved api specs static (spec_of tmpl) s r)))

    fetched-Account :
        (s : Reconciler E) (f : Fetched AlibabaCloudMachineTemplate)
        → around.get ≡ f
        → Reachable api s.cache
        → Account s (with_fetched api around f s)
    fetched-Account s not_found g r = (r, gone g)
    fetched-Account s (failed e) g r = (r, unread e g)
    fetched-Account s (found tmpl) g r = template-Account s tmpl g r

    -- A reconcile of a template keeps the cache one that stores of answers make. It patches nothing
    -- exactly where the template is gone or cannot be read, names no instance type or no region, has
    -- a type that the builder or the cloud refuses to resolve, which is the error returned and
    -- leaves the cache alone, or has the capacity of the table already. Otherwise it patches the
    -- capacity of the table into what it fetched, which names a type and a region, changes nothing else of it, and returns what the
    -- patch returns.
    pub reconcile-Told :
        (s : Reconciler E) → Reachable api s.cache → Account s (reconcile api around s)
    unfolding reconcile
    reconcile-Told s r = fetched-Account s around.get refl r

  template-settled :
      ((c : ResourceList) → api.deep_equal c c ≡ true)
      → (two : Around) (before : AlibabaCloudMachineTemplate) (t : Reconciler E)
      → Reachable api t.cache
      → lookup (spec_of before).instance_type t.cache
        ≡ some (entry specs (spec_of before).instance_type)
      → with_template api two (set_capacity api (capacity_of before) before) t
        ≡ (ok finished, (t, none))
  template-settled same two before t r h =
      let tmpl = set_capacity api (capacity_of before) before in
      let known = (resolve_capacity-Resolved api specs static (spec_of before) t r).known _ h in
      let settled : with_capacity api two tmpl (ok (capacity_of before), t)
          ≡ (ok finished, (t, none)) =
        rw (same (capacity_of before)) refl in
      if-elim (λ x. x ≡ (ok finished, (t, none))) ((spec_of before).instance_type == "") refl
        (if-elim (λ x. x ≡ (ok finished, (t, none))) ((spec_of before).region_id == "") refl
          (ap (with_capacity api two tmpl) known ∙ settled))

  -- A second reconcile, of a template that the first one patched, calls no cloud, patches nothing,
  -- and leaves the reconciler as it is, where equality holds between a capacity and itself.
  pub reconcile-settled :
      ((c : ResourceList) → api.deep_equal c c ≡ true)
      → (one two : Around) (s t : Reconciler E) {r : Result Outcome}
        {after : AlibabaCloudMachineTemplate}
      → Reachable api s.cache
      → reconcile api one s ≡ (r, (t, some after))
      → two.get ≡ found after
      → reconcile api two t ≡ (ok finished, (t, none))
  unfolding reconcile
  reconcile-settled same one two s t {r} {after} h q g =
      let (reachable, p) : Account one s (r, (t, some after)) =
        subst (Account one s) q (reconcile-Told one s h) in
      ap (λ f. with_fetched api two f t) (g ∙ ap found p.set)
      ∙ template-settled same two p.before t reachable p.cached
