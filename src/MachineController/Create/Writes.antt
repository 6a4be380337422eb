-- ===== src/MachineController/Create/Writes.antt =====
-- What the steps of internal/controller/alibabacloudmachine_controller.go that write into a machine's
-- specification change of it, against what the webhook lets an update change.
pub mod Instance
use text.Mathlib.TextEquality.{eq_iff}
use openshift_capi_alicloud.Prelude.{
  true, false, none, some, ok, err, inl, inr, Operand, ℕ, Bool, List, ◌≢◌, wrapped, [], ◌∷◌, str,
  errorf, if-elim, if-split, ◌||◌, String, not, Option, Result, Error, Action, and_then, return,
  ◌≡◌, ◌⊎◌, refl, subst, sym, ap, ◌∙◌, arith, string_eq, ◌==◌,
}
use openshift_capi_alicloud.Api.Cluster.{AlibabaCloudCluster}
use openshift_capi_alicloud.Api.Kube.{Machine, PublishedDomain}
use openshift_capi_alicloud.Api.Machine.{AlibabaCloudMachine, AlibabaCloudMachineSpec}
use openshift_capi_alicloud.Api.Types.{
  instance_state_stopped, instance_state_deleted, instance_state_running,
}
use openshift_capi_alicloud.ProviderId.{provider_id_for}
use openshift_capi_alicloud.Client.Interface.{InstanceDescription, Client}
use openshift_capi_alicloud.MachineController.Context.{
  add_machine_finalizer, modify, as_terminal, update, Runtime, with_env, Ctl,
}
use openshift_capi_alicloud.MachineController.Create.{
  record_instance, create_from, run_create, classify_create_error, create_instance, create_with,
  resolve_region, find_domain, attribute, resolve_failure_domain, apply_domain, or_text,
}
use openshift_capi_alicloud.MachineController.Ignition.{maybe_offload_user_data, wrap}
use openshift_capi_alicloud.MachineController.Normal.{
  has_no_bootstrap, find_or_create_instance, after_error, find_or_create, gates, reconcile_normal,
  with_client, with_domain, with_instance, names_other, to_info, describe_instance, follow_instance,
  with_description, InstanceInfo, by_state, heal_provider_id, maybe_harden_metadata,
}
use openshift_capi_alicloud.Webhook.Machine.{validate_machine_immutable}
use openshift_capi_alicloud.Webhook.Machine.Immutable.{
  validate_machine_immutable_iff, Unchanged, StaysSet,
}

-- The four fields that are written.
pub filled-Unchanged :
    (a : AlibabaCloudMachineSpec) (r z v : String) (p : Option String)
    → StaysSet a.region_id r
    → StaysSet a.zone_id z
    → StaysSet a.vswitch_id v
    → (a.provider_id ≡ none) ⊎ (p ≡ a.provider_id)
    → Unchanged a (record a { region_id = r; zone_id = z; vswitch_id = v; provider_id = p })
filled-Unchanged a r z v p hr hz hv hp = record {
  instance_type = refl;
  image_id = refl;
  region_id = hr;
  zone_id = hz;
  vswitch_id = hv;
  system_disk = refl;
  data_disks = refl;
  spot_strategy = refl;
  spot_price_limit = refl;
  provider_id = hp;
}

pub Unchanged-refl : (a : AlibabaCloudMachineSpec) → Unchanged a a
Unchanged-refl a =
    filled-Unchanged a a.region_id a.zone_id a.vswitch_id a.provider_id (inr refl) (inr refl)
      (inr refl) (inr refl)

pub StaysSet-trans : (a b c : String) → StaysSet a b → StaysSet b c → StaysSet a c
StaysSet-trans a b c (inl e) q = inl e
StaysSet-trans a b c (inr e) (inl f) = inl (e ∙ f)
StaysSet-trans a b c (inr e) (inr f) = inr (e ∙ f)

pub Unchanged-trans :
    (a b c : AlibabaCloudMachineSpec) → Unchanged a b → Unchanged b c → Unchanged a c
Unchanged-trans a b c p q = record {
  instance_type = p.instance_type ∙ q.instance_type;
  image_id = p.image_id ∙ q.image_id;
  region_id = StaysSet-trans _ _ _ p.region_id q.region_id;
  zone_id = StaysSet-trans _ _ _ p.zone_id q.zone_id;
  vswitch_id = StaysSet-trans _ _ _ p.vswitch_id q.vswitch_id;
  system_disk = p.system_disk ∙ q.system_disk;
  data_disks = p.data_disks ∙ q.data_disks;
  spot_strategy = p.spot_strategy ∙ q.spot_strategy;
  spot_price_limit = p.spot_price_limit ∙ q.spot_price_limit;
  provider_id = elim p.provider_id [
    | inl e ↦ inl e
    | inr e ↦ elim q.provider_id [ inl f ↦ inl (sym e ∙ f) | inr f ↦ inr (f ∙ e) ]
  ];
}

-- Filling in what is empty keeps what was set.
pub or_text-StaysSet : (a b : String) → StaysSet a (or_text a b)
or_text-StaysSet a b = ground (arith, eq_iff a "")

-- What resolving a failure domain does, and that it leaves the provider identifier.
abbrev pub Resolved : AlibabaCloudMachine → Result (Unit {0}) × AlibabaCloudMachine → Type 0
Resolved m out = Unchanged m.spec out.1.spec × (out.1.spec.provider_id ≡ m.spec.provider_id)

pub apply_domain-Resolved :
    (z : String) (fd : PublishedDomain) (m : AlibabaCloudMachine) → Resolved m (apply_domain z fd m)
apply_domain-Resolved z fd m =
    if-split (Resolved m) (not (m.spec.vswitch_id == "")) (λ _. (zone (inr refl), refl))
      (λ e.
        if-split (Resolved m) (attribute "vSwitchID" fd.attributes == "")
          (λ _. (zone (inr refl), refl))
          (λ _. (zone (inl (ground (arith, eq_iff m.spec.vswitch_id ""))), refl)))
  where
    zone :
        {v : String}
        → StaysSet m.spec.vswitch_id v
        → Unchanged m.spec (record (m.spec) { zone_id = or_text m.spec.zone_id z; vswitch_id = v })
    zone {v} h =
        filled-Unchanged m.spec m.spec.region_id (or_text m.spec.zone_id z) v m.spec.provider_id
          (inr refl) (or_text-StaysSet m.spec.zone_id z) h (inr refl)

module _ (machine : Machine) (cluster : AlibabaCloudCluster) (m : AlibabaCloudMachine) where
  pub found-Resolved :
      (o : Option PublishedDomain)
      → Resolved m (elim o [
        | none ↦ (
          err (
              errorf "failure domain %q not found in AlibabaCloudCluster status"
                (str machine.failure_domain ∷ [])),
          m,
        )
        | some fd ↦ apply_domain machine.failure_domain fd m
      ])
  found-Resolved none = (Unchanged-refl m.spec, refl)
  found-Resolved (some fd) = apply_domain-Resolved machine.failure_domain fd m

  pub resolve_failure_domain-Resolved : Resolved m (resolve_failure_domain machine cluster m)
  unfolding resolve_failure_domain
  resolve_failure_domain-Resolved =
      if-elim (Resolved m) (machine.failure_domain == "") (Unchanged-refl m.spec, refl)
        (found-Resolved (find_domain machine.failure_domain cluster.status.failure_domains))

module _ {E : Type 0} where
  abbrev pub spec_of : Ctl E → AlibabaCloudMachineSpec
  spec_of s = s.machine.spec

  -- What an action writes into the specification may be admitted.
  abbrev pub Writes : {A : Type 0} → AlibabaCloudMachineSpec → Result A × Ctl E → Type 0
  Writes a out = Unchanged a (spec_of out.1)

  pub and_then-Writes :
      {A B : Type 0} (a : AlibabaCloudMachineSpec) (r : Result A × Ctl E) (f : A → Action (Ctl E) B)
      → Writes a r
      → ((x : A) (s : Ctl E) → r ≡ (ok x, s) → Writes a (f x s))
      → Writes a (and_then r f)
  and_then-Writes a (ok x, s) f h k = k x s refl
  and_then-Writes a (err e, s) f h k = h
