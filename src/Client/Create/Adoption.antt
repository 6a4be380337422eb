-- ===== src/Client/Create/Adoption.antt =====
-- CreateECSInstance of pkg/client/capi.go where the machine has an instance already.
use text.Mathlib.TextEquality.{eq_iff}
use openshift_capi_alicloud.Prelude.{
  and_then, false, ℕ, suc, String, Error, Result, ok, err, inl, inr, ◌≡◌, ◌≢◌, ◌⊎◌, refl, subst,
  sym, arith, string_eq, List, ◌==◌,
}
use openshift_capi_alicloud.Client.Create.{find_existing, adopt_or_run, create_ecs_instance}
use openshift_capi_alicloud.Client.Instances.{
  mapped, find_instance_by_tag, first_not_deleted, describe_by_tag,
}
use openshift_capi_alicloud.Client.Interface.{
  machine_tag, machine_name_tag_key, CreateInstanceParams,
}
use openshift_capi_alicloud.Client.Retry.{retry_throttled}
use openshift_capi_alicloud.Client.Retry.Laws.{retry_throttled-Run, calls}
use openshift_capi_alicloud.Client.Sdk.{Sdk, Env, Instance}

module _ {W : Type 0} (sdk : Sdk W) where
  -- The search for the machine's tag, as one call of the cloud.
  abbrev pub search : CreateInstanceParams → W → Result (List Instance) × W
  search p =
      sdk.describe_instances (describe_by_tag p.region_id machine_name_tag_key (machine_tag p.tags))

  -- Each search that succeeds, now or later in a row of searches, finds this instance first.
  abbrev pub IsListed : CreateInstanceParams → String → W → Type 0
  IsListed p id w =
      (n : ℕ) (insts : List Instance)
      → (search p (calls (search p) n w)).0 ≡ ok insts
      → first_not_deleted insts ≡ id

  pub record Adopted (p : CreateInstanceParams) (id : String) (s : Env W)
      (out : Result String × Env W) : Type 0 where
    pub count : ℕ
    pub only_searched : out.1.cloud ≡ calls (search p) (suc count) s.cloud
    pub result : (out.0 ≡ ok id) ⊎ ((e : Error) × (out.0 ≡ err e))

  -- With the retried search at hand.
  found-Adopted :
      (p : CreateInstanceParams) (id : String) (s : Env W) (r : Result (List Instance) × Env W)
      (n : ℕ) (f : Error → Error)
      → id ≢ ""
      → r.1.cloud ≡ calls (search p) (suc n) s.cloud
      → r.0 ≡ (search p (calls (search p) n s.cloud)).0
      → IsListed p id s.cloud
      → Adopted p id s (and_then (mapped f first_not_deleted r) (adopt_or_run sdk p))
  unfolding adopt_or_run
  found-Adopted p id s (err e, t) n f ne c q h = record {
    count = n;
    only_searched = c;
    result = inr (f e, refl);
  }
  found-Adopted p id s (ok insts, t) n f ne c q h =
      let named : (id == "") ≡ false = ground (arith, eq_iff id "", ne) in
      subst (λ x. Adopted p id s (adopt_or_run sdk p x t)) (sym (h n insts (sym q)))
        (rw named (record { count = n; only_searched = c; result = inl refl }))

  -- Where the cloud lists an instance with the machine's tag, creating the machine's instance again only
  -- searches: it makes no other call of the cloud, and it returns that instance or an error.
  pub create_ecs_instance-Adopted :
      (p : CreateInstanceParams) (id : String) (s : Env W)
      → machine_tag p.tags ≢ ""
      → id ≢ ""
      → IsListed p id s.cloud
      → Adopted p id s (create_ecs_instance sdk p s)
  unfolding create_ecs_instance find_existing find_instance_by_tag
  create_ecs_instance-Adopted p id s tagged ne h =
      let named : (machine_tag p.tags == "") ≡ false =
        ground (arith, eq_iff (machine_tag p.tags) "", tagged) in
      let run = retry_throttled-Run sdk "DescribeInstances" (search p) s in
      rw named (
        found-Adopted p id s (retry_throttled sdk "DescribeInstances" (search p) s) run.count _ ne
          run.calls_made run.last_result h)
