-- ===== src/Webhook/Machine/Immutable.antt =====
-- validateMachineImmutable of internal/webhook/v1beta1/alibabacloudmachine_webhook.go.
use text.Mathlib.TextEquality.{eq_iff}
use openshift_capi_alicloud.Prelude.{
  ◌++◌, option_beq_iff, some, none, Eq, Option, ◌⊎◌, String, List, [], ◌≡◌, ◌↔◌, arith, string_eq,
  int_eq, bool_eq, option_eq, list_eq,
}
use openshift_capi_alicloud.Api.Machine.{AlibabaCloudMachineSpec}
use openshift_capi_alicloud.Webhook.Fields.{FieldError}
use openshift_capi_alicloud.Webhook.Fields.Laws.{append-eq-nil_iff}
use openshift_capi_alicloud.Webhook.Machine.{
  system_disk_eq, data_disk_eq, validate_machine_immutable, check_provider_id, immutable,
  immutable_once_set,
}

immutable_iff :
    {A : Type 0} ⦃e : Eq A⦄ (name : String) (old new : A)
    → (immutable name old new ≡ []) ↔ (old ≡ new)
immutable_iff ⦃e⦄ name old new = ground (arith, e.same_iff old new)

-- A text that was set stays as it was.
abbrev pub StaysSet : String → String → Type 0
StaysSet old new = (old ≡ "") ⊎ (old ≡ new)

immutable_once_set_iff :
    (name old new : String) → (immutable_once_set name old new ≡ []) ↔ StaysSet old new
immutable_once_set_iff name old new = ground (arith, eq_iff old "", eq_iff old new)

check_provider_id_iff :
    (old new : Option String) → (check_provider_id old new ≡ []) ↔ ((old ≡ none) ⊎ (new ≡ old))
check_provider_id_iff none new = ground arith
check_provider_id_iff (some old) new = ground (arith, option_beq_iff new (some old))

pub record Unchanged (old new : AlibabaCloudMachineSpec) : Type 0 where
  pub instance_type : old.instance_type ≡ new.instance_type
  pub image_id : old.image_id ≡ new.image_id
  pub region_id : StaysSet old.region_id new.region_id
  pub zone_id : StaysSet old.zone_id new.zone_id
  pub vswitch_id : StaysSet old.vswitch_id new.vswitch_id
  pub system_disk : old.system_disk ≡ new.system_disk
  pub data_disks : old.data_disks ≡ new.data_disks
  pub spot_strategy : old.spot_strategy ≡ new.spot_strategy
  pub spot_price_limit : old.spot_price_limit ≡ new.spot_price_limit
  pub provider_id : (old.provider_id ≡ none) ⊎ (new.provider_id ≡ old.provider_id)

-- An update is free of immutability errors exactly when the instance type, the image, the disks and
-- the spot options are as before, data disks that are absent not being the same as an empty list, when the region, the zone, the switch and the provider identifier
-- are as before where they were set, and may be anything where they were not.
pub validate_machine_immutable_iff :
    (old new : AlibabaCloudMachineSpec)
    → (validate_machine_immutable old new ≡ []) ↔ Unchanged old new
unfolding validate_machine_immutable
validate_machine_immutable_iff old new = (to, from)
  where
    app : (xs ys : List FieldError) → ((xs ++ ys) ≡ []) ↔ ((xs ≡ []) × (ys ≡ []))
    app = append-eq-nil_iff

    to : (validate_machine_immutable old new ≡ []) → Unchanged old new
    to h =
        let (a, h1) = (app _ _).0 h in
        let (b, h2) = (app _ _).0 h1 in
        let (c, h3) = (app _ _).0 h2 in
        let (d, h4) = (app _ _).0 h3 in
        let (e, h5) = (app _ _).0 h4 in
        let (f, h6) = (app _ _).0 h5 in
        let (g, h7) = (app _ _).0 h6 in
        let (i, h8) = (app _ _).0 h7 in
        let (j, k) = (app _ _).0 h8 in
        record {
          instance_type = (immutable_iff "instanceType" _ _).0 a;
          image_id = (immutable_iff "imageID" _ _).0 b;
          region_id = (immutable_once_set_iff "regionID" _ _).0 c;
          zone_id = (immutable_once_set_iff "zoneID" _ _).0 d;
          vswitch_id = (immutable_once_set_iff "vSwitchID" _ _).0 e;
          system_disk = (immutable_iff "systemDisk" _ _).0 f;
          data_disks = (immutable_iff "dataDisks" _ _).0 g;
          spot_strategy = (immutable_iff "spotStrategy" _ _).0 i;
          spot_price_limit = (immutable_iff "spotPriceLimit" _ _).0 j;
          provider_id = (check_provider_id_iff _ _).0 k;
        }

    from : Unchanged old new → (validate_machine_immutable old new ≡ [])
    from u = (app _ _).1 (
      (immutable_iff "instanceType" _ _).1 u.instance_type,
      (app _ _).1 (
        (immutable_iff "imageID" _ _).1 u.image_id,
        (app _ _).1 (
          (immutable_once_set_iff "regionID" _ _).1 u.region_id,
          (app _ _).1 (
            (immutable_once_set_iff "zoneID" _ _).1 u.zone_id,
            (app _ _).1 (
              (immutable_once_set_iff "vSwitchID" _ _).1 u.vswitch_id,
              (app _ _).1 (
                (immutable_iff "systemDisk" _ _).1 u.system_disk,
                (app _ _).1 (
                  (immutable_iff "dataDisks" _ _).1 u.data_disks,
                  (app _ _).1 (
                    (immutable_iff "spotStrategy" _ _).1 u.spot_strategy,
                    (app _ _).1 (
                      (immutable_iff "spotPriceLimit" _ _).1 u.spot_price_limit,
                      (check_provider_id_iff _ _).1 u.provider_id,
                    ),
                  ),
                ),
              ),
            ),
          ),
        ),
      ),
    )
