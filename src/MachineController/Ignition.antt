-- ===== src/MachineController/Ignition.antt =====
-- User data: getUserData, and its offload to OSS (maybeOffloadUserData, ignitionObjectKey,
-- buildIgnitionPointer, cleanupOffloadedIgnition). User data are bytes in base64.
pub mod Offload
use Prim.Native.String.{◌++◌}
use openshift_capi_alicloud.Prelude.{
  mul64, ℕ, ℤ, pos, String, not, Option, none, some, List, [], ◌∷◌, length, Result, ok, err, Error,
  errorf, terminal, wrapped, str, num, Action, return, throw, ◌>>=◌, ◌>>◌, ◌==◌, string_eq, ltb,
  if◌then◌else◌,
}
use openshift_capi_alicloud.Base64.{encode, decode}
use openshift_capi_alicloud.Api.Cluster.{AlibabaCloudCluster, IgnitionStorageSpec}
use openshift_capi_alicloud.Api.Kube.{Machine}
use openshift_capi_alicloud.Api.Machine.{AlibabaCloudMachine}
use openshift_capi_alicloud.Client.Interface.{Client}
use openshift_capi_alicloud.MachineController.Context.{
  Runtime, Ctl, on_env, from_result, update, on_status,
}

-- time.Second.
abbrev pub nanoseconds : ℕ
nanoseconds = 1_000_000_000

-- The name of the bootstrap secret, where one is set and not empty.
abbrev pub filled : Option String → Option String
filled none = none
filled (some name) = if not (name == "") then some name else none

abbrev pub or_else : Option String → Option String → Option String
or_else (some a) b = some a
or_else none b = b

abbrev pub secret_name : Machine → AlibabaCloudMachine → Option String
secret_name machine m = or_else (filled machine.data_secret_name) m.spec.user_data_secret

pub lookup : String → List (String × List ℕ) → Option (List ℕ)
lookup k [] = none
lookup k ((j, v) ∷ m) = if j == k then some v else lookup k m

abbrev pub secret_value : String → Result (List (String × List ℕ)) → Result (List ℕ)
secret_value name (err e) =
    err (wrapped "failed to get bootstrap/user-data secret %q: %w" (str name ∷ []) e)
secret_value name (ok fields) = elim (lookup "value" fields) [
  | none ↦ err (errorf "bootstrap/user-data secret %q has no 'value' key" (str name ∷ []))
  | some raw ↦ ok (encode raw)
]

-- The name of an offloaded object, "capi-ignition/<cluster>/<namespace>/<name>.ign".
unfoldable pub ignition_object_key : AlibabaCloudCluster → AlibabaCloudMachine → String
ignition_object_key cluster m =
    "capi-ignition/"
    ++ (cluster.metadata.name
        ++ ("/" ++ (m.metadata.namespace ++ ("/" ++ (m.metadata.name ++ ".ign")))))

abbrev pub default_max_user_data_bytes : ℕ
default_max_user_data_bytes = 16384

abbrev pub limit_or_default : ℤ → ℕ
limit_or_default (pos n) = if ltb 0 n then n else default_max_user_data_bytes
limit_or_default _ = default_max_user_data_bytes

unfoldable pub user_data_threshold : Option IgnitionStorageSpec → ℕ
user_data_threshold none = default_max_user_data_bytes
user_data_threshold (some store) = limit_or_default store.max_user_data_bytes

-- The store, if it has a bucket.
abbrev pub usable_store : Option IgnitionStorageSpec → Option IgnitionStorageSpec
usable_store none = none
usable_store (some store) = if store.oss_bucket == "" then none else some store

abbrev pub decoded : Option (List ℕ) → Result (List ℕ)
decoded none =
    err (wrapped "decode user-data for OSS offload: %w" [] (errorf "illegal base64 data" []))
decoded (some raw) = ok raw

abbrev pub wrap : {A S : Type 0} → (Error → Error) → Result A × S → Result A × S
wrap f (ok a, s) = (ok a, s)
wrap f (err e, s) = (err (f e), s)

abbrev pub wrap_result : {A : Type 0} → (Error → Error) → Result A → Result A
wrap_result f (ok a) = ok a
wrap_result f (err e) = err (f e)

module _ {E : Type 0} (rt : Runtime E) where
  unfoldable pub get_user_data : Machine → AlibabaCloudMachine → Result (List ℕ)
  unfolding lookup
  get_user_data machine m = elim (secret_name machine m) [
    | none ↦ ok []
    | some name ↦ secret_value name (rt.get_secret m.metadata.namespace name)
  ]

  unfoldable pub build_ignition_pointer : String → List ℕ → Result (List ℕ)
  build_ignition_pointer url raw = wrap_result (wrapped "marshal pointer ignition: %w" []) (
      rt.marshal_pointer
        (record { version = "3.4.0"; source = url; hash = "sha512-" ++ rt.sha512_hex raw }))

  module _ (c : Client E) (cluster : AlibabaCloudCluster) (region : String) where
    abbrev pub record_object :
        IgnitionStorageSpec → String → AlibabaCloudMachine → AlibabaCloudMachine
    record_object store key = on_status (λ st. record st {
      ignition_oss =
          some (record { bucket = store.oss_bucket; endpoint = store.oss_endpoint; key = key });
    })

    -- The upload, the pointer, and the record of the object on the machine.
    unfoldable pub offload : IgnitionStorageSpec → String → List ℕ → Action (Ctl E) (List ℕ)
    offload store key raw = do
      url ← λ s. wrap (wrapped "offload user-data to OSS: %w" []) (
          on_env
            (c.put_ignition_object (record {
              bucket = store.oss_bucket;
              endpoint = store.oss_endpoint;
              region_id = region;
              key = key;
              body = raw;
              expiry = mul64 store.expiry_seconds nanoseconds;
            }))
            s)
      pointer ← from_result (build_ignition_pointer url raw)
      update (record_object store key)
      return (encode pointer)

    unfoldable pub maybe_offload_user_data : List ℕ → Action (Ctl E) (List ℕ)
    unfolding offload build_ignition_pointer
    maybe_offload_user_data user_data s =
        if not (ltb (user_data_threshold cluster.spec.ignition_storage) (length user_data))
        then (ok user_data, s)
        else elim (usable_store cluster.spec.ignition_storage) [
          | none ↦
              throw
                (terminal "UserDataTooLarge"
                  "user-data is %d bytes (> %d) and spec.ignitionStorage.ossBucket is not set to offload it to OSS"
                  (num (length user_data)
                    ∷ num (user_data_threshold cluster.spec.ignition_storage)
                    ∷ []))
                s
          | some store ↦
              (from_result (decoded (decode user_data))
                  >>= offload store (ignition_object_key cluster s.machine))
                s
        ]

  -- Best effort: a failure is logged and dropped.
  unfoldable pub cleanup_offloaded_ignition : Client E → String → Ctl E → Ctl E
  cleanup_offloaded_ignition c region s = elim s.machine.status.ignition_oss [
    | none ↦ s
    | some ref ↦
        (on_env
          (c.delete_ignition_object (record {
            bucket = ref.bucket;
            endpoint = ref.endpoint;
            region_id = region;
            key = ref.key;
            body = [];
            expiry = pos 0;
          }))
          s).1
  ]
