-- ===== src/MachineController/Ignition/Offload.antt =====
-- maybeOffloadUserData of internal/controller/alibabacloudmachine_controller.go on what getUserData
-- returns.
use Prim.Native.String.{◌++◌}
use openshift_capi_alicloud.Prelude.{
  mul64, Error, Result, ok, err, [], ◌>>◌, return, and_then, wrapped, refl, ℕ, ◌<◌, String, some,
  List, All, ◌≡◌, ltb, true, arith, length,
}
use openshift_capi_alicloud.Base64.{decode-encode, encode}
use openshift_capi_alicloud.Api.Cluster.{IgnitionStorageSpec, AlibabaCloudCluster}
use openshift_capi_alicloud.Api.Machine.{AlibabaCloudMachine}
use openshift_capi_alicloud.Client.Interface.{IgnitionStoreParams, Client}
use openshift_capi_alicloud.MachineController.Context.{
  update, with_env, from_result, IgnitionPointer, Ctl, Runtime,
}
use openshift_capi_alicloud.MachineController.Ignition.{
  record_object, wrap_result, wrap, build_ignition_pointer, ignition_object_key, offload,
  usable_store, user_data_threshold, maybe_offload_user_data,
}

module _ {E : Type 0} (rt : Runtime E) (c : Client E) (cluster : AlibabaCloudCluster)
    (region : String) where
  -- What is asked of the store for a machine: the bytes, under a name that the cluster, the namespace
  -- and the machine have to themselves.
  abbrev pub upload : IgnitionStorageSpec → List ℕ → AlibabaCloudMachine → IgnitionStoreParams
  upload store raw m = record {
    bucket = store.oss_bucket;
    endpoint = store.oss_endpoint;
    region_id = region;
    key =
        "capi-ignition/"
        ++ (cluster.metadata.name
            ++ ("/" ++ (m.metadata.namespace ++ ("/" ++ (m.metadata.name ++ ".ign")))));
    body = raw;
    expiry = mul64 store.expiry_seconds 1_000_000_000;
  }

  -- What the instance boots with: the address of the bytes and their digest.
  abbrev pub pointer_to : String → List ℕ → IgnitionPointer
  pointer_to url raw = record {
    version = "3.4.0";
    source = url;
    hash = "sha512-" ++ rt.sha512_hex raw;
  }

  -- How an offload may end, and what the machine then remembers of it.
  pub data Offloads (store : IgnitionStorageSpec) (raw : List ℕ) (s : Ctl E)
      : Result (List ℕ) × Ctl E → Type 0 where
    refused :
        (e : Error) (env : E)
        → c.put_ignition_object (upload store raw s.machine) s.env ≡ (err e, env)
        → Offloads store raw s
            (err (wrapped "offload user-data to OSS: %w" [] e), record s { env = env })
    unmarshalled :
        (url : String) (env : E) (e : Error)
        → c.put_ignition_object (upload store raw s.machine) s.env ≡ (ok url, env)
        → rt.marshal_pointer (pointer_to url raw) ≡ err e
        → Offloads store raw s
            (err (wrapped "marshal pointer ignition: %w" [] e), record s { env = env })
    offloaded :
        (url : String) (env : E) (bytes : List ℕ)
        → c.put_ignition_object (upload store raw s.machine) s.env ≡ (ok url, env)
        → rt.marshal_pointer (pointer_to url raw) ≡ ok bytes
        → Offloads store raw s (
          ok (encode bytes),
          record {
            env = env;
            machine = record (s.machine) {
              status = record (s.machine.status) {
                ignition_oss = some (record {
                  bucket = store.oss_bucket;
                  endpoint = store.oss_endpoint;
                  key = (upload store raw s.machine).key;
                });
              };
            };
          },
        )

  pointed-Offloads :
      (store : IgnitionStorageSpec) (raw : List ℕ) (s : Ctl E) (url : String) (env : E)
      (p : Result (List ℕ))
      → c.put_ignition_object (upload store raw s.machine) s.env ≡ (ok url, env)
      → rt.marshal_pointer (pointer_to url raw) ≡ p
      → Offloads store raw s (
          and_then
            (from_result
              (wrap_result (wrapped "marshal pointer ignition: %w" []) p)
              (record s { env = env }))
            (λ pointer.
              update (record_object rt c cluster region store (upload store raw s.machine).key)
              >> return (encode pointer)))
  pointed-Offloads store raw s url env (err e) h q = unmarshalled url env e h q
  pointed-Offloads store raw s url env (ok bytes) h q = offloaded url env bytes h q

  put-Offloads :
      (store : IgnitionStorageSpec) (raw : List ℕ) (s : Ctl E) (r : Result String × E)
      → c.put_ignition_object (upload store raw s.machine) s.env ≡ r
      → Offloads store raw s (
          and_then (wrap (wrapped "offload user-data to OSS: %w" []) (with_env s r)) (λ url t.
            and_then (from_result (build_ignition_pointer rt url raw) t) (λ pointer.
              update (record_object rt c cluster region store (upload store raw s.machine).key)
              >> return (encode pointer))))
  unfolding build_ignition_pointer
  put-Offloads store raw s (err e, env) h = refused e env h
  put-Offloads store raw s (ok url, env) h = pointed-Offloads store raw s url env _ h refl

  -- User data whose encoding is longer than the threshold, on a cluster with a bucket, is uploaded as
  -- the bytes that the secret held, under the key
  -- capi-ignition/<cluster>/<namespace>/<machine>.ign, for the expiry of the store in an int64 of
  -- nanoseconds. A failed upload or encoding is the error, and leaves the machine as it was;
  -- otherwise the instance boots with the encoded pointer to the URL that the upload returned, with
  -- the digest of those bytes, and the machine records the bucket, the endpoint and the key.
  pub maybe_offload_user_data-encode :
      (raw : List ℕ) (store : IgnitionStorageSpec) (s : Ctl E)
      → All (λ b. b < 256) raw
      → user_data_threshold cluster.spec.ignition_storage < length (encode raw)
      → usable_store cluster.spec.ignition_storage ≡ some store
      → Offloads store raw s (maybe_offload_user_data rt c cluster region (encode raw) s)
  unfolding maybe_offload_user_data offload ignition_object_key
  maybe_offload_user_data-encode raw store s bytes long usable =
      let above : ltb (user_data_threshold cluster.spec.ignition_storage) (length (encode raw))
          ≡ true =
        ground arith in
      rw (above, usable, decode-encode raw bytes) (put-Offloads store raw s _ refl)
