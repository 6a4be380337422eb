-- ===== src/MachineController/Create/Accounts.antt =====
-- What createInstance of internal/controller/alibabacloudmachine_controller.go records of what its
-- client returns.
use openshift_capi_alicloud.Prelude.{
  arith, mul64, ◌>>=◌, throw, inr, none, length, ltb, ap, not, if-elim, inl, return, ◌>>◌, wrapped,
  refl, [], ◌∷◌, ℕ, ◌∙◌, ℤ, Option, ◌≡◌, ◌⊎◌, Error, and_then, Action, String, List, Result, some,
  ok, err,
}
use openshift_capi_alicloud.Base64.{decode, encode}
use openshift_capi_alicloud.Api.Cluster.{IgnitionStorageSpec, AlibabaCloudCluster}
use openshift_capi_alicloud.Api.Kube.{Machine}
use openshift_capi_alicloud.Client.Interface.{
  CreateInstanceParams, IgnitionStoreParams, InstanceDescription, Client,
}
use openshift_capi_alicloud.MachineController.Context.{
  modify, update, from_result, with_env, Ctl, Runtime,
}
use openshift_capi_alicloud.MachineController.Create.{
  create_params, resolve_region, boot_image, keep_region, create_from, record_instance, run_create,
  classify_create_error, create_instance, create_with,
}
use openshift_capi_alicloud.MachineController.Ignition.{
  nanoseconds, ignition_object_key, decoded, usable_store, user_data_threshold, get_user_data,
  maybe_offload_user_data, record_object, build_ignition_pointer, offload, wrap,
}

-- A client describes an instance under its identifier.
abbrev pub IsNaming : {E : Type 0} → Client E → Type 0
IsNaming {E} c =
    (id : String) (e : E) (d : InstanceDescription)
    → (c.describe_instance_by_id id e).0 ≡ ok (some d)
    → d.instance_id ≡ id

-- What a call acts on, with the identifiers that creations have returned, the last one first.
abbrev pub Noted : Type 0 → Type 0
Noted E = E × List String

abbrev pub carried : {E A : Type 0} → Action E A → Action (Noted E) A
carried call (e, ids) = let (r, e') = call e in (r, (e', ids))

abbrev pub note_created : {E : Type 0} → List String → Result String × E → Result String × Noted E
note_created ids (ok id, e) = (ok id, (e, id ∷ ids))
note_created ids (err x, e) = (err x, (e, ids))

-- The client, with a note of what each creation returns.
abbrev pub noting : {E : Type 0} → Client E → Client (Noted E)
noting c = record {
  describe_instance_by_id = λ id. carried (c.describe_instance_by_id id);
  create_ecs_instance = λ p s. note_created s.1 (c.create_ecs_instance p s.0);
  delete_ecs_instance = λ id force. carried (c.delete_ecs_instance id force);
  find_instance_by_tag = λ region key value. carried (c.find_instance_by_tag region key value);
  modify_instance_metadata = λ id endpoint tokens hop_limit.
      carried (c.modify_instance_metadata id endpoint tokens hop_limit);
  instance_type_capacity = λ t. carried (c.instance_type_capacity t);
  put_ignition_object = λ p. carried (c.put_ignition_object p);
  delete_ignition_object = λ p. carried (c.delete_ignition_object p);
}

abbrev pub noting_result : {E : Type 0} → Result (Client E) → Result (Client (Noted E))
noting_result (ok c) = ok (noting c)
noting_result (err e) = err e

abbrev pub noting_runtime : {E : Type 0} → Runtime E → Runtime (Noted E)
noting_runtime rt = record {
  kube = rt.kube;
  client_builder = λ region. noting_result (rt.client_builder region);
  get_secret = rt.get_secret;
  sha512_hex = rt.sha512_hex;
  marshal_pointer = rt.marshal_pointer;
}

-- What the notes are, over a list of them that a call acts on.
pub record Recording {E : Type 0} (returned : E → List String) (c : Client E) : Type 0 where
  pub describe_names :
      (id : String) (e : E) (d : InstanceDescription)
      → (c.describe_instance_by_id id e).0 ≡ ok (some d)
      → d.instance_id ≡ id
  pub describe_keeps :
      (id : String) (e : E) → returned (c.describe_instance_by_id id e).1 ≡ returned e
  pub modify_keeps :
      (id endpoint tokens : String) (hop_limit : ℤ) (e : E)
      → returned (c.modify_instance_metadata id endpoint tokens hop_limit e).1 ≡ returned e
  pub put_keeps :
      (p : IgnitionStoreParams) (e : E) → returned (c.put_ignition_object p e).1 ≡ returned e
  pub create_adds :
      (p : CreateInstanceParams) (e : E) (id : String)
      → (c.create_ecs_instance p e).0 ≡ ok id
      → returned (c.create_ecs_instance p e).1 ≡ id ∷ returned e
  pub create_fails :
      (p : CreateInstanceParams) (e : E) (x : Error)
      → (c.create_ecs_instance p e).0 ≡ err x
      → returned (c.create_ecs_instance p e).1 ≡ returned e

note_created-err :
    {E : Type 0} (ids : List String) (r : Result String × E) (x : Error)
    → (note_created ids r).0 ≡ err x
    → (note_created ids r).1.1 ≡ ids
note_created-err ids (ok id, e) x h = cc
note_created-err ids (err y, e) x h = refl

note_created-ok :
    {E : Type 0} (ids : List String) (r : Result String × E) (id : String)
    → (note_created ids r).0 ≡ ok id
    → (note_created ids r).1.1 ≡ id ∷ ids
note_created-ok ids (ok i, e) id h = ap (λ x. x ∷ ids) (ground (arith, h))
note_created-ok ids (err y, e) id h = cc

abbrev pub notes : {E : Type 0} → Noted E → List String
notes s = s.1

pub noting-Recording : {E : Type 0} (c : Client E) → IsNaming c → Recording notes (noting c)
noting-Recording c names = record {
  describe_names = λ id s. names id s.0;
  describe_keeps = λ id s. refl;
  modify_keeps = λ id endpoint tokens hop_limit s. refl;
  put_keeps = λ p s. refl;
  create_adds = λ p s id. note_created-ok s.1 (c.create_ecs_instance p s.0) id;
  create_fails = λ p s x. note_created-err s.1 (c.create_ecs_instance p s.0) x;
}

-- A bind, for a predicate of the state before it and one of the state after it.
pub and_then_lem :
    {S A B : Type 0} (P Q : S → Type 0) (r : Result A × S) (f : A → Action S B)
    → P r.1
    → ((s : S) → P s → Q s)
    → ((x : A) (s : S) → P s → Q (f x s).1)
    → Q (and_then r f).1
and_then_lem P Q (ok x, s) f h stop go = go x s h
and_then_lem P Q (err e, s) f h stop go = stop s h

module _ {E : Type 0} (returned : E → List String) where
  abbrev pub instance_of : Ctl E → Option String
  instance_of s = s.machine.status.instance_id

  -- No creation returned an identifier, and what is recorded is as it was.
  pub record IsSame (b t : Ctl E) : Type 0 where
    pub none_returned : returned t.env ≡ returned b.env
    pub as_recorded : instance_of t ≡ instance_of b

  -- One did where none was recorded, and it is recorded.
  pub record IsTaken (b t : Ctl E) : Type 0 where
    pub none_recorded : instance_of b ≡ none
    pub id : String
    pub one_returned : returned t.env ≡ id ∷ returned b.env
    pub recorded : instance_of t ≡ some id

  abbrev pub Accounted : Ctl E → Ctl E → Type 0
  Accounted b t = IsSame b t ⊎ IsTaken b t

  abbrev pub moved :
      {b s t : Ctl E}
      → IsSame b s
      → returned t.env ≡ returned s.env
      → instance_of t ≡ instance_of s
      → IsSame b t
  moved h m i = record { none_returned = m ∙ h.none_returned; as_recorded = i ∙ h.as_recorded }

  pub wrapped-IsSame :
      {A : Type 0} (f : Error → Error) (b s : Ctl E) (r : Result A × E)
      → returned r.1 ≡ returned s.env
      → IsSame b s
      → IsSame b (wrap f (with_env s r)).1
  wrapped-IsSame f b s (ok a, e) h k = moved {b = b} {s = s} k h refl
  wrapped-IsSame f b s (err x, e) h k = moved {b = b} {s = s} k h refl

  module _ (rt : Runtime E) (machine : Machine) (cluster : AlibabaCloudCluster) (c : Client E)
      (recording : Recording returned c) (b : Ctl E) where
    pointed-IsSame :
        (region : String) (store : IgnitionStorageSpec) (key : String) (p : Result (List ℕ))
        (s : Ctl E)
        → IsSame b s
        → IsSame b
            (and_then (from_result p s) (λ pointer.
              update (record_object rt c cluster region store key) >> return (encode pointer))).1
    pointed-IsSame region store key (ok p) s h = moved {b = b} {s = s} h refl refl
    pointed-IsSame region store key (err e) s h = h

    offload-IsSame :
        (region : String) (store : IgnitionStorageSpec) (key : String) (raw : List ℕ) (s : Ctl E)
        → IsSame b s
        → IsSame b (offload rt c cluster region store key raw s).1
    unfolding offload
    offload-IsSame region store key raw s h =
        let p : IgnitionStoreParams = record {
          bucket = store.oss_bucket;
          endpoint = store.oss_endpoint;
          region_id = region;
          key = key;
          body = raw;
          expiry = mul64 store.expiry_seconds nanoseconds;
        } in
        and_then_lem (IsSame b) (IsSame b)
          (wrap (wrapped "offload user-data to OSS: %w" [])
            (with_env s (c.put_ignition_object p s.env)))
          _ (wrapped-IsSame _ b s _ (recording.put_keeps p s.env) h) (λ t k. k)
          (λ url t k. pointed-IsSame region store key (build_ignition_pointer rt url raw) t k)

    stored-IsSame :
        (region key : String) (bytes : List ℕ) (e : Error) (s : Ctl E)
        (o : Option IgnitionStorageSpec)
        → IsSame b s
        → IsSame b
            (elim o as (λ o. Result (List ℕ) × Ctl E) [
              | none ↦ throw e s
              | some store ↦
                  (from_result (decoded (decode bytes)) >>= offload rt c cluster region store key) s
            ]).1
    stored-IsSame region key bytes e s none h = h
    stored-IsSame region key bytes e s (some store) h =
        and_then_lem (IsSame b) (IsSame b) (from_result (decoded (decode bytes)) s) _ h (λ t k. k)
          (λ raw t k. offload-IsSame region store key raw t k)

    maybe_offload-IsSame :
        (region : String) (bytes : List ℕ) (s : Ctl E)
        → IsSame b s
        → IsSame b (maybe_offload_user_data rt c cluster region bytes s).1
    unfolding maybe_offload_user_data
    maybe_offload-IsSame region bytes s h =
        if-elim (λ (out : Result (List ℕ) × Ctl E). IsSame b out.1)
          (not (ltb (user_data_threshold cluster.spec.ignition_storage) (length bytes))) h
          (stored-IsSame region (ignition_object_key cluster s.machine) bytes _ s
            (usable_store cluster.spec.ignition_storage) h)

    recorded-Accounted :
        (region : String) (s : Ctl E) (r : Result String × E)
        → IsSame b s
        → instance_of b ≡ none
        → ((id : String) → r.0 ≡ ok id → returned r.1 ≡ id ∷ returned s.env)
        → ((x : Error) → r.0 ≡ err x → returned r.1 ≡ returned s.env)
        → Accounted b
            (and_then
              (wrap classify_create_error (with_env s r))
              (λ id. update (record_instance region id))).1
    recorded-Accounted region s (err x, e) h new adds fails =
        inl (moved {b = b} {s = s} h (fails x refl) refl)
    recorded-Accounted region s (ok id, e) h new adds fails = inr (record {
      none_recorded = new;
      id = id;
      one_returned = adds id refl ∙ ap (λ l. id ∷ l) h.none_returned;
      recorded = refl;
    })

    create_with-Accounted :
        (region image_id : String) (bytes : List ℕ) (s : Ctl E)
        → IsSame b s
        → instance_of b ≡ none
        → Accounted b (create_with rt c machine cluster region image_id bytes s).1
    unfolding create_with run_create
    create_with-Accounted region image_id bytes s h new =
        let t = modify (keep_region region) s in
        and_then_lem (IsSame b) (Accounted b) (maybe_offload_user_data rt c cluster region bytes t)
          _ (maybe_offload-IsSame region bytes t (moved {b = b} {s = s} h refl refl)) (λ u k. inl k)
          (λ payload u k.
            let p = create_params machine cluster region image_id payload u.machine in
            recorded-Accounted region u (c.create_ecs_instance p u.env) k new
              (recording.create_adds p u.env) (recording.create_fails p u.env))

    -- A creation that starts where nothing is recorded records what the client returns.
    pub create_instance-Accounted :
        (s : Ctl E)
        → IsSame b s
        → instance_of b ≡ none
        → Accounted b (create_instance rt c machine cluster s).1
    unfolding create_instance create_from
    create_instance-Accounted s h new =
        let m = s.machine in
        and_then_lem (IsSame b) (Accounted b) (from_result (get_user_data rt machine m) s) _ h
          (λ t k. inl k)
          (λ bytes t k.
            and_then_lem (IsSame b) (Accounted b) (from_result (boot_image m cluster) t) _ k
              (λ u j. inl j)
              (λ image u j. create_with-Accounted (resolve_region m cluster) image bytes u j new))
