-- ===== src/Template/Capacity.antt =====
-- The cache of instance types against the cloud that fills it
-- (internal/controller/alibabacloudmachinetemplate_controller.go).
use text.Mathlib.TextEquality.{eq_iff}
use openshift_capi_alicloud.Prelude.{
  inl, inr, ◌∙◌, Bool-cases, ap, ◌⊎◌, ℤ, String, Option, none, some, List, [], Result, ok, err,
  Error, ◌≡◌, refl, lookup, assign, ◌==◌, string_eq, subst, sym, arith, lookup-assign,
  lookup-assign_other,
}
use openshift_capi_alicloud.Api.Machine.{AlibabaCloudMachineSpec}
use openshift_capi_alicloud.Api.Template.{ResourceList}
use openshift_capi_alicloud.Client.Interface.{Client}
use openshift_capi_alicloud.Template.{
  TemplateApi, Reconciler, base_of, extend, resolve_base, resolve_capacity, ask, remember, extended,
}

-- What the cache has for a type, if it has anything.
abbrev pub entry : (String → ℤ × ℤ) → String → ResourceList
entry specs type = base_of (specs type)

module _ {E : Type 0} (api : TemplateApi E) where
  -- A client for some region answered so for the instance type.
  pub record Answered (type : String) (v : ℤ × ℤ) : Type 0 where
    pub region : String
    pub client : Client E
    pub built : api.client_builder region ≡ ok client
    pub before : E
    pub after : E
    pub answer : client.instance_type_capacity type before ≡ (ok v, after)

  -- The caches that reconciles leave which look into the cache and store into it in any order: a
  -- store comes at any time after an answer.
  pub data Reachable : List (String × ResourceList) → Type 0 where
    fresh : Reachable []
    store :
        {cache : List (String × ResourceList)} (type : String) (v : ℤ × ℤ)
        → Reachable cache
        → Answered type v
        → Reachable (assign type (base_of v) cache)

  -- The specifications of instance types are static: whoever is asked, an answer is that of the table.
  abbrev pub AreStatic : (String → ℤ × ℤ) → Type 0
  AreStatic specs = (type : String) (v : ℤ × ℤ) → Answered type v → v ≡ specs type

  -- Why a type that is not in the cache is not resolved.
  abbrev pub Refused : AlibabaCloudMachineSpec → Reconciler E → Error → Type 0
  Refused spec s e =
      (api.client_builder spec.region_id ≡ err e)
      ⊎ ((cli : Client E) × (api.client_builder spec.region_id ≡ ok cli)
          × ((cli.instance_type_capacity spec.instance_type s.env).0 ≡ err e))

  module _ (specs : String → ℤ × ℤ) (static : AreStatic specs) where
    lookup-Reachable :
        {cache : List (String × ResourceList)}
        → Reachable cache
        → (type : String) (base : ResourceList) → lookup type cache ≡ some base
        → base ≡ entry specs type
    unfolding lookup
    lookup-Reachable fresh type base h = cc
    lookup-Reachable (store {cache} t v r a) type base h = elim (Bool-cases (type == t)) [
      | inl e ↦
          let same : type ≡ t = (eq_iff type t).0 e in
          let hit : lookup type (assign t (base_of v) cache) ≡ some (base_of v) =
            subst (λ x. lookup x (assign t (base_of v) cache) ≡ some (base_of v)) (sym same)
              (lookup-assign t (base_of v) cache) in
          let value : base ≡ base_of v = ground (arith, h, hit) in
          value ∙ ap base_of (static t v a) ∙ ap (entry specs) (sym same)
      | inr e ↦ lookup-Reachable r type base (
          sym (lookup-assign_other t type (base_of v) cache (ground (arith, eq_iff type t, e))) ∙ h)
    ]

    abbrev pub Answers :
        AlibabaCloudMachineSpec → Reconciler E → Result ResourceList → Reconciler E → Type 0
    Answers spec s (ok capacity) t =
        (capacity ≡ extend spec (entry specs spec.instance_type))
        × (lookup spec.instance_type t.cache ≡ some (entry specs spec.instance_type))
    Answers spec s (err e) t =
        (t.cache ≡ s.cache) × (lookup spec.instance_type s.cache ≡ none) × Refused spec s e

    pub record Resolved (spec : AlibabaCloudMachineSpec) (s : Reconciler E)
        (p : Result ResourceList × Reconciler E) : Type 0 where
      pub reachable : Reachable p.1.cache
      pub answers : Answers spec s p.0 p.1
      pub known :
          (base : ResourceList)
          → lookup spec.instance_type s.cache ≡ some base
          → p ≡ (ok (extend spec (entry specs spec.instance_type)), s)

    remember-Resolved :
        (spec : AlibabaCloudMachineSpec) (s : Reconciler E) (cli : Client E)
        (q : Result (ℤ × ℤ) × E)
        → api.client_builder spec.region_id ≡ ok cli
        → cli.instance_type_capacity spec.instance_type s.env ≡ q
        → lookup spec.instance_type s.cache ≡ none
        → Reachable s.cache
        → Resolved spec s (extended api spec (remember api spec.instance_type q s))
    remember-Resolved spec s cli (err e, env) b h n r = record {
      reachable = r;
      answers = (refl, n, inr (cli, b, ap (λ x. x.0) h));
      known = λ base k. cc;
    }
    remember-Resolved spec s cli (ok v, env) b h n r =
        let answered : Answered spec.instance_type v = record {
          region = spec.region_id;
          client = cli;
          built = b;
          before = s.env;
          after = env;
          answer = h;
        } in
        let same : v ≡ specs spec.instance_type = static spec.instance_type v answered in
        record {
          reachable = store spec.instance_type v r answered;
          answers = (
            ap (λ x. extend spec (base_of x)) same,
            lookup-assign spec.instance_type (base_of v) s.cache ∙ ap (λ x. some (base_of x)) same,
          );
          known = λ base k. cc;
        }

    ask-Resolved :
        (spec : AlibabaCloudMachineSpec) (s : Reconciler E) (b : Result (Client E))
        → api.client_builder spec.region_id ≡ b
        → lookup spec.instance_type s.cache ≡ none
        → Reachable s.cache
        → Resolved spec s (extended api spec (ask api spec.instance_type b s))
    ask-Resolved spec s (err e) b n r = record {
      reachable = r;
      answers = (refl, n, inl b);
      known = λ base k. cc;
    }
    ask-Resolved spec s (ok cli) b n r = remember-Resolved spec s cli _ b refl n r

    base-Resolved :
        (spec : AlibabaCloudMachineSpec) (s : Reconciler E) (o : Option ResourceList)
        → lookup spec.instance_type s.cache ≡ o
        → Reachable s.cache
        → Resolved spec s (extended api spec (resolve_base api spec o s))
    base-Resolved spec s none h r = ask-Resolved spec s _ refl h r
    base-Resolved spec s (some base) h r =
        let same : base ≡ entry specs spec.instance_type =
          lookup-Reachable r spec.instance_type base h in
        record {
          reachable = r;
          answers = (ap (extend spec) same, h ∙ ap some same);
          known = λ b k. ap (λ x. (ok (extend spec x), s)) same;
        }

    -- The cached routine is the plain one: where the specifications of instance types are static,
    -- and whatever stores of answers made the cache, in any order, a capacity that is resolved is
    -- the one of the table, with the pods and the storage of the template, and its type is cached
    -- afterwards; a type that is cached is resolved without a call; and a failure is the builder's
    -- or the call's, for a type that is not cached, and leaves the cache alone.
    pub resolve_capacity-Resolved :
        (spec : AlibabaCloudMachineSpec) (s : Reconciler E)
        → Reachable s.cache
        → Resolved spec s (resolve_capacity api spec s)
    unfolding resolve_capacity
    resolve_capacity-Resolved spec s r = base-Resolved spec s _ refl r
