-- ===== src/Client/Builder/Secret.antt =====
-- The credential of a Secret goes through a file and a variable of the process, and leaves neither
-- (pkg/client/client.go).
use text.Mathlib.TextEquality.{eq_iff}
use openshift_capi_alicloud.Prelude.{
  if-elim, Bool, [], differs, ℕ, String, Option, none, some, List, Result, ok, err, ◌≡◌, ◌≢◌, refl,
  lookup, assign, discard, lookup-assign, lookup-assign_other, lookup-discard, lookup-discard_other,
  ◌==◌, string_eq, Bool-cases, inl, inr, subst, sym, ap, ◌∙◌,
}
use openshift_capi_alicloud.Client.Builder.{
  from_secret, get_credential_from_secret, Process, Host, kube_credential_credentials, written,
  through_file, from_data, fetch_credentials_ini_from_secret, with_file, with_variable,
}

-- A file that is new is put and removed without a trace.
discard-assign :
    (files : List (String × List ℕ)) (name k : String) (a b : List ℕ)
    → lookup name files ≡ none
    → lookup k (discard name (assign name b (assign name a files))) ≡ lookup k files
discard-assign files name k a b h = elim (Bool-cases (k == name)) [
  | inl p ↦
      let same : k ≡ name = (eq_iff k name).0 p in
      subst (λ x. lookup x (discard name (assign name b (assign name a files))) ≡ lookup x files)
        (sym same) (lookup-discard name _ ∙ sym h)
  | inr p ↦
      let other : k ≢ name = differs k name p in
      lookup-discard_other name k _ other
      ∙ lookup-assign_other name k b _ other
      ∙ lookup-assign_other name k a files other
]

module _ {K : Type 0} (host : Host K) where
  abbrev Secret : Type 0
  Secret = List (String × List ℕ)

  -- The provider saw the bytes in the file that the variable named.
  pub record Source (creds : List ℕ) (c : K) : Type 0 where
    pub seen : Process
    pub file : String
    pub named : lookup host.env_credential_file seen.variables ≡ some file
    pub content : lookup file seen.files ≡ some creds
    pub resolved : host.resolve seen ≡ ok c

  pub record Restored (creds : Option (List ℕ)) (p : Process) (out : Result K × Process)
      : Type 0 where
    pub files : (k : String) → lookup k out.1.files ≡ lookup k p.files
    pub variables :
        (v : String)
        → v ≢ host.env_credential_file
        → lookup v out.1.variables ≡ lookup v p.variables
    pub credential :
        (c : K)
        → out.0 ≡ ok c
        → (lookup host.env_credential_file out.1.variables ≡ none)
          × ((b : List ℕ) × (creds ≡ some b) × Source b c)

  module _
      (fresh : (files : List (String × List ℕ)) (name : String)
        → host.temp_file files ≡ ok name
        → lookup name files ≡ none)
      (complete : (b content : List ℕ) → host.write b ≡ (ok tt, content) → content ≡ b) where
    unchanged :
        (creds : Option (List ℕ)) (p : Process) {r : Result K}
        → ((c : K) → ¬ (r ≡ ok c))
        → Restored creds p (r, p)
    unchanged creds p h = record {
      files = λ k. refl;
      variables = λ v n. refl;
      credential = λ c e. absurd (h c e);
    }

    written-Restored :
        (creds : List ℕ) (name : String) (p : Process) (w : Result (Unit {0}) × List ℕ)
        → host.write creds ≡ w
        → lookup name p.files ≡ none
        → Restored (some creds) p (written host name w (with_file host name [] p))
    written-Restored creds name p (err e, content) q n = record {
      files = λ k. discard-assign p.files name k [] content n;
      variables = λ v h. refl;
      credential = λ c h. cc;
    }
    written-Restored creds name p (ok tt, content) q n = record {
      files = λ k. discard-assign p.files name k [] content n;
      variables = λ v h.
          lookup-discard_other host.env_credential_file v _ h
          ∙ lookup-assign_other host.env_credential_file v name p.variables h;
      credential = λ c h. (
        lookup-discard host.env_credential_file _,
        (
          creds,
          refl,
          record {
            seen = with_variable host name (with_file host name content (with_file host name [] p));
            file = name;
            named = lookup-assign host.env_credential_file name p.variables;
            content = lookup-assign name content _ ∙ ap some (complete creds content q);
            resolved = h;
          },
        ),
      );
    }

    through-Restored :
        (creds : List ℕ) (p : Process) (t : Result String)
        → host.temp_file p.files ≡ t
        → Restored (some creds) p (through_file host creds t p)
    through-Restored creds p (err e) q = unchanged (some creds) p (λ c h. cc)
    through-Restored creds p (ok name) q =
        written-Restored creds name p _ refl (fresh p.files name q)

    fetch-Restored :
        (secret : Secret) (p : Process)
        → Restored
            (lookup kube_credential_credentials secret)
            p
            (fetch_credentials_ini_from_secret host secret p)
    unfolding fetch_credentials_ini_from_secret
    fetch-Restored secret p = from (lookup kube_credential_credentials secret)
      where
        from : (o : Option (List ℕ)) → Restored o p (from_data host o p)
        from none = unchanged none p (λ c h. cc)
        from (some creds) = through-Restored creds p _ refl

    -- The bytes under the key of the Secret, where the Secret is there and has them.
    abbrev pub bytes_of : Result Secret × Bool → Option (List ℕ)
    bytes_of (ok secret, b) = lookup kube_credential_credentials secret
    bytes_of (err e, b) = none

    secret-Restored :
        (name namespace : String) (r : Result Secret × Bool) (p : Process)
        → Restored (bytes_of r) p (from_secret host name namespace r p)
    secret-Restored name namespace (ok secret, b) p = fetch-Restored secret p
    secret-Restored name namespace (err e, b) p =
        if-elim (Restored none p) b (unchanged none p (λ c h. cc)) (unchanged none p (λ c h. cc))

    -- Whatever happens on the way, the files of the process are those that it had, and so are its
    -- variables but the one that names the credential file; and a credential that comes back is the
    -- one that the provider found when that variable named a file with the bytes of the Secret that
    -- was asked for, and the variable is unset then.
    pub get_credential_from_secret-Restored :
        (get : (namespace name : String) → Result Secret × Bool) (name namespace : String)
        (p : Process)
        → Restored
            (bytes_of (get namespace name))
            p
            (get_credential_from_secret host get name namespace p)
    unfolding get_credential_from_secret
    get_credential_from_secret-Restored get name namespace p =
        if-elim (Restored (bytes_of (get namespace name)) p) (name == "")
          (unchanged (bytes_of (get namespace name)) p (λ c h. cc))
          (secret-Restored name namespace (get namespace name) p)
