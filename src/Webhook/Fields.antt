-- ===== src/Webhook/Fields.antt =====
-- internal/webhook/v1beta1/webhook.go: field errors, and the validation of tags.
pub mod Laws
use openshift_capi_alicloud.Prelude.{
  ℕ, ◌+◌, String, Bool, not, Option, none, some, List, [], ◌∷◌, ◌++◌, contains, is_blank, ◌==◌,
  string_eq, if◌then◌else◌,
}
use openshift_capi_alicloud.Api.Types.{Tag}

-- A step of a field.Path: a named child or an index.
pub data Step : Type 0 where
  child : String → Step
  index : ℕ → Step

abbrev pub FieldPath : Type 0
FieldPath = List Step

-- field.Required, field.Invalid, field.Duplicate and field.Forbidden, with their detail; the
-- rejected value is left out.
pub data FieldError : Type 0 where
  required : FieldPath → String → FieldError
  invalid : FieldPath → String → FieldError
  duplicate : FieldPath → FieldError
  forbidden : FieldPath → String → FieldError

abbrev pub spec_path : FieldPath
spec_path = child "spec" ∷ []

-- apierrors.StatusError with its causes; no errors make no status error.
unfoldable pub aggregate_errors :
    String → String → List FieldError → Option (String × String × List FieldError)
aggregate_errors kind name [] = none
aggregate_errors kind name (e ∷ errs) = some (kind, name, e ∷ errs)

-- The loop of validateTags at index `i`, over the keys seen.
unfoldable pub check_tags : FieldPath → ℕ → List String → List Tag → List FieldError
check_tags parent i seen [] = []
check_tags parent i seen (t ∷ tags) =
    let path = parent ++ (index i ∷ child "key" ∷ []) in
    let skipped = required path "tag key must not be empty" ∷ check_tags parent (i + 1) seen tags in
    let rest = check_tags parent (i + 1) (t.key ∷ seen) tags in
    if is_blank t.key then skipped else if contains seen t.key then duplicate path ∷ rest else rest

unfoldable pub validate_tags : List Tag → FieldPath → List FieldError
unfolding check_tags
validate_tags tags parent = check_tags parent 0 [] tags
