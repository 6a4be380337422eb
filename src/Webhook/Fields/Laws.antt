-- ===== src/Webhook/Fields/Laws.antt =====
-- When validateTags of internal/webhook/v1beta1/webhook.go accepts a list of tags.
use openshift_capi_alicloud.Prelude.{
  ◌++◌, string_eq, refl, Elem, Elem-of_contains, contains_of_Elem, false, is_blank, ℕ, ◌+◌, String,
  List, [], ◌∷◌, ◌≡◌, ◌↔◌, arith,
}
use openshift_capi_alicloud.Api.Types.{Tag}
use openshift_capi_alicloud.Webhook.Fields.{FieldError, validate_tags, FieldPath, check_tags}

abbrev pub keys : List Tag → List String
keys [] = []
keys (t ∷ tags) = t.key ∷ keys tags

-- No key is blank, stands among those seen, or stands twice.
abbrev pub AreFresh : List String → List Tag → Type 0
AreFresh seen [] = Unit
AreFresh seen (t ∷ tags) =
    (is_blank t.key ≡ false) × (¬ Elem t.key seen) × AreFresh (t.key ∷ seen) tags

check_tags_sound :
    (parent : FieldPath) (i : ℕ) (seen : List String) (tags : List Tag)
    → check_tags parent i seen tags ≡ []
    → AreFresh seen tags
unfolding check_tags
check_tags_sound parent i seen [] h = tt
check_tags_sound parent i seen (t ∷ tags) h =
    ground (arith, contains_of_Elem seen t.key, check_tags_sound parent (i + 1) (t.key ∷ seen) tags)

check_tags_complete :
    (parent : FieldPath) (i : ℕ) (seen : List String) (tags : List Tag)
    → AreFresh seen tags
    → check_tags parent i seen tags ≡ []
unfolding check_tags
check_tags_complete parent i seen [] h = refl
check_tags_complete parent i seen (t ∷ tags) (a, b, c) =
    ground
      (arith, Elem-of_contains seen t.key, check_tags_complete parent (i + 1) (t.key ∷ seen) tags c)

-- Tags are accepted exactly when no key is blank and no key stands twice.
pub validate_tags_iff :
    (tags : List Tag) (parent : FieldPath) → (validate_tags tags parent ≡ []) ↔ AreFresh [] tags
unfolding validate_tags
validate_tags_iff tags parent =
    (check_tags_sound parent 0 [] tags, check_tags_complete parent 0 [] tags)

pub append-eq-nil_iff : (xs ys : List FieldError) → ((xs ++ ys) ≡ []) ↔ ((xs ≡ []) × (ys ≡ []))
append-eq-nil_iff [] ys = ground arith
append-eq-nil_iff (x ∷ xs) ys = ground arith
