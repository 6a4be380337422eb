-- ===== src/ProviderId.antt =====
-- Provider identifiers of machines and nodes: providerIDFor and regionFromMachine of
-- internal/controller/alibabacloudmachine_controller.go, and providerInstanceID of
-- internal/controller/csr_controller.go.
pub mod RoundTrip
use Prim.Native.Char.{code}
use Prim.Native.String.{[], ◌∷◌, ◌++◌}
use openshift_capi_alicloud.Prelude.{
  ℕ, String, Bool, ◌&&◌, ◌||◌, not, Option, none, some, Result, ok, err, Error, errorf, ◌==◌,
  nat_eq, string_eq, if◌then◌else◌, trim_prefix,
}
use openshift_capi_alicloud.Api.Machine.{AlibabaCloudMachine}
use mathlib.Core.List

abbrev pub scheme : String
scheme = "alicloud://"

unfoldable pub provider_id_for : String → String → String
provider_id_for region instance_id = scheme ++ (region ++ ("." ++ instance_id))

abbrev pub is_separator : ℕ → Bool
is_separator c = c == b'/' || c == b'.'

-- What stands behind the last separator (strings.LastIndexAny), if there is one.
pub after_last : String → Option String
after_last [] = none
after_last (c ∷ s) = elim (after_last s) [
  | some r ↦ some r
  | none ↦ if is_separator (code c) then some s else none
]

pub last_segment : String → String
last_segment s = elim (after_last s) [ some r ↦ r | none ↦ s ]

unfoldable pub provider_instance_id : String → String
unfolding last_segment after_last
provider_instance_id provider_id = last_segment (trim_prefix provider_id scheme)

-- The part before the first `sep`, if there is a `sep`: strings.SplitN(s, sep, 2) of two parts.
pub before_first : ℕ → String → Option String
before_first sep [] = none
before_first sep (c ∷ s) =
    let rest : Option String = elim (before_first sep s) [ none ↦ none | some r ↦ some (c ∷ r) ] in
    if code c == sep then some [] else rest

abbrev pub non_empty : Option String → Option String
non_empty none = none
non_empty (some []) = none
non_empty (some (c ∷ s)) = some (c ∷ s)

abbrev pub or_else : Option String → Option String → Option String
or_else (some a) b = some a
or_else none b = b

-- The region segment of a provider identifier: the slash form, then the dot form.
unfoldable pub region_of_provider_id : String → Option String
unfolding before_first
region_of_provider_id provider_id =
    let trimmed = trim_prefix provider_id scheme in
    or_else (non_empty (before_first b'/' trimmed)) (non_empty (before_first b'.' trimmed))

abbrev pub no_region : Error
no_region = errorf "Spec.RegionID is empty and ProviderID is unset or invalid" List.[]

abbrev pub or_no_region : Option String → Result String
or_no_region (some region) = ok region
or_no_region none = err no_region

unfoldable pub region_from_machine : AlibabaCloudMachine → Result String
unfolding region_of_provider_id
region_from_machine m =
    if not (m.spec.region_id == "") then ok m.spec.region_id else elim m.spec.provider_id [
      | none ↦ err no_region
      | some provider_id ↦ or_no_region (region_of_provider_id provider_id)
    ]
