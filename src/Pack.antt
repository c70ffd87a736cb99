-- ===== src/Pack.antt =====
-- src/bus.rs: the specification of a pack, and how it is loaded and checked.
use greentic_events.Base.{
  ℕ, ◌++◌, Option, none, some, List, Result, ok, err, map_err, then_ok, if◌then◌else◌, ◌==◌, not,
}
use greentic_events.Base.Str.{Str, codes, is_blank}
use greentic_events.Event.{Json, Dict}
use greentic_events.Descriptor.{EventProviderSpec}

-- `PackSpec`, its events section as the list of the providers.
pub record PackSpec : Type 0 where
  pub pack_version : ℕ
  pub id : Str
  pub version : Str
  pub annotations : Dict Json
  pub events : Option (List EventProviderSpec)

-- The messages give the version in decimal, by `show_version`.
unfoldable pub validate_spec : (ℕ → Str) → PackSpec → Result Str Unit
validate_spec show_version spec =
    if not (spec.pack_version == 1)
    then err (
        codes "unsupported packVersion "
        ++ (show_version spec.pack_version ++ codes "; expected 1"))
    else if is_blank spec.id
    then err (codes "pack id must not be empty")
    else if is_blank spec.version
    then err (codes "pack version must not be empty")
    else ok tt

-- `load_spec`: the file system, the YAML parser and the validation of the events section are
-- arguments, and so is the printing of numbers.
pub record Loader : Type 0 where
  pub read : Result Str Str
  pub parse : Str → Result Str PackSpec
  pub validate_events : List EventProviderSpec → Result Str Unit
  pub manifest_path : Str
  pub show_version : ℕ → Str

abbrev pub validated_events : Loader → Option (List EventProviderSpec) → Result Str Unit
validated_events l none = ok tt
validated_events l (some events) = l.validate_events events

unfoldable pub load_spec : Loader → Result Str PackSpec
unfolding validate_spec
load_spec l = then_ok (map_err (λ _. codes "failed to read " ++ l.manifest_path) l.read) λ contents.
    then_ok (map_err (λ _. l.manifest_path ++ codes " is not a valid PackSpec") (l.parse contents))
      λ spec.
        then_ok (validate_spec l.show_version spec)
          λ _. then_ok (validated_events l spec.events) (λ _. ok spec)
