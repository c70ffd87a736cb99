-- ===== src/Install.antt =====
-- crates/greentic-events-runtime/src/install.rs: provider installs, their stores and diagnostics.
-- A record of an install (crate greentic-types) has the fields that the code reads or writes. The
-- error of a store, of a factory or of a driver is its outermost message.
pub mod Metadata
pub mod Sink
pub mod Source
pub mod Sync
use greentic_events.Base.{
  ℕ, Bool, true, false, ◌++◌, ◌&&◌, Option, none, some, List, [], ◌∷◌, Result, ok, err, filter,
  map_err, if◌then◌else◌, ok_or, ◌≡◌, refl, arith,
}
use greentic_events.Base.Str.{Str, codes, contains, str_eq, str_eq_iff}
use greentic_events.Base.Map.{lookup, insert}
use greentic_events.Event.{Json, Dict}
use greentic_events.Descriptor.{EventProviderSpec}
use greentic_events.Provider.{EventProvider}

pub record ProviderInstallRecord : Type 0 where
  pub provider_id : Str
  pub install_id : Str
  pub config_refs : Dict Str
  pub secret_refs : Dict Str
  pub subscriptions_state : Json
  pub metadata : Json

pub record ProviderInstallKey : Type 0 where
  pub provider_id : Str
  pub install_id : Str

pub data DiagnosticCode : Type 0 where
  missing_config missing_secret malformed_install provider_init_failed provider_not_found
        subscription_sync_failed :
      DiagnosticCode

pub record RuntimeDiagnostic : Type 0 where
  pub provider_id : Str
  pub install_id : Option Str
  pub code : DiagnosticCode
  pub message : Str

pub record ResolvedInstall : Type 0 where
  pub install : ProviderInstallRecord
  pub config : Dict Json
  pub secrets : Dict Json

pub record ProviderInstallStore (W : Type 0) : Type 0 where
  pub list_installs : Str → W → Result Str (List ProviderInstallRecord) × W
  pub update_install : ProviderInstallRecord → W → Result Str Unit × W

pub record InstallValueStore (W : Type 0) : Type 0 where
  pub read : Str → W → Result Str Json × W

pub record InstallProviderFactory (W : Type 0) : Type 0 where
  pub build_provider : EventProviderSpec → ResolvedInstall → W → Result Str (EventProvider W) × W

pub record SourceInitializer (W : Type 0) : Type 0 where
  pub init_source : EventProviderSpec → ResolvedInstall → W → Result Str Unit × W

pub record SubscriptionDriver (W : Type 0) : Type 0 where
  pub sync_subscriptions : EventProviderSpec → ResolvedInstall → W → Result Str Json × W

pub record InstallResolver (W : Type 0) : Type 0 where
  pub config_store : InstallValueStore W
  pub secret_store : InstallValueStore W

abbrev pub key_of : ProviderInstallRecord → ProviderInstallKey
key_of r = record { provider_id = r.provider_id; install_id = r.install_id }

-- The derived `==` of keys.
abbrev pub key_eq : ProviderInstallKey → ProviderInstallKey → Bool
key_eq a b = str_eq a.provider_id b.provider_id && str_eq a.install_id b.install_id

-- `HashMap<ProviderInstallKey, V>`
module _ {V : Type 0} where
  unfoldable pub get_install : ProviderInstallKey → List (ProviderInstallKey × V) → Option V
  get_install k [] = none
  get_install k ((j, v) ∷ m) = if key_eq j k then some v else get_install k m

  unfoldable pub insert_install :
      ProviderInstallKey → V → List (ProviderInstallKey × V) → List (ProviderInstallKey × V)
  insert_install k v [] = (k, v) ∷ []
  insert_install k v ((j, w) ∷ m) = if key_eq j k then (k, v) ∷ m else (j, w) ∷ insert_install k v m

  unfoldable pub values : List (ProviderInstallKey × V) → List V
  values [] = []
  values ((j, v) ∷ m) = v ∷ values m

abbrev pub Installs : Type 0
Installs = List (ProviderInstallKey × ProviderInstallRecord)

-- `InMemoryInstallStore`, its map a part of the world that `at` reads and `put` writes.
abbrev pub in_memory_installs :
    {W : Type 0} → (W → Installs) → (Installs → W → W) → ProviderInstallStore W
in_memory_installs at put = record {
  list_installs = λ provider_id w. (
    ok (filter (λ (r : ProviderInstallRecord). str_eq r.provider_id provider_id) (values (at w))),
    w,
  );
  update_install = λ r w. (ok tt, put (insert_install (key_of r) r (at w)) w);
}

-- `InMemoryInstallStore::insert` and `get`, on the map.
abbrev pub insert_record : ProviderInstallRecord → Installs → Installs
insert_record r m = insert_install (key_of r) r m

abbrev pub get_record : ProviderInstallKey → Installs → Option ProviderInstallRecord
get_record key m = get_install key m

-- `InMemoryValueStore`
abbrev pub in_memory_values : {W : Type 0} → (W → Dict Json) → InstallValueStore W
in_memory_values at = record {
  read =
      λ reference w. (ok_or (lookup reference (at w)) (codes "missing value for " ++ reference), w);
}

-- `InMemoryValueStore::insert`, on the map.
abbrev pub insert_value : Str → Json → Dict Json → Dict Json
insert_value reference value m = insert reference value m

-- One of the loops of `resolve`; `missing` begins the message of a read that failed.
unfoldable pub read_refs :
    {W : Type 0} → InstallValueStore W → Str → Dict Str → Dict Json → W → Result Str (Dict Json) × W
read_refs store missing [] acc w = (ok acc, w)
read_refs store missing ((key, reference) ∷ refs) acc w =
    let (r, w1) = store.read reference w in
    elim r [
      | ok value ↦ read_refs store missing refs (insert key value acc) w1
      | err e ↦ (err (missing ++ reference), w1)
    ]

-- The loop that reads the secrets, and the loop that reads the configuration before it.
abbrev pub with_secrets :
    {W : Type 0}
    → ProviderInstallRecord
    → Dict Json
    → Result Str (Dict Json) × W
    → Result Str ResolvedInstall × W
with_secrets r config (ok secrets, w) =
    (ok (record { install = r; config = config; secrets = secrets }), w)
with_secrets r config (err e, w) = (err e, w)

abbrev pub with_config :
    {W : Type 0}
    → InstallResolver W
    → ProviderInstallRecord
    → Result Str (Dict Json) × W
    → Result Str ResolvedInstall × W
with_config resolver r (ok config, w) =
    with_secrets r config
      (read_refs resolver.secret_store (codes "missing secret ref ") r.secret_refs [] w)
with_config resolver r (err e, w) = (err e, w)

unfoldable pub resolve :
    {W : Type 0} → InstallResolver W → ProviderInstallRecord → W → Result Str ResolvedInstall × W
unfolding read_refs
resolve resolver r w =
    with_config resolver r
      (read_refs resolver.config_store (codes "missing config ref ") r.config_refs [] w)

unfoldable pub diagnostic_code_for_resolve_error : Str → DiagnosticCode
unfolding contains
diagnostic_code_for_resolve_error msg =
    if contains (codes "secret") msg
    then missing_secret
    else if contains (codes "config") msg
    then missing_config
    else malformed_install

-- The diagnostic of a listing that failed.
abbrev pub listing_failed : Str → Str → RuntimeDiagnostic
listing_failed name message = record {
  provider_id = name;
  install_id = none;
  code = malformed_install;
  message = message;
}

-- The diagnostic of one install.
abbrev pub install_failed : ProviderInstallRecord → DiagnosticCode → Str → RuntimeDiagnostic
install_failed r code message = record {
  provider_id = r.provider_id;
  install_id = some r.install_id;
  code = code;
  message = message;
}
