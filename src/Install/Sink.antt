-- ===== src/Install/Sink.antt =====
-- crates/greentic-events-runtime/src/install.rs: `InstallRuntime` and the `SinkRouter` it builds.
pub mod Accounted
use greentic_events.Base.{
  Bool, true, false, ◌++◌, Option, none, some, List, [], ◌∷◌, Result, ok, err, filter, push,
}
use greentic_events.Base.Str.{Str, codes}
use greentic_events.Event.{EventEnvelope}
use greentic_events.Descriptor.{EventProviderKind, EventProviderSpec, sink}
use greentic_events.Provider.{EventProvider}
use greentic_events.Install.{
  ProviderInstallRecord, ProviderInstallKey, ProviderInstallStore, InstallResolver, ResolvedInstall,
  InstallProviderFactory, RuntimeDiagnostic, resolve, diagnostic_code_for_resolve_error,
  provider_init_failed, install_failed, listing_failed, get_install, insert_install, key_of,
}

pub record InstallRuntime (W : Type 0) : Type 0 where
  pub install_store : ProviderInstallStore W
  pub resolver : InstallResolver W
  pub factory : InstallProviderFactory W

-- `SinkRouter`
abbrev pub SinkRouter : Type 0 → Type 0
SinkRouter W = List (ProviderInstallKey × EventProvider W)

unfoldable pub emit :
    {W : Type 0} → SinkRouter W → Str → Str → EventEnvelope → W → Result Str Unit × W
unfolding get_install
emit router provider_id install_id event w =
    elim (get_install (record { provider_id = provider_id; install_id = install_id }) router) [
      | none ↦ (
        err (codes "provider install not found: " ++ (provider_id ++ (codes ":" ++ install_id))),
        w,
      )
      | some provider ↦ provider.publish event w
    ]

abbrev pub is_sink : EventProviderKind → Bool
is_sink sink = true
is_sink _ = false

-- What `build_sink_router` has built so far.
pub record Building (W : Type 0) : Type 0 where
  pub resolved : SinkRouter W
  pub diagnostics : List RuntimeDiagnostic
  pub world : W

module _ {W : Type 0} where
  abbrev pub report : RuntimeDiagnostic → W → Building W → Building W
  report d w s = record s { diagnostics = push s.diagnostics d; world = w }

  abbrev pub after_build :
      ProviderInstallRecord → Building W → Result Str (EventProvider W) × W → Building W
  after_build r s (ok instance, w) = record s {
    resolved = insert_install (key_of r) instance s.resolved;
    world = w;
  }
  after_build r s (err e, w) = report (install_failed r provider_init_failed e) w s

  abbrev pub after_sink_resolve :
      InstallRuntime W
      → EventProviderSpec
      → ProviderInstallRecord
      → Building W
      → Result Str ResolvedInstall × W
      → Building W
  after_sink_resolve rt spec r s (ok install, w) =
      after_build r s (rt.factory.build_provider spec install w)
  after_sink_resolve rt spec r s (err e, w) =
      report (install_failed r (diagnostic_code_for_resolve_error e) e) w s

  -- The loop over the installs of a provider.
  unfoldable pub route_installs :
      InstallRuntime W → EventProviderSpec → List ProviderInstallRecord → Building W → Building W
  unfolding insert_install
  route_installs rt spec [] s = s
  route_installs rt spec (r ∷ installs) s =
      route_installs rt spec installs
        (after_sink_resolve rt spec r s (resolve rt.resolver r s.world))

  abbrev pub after_sink_listing :
      InstallRuntime W
      → EventProviderSpec
      → Building W
      → Result Str (List ProviderInstallRecord) × W
      → Building W
  after_sink_listing rt spec s (ok installs, w) =
      route_installs rt spec installs (record s { world = w })
  after_sink_listing rt spec s (err e, w) = report (listing_failed spec.name e) w s

  -- The loop over the providers.
  unfoldable pub route_providers :
      InstallRuntime W → List EventProviderSpec → Building W → Building W
  unfolding route_installs
  route_providers rt [] s = s
  route_providers rt (spec ∷ specs) s =
      route_providers rt specs
        (after_sink_listing rt spec s (rt.install_store.list_installs spec.name s.world))

  unfoldable pub build_sink_router : InstallRuntime W → List EventProviderSpec → W → Building W
  unfolding route_providers
  build_sink_router rt providers w =
      route_providers rt (filter (λ (spec : EventProviderSpec). is_sink spec.kind) providers)
        (record { resolved = []; diagnostics = []; world = w })
