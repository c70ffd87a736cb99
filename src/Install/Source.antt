-- ===== src/Install/Source.antt =====
-- crates/greentic-events-runtime/src/install.rs: `SourceRuntime`.
use greentic_events.Base.{Bool, true, false, List, [], ◌∷◌, Result, ok, err, filter, push}
use greentic_events.Base.Str.{Str}
use greentic_events.Descriptor.{EventProviderKind, EventProviderSpec, source}
use greentic_events.Install.{
  ProviderInstallRecord, ProviderInstallStore, InstallResolver, ResolvedInstall, SourceInitializer,
  RuntimeDiagnostic, resolve, diagnostic_code_for_resolve_error, provider_init_failed,
  install_failed, listing_failed,
}

pub record SourceRuntime (W : Type 0) : Type 0 where
  pub install_store : ProviderInstallStore W
  pub resolver : InstallResolver W
  pub initializer : SourceInitializer W

abbrev pub is_source : EventProviderKind → Bool
is_source source = true
is_source _ = false

-- The diagnostics so far, and the world.
abbrev pub Diagnosed : Type 0 → Type 0
Diagnosed W = List RuntimeDiagnostic × W

module _ {W : Type 0} where
  abbrev pub after_init :
      ProviderInstallRecord → List RuntimeDiagnostic → Result Str Unit × W → Diagnosed W
  after_init r diagnostics (ok u, w) = (diagnostics, w)
  after_init r diagnostics (err e, w) =
      (push diagnostics (install_failed r provider_init_failed e), w)

  abbrev pub after_source_resolve :
      SourceRuntime W
      → EventProviderSpec
      → ProviderInstallRecord
      → List RuntimeDiagnostic
      → Result Str ResolvedInstall × W
      → Diagnosed W
  after_source_resolve rt spec r diagnostics (ok install, w) =
      after_init r diagnostics (rt.initializer.init_source spec install w)
  after_source_resolve rt spec r diagnostics (err e, w) =
      (push diagnostics (install_failed r (diagnostic_code_for_resolve_error e) e), w)

  unfoldable pub start_installs :
      SourceRuntime W → EventProviderSpec → List ProviderInstallRecord → Diagnosed W → Diagnosed W
  unfolding resolve diagnostic_code_for_resolve_error
  start_installs rt spec [] s = s
  start_installs rt spec (r ∷ installs) (diagnostics, w) =
      start_installs rt spec installs
        (after_source_resolve rt spec r diagnostics (resolve rt.resolver r w))

  abbrev pub after_source_listing :
      SourceRuntime W
      → EventProviderSpec
      → List RuntimeDiagnostic
      → Result Str (List ProviderInstallRecord) × W
      → Diagnosed W
  after_source_listing rt spec diagnostics (ok installs, w) =
      start_installs rt spec installs (diagnostics, w)
  after_source_listing rt spec diagnostics (err e, w) =
      (push diagnostics (listing_failed spec.name e), w)

  unfoldable pub start_providers :
      SourceRuntime W → List EventProviderSpec → Diagnosed W → Diagnosed W
  unfolding start_installs
  start_providers rt [] s = s
  start_providers rt (spec ∷ specs) (diagnostics, w) =
      start_providers rt specs
        (after_source_listing rt spec diagnostics (rt.install_store.list_installs spec.name w))

  unfoldable pub start_sources : SourceRuntime W → List EventProviderSpec → W → Diagnosed W
  unfolding start_providers
  start_sources rt providers w =
      start_providers rt (filter (λ (spec : EventProviderSpec). is_source spec.kind) providers)
        ([], w)
