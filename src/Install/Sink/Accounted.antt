-- ===== src/Install/Sink/Accounted.antt =====
-- crates/greentic-events-runtime/src/install.rs: `build_sink_router` drops no install silently.
use greentic_events.Base.{
  ◌≡◌, refl, ◌⊎◌, inl, inr, Bool, true, false, Option, some, List, [], ◌∷◌, Result, ok, err, filter,
  push, All, Mem, here, there, is_some, if◌then◌else◌, Bool-cases, and_parts, false≢true,
}
use mathlib.Core.Path.{subst}
use greentic_events.Base.Str.{Str, str_eq_iff, str_eq_refl}
use greentic_events.Descriptor.{EventProviderSpec}
use greentic_events.Provider.{EventProvider}
use greentic_events.Install.{
  ProviderInstallRecord, ProviderInstallKey, ResolvedInstall, DiagnosticCode, RuntimeDiagnostic,
  resolve, install_failed, listing_failed, get_install, insert_install, key_of, key_eq,
}
use greentic_events.Install.Sink.{
  InstallRuntime, Building, is_sink, report, after_build, after_sink_resolve, after_sink_listing,
  route_installs, route_providers, build_sink_router,
}

Mem-push_last : {A : Type 0} (x : A) (xs : List A) → Mem x (push xs x)
Mem-push_last x [] = here
Mem-push_last x (y ∷ xs) = there (Mem-push_last x xs)

Mem-push : {A : Type 0} {x : A} (y : A) {xs : List A} → Mem x xs → Mem x (push xs y)
Mem-push y here = here
Mem-push y (there m) = there (Mem-push y m)

key_eq_refl : (k : ProviderInstallKey) → key_eq k k ≡ true
key_eq_refl k = rw (str_eq_refl k.provider_id, str_eq_refl k.install_id) refl

if_change :
    {V : Type 0} (b : Bool) (v w : V) (o p : Option V)
    → (is_some o ≡ true → is_some p ≡ true)
    → is_some (if b then some w else o) ≡ true
    → is_some (if b then some v else p) ≡ true
if_change true v w o p f h = refl
if_change false v w o p f h = f h

key_eq_path : (i k : ProviderInstallKey) → key_eq i k ≡ true → i ≡ k
key_eq_path i k h = λ n. record {
  provider_id = (str_eq_iff i.provider_id k.provider_id).0 (and_parts _ _ h).0 n;
  install_id = (str_eq_iff i.install_id k.install_id).0 (and_parts _ _ h).1 n;
}

get-insert_install_same :
    {V : Type 0} (k : ProviderInstallKey) (v : V) (m : List (ProviderInstallKey × V))
    → is_some (get_install k (insert_install k v m)) ≡ true
unfolding get_install insert_install
get-insert_install_same k v [] = rw (key_eq_refl k) refl
get-insert_install_same k v ((i, w) ∷ m) = elim (Bool-cases (key_eq i k)) [
  | inl e ↦ rw (e, key_eq_refl k) refl
  | inr e ↦ rw (e, e) (get-insert_install_same k v m)
]

get-insert_install :
    {V : Type 0} (k j : ProviderInstallKey) (v : V) (m : List (ProviderInstallKey × V))
    → is_some (get_install j m) ≡ true
    → is_some (get_install j (insert_install k v m)) ≡ true
unfolding get_install insert_install
get-insert_install k j v [] h = elim (false≢true h) [ ]
get-insert_install k j v ((i, w) ∷ m) h = elim (Bool-cases (key_eq i k)) [
  | inl e ↦ rw e (
      if_change (key_eq k j) v w (get_install j m) (get_install j m) (λ x. x)
        (subst (λ q. is_some (if key_eq q j then some w else get_install j m) ≡ true)
          (key_eq_path i k e) h))
  | inr e ↦ rw e (
      if_change (key_eq i j) w w (get_install j m) (get_install j (insert_install k v m))
        (get-insert_install k j v m) h)
]

module _ {W : Type 0} where
  -- The install is routed, or a diagnostic names its provider and install.
  abbrev pub Accounted : Building W → ProviderInstallRecord → Type 0
  Accounted s r =
      (is_some (get_install (key_of r) s.resolved) ≡ true)
      ⊎ ((code : DiagnosticCode) × (message : Str) × Mem (install_failed r code message)
            s.diagnostics)

  -- Nothing routed or reported in `s` is lost in `t`.
  pub record Grows (s t : Building W) : Type 0 where
    pub routed :
        (k : ProviderInstallKey)
        → is_some (get_install k s.resolved) ≡ true
        → is_some (get_install k t.resolved) ≡ true
    pub reported : (d : RuntimeDiagnostic) → Mem d s.diagnostics → Mem d t.diagnostics

  Grows-trans : {s t u : Building W} → Grows s t → Grows t u → Grows s u
  Grows-trans a b = record {
    routed = λ k h. b.routed k (a.routed k h);
    reported = λ d h. b.reported d (a.reported d h);
  }

  Accounted-Grows :
      {s t : Building W} (r : ProviderInstallRecord) → Grows s t → Accounted s r → Accounted t r
  Accounted-Grows r g (inl h) = inl (g.routed _ h)
  Accounted-Grows r g (inr (code, message, m)) = inr (code, message, g.reported _ m)

  report-Grows : (d : RuntimeDiagnostic) (w : W) (s : Building W) → Grows s (report d w s)
  report-Grows d w s = record { routed = λ k h. h; reported = λ e m. Mem-push d m }

  after_build-Grows :
      (r : ProviderInstallRecord) (s : Building W) (built : Result Str (EventProvider W) × W)
      → Grows s (after_build r s built)
  after_build-Grows r s (ok instance, w) = record {
    routed = λ k h. get-insert_install (key_of r) k instance s.resolved h;
    reported = λ d m. m;
  }
  after_build-Grows r s (err e, w) = report-Grows _ w s

  after_build-Accounted :
      (r : ProviderInstallRecord) (s : Building W) (built : Result Str (EventProvider W) × W)
      → Accounted (after_build r s built) r
  after_build-Accounted r s (ok instance, w) =
      inl (get-insert_install_same (key_of r) instance s.resolved)
  after_build-Accounted r s (err e, w) = inr (_, e, Mem-push_last _ s.diagnostics)

  module _ (rt : InstallRuntime W) where
    after_sink_resolve-Grows :
        (spec : EventProviderSpec) (r : ProviderInstallRecord) (s : Building W)
        (resolved : Result Str ResolvedInstall × W)
        → Grows s (after_sink_resolve rt spec r s resolved)
    after_sink_resolve-Grows spec r s (ok install, w) = after_build-Grows r s _
    after_sink_resolve-Grows spec r s (err e, w) = report-Grows _ w s

    after_sink_resolve-Accounted :
        (spec : EventProviderSpec) (r : ProviderInstallRecord) (s : Building W)
        (resolved : Result Str ResolvedInstall × W)
        → Accounted (after_sink_resolve rt spec r s resolved) r
    after_sink_resolve-Accounted spec r s (ok install, w) = after_build-Accounted r s _
    after_sink_resolve-Accounted spec r s (err e, w) = inr (_, e, Mem-push_last _ s.diagnostics)

    route_installs-Grows :
        (spec : EventProviderSpec) (installs : List ProviderInstallRecord) (s : Building W)
        → Grows s (route_installs rt spec installs s)
    unfolding route_installs
    route_installs-Grows spec [] s = record { routed = λ k h. h; reported = λ d m. m }
    route_installs-Grows spec (r ∷ installs) s =
        Grows-trans (after_sink_resolve-Grows spec r s (resolve rt.resolver r s.world))
          (route_installs-Grows spec installs _)

    route_installs-Accounted :
        (spec : EventProviderSpec) (installs : List ProviderInstallRecord) (s : Building W)
        → All (Accounted (route_installs rt spec installs s)) installs
    unfolding route_installs
    route_installs-Accounted spec [] s = tt
    route_installs-Accounted spec (r ∷ installs) s = (
      Accounted-Grows r (route_installs-Grows spec installs _)
          (after_sink_resolve-Accounted spec r s (resolve rt.resolver r s.world)),
      route_installs-Accounted spec installs _,
    )

    after_sink_listing-Grows :
        (spec : EventProviderSpec) (s : Building W)
        (listed : Result Str (List ProviderInstallRecord) × W)
        → Grows s (after_sink_listing rt spec s listed)
    after_sink_listing-Grows spec s (ok installs, w) =
        Grows-trans (record { routed = λ k h. h; reported = λ d m. m })
          (route_installs-Grows spec installs (record s { world = w }))
    after_sink_listing-Grows spec s (err e, w) = report-Grows _ w s

    route_providers-Grows :
        (specs : List EventProviderSpec) (s : Building W) → Grows s (route_providers rt specs s)
    unfolding route_providers
    route_providers-Grows [] s = record { routed = λ k h. h; reported = λ d m. m }
    route_providers-Grows (spec ∷ specs) s =
        Grows-trans
          (after_sink_listing-Grows spec s (rt.install_store.list_installs spec.name s.world))
          (route_providers-Grows specs _)

-- What the final state owes to one provider, by what the store lists for it.
abbrev pub Served :
    {W : Type 0} → Building W → EventProviderSpec → Result Str (List ProviderInstallRecord) → Type 0
Served s spec (ok installs) = All (Accounted s) installs
Served s spec (err e) = Mem (listing_failed spec.name e) s.diagnostics

Served-Grows :
    {W : Type 0} {s t : Building W} (spec : EventProviderSpec)
    (listed : Result Str (List ProviderInstallRecord))
    → Grows s t
    → Served s spec listed
    → Served t spec listed
Served-Grows spec (ok []) g h = tt
Served-Grows spec (ok (r ∷ installs)) g (h, hs) =
    (Accounted-Grows r g h, Served-Grows spec (ok installs) g hs)
Served-Grows spec (err e) g h = g.reported _ h

after_sink_listing-Served :
    {W : Type 0} (rt : InstallRuntime W) (spec : EventProviderSpec) (s : Building W)
    (listed : Result Str (List ProviderInstallRecord) × W)
    → Served (after_sink_listing rt spec s listed) spec listed.0
after_sink_listing-Served rt spec s (ok installs, w) =
    route_installs-Accounted rt spec installs (record s { world = w })
after_sink_listing-Served rt spec s (err e, w) = Mem-push_last _ s.diagnostics

route_providers-Served :
    {W : Type 0} (rt : InstallRuntime W) (listing : Str → Result Str (List ProviderInstallRecord))
    → ((name : Str) (w : W) → (rt.install_store.list_installs name w).0 ≡ listing name)
    → (specs : List EventProviderSpec) (s : Building W)
    → All
        (λ (spec : EventProviderSpec). Served (route_providers rt specs s) spec (listing spec.name))
        specs
unfolding route_providers
route_providers-Served rt listing same [] s = tt
route_providers-Served rt listing same (spec ∷ specs) s = (
  Served-Grows spec (listing spec.name)
      (route_providers-Grows rt specs
        (after_sink_listing rt spec s (rt.install_store.list_installs spec.name s.world)))
      (subst
        (λ l.
          Served (after_sink_listing rt spec s (rt.install_store.list_installs spec.name s.world))
            spec l)
        (same spec.name s.world)
        (after_sink_listing-Served rt spec s (rt.install_store.list_installs spec.name s.world))),
  route_providers-Served rt listing same specs
      (after_sink_listing rt spec s (rt.install_store.list_installs spec.name s.world)),
)

-- If the store lists the same installs for a provider whenever it is asked, then for each sink
-- among the providers: every install that the store lists for it is routed, or a diagnostic names
-- its provider and install; and if the listing fails, a diagnostic reports that.
pub build_sink_router-Served :
    {W : Type 0} (rt : InstallRuntime W) (listing : Str → Result Str (List ProviderInstallRecord))
    (providers : List EventProviderSpec) (w : W)
    → ((name : Str) (w : W) → (rt.install_store.list_installs name w).0 ≡ listing name)
    → All
        (λ (spec : EventProviderSpec).
          Served (build_sink_router rt providers w) spec (listing spec.name))
        (filter (λ (spec : EventProviderSpec). is_sink spec.kind) providers)
unfolding build_sink_router
build_sink_router-Served rt listing providers w same = route_providers-Served rt listing same _ _
