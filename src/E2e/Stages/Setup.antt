-- ===== src/E2e/Stages/Setup.antt =====
-- src/e2e.rs: when the setup stage succeeds, and with which summary.
use greentic_events.Base.{
  ℕ, ◌+◌, ◌≡◌, ◌↔◌, refl, List, [], ◌∷◌, ok, err, true, some, Bool, length, filter, ap, none,
  is_some, ◌∙◌, arith, if◌then◌else◌, then_ok-parts, ok_or, map_err, ◌++◌, ok_eq, map_err-ok,
  ok_or-some, false, sym,
}
use greentic_events.Base.Str.{Str, codes}
use greentic_events.Base.Map.{lookup}
use greentic_events.Event.{Json, Fields, object, null, bool, number, other_number, string, array}
use greentic_events.Descriptor.{EventProviderSpec}
use greentic_events.E2e.{
  PackLoad, RequirementsFixture, ProvisionPlan, ProvisionInputs, SetupSummary, load_fixture,
}
use greentic_events.E2e.Task.{give, returned, proceed-parts, give-parts}
use greentic_events.E2e.Stages.Plan.{Repeats, HasOperations, check_plan_iff}
use greentic_events.E2e.Checks.{
  Formats, check_plan, add_plan, empty_summary, inputs_for, setup_fixture, is_object, one_if,
}
use greentic_events.E2e.Stages.{E2eDependencies, setup_loop, run_setup}

-- The pack has the setup fixture, which is the object `setup`.
pub record IsSetup (f : Formats) (pack : PackLoad) (setup : Json) : Type 0 where
  pub bytes : Str
  pub found : lookup (codes "fixtures/setup.input.json") pack.files ≡ some bytes
  pub decoded : f.decode_value bytes ≡ ok setup
  pub fields : Fields
  pub of_fields : setup ≡ object fields

abbrev pub sum_of : (ProvisionPlan → ℕ) → List ProvisionPlan → ℕ
sum_of n [] = 0
sum_of n (plan ∷ plans) = n plan + sum_of n plans

-- How many plans patch something, and how many operations they have together.
abbrev pub sums : List ProvisionPlan → SetupSummary
sums plans = record {
  config_patches = length (filter (λ (p : ProvisionPlan). is_some p.config_patch) plans);
  secrets_patches = length (filter (λ (p : ProvisionPlan). is_some p.secrets_patch) plans);
  subscriptions = sum_of (λ p. length p.subscriptions) plans;
  webhooks = sum_of (λ p. length p.webhooks) plans;
}

module _ {W R : Type 0} (f : Formats) (deps : E2eDependencies W R) (pack : PackLoad) (setup : Json)
    (requirements : RequirementsFixture) where
  -- What the planner is given for a provider.
  abbrev asked : EventProviderSpec → ProvisionInputs
  asked provider = record {
    provider_id = provider.name;
    install_id = codes "fixture-install";
    public_base_url = none;
    answers = setup;
    requirements = requirements;
  }

  -- `Planned providers w plans w1`: from `w` to `w1` each provider was planned twice, with the same
  -- plan, which has the operations that the requirements ask for.
  pub data Planned : List EventProviderSpec → W → List ProvisionPlan → W → Type 0 where
    all_planned : {w : W} → Planned [] w [] w
    planned :
        {provider : EventProviderSpec} {providers : List EventProviderSpec}
        {plan again : ProvisionPlan} {plans : List ProvisionPlan} {w w1 w2 w3 : W}
        → deps.plan pack (asked provider) w ≡ (returned (ok plan), w1)
        → deps.plan pack (asked provider) w1 ≡ (returned (ok again), w2)
        → Repeats f.value_eq plan again
        → HasOperations requirements plan
        → Planned providers w2 plans w3
        → Planned (provider ∷ providers) w (plan ∷ plans) w3

abbrev totals : List ProvisionPlan → SetupSummary → SetupSummary
totals [] s = s
totals (plan ∷ plans) s = totals plans (add_plan plan s)

setup_fixture-IsSetup :
    (f : Formats) (pack : PackLoad) (setup : Json)
    → setup_fixture f pack ≡ ok setup
    → IsSetup f pack setup
unfolding setup_fixture load_fixture
setup_fixture-IsSetup f pack setup h =
    let (v, e, h1) =
      then_ok-parts
        (map_err (λ _. codes "setup fixture missing or invalid")
          (load_fixture f.decode_value pack (codes "fixtures/setup.input.json")))
        _ setup h in
    let (bytes, found, decoded) =
      then_ok-parts
        (ok_or (lookup (codes "fixtures/setup.input.json") pack.files)
          (codes "missing fixture " ++ codes "fixtures/setup.input.json"))
        _ v (map_err-ok _ _ v e) in
    let (fields, same, of_fields) = checked v h1 in
    record {
      bytes = bytes;
      found = ok_or-some _ _ _ found;
      decoded = map_err-ok _ _ v decoded ∙ ap ok same;
      fields = fields;
      of_fields = of_fields;
    }
  where
    checked :
        (v : Json)
        → (if is_object v then ok v else err (codes "setup.input.json must be a JSON object"))
          ≡ ok setup
        → (fields : Fields) × (v ≡ setup) × (setup ≡ object fields)
    checked (object m) k = (m, ok_eq k, sym (ok_eq k))
    checked null k = cc k
    checked (bool b) k = cc k
    checked (number n) k = cc k
    checked (other_number n) k = cc k
    checked (string t) k = cc k
    checked (array items) k = cc k

IsSetup-setup_fixture :
    (f : Formats) (pack : PackLoad) (setup : Json)
    → IsSetup f pack setup
    → setup_fixture f pack ≡ ok setup
unfolding setup_fixture load_fixture
IsSetup-setup_fixture f pack setup s = rw (s.found, s.decoded, s.of_fields) refl

totals-sums :
    (plans : List ProvisionPlan) (s : SetupSummary)
    → totals plans s ≡ record {
      config_patches = s.config_patches + (sums plans).config_patches;
      secrets_patches = s.secrets_patches + (sums plans).secrets_patches;
      subscriptions = s.subscriptions + (sums plans).subscriptions;
      webhooks = s.webhooks + (sums plans).webhooks;
    }
unfolding filter
totals-sums [] s = λ i. record {
  config_patches = no_more s.config_patches i;
  secrets_patches = no_more s.secrets_patches i;
  subscriptions = no_more s.subscriptions i;
  webhooks = no_more s.webhooks i;
}
  where
    no_more : (n : ℕ) → n ≡ n + 0
    no_more n = omega arith
totals-sums (plan ∷ plans) s = totals-sums plans (add_plan plan s) ∙ λ i. record {
  config_patches =
      counted (is_some plan.config_patch) s.config_patches
        (filter (λ (p : ProvisionPlan). is_some p.config_patch) plans) i;
  secrets_patches =
      counted (is_some plan.secrets_patch) s.secrets_patches
        (filter (λ (p : ProvisionPlan). is_some p.secrets_patch) plans) i;
  subscriptions = regroup s.subscriptions (length plan.subscriptions) (sums plans).subscriptions i;
  webhooks = regroup s.webhooks (length plan.webhooks) (sums plans).webhooks i;
}
  where
    regroup : (a b c : ℕ) → a + b + c ≡ a + (b + c)
    regroup a b c = omega arith

    counted :
        (test : Bool) (n : ℕ) (xs : List ProvisionPlan)
        → n + one_if test + length xs ≡ n + length (if test then plan ∷ xs else xs)
    counted true n xs = omega arith
    counted false n xs = omega arith

-- Sums that begin with nothing.
none_yet :
    (plans : List ProvisionPlan)
    → ◌≡◌ {A = SetupSummary}
        (record {
          config_patches = 0 + (sums plans).config_patches;
          secrets_patches = 0 + (sums plans).secrets_patches;
          subscriptions = 0 + (sums plans).subscriptions;
          webhooks = 0 + (sums plans).webhooks;
        })
        (sums plans)
none_yet plans = λ i. record {
  config_patches = from_zero (sums plans).config_patches i;
  secrets_patches = from_zero (sums plans).secrets_patches i;
  subscriptions = from_zero (sums plans).subscriptions i;
  webhooks = from_zero (sums plans).webhooks i;
}
  where
    from_zero : (n : ℕ) → 0 + n ≡ n
    from_zero n = omega arith

module _ {W R : Type 0} (f : Formats) (deps : E2eDependencies W R) (pack : PackLoad)
    (requirements : RequirementsFixture) where
  setup_loop-Planned :
      (setup : Json) (providers : List EventProviderSpec) (s summary : SetupSummary) (w w1 : W)
      → setup_loop f deps pack setup requirements providers s w ≡ (returned (ok summary), w1)
      → (plans : List ProvisionPlan) × Planned f deps pack setup requirements providers w plans w1
        × (summary ≡ totals plans s)
  unfolding setup_loop
  setup_loop-Planned setup [] s summary w w1 h =
      let (e, same) = give-parts (ok s) summary w w1 h in ([], rw (← same) all_planned, cc e)
  setup_loop-Planned setup (provider ∷ providers) s summary w w1 h =
      let (plan, w2, p, h2) =
        proceed-parts (deps.plan pack (inputs_for setup requirements provider) w) _ summary w1 h in
      let (again, w3, q, h3) =
        proceed-parts (deps.plan pack (inputs_for setup requirements provider) w2) _ summary w1
          h2 in
      let (u, w4, g, h4) =
        proceed-parts (give (check_plan f.value_eq requirements plan again) w3) _ summary w1 h3 in
      let (c, same) = give-parts (check_plan f.value_eq requirements plan again) u w3 w4 g in
      let (plans, rest, sum) =
        setup_loop-Planned setup providers (add_plan plan s) summary w3 w1 (rw same h4) in
      let (same, has) = (check_plan_iff f.value_eq requirements plan again).0 c in
      (plan ∷ plans, planned p q same has rest, sum)

  Planned-setup_loop :
      (setup : Json) {providers : List EventProviderSpec} {plans : List ProvisionPlan} {w w1 : W}
      → Planned f deps pack setup requirements providers w plans w1
      → (s : SetupSummary)
      → setup_loop f deps pack setup requirements providers s w
        ≡ (returned (ok (totals plans s)), w1)
  unfolding setup_loop
  Planned-setup_loop setup all_planned s = refl
  Planned-setup_loop setup (planned {plan = plan} {again = again} p q same has rest) s =
      rw (p, q, (check_plan_iff f.value_eq requirements plan again).1 (same, has))
        (Planned-setup_loop setup rest (add_plan plan s))

  -- The setup stage succeeds with a summary exactly if the pack has the setup fixture, which is a
  -- JSON object, each provider in turn is planned twice for it, the second plan saying the same as
  -- the first, with operations of each kind that the requirements ask for, and the summary has the
  -- numbers of plans with patches and the sums of the plans' operations.
  pub run_setup-iff_Planned :
      (providers : List EventProviderSpec) (summary : SetupSummary) (w w1 : W)
      → (run_setup f deps pack requirements providers w ≡ (returned (ok summary), w1)) ↔ (
          (setup : Json) × (plans : List ProvisionPlan) × IsSetup f pack setup
          × Planned f deps pack setup requirements providers w plans w1
          × (summary ≡ sums plans))
  unfolding run_setup
  run_setup-iff_Planned providers summary w w1 = (
    λ h.
        let (setup, w2, g, h2) = proceed-parts (give (setup_fixture f pack) w) _ summary w1 h in
        let (e, same) = give-parts (setup_fixture f pack) setup w w2 g in
        let (plans, p, sum) =
          setup_loop-Planned setup providers empty_summary summary w w1 (rw same h2) in
        (
          setup,
          plans,
          setup_fixture-IsSetup f pack setup e,
          p,
          sum ∙ totals-sums plans _ ∙ none_yet plans,
        ),
    λ (setup, plans, is_setup, p, sum). rw (IsSetup-setup_fixture f pack setup is_setup) (
        Planned-setup_loop setup p empty_summary
        ∙ ap (λ s. (returned (ok s), w1)) (totals-sums plans _ ∙ none_yet plans ∙ sym sum)),
  )
