-- ===== src/E2e/Report/Statuses.antt =====
-- src/e2e.rs: the status of a pack as a join of statuses, and what the summary counts.
use greentic_events.Base.{
  ℕ, ◌+◌, ◌≡◌, refl, Bool, true, false, ◌&&◌, ◌||◌, List, [], ◌∷◌, any, all, length, if◌then◌else◌,
  arith, All, ◌∙◌, sym, ap, false≢true,
}
use greentic_events.E2e.{StageStatus, pass, fail, skip, StageReport, PackReport, E2eSummary}
use greentic_events.E2e.Report.{
  is_fail, is_skip, statuses, status_of, overall_status, count_status, count_reports,
}

-- Of two statuses the worse one, where failing is worse than passing and passing than skipping.
abbrev pub worse : StageStatus → StageStatus → StageStatus
worse fail y = fail
worse pass fail = fail
worse pass _ = pass
worse skip y = y

abbrev pub worst : List StageStatus → StageStatus
worst [] = skip
worst (x ∷ xs) = worse x (worst xs)

worse-status :
    (x : StageStatus) (f s : Bool)
    → worse x (if f then fail else if s then skip else pass)
      ≡ (if is_fail x || f then fail else if is_skip x && s then skip else pass)
worse-status fail f s = refl
worse-status pass true s = refl
worse-status pass false true = refl
worse-status pass false false = refl
worse-status skip f s = refl

status_of-worst : (xs : List StageStatus) → status_of xs ≡ worst xs
unfolding any all
status_of-worst [] = refl
status_of-worst (x ∷ xs) =
    sym (worse-status x (any is_fail xs) (all is_skip xs)) ∙ ap (worse x) (status_of-worst xs)

-- The status of a pack is the worst of the statuses of its five stages.
pub overall_status-worst : (stages : StageReport) → overall_status stages ≡ worst (statuses stages)
unfolding overall_status
overall_status-worst stages = status_of-worst (statuses stages)

abbrev pub tallied : E2eSummary → ℕ
tallied s = s.pass_count + s.fail_count + s.skip_count

count_status-tallied :
    (x : StageStatus) (s : E2eSummary) → tallied (count_status x s) ≡ tallied s + 1
count_status-tallied pass s = omega arith
count_status-tallied fail s = omega arith
count_status-tallied skip s = omega arith

count_status-total : (x : StageStatus) (s : E2eSummary) → (count_status x s).total ≡ s.total
count_status-total pass s = refl
count_status-total fail s = refl
count_status-total skip s = refl

pub count_reports-tallied :
    (reports : List PackReport) (s : E2eSummary)
    → (tallied (count_reports reports s) ≡ tallied s + length reports)
      × ((count_reports reports s).total ≡ s.total)
unfolding count_reports
count_reports-tallied [] s = (omega arith, refl)
count_reports-tallied (report ∷ reports) s =
    let (n, t) = count_reports-tallied reports (count_status report.status s) in
    (omega (arith, count_status-tallied report.status s), t ∙ count_status-total report.status s)

-- Reports of which none is skipped add nothing to the count of the skipped ones.
pub count_reports-skip :
    (reports : List PackReport) (s : E2eSummary)
    → All (λ (r : PackReport). is_skip r.status ≡ false) reports
    → (count_reports reports s).skip_count ≡ s.skip_count
unfolding count_reports
count_reports-skip [] s a = refl
count_reports-skip (report ∷ reports) s a =
    count_reports-skip reports (count_status report.status s) a.1 ∙ kept report.status s a.0
  where
    kept :
        (x : StageStatus) (s : E2eSummary)
        → is_skip x ≡ false
        → (count_status x s).skip_count ≡ s.skip_count
    kept pass s h = refl
    kept fail s h = refl
    kept skip s h = elim (false≢true (sym h)) [ ]
