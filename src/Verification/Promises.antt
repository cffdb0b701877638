-- ===== src/Verification/Promises.antt =====
-- What the report of a candidate promises.
use acoding_agent.Prelude.{
  ℕ, ◌≡◌, sym, ap, ◌∙◌, Bool, true, false, ◌&&◌, not, ◌==◌, Option, none, some, List, [], ◌∷◌, ◌++◌,
  all, any, map, Text, mem_text, text_eq, arith, Bool-cases, inl, inr, subst, text_eq_sound,
  mem_text-from_keys, mem_text-append, from_keys,
}
use acoding_agent.Prelude.Checked.{accepted, >>=-eq-accepted, accepted-injective}
use acoding_agent.Run.World.{ArtifactRef}
use acoding_agent.Verification.Reports.{
  TestSummary, BaselineReport, Message, VerificationFinding, VerificationReport,
}
use acoding_agent.Verification.Summaries.{CommandResult, Reading, merge_summaries, all_failed_ids}
use acoding_agent.Verification.Candidate.{
  finding_of, append_if, explain_exit, build_findings, regressions_of, all_findings, report_of,
  Sandbox, verify,
}
use acoding_agent.Verification.Verdicts.{
  is_new_failure, not_blocking, any-append, mem_text-regressions_of, all_of_mem, mem_of_empty,
  all_findings-not_blocking,
}

keeps_found :
    (p : VerificationFinding → Bool) (code : Option ℕ) (fs : List VerificationFinding)
    → any p fs ≡ true
    → any p (explain_exit code fs) ≡ true
keeps_found p none fs h = h
keeps_found p (some code) [] h = cc
keeps_found p (some code) (f ∷ fs) h = elim (Bool-cases (not (code == 0) && false)) [
  | inl e ↦ absurd (ground arith)
  | inr e ↦ rw e h
]

new_failure_found :
    (t : Text) (old ids : List Text)
    → mem_text t ids ≡ true
    → mem_text t old ≡ false
    → any (is_new_failure t) (map (finding_of old) ids) ≡ true
new_failure_found t old [] m h = cc
new_failure_found t old (u ∷ ids) m h = elim (Bool-cases (text_eq t u)) [
  | inl same ↦
      let e = text_eq_sound t u same in
      let new_ : mem_text u old ≡ false = subst (λ x. mem_text x old ≡ false) e h in
      rw new_ (ground arith)
  | inr other ↦ ground (arith, new_failure_found t old ids)
]

found_in_all :
    (t : Text) (old : List Text) (results : List (CommandResult × TestSummary))
    → mem_text t (all_failed_ids (map (λ (result, summary). summary) results)) ≡ true
    → mem_text t old ≡ false
    → any (is_new_failure t) (all_findings old results) ≡ true
unfolding all_findings all_failed_ids build_findings
found_in_all t old [] m h = cc
found_in_all t old ((result, summary) ∷ results) m h =
    let ids = all_failed_ids (map (λ (result, summary). summary) results) in
    let parts = mem_text-append t summary.failed_test_ids ids in
    let early =
      append_if result.oom_killed Message.oom_killed
        (append_if result.timed_out Message.timed_out []) in
    let found = map (finding_of old) summary.failed_test_ids in
    any-append (is_new_failure t) (build_findings result summary old) (all_findings old results)
    ∙ (elim (Bool-cases (mem_text t summary.failed_test_ids)) [
      | inl here ↦
          let told = keeps_found (is_new_failure t) result.exit_code (early ++ found) (
            ground (
              arith,
              any-append (is_new_failure t) early found,
              new_failure_found t old summary.failed_test_ids here h,
            )) in
          ground arith
      | inr later ↦ ground (arith, parts, found_in_all t old results)
    ])

module _ (s : Sandbox) (r : Reading) (test_config_paths : List Text) (baseline : BaselineReport)
    (baseline_report_ref : ArtifactRef) (candidate_revision : Text)
    (test_bundle_ref : Option ArtifactRef) (timeout_seconds : ℕ) (report : VerificationReport) where
  abbrev old_failures : List Text
  old_failures = baseline.summary.failed_test_ids

  abbrev IsVerified : Type 0
  IsVerified =
      verify s r test_config_paths baseline baseline_report_ref candidate_revision test_bundle_ref
        timeout_seconds
      ≡ accepted report

  results_of :
      IsVerified
      → (log : ArtifactRef) × (results : List (CommandResult × TestSummary)) × (report_of
            candidate_revision baseline_report_ref baseline log results
          ≡ report)
  unfolding verify
  results_of h =
      let (inventory, h0, h1) = >>=-eq-accepted h in
      let (command, h2, h3) = >>=-eq-accepted h1 in (_, _, accepted-injective h3)

  report_failures :
      (log : ArtifactRef) (results : List (CommandResult × TestSummary)) (t : Text)
      → mem_text t
          (report_of candidate_revision baseline_report_ref baseline log
            results).candidate_summary.failed_test_ids
        ≡ mem_text t (all_failed_ids (map (λ (result, summary). summary) results))
  unfolding report_of merge_summaries
  report_failures log results t =
      mem_text-from_keys t (all_failed_ids (map (λ (result, summary). summary) results))

  -- If the verification of a candidate passes, each test that fails on it failed on the base already,
  -- and no finding is a blocker.
  pub verify-passed :
      IsVerified
      → report.passed ≡ true
      → (all (λ t. mem_text t old_failures) report.candidate_summary.failed_test_ids ≡ true)
        × (all not_blocking report.findings ≡ true)
  unfolding report_of merge_summaries
  verify-passed h p =
      let (log, results, e) = results_of h in
      let ids = all_failed_ids (map (λ (result, summary). summary) results) in
      let ok : (report_of candidate_revision baseline_report_ref baseline log results).passed
          ≡ true =
        ap VerificationReport.passed e ∙ p in
      let old : (t : Text) → mem_text t ids ≡ true → mem_text t old_failures ≡ true = λ t m.
        ground (
          arith,
          mem_of_empty t (regressions_of old_failures (from_keys ids)) (ground arith),
          mem_text-regressions_of t old_failures (from_keys ids),
          mem_text-from_keys t ids,
        ) in
      rw (sym e) (
        all_of_mem (λ t. mem_text t old_failures) (from_keys ids)
            (λ t m. old t (sym (mem_text-from_keys t ids) ∙ m)),
        all_findings-not_blocking old_failures results (ground arith)
            (all_of_mem (λ t. mem_text t old_failures) ids old),
      )

  -- A test that the report of a candidate names as a regression did not fail on the base, the
  -- verification does not pass, and a finding that is a blocker names the test.
  pub verify-regression :
      (t : Text)
      → IsVerified
      → mem_text t report.regression_test_ids ≡ true
      → (mem_text t old_failures ≡ false)
        × (report.passed ≡ false)
        × (any (is_new_failure t) report.findings ≡ true)
  unfolding report_of merge_summaries
  verify-regression t h m =
      let (log, results, e) = results_of h in
      let ids = all_failed_ids (map (λ (result, summary). summary) results) in
      let regressions = regressions_of old_failures (from_keys ids) in
      let named : mem_text t regressions ≡ true =
        ap (λ x. mem_text t (VerificationReport.regression_test_ids x)) e ∙ m in
      let both = mem_text-regressions_of t old_failures (from_keys ids) in
      let new_ : mem_text t old_failures ≡ false = ground (arith, both, named) in
      let failing : mem_text t ids ≡ true = ground (arith, both, named, mem_text-from_keys t ids) in
      rw (sym e) (
        new_,
        ground (arith, mem_of_empty t regressions),
        found_in_all t old_failures results failing new_,
      )

  -- The report of a candidate names as regressions exactly the failing tests of the candidate that did
  -- not fail on the base.
  pub verify-regressions :
      (t : Text)
      → IsVerified
      → mem_text t report.regression_test_ids ≡ (
          mem_text t report.candidate_summary.failed_test_ids
          && not (mem_text t baseline.summary.failed_test_ids))
  unfolding report_of
  verify-regressions t h =
      let (log, results, e) = results_of h in
      rw (sym e) (
        mem_text-regressions_of t old_failures
          (report_of candidate_revision baseline_report_ref baseline log
            results).candidate_summary.failed_test_ids)
