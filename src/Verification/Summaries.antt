-- ===== src/Verification/Summaries.antt =====
-- The results of commands and their summaries in src/repopilot/services/verification_service.py. The
-- matches of the three regular expressions are what `re` returns on a text.
use acoding_agent.Prelude.{
  ℕ, leb, Bool, false, ◌&&◌, ◌||◌, not, ◌==◌, if◌then◌else◌, Option, none, some, List, [], ◌∷◌,
  ◌++◌, Text, from_keys,
}
use acoding_agent.Prelude.Tables.{sum}
use acoding_agent.Run.World.{ArtifactRef}
use acoding_agent.Verification.Reports.{Outcome, same_outcome, TestSummary}

pub record CommandResult : Type 0 where
  pub exit_code : Option ℕ
  pub timed_out : Bool
  pub oom_killed : Bool
  pub duration_ms : ℕ
  pub stdout_ref : ArtifactRef
  pub stderr_ref : ArtifactRef

-- What the services use from outside: the contents of artifacts as decoded texts, and `findall` of
-- the regular expressions.
pub record Reading : Type 0 where
  pub read : ArtifactRef → Text
  pub find_counts : Text → List (ℕ × Outcome)
  pub find_failed_ids : Text → List Text
  pub find_outcomes : Text → List (Text × Outcome)

-- `counts[kind] = max(counts[kind], int(count))` for each match, from 0.
unfoldable pub max_count : Outcome → ℕ → List (ℕ × Outcome) → ℕ
unfolding same_outcome
max_count kind best [] = best
max_count kind best ((n, k) ∷ rest) =
    max_count kind (if same_outcome k kind && leb best n then n else best) rest

module _ (r : Reading) where
  abbrev pub combined_output : CommandResult → Text
  combined_output result = r.read result.stdout_ref ++ (0x0a ∷ r.read result.stderr_ref)

  -- `_summarize`
  unfoldable pub summarize : CommandResult → TestSummary
  unfolding max_count from_keys
  summarize result =
      let combined = combined_output result in
      let counts = r.find_counts combined in
      record {
        passed = max_count Outcome.passed 0 counts;
        failed = max_count Outcome.failed 0 counts;
        skipped = max_count Outcome.skipped 0 counts;
        failed_test_ids = from_keys (r.find_failed_ids combined);
      }

-- `result.exit_code in {0, 1} and not result.timed_out and not result.oom_killed`
abbrev pub is_runnable : CommandResult → Bool
is_runnable result =
    elim result.exit_code [ none ↦ false | some n ↦ n == 0 || n == 1 ]
    && not result.timed_out
    && not result.oom_killed

unfoldable pub all_failed_ids : List TestSummary → List Text
all_failed_ids [] = []
all_failed_ids (s ∷ ss) = s.failed_test_ids ++ all_failed_ids ss

-- The summary of a candidate.
unfoldable pub merge_summaries : List TestSummary → TestSummary
unfolding sum all_failed_ids from_keys
merge_summaries summaries = record {
  passed = sum TestSummary.passed summaries;
  failed = sum TestSummary.failed summaries;
  skipped = sum TestSummary.skipped summaries;
  failed_test_ids = from_keys (all_failed_ids summaries);
}
