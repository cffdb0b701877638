-- ===== src/Verification/Verdicts.antt =====
-- What a passing verification and its findings say.
use acoding_agent.Prelude.{
  ℕ, ◌≡◌, refl, sym, ap, ◌∙◌, Bool, true, false, ◌&&◌, ◌||◌, not, ◌==◌, Option, none, some, List,
  [], ◌∷◌, ◌++◌, all, any, is_empty, map, Text, mem_text, text_eq, arith, Bool-cases, inl, inr,
  text_eq_sound, text_eq_refl,
}
use acoding_agent.Verification.Reports.{TestSummary, Severity, Message, VerificationFinding}
use acoding_agent.Verification.Summaries.{CommandResult, all_failed_ids}
use acoding_agent.Verification.Candidate.{
  finding_of, append_if, explain_exit, build_findings, regressions_of, exit_allows, is_acceptable,
  all_findings,
}

abbrev pub is_blocker : Severity → Bool
is_blocker Severity.blocker = true
is_blocker _ = false

-- Whether a finding is about a failure that the baseline does not have.
abbrev pub is_new_failure : Text → VerificationFinding → Bool
is_new_failure t f = elim f.message [
  | Message.new_failure id ↦ text_eq t id && is_blocker f.severity
  | _ ↦ false
]

all-append :
    {A : Type 0} (p : A → Bool) (xs ys : List A) → all p (xs ++ ys) ≡ (all p xs && all p ys)
all-append p [] ys = refl
all-append p (x ∷ xs) ys = ground (arith, all-append p xs ys)

pub any-append :
    {A : Type 0} (p : A → Bool) (xs ys : List A) → any p (xs ++ ys) ≡ (any p xs || any p ys)
any-append p [] ys = refl
any-append p (x ∷ xs) ys = ground (arith, any-append p xs ys)

pub mem_text-regressions_of :
    (t : Text) (old ids : List Text)
    → mem_text t (regressions_of old ids) ≡ (mem_text t ids && not (mem_text t old))
unfolding regressions_of
mem_text-regressions_of t old [] = refl
mem_text-regressions_of t old (u ∷ ids) = elim (Bool-cases (text_eq t u)) [
  | inl same ↦
      let e = text_eq_sound t u same in
      let as_old : mem_text u old ≡ mem_text t old = ap (λ x. mem_text x old) (sym e) in
      elim (Bool-cases (mem_text t old)) [
        | inl h ↦ ground (arith, mem_text-regressions_of t old ids, as_old)
        | inr h ↦ ground (arith, mem_text-regressions_of t old ids, as_old)
      ]
  | inr other ↦ elim (Bool-cases (mem_text u old)) [
    | inl h ↦ ground (arith, mem_text-regressions_of t old ids)
    | inr h ↦ ground (arith, mem_text-regressions_of t old ids)
  ]
]

abbrev pub not_blocking : VerificationFinding → Bool
not_blocking f = not (is_blocker f.severity)

findings-not_blocking :
    (old ids : List Text)
    → all (λ t. mem_text t old) ids ≡ true
    → all not_blocking (map (finding_of old) ids) ≡ true
findings-not_blocking old [] h = refl
findings-not_blocking old (t ∷ ids) h = elim (Bool-cases (mem_text t old)) [
  | inl old_ ↦ ground (arith, findings-not_blocking old ids)
  | inr new_ ↦ cc
]

pub all_of_mem :
    (p : Text → Bool) (ts : List Text)
    → ((t : Text) → mem_text t ts ≡ true → p t ≡ true)
    → all p ts ≡ true
all_of_mem p [] f = refl
all_of_mem p (t ∷ ts) f =
    ground (arith, f t (ground (arith, text_eq_refl t)), all_of_mem p ts λ u m. f u (ground arith))

pub mem_of_empty : (t : Text) (ts : List Text) → is_empty ts ≡ true → mem_text t ts ≡ false
mem_of_empty t [] h = refl
mem_of_empty t (u ∷ ts) h = cc

is_empty-map : {A B : Type 0} (f : A → B) (xs : List A) → is_empty (map f xs) ≡ is_empty xs
is_empty-map f [] = refl
is_empty-map f (x ∷ xs) = refl

explained-not_blocking :
    (code : Option ℕ) (oom late : Bool) (summary : TestSummary) (old : List Text)
    → (not late && not oom && exit_allows code summary old) ≡ true
    → all (λ t. mem_text t old) summary.failed_test_ids ≡ true
    → all not_blocking (
        explain_exit code (
          append_if oom Message.oom_killed (append_if late Message.timed_out [])
          ++ map (finding_of old) summary.failed_test_ids))
      ≡ true
explained-not_blocking none oom late summary old h k = ground arith
explained-not_blocking (some code) true late summary old h k = ground arith
explained-not_blocking (some code) false true summary old h k = cc
explained-not_blocking (some code) false false summary old h k =
    let found = map (finding_of old) summary.failed_test_ids in
    elim (Bool-cases (not (code == 0) && is_empty found)) [
      | inl bare ↦ absurd (ground (arith, is_empty-map (finding_of old) summary.failed_test_ids))
      | inr told ↦ rw told (findings-not_blocking old summary.failed_test_ids k)
    ]

build_findings-not_blocking :
    (result : CommandResult) (summary : TestSummary) (old : List Text)
    → is_acceptable old (result, summary) ≡ true
    → all (λ t. mem_text t old) summary.failed_test_ids ≡ true
    → all not_blocking (build_findings result summary old) ≡ true
unfolding build_findings
build_findings-not_blocking result summary old h k =
    explained-not_blocking result.exit_code result.oom_killed result.timed_out summary old h k

pub all_findings-not_blocking :
    (old : List Text) (results : List (CommandResult × TestSummary))
    → all (is_acceptable old) results ≡ true
    → all (λ t. mem_text t old) (all_failed_ids (map (λ (result, summary). summary) results)) ≡ true
    → all not_blocking (all_findings old results) ≡ true
unfolding all_findings all_failed_ids
all_findings-not_blocking old [] h k = refl
all_findings-not_blocking old ((result, summary) ∷ results) h k =
    let ids = all_failed_ids (map (λ (result, summary). summary) results) in
    let parts = all-append (λ t. mem_text t old) summary.failed_test_ids ids in
    all-append not_blocking (build_findings result summary old) (all_findings old results)
    ∙ ground (
      arith,
      parts,
      build_findings-not_blocking result summary old (ground arith) (ground (arith, parts)),
      all_findings-not_blocking old results (ground arith) (ground (arith, parts)),
    )
