-- ===== src/Run/Milestones.antt =====
-- What the table of src/repopilot/workflows/transitions.py implies for every run.
use acoding_agent.Prelude.{
  ◌≡◌, refl, subst, Bool, true, false, not, List, ◌∷◌, All, any, arith, inl, inr, Bool-cases,
}
use acoding_agent.Domain.Enums.{RunStatus, same_status, is_terminal}
use acoding_agent.Run.Transitions.{validate_transition, History, start, step}

-- Neither terminal nor being finalized.
abbrev pub is_open : RunStatus → Bool
is_open RunStatus.finalizing = false
is_open s = not (is_terminal s)

abbrev pub IsOpen : RunStatus → Type 0
IsOpen s = is_open s ≡ true

open_before :
    (a b : RunStatus) → validate_transition a b ≡ true → is_open b ≡ true → is_open a ≡ true
unfolding validate_transition
open_before RunStatus.finalizing RunStatus.queued h o = cc
open_before RunStatus.finalizing _ h o = cc
open_before RunStatus.succeeded b h o = cc
open_before RunStatus.rejected b h o = cc
open_before RunStatus.failed b h o = cc
open_before RunStatus.cancelled b h o = cc
open_before _ b h o = refl

open_before_finalizing :
    (a : RunStatus) → validate_transition a RunStatus.finalizing ≡ true → is_open a ≡ true
unfolding validate_transition
open_before_finalizing RunStatus.queued h = refl
open_before_finalizing _ h = cc

finalizing_before :
    (a b : RunStatus)
    → validate_transition a b ≡ true
    → is_terminal b ≡ true
    → a ≡ RunStatus.finalizing
unfolding validate_transition
finalizing_before RunStatus.finalizing b h t = refl
finalizing_before RunStatus.queued RunStatus.succeeded h t = cc
finalizing_before _ RunStatus.succeeded h t = cc
finalizing_before _ RunStatus.rejected h t = cc
finalizing_before _ RunStatus.failed h t = cc
finalizing_before _ RunStatus.cancelled h t = cc
finalizing_before a _ h t = cc

All-IsOpen : {a : RunStatus} {past : List RunStatus} → History a past → IsOpen a → All IsOpen past
All-IsOpen start o = tt
All-IsOpen (step {a} b h v) o = let oa = open_before a b v o in (oa, All-IsOpen h oa)

IsOpen-until_finalizing :
    {past : List RunStatus} → History RunStatus.finalizing past → All IsOpen past
IsOpen-until_finalizing h = go h refl
  where
    go :
        {b : RunStatus} {past : List RunStatus}
        → History b past
        → b ≡ RunStatus.finalizing
        → All IsOpen past
    go start e = tt
    go (step {a} b h v) e =
        let oa = open_before_finalizing a (subst (λ s. validate_transition a s ≡ true) e v) in
        (oa, All-IsOpen h oa)

-- A run ends only out of FINALIZING, which it enters once, and no earlier status was terminal.
pub terminal-History :
    (b : RunStatus) (past : List RunStatus)
    → History b past
    → is_terminal b ≡ true
    → (before : List RunStatus) × (past ≡ RunStatus.finalizing ∷ before) × All IsOpen before
terminal-History b past h t = go h t
  where
    go :
        {b : RunStatus} {past : List RunStatus}
        → History b past
        → is_terminal b ≡ true
        → (before : List RunStatus) × (past ≡ RunStatus.finalizing ∷ before) × All IsOpen before
    go start t = cc
    go (step {a} {past} b h v) t =
        let e = finalizing_before a b v t in
        (past, cc, IsOpen-until_finalizing (subst (λ s. History s past) e h))

-- Whether a status is among the earlier ones.
abbrev pub Passed : RunStatus → List RunStatus → Type 0
Passed s past = any (same_status s) past ≡ true

before_delivery :
    (a : RunStatus)
    → validate_transition a RunStatus.waiting_delivery_approval ≡ true
    → a ≡ RunStatus.reviewing
unfolding validate_transition
before_delivery RunStatus.reviewing h = refl
before_delivery _ h = cc

before_reviewing :
    (a : RunStatus) → validate_transition a RunStatus.reviewing ≡ true → a ≡ RunStatus.verifying
unfolding validate_transition
before_reviewing RunStatus.verifying h = refl
before_reviewing _ h = cc

before_verifying :
    (a : RunStatus) → validate_transition a RunStatus.verifying ≡ true → a ≡ RunStatus.executing
unfolding validate_transition
before_verifying RunStatus.executing h = refl
before_verifying _ h = cc

-- The statuses that a run has before its baseline is measured.
abbrev is_early : RunStatus → Bool
is_early RunStatus.queued = true
is_early RunStatus.ingesting = true
is_early RunStatus.waiting_requirements_approval = true
is_early RunStatus.baselining = true
is_early _ = false

leaves_early :
    (a b : RunStatus)
    → validate_transition a b ≡ true
    → is_open b ≡ true
    → is_early b ≡ false
    → is_early a ≡ true
    → a ≡ RunStatus.baselining
unfolding validate_transition
leaves_early RunStatus.baselining b h o l e = refl
leaves_early RunStatus.queued RunStatus.queued h o l e = cc
leaves_early RunStatus.queued _ h o l e = cc
leaves_early RunStatus.ingesting RunStatus.queued h o l e = cc
leaves_early RunStatus.ingesting _ h o l e = cc
leaves_early RunStatus.waiting_requirements_approval RunStatus.queued h o l e = cc
leaves_early RunStatus.waiting_requirements_approval _ h o l e = cc
leaves_early _ b h o l e = cc

baselined :
    {b : RunStatus} {past : List RunStatus}
    → History b past
    → is_open b ≡ true
    → is_early b ≡ false
    → Passed RunStatus.baselining past
unfolding same_status
baselined start o l = cc
baselined (step {a} {past} b h v) o l = elim (Bool-cases (is_early a)) [
  | inl e ↦ rw (leaves_early a b v o l e)
  | inr e ↦ ground (arith, baselined h (open_before a b v o) e)
]

-- The last transition of a run that has left QUEUED.
last :
    {b : RunStatus} {past : List RunStatus}
    → History b past
    → ¬ (b ≡ RunStatus.queued)
    → (a : RunStatus) × (before : List RunStatus) × History a before
      × (validate_transition a b ≡ true)
      × (past ≡ a ∷ before)
last start n = absurd (n refl)
last (step {a} {past} b h v) n = (a, past, h, v, refl)

-- A run that waits for the approval of its delivery came there by EXECUTING, VERIFYING and REVIEWING
-- in this order, and its baseline was measured before.
pub delivery-History :
    (past : List RunStatus)
    → History RunStatus.waiting_delivery_approval past
    → (before : List RunStatus) × (past
        ≡ RunStatus.reviewing ∷ RunStatus.verifying ∷ RunStatus.executing ∷ before)
      × Passed RunStatus.baselining before
delivery-History past h =
    let (a, p1, h1, v1, e1) = last h (λ e. absurd (ground arith)) in
    let h2 = subst (λ s. History s p1) (before_delivery a v1) h1 in
    let (b, p2, h3, v2, e2) = last h2 (λ e. absurd (ground arith)) in
    let h4 = subst (λ s. History s p2) (before_reviewing b v2) h3 in
    let (c, p3, h5, v3, e3) = last h4 (λ e. absurd (ground arith)) in
    let h6 = subst (λ s. History s p3) (before_verifying c v3) h5 in
    (
      p3,
      cc (before_delivery a v1, before_reviewing b v2, before_verifying c v3),
      baselined h6 refl refl,
    )
