-- ===== src/Workspace/Planned.antt =====
-- The edits that pass the checks are those of the plan.
use acoding_agent.Prelude.{
  ℕ, ◌≡◌, refl, sym, ap, ◌∙◌, Bool, true, false, ◌||◌, Option, none, some, List, [], ◌∷◌, all, any,
  All, Text, text_eq, text_eq_sound, text_eq_refl, if◌then◌else◌, Bool-cases, Option-cases, inl,
  inr, arith,
}
use acoding_agent.Prelude.Checked.{
  accepted, ◌>>=◌, >>=-eq-accepted, >>-eq-accepted, refuse_if-eq-accepted, found_or-eq-accepted,
  accepted-injective,
}
use acoding_agent.Domain.Plans.{Operation, PlannedFileChange}
use acoding_agent.Scheduler.Paths.{normalize_plan_path}
use acoding_agent.Workspace.Files.{Files, get}
use acoding_agent.Workspace.Tools.{DeveloperFileEdit}
use acoding_agent.Workspace.Design.{
  invalid_path, duplicate_edit, paths_differ, operations_differ, Operations, op_of, put_op,
  planned_operations, is_some, keys_in, entries_in, check_targets, collect_edits, check_collected,
  check_design, validate_design,
}
use acoding_agent.Workspace.Operations.{
  and-left, and-right, op_of-put_op, entries_in-op_of, keys_in-op_of, check_targets-op_of,
  needs_target,
}

-- Whether a normalized path is this one.
abbrev pub is_at : Text → Option Text → Bool
is_at path none = false
is_at path (some p) = text_eq path p

-- An edit under a dictionary: at its path stands its operation.
abbrev pub IsEditOf : Operations → DeveloperFileEdit → Type 0
IsEditOf ops edit =
    (path : Text) × (normalize_plan_path edit.path ≡ some path)
    × (op_of path ops ≡ some edit.operation)

-- An edit that stands at a planned path, with the planned operation and a target that fits.
abbrev pub IsPlanned : Operations → Files → DeveloperFileEdit → Type 0
IsPlanned planned source_files edit =
    (path : Text) × (normalize_plan_path edit.path ≡ some path)
    × (op_of path planned ≡ some edit.operation)
    × (is_some (get path source_files) ≡ needs_target edit.operation)

module _ (encoded_length : Text → ℕ) where
  record Collected (edits : List DeveloperFileEdit) (before after : Operations) : Type 0 where
    keeps :
        (path : Text) (operation : Operation)
        → op_of path before ≡ some operation
        → op_of path after ≡ some operation
    each : All (IsEditOf after) edits
    back :
        (path : Text)
        → is_some (op_of path after) ≡ true
        → (is_some (op_of path before)
            || any (λ edit. is_at path (normalize_plan_path edit.path)) edits)
          ≡ true

  collect_edits-Collected :
      (edits : List DeveloperFileEdit) (before after : Operations) (n m : ℕ)
      → collect_edits encoded_length edits before n ≡ accepted (after, m)
      → Collected edits before after
  unfolding collect_edits
  collect_edits-Collected [] before after n m h =
      let same : before ≡ after = ap (λ x. x.0) (accepted-injective h) in
      record {
        keeps = λ path operation f. ap (op_of path) (sym same) ∙ f;
        each = tt;
        back = λ path f. ground (arith, ap (λ x. is_some (op_of path x)) same, f);
      }
  collect_edits-Collected (edit ∷ edits) before after n m h =
      let (p, h0, h1) = >>=-eq-accepted h in
      let (fresh, h2) = >>-eq-accepted h1 in
      let normal = found_or-eq-accepted invalid_path (normalize_plan_path edit.path) h0 in
      let new : is_some (op_of p before) ≡ false = refuse_if-eq-accepted duplicate_edit fresh in
      let rest = collect_edits-Collected edits (put_op p edit.operation before) after _ m h2 in
      let put : (q : Text)
          → op_of q (put_op p edit.operation before)
            ≡ (if text_eq q p then some edit.operation else op_of q before) =
        λ q. op_of-put_op q p edit.operation before in
      record {
        keeps = λ path operation f. rest.keeps path operation (
            put path ∙ (elim (Bool-cases (text_eq path p)) [
              | inr other ↦ rw other f
              | inl same ↦ absurd (
                  let there = ap (λ x. is_some (op_of x before)) (text_eq_sound path p same) in
                  ground (arith, there, new, f))
            ]));
        each = (
          (p, normal, rest.keeps p edit.operation (put p ∙ rw (text_eq_refl p) refl)),
          rest.each,
        );
        back = λ path f. rw normal (elim (Bool-cases (text_eq path p)) [
          | inl same ↦ ground (arith, same)
          | inr other ↦
              let old : op_of path (put_op p edit.operation before) ≡ op_of path before =
                put path ∙ rw other refl in
              ground (arith, rest.back path f, ap is_some old, other)
        ]);
      }

  passed :
      (planned : Operations) (source_files : Files) (actual : Operations) (total : ℕ)
      → check_collected encoded_length planned source_files (actual, total) ≡ accepted tt
      → (keys_in planned actual ≡ true)
        × (entries_in actual planned ≡ true)
        × (check_targets actual source_files ≡ accepted tt)
  unfolding check_collected
  passed planned source_files actual total h =
      let (same_keys, h4) = >>-eq-accepted h in
      let (same_entries, h5) = >>-eq-accepted h4 in
      let (small, targets) = >>-eq-accepted h5 in
      (
        and-right (keys_in actual planned) (refuse_if-eq-accepted paths_differ same_keys),
        and-left (entries_in planned actual) (refuse_if-eq-accepted operations_differ same_entries),
        targets,
      )

  -- The parts of an accepted check.
  validated :
      (edits : List DeveloperFileEdit) (planned : Operations) (source_files : Files)
      → check_design encoded_length edits source_files planned ≡ accepted tt
      → (actual : Operations) × (total : ℕ) × (collect_edits encoded_length edits [] 0
          ≡ accepted (actual, total))
        × (keys_in planned actual ≡ true)
        × (entries_in actual planned ≡ true)
        × (check_targets actual source_files ≡ accepted tt)
  unfolding check_design
  validated edits planned source_files h =
      let (collected, h2, h3) = >>=-eq-accepted h in
      let (keys, entries, targets) = passed planned source_files (collected.0) (collected.1) h3 in
      (collected.0, collected.1, h2, keys, entries, targets)

  -- What passes the checks against a plan.
  module _ (planned actual : Operations) (source_files : Files)
      (keys : keys_in planned actual ≡ true) (entries : entries_in actual planned ≡ true)
      (targets : check_targets actual source_files ≡ accepted tt) where
    each_planned :
        (edits : List DeveloperFileEdit)
        → All (IsEditOf actual) edits
        → All (IsPlanned planned source_files) edits
    each_planned [] all = tt
    each_planned (edit ∷ edits) ((path, normal, f), all) = (
      (
        path,
        normal,
        entries_in-op_of actual planned path edit.operation entries f,
        check_targets-op_of actual source_files path edit.operation targets f,
      ),
      each_planned edits all,
    )

    any-IsPlanned :
        (edits : List DeveloperFileEdit) (path : Text)
        → All (IsPlanned planned source_files) edits
        → any (λ edit. is_at path (normalize_plan_path edit.path)) edits ≡ true
        → is_some (op_of path planned) ≡ true
    any-IsPlanned [] path all h = cc
    any-IsPlanned (edit ∷ edits) path ((p, normal, f, target), all) h =
        elim (Bool-cases (text_eq path p)) [
          | inl same ↦
              ap (λ x. is_some (op_of x planned)) (text_eq_sound path p same) ∙ ap is_some f
          | inr other ↦
              let away : is_at path (normalize_plan_path edit.path) ≡ false =
                ap (is_at path) normal ∙ other in
              any-IsPlanned edits path all (ground (arith, h, away))
        ]

    edited_exactly :
        (edits : List DeveloperFileEdit) (path : Text)
        → Collected edits [] actual
        → any (λ edit. is_at path (normalize_plan_path edit.path)) edits
          ≡ is_some (op_of path planned)
    unfolding op_of
    edited_exactly edits path c = elim (Option-cases (op_of path planned)) [
      | inr (operation, e) ↦
          c.back path (keys_in-op_of planned actual path operation keys e) ∙ sym (ap is_some e)
      | inl e ↦ elim (Bool-cases (any (λ edit. is_at path (normalize_plan_path edit.path)) edits)) [
        | inr no_edit ↦ no_edit ∙ sym (ap is_some e)
        | inl edited ↦ edited ∙ sym (any-IsPlanned edits path (each_planned edits c.each) edited)
      ]
    ]

  accepted_first :
      (planned : Operations) (planned_files : List PlannedFileChange)
      (edits : List DeveloperFileEdit) (source_files : Files)
      → planned_operations planned_files [] ≡ accepted planned
      → validate_design encoded_length edits planned_files source_files
        ≡ check_design encoded_length edits source_files planned
  unfolding validate_design ◌>>=◌
  accepted_first planned planned_files edits source_files hp = rw hp refl

  -- When a design passes `_validate_design`, its edits are those of the plan. Each edit stands at a path
  -- for which its operation is planned, and its target exists in the source files exactly if it is
  -- modified or deleted; and a path has an edit exactly if the plan has it.
  pub validate_design-IsPlanned :
      (edits : List DeveloperFileEdit) (planned_files : List PlannedFileChange)
      (source_files : Files) (planned : Operations) (path : Text)
      → planned_operations planned_files [] ≡ accepted planned
      → validate_design encoded_length edits planned_files source_files ≡ accepted tt
      → All (IsPlanned planned source_files) edits
        × (any (λ edit. is_at path (normalize_plan_path edit.path)) edits
            ≡ is_some (op_of path planned))
  validate_design-IsPlanned edits planned_files source_files planned path hp h =
      let (actual, total, collected, keys, entries, targets) =
        validated edits planned source_files
          (sym (accepted_first planned planned_files edits source_files hp) ∙ h) in
      let c = collect_edits-Collected edits [] actual 0 total collected in
      (
        each_planned planned actual source_files keys entries targets edits c.each,
        edited_exactly planned actual source_files keys entries targets edits path c,
      )
