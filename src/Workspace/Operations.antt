-- ===== src/Workspace/Operations.antt =====
-- Dictionaries of operations, and the checks that compare two of them.
use acoding_agent.Prelude.{
  ◌≡◌, refl, sym, ap, ◌∙◌, subst, Bool, true, false, ◌&&◌, not, some, [], ◌∷◌, Text, text_eq,
  text_eq_sound, if◌then◌else◌, Bool-cases, Option-cases, inl, inr, arith,
}
use acoding_agent.Prelude.Checked.{accepted, >>-eq-accepted}
use acoding_agent.Domain.Plans.{Operation, create, modify, delete}
use acoding_agent.Workspace.Files.{Files, get}
use acoding_agent.Workspace.Design.{
  same_operation, Operations, op_of, put_op, is_some, is_op, keys_in, entries_in, check_target,
  check_targets,
}

pub and-left : {x : Bool} (y : Bool) → not (x && y) ≡ false → x ≡ true
and-left {x} y h = ground arith

pub and-right : (x : Bool) {y : Bool} → not (x && y) ≡ false → y ≡ true
and-right x {y} h = ground arith

pub same_operation_sound : (a b : Operation) → same_operation a b ≡ true → a ≡ b
same_operation_sound a b h = ground arith

pub op_of-put_op :
    (q path : Text) (operation : Operation) (ops : Operations)
    → op_of q (put_op path operation ops) ≡ (if text_eq q path then some operation else op_of q ops)
unfolding op_of put_op
op_of-put_op q path operation [] = refl
op_of-put_op q path operation ((p, old) ∷ ops) = elim (Bool-cases (text_eq path p)) [
  | inl here ↦
      let same : text_eq q path ≡ text_eq q p = ap (λ x. text_eq q x) (text_eq_sound path p here) in
      ground arith
  | inr other ↦ elim (Bool-cases (text_eq q path)) [
    | inl h ↦
        let apart : text_eq q p ≡ false =
          subst (λ x. text_eq x p ≡ false) (sym (text_eq_sound q path h)) other in
        ground (arith, op_of-put_op q path operation ops)
    | inr h ↦ ground (arith, op_of-put_op q path operation ops)
  ]
]

-- An entry of one dictionary is one of the other.
pub entries_in-op_of :
    (ops others : Operations) (path : Text) (operation : Operation)
    → entries_in ops others ≡ true
    → op_of path ops ≡ some operation
    → op_of path others ≡ some operation
unfolding op_of
entries_in-op_of [] others path operation h f = cc
entries_in-op_of ((p, o) ∷ ops) others path operation h f = elim (Bool-cases (text_eq path p)) [
  | inr other ↦
      entries_in-op_of ops others path operation (ground (arith, h)) (ground (arith, f, other))
  | inl here ↦
      let same : o ≡ operation = ground (arith, f, here) in
      let known : is_op (op_of p others) o ≡ true = ground (arith, h) in
      elim (Option-cases (op_of p others)) [
        | inl e ↦ absurd (ground (arith, known, e))
        | inr (planned, e) ↦
            let ok : same_operation planned o ≡ true = ground (arith, known, e) in
            ap (λ x. op_of x others) (text_eq_sound path p here)
            ∙ e
            ∙ ap some (same_operation_sound planned o ok ∙ same)
      ]
]

pub keys_in-op_of :
    (ops others : Operations) (path : Text) (operation : Operation)
    → keys_in ops others ≡ true
    → op_of path ops ≡ some operation
    → is_some (op_of path others) ≡ true
unfolding op_of
keys_in-op_of [] others path operation h f = cc
keys_in-op_of ((p, o) ∷ ops) others path operation h f = elim (Bool-cases (text_eq path p)) [
  | inr other ↦
      keys_in-op_of ops others path operation (ground (arith, h)) (ground (arith, f, other))
  | inl here ↦ ap (λ x. is_some (op_of x others)) (text_eq_sound path p here) ∙ ground (arith, h)
]

-- Whether an operation needs its target.
abbrev pub needs_target : Operation → Bool
needs_target create = false
needs_target modify = true
needs_target delete = true

check_target-exists :
    (operation : Operation) (exists : Bool)
    → check_target operation exists ≡ accepted tt
    → exists ≡ needs_target operation
check_target-exists create true h = cc
check_target-exists create false h = refl
check_target-exists modify true h = refl
check_target-exists modify false h = cc
check_target-exists delete true h = refl
check_target-exists delete false h = cc

pub check_targets-op_of :
    (ops : Operations) (source_files : Files) (path : Text) (operation : Operation)
    → check_targets ops source_files ≡ accepted tt
    → op_of path ops ≡ some operation
    → is_some (get path source_files) ≡ needs_target operation
unfolding check_targets op_of
check_targets-op_of [] source_files path operation h f = cc
check_targets-op_of ((p, o) ∷ ops) source_files path operation h f =
    let (first, rest) = >>-eq-accepted h in
    elim (Bool-cases (text_eq path p)) [
      | inr other ↦
          check_targets-op_of ops source_files path operation rest (ground (arith, f, other))
      | inl here ↦
          let same : o ≡ operation = ground (arith, f, here) in
          ap (λ x. is_some (get x source_files)) (text_eq_sound path p here)
          ∙ check_target-exists o (is_some (get p source_files)) first
          ∙ ap needs_target same
    ]
