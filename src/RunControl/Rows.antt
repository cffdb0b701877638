-- ===== src/RunControl/Rows.antt =====
-- Searches in the table `idempotency_keys` behind its insertions and updates.
use acoding_agent.Prelude.{
  ℕ, ◌≡◌, refl, sym, ap, ◌∙◌, subst, ◌==◌, true, false, ◌&&◌, Option, some, List, [], ◌∷◌, any,
  Text, text_eq, text_eq_sound, text_eq_refl, Bool-cases, inl, inr, arith,
}
use acoding_agent.Prelude.Checked.{
  accepted, refused, ◌>>=◌, ◌>>◌, refuse_if, found_or, >>-eq-accepted, accepted-injective,
  >>=-eq-accepted, found_or-eq-accepted, refuse_if-eq-accepted,
}
use acoding_agent.RunControl.Records.{
  KeyStatus, IdempotencyKey, Error, integrity_error, run_unavailable, idempotency_conflict,
}
use acoding_agent.RunControl.Keys.{
  has_key, find_key, insert_key, check_record, set_idempotency_status, owns, require_owned_run,
}

-- What an update of the status makes of a row.
abbrev pub marked : KeyStatus → (request_artifact_id : ℕ) → IdempotencyKey → IdempotencyKey
marked status request_artifact_id row = record row {
  status = status;
  request_artifact_id = some request_artifact_id;
}

pub find_key-has_key :
    (tenant_id : ℕ) (key : Text) (rows : List IdempotencyKey) (row : IdempotencyKey)
    → find_key tenant_id key rows ≡ some row
    → has_key tenant_id key row ≡ true
unfolding find_key
find_key-has_key tenant_id key [] row h = cc
find_key-has_key tenant_id key (r ∷ rows) row h =
    ground (arith, h, find_key-has_key tenant_id key rows row)

pub find_key-any :
    (tenant_id : ℕ) (key : Text) (rows : List IdempotencyKey) (row : IdempotencyKey)
    → find_key tenant_id key rows ≡ some row
    → any (has_key tenant_id key) rows ≡ true
unfolding find_key
find_key-any tenant_id key [] row h = cc
find_key-any tenant_id key (r ∷ rows) row h = ground (arith, h, find_key-any tenant_id key rows row)

pub find_key-owns :
    (tenant_id : ℕ) (key : Text) (rows : List IdempotencyKey) (row : IdempotencyKey)
    → find_key tenant_id key rows ≡ some row
    → any (owns tenant_id row.run_id) rows ≡ true
unfolding find_key
find_key-owns tenant_id key [] row h = cc
find_key-owns tenant_id key (r ∷ rows) row h =
    ground (arith, h, find_key-owns tenant_id key rows row)

-- The row that was marked.
pub find_key-set :
    (tenant_id : ℕ) (key : Text) (status : KeyStatus) (artifact : ℕ) (rows : List IdempotencyKey)
    (row : IdempotencyKey)
    → find_key tenant_id key rows ≡ some row
    → find_key tenant_id key (set_idempotency_status tenant_id key status artifact rows)
      ≡ some (marked status artifact row)
unfolding find_key set_idempotency_status
find_key-set tenant_id key status artifact [] row h = cc
find_key-set tenant_id key status artifact (r ∷ rows) row h =
    ground (arith, h, find_key-set tenant_id key status artifact rows row)

-- Two keys of which a row has one and not the other.
has_key-differ :
    (tenant_id tenant_id' : ℕ) (key key' : Text) (row : IdempotencyKey)
    → (tenant_id == tenant_id' && text_eq key key') ≡ false
    → has_key tenant_id' key' row ≡ true
    → has_key tenant_id key row ≡ false
has_key-differ tenant_id tenant_id' key key' row differ h =
    let same = text_eq_sound row.key key' (ground (arith, h)) in
    elim (Bool-cases (has_key tenant_id key row)) [
      | inr no_key ↦ no_key
      | inl both ↦
          let same' = text_eq_sound row.key key (ground (arith, both)) in
          let keys : text_eq key key' ≡ true =
            subst (λ x. text_eq x key' ≡ true) same' (ground (arith, h)) in
          absurd (ground (arith, h, both, keys, differ))
    ]

-- Marking the row of another key changes nothing for this one.
pub find_key-set_other :
    (tenant_id tenant_id' : ℕ) (key key' : Text) (status : KeyStatus) (artifact : ℕ)
    (rows : List IdempotencyKey)
    → (tenant_id == tenant_id' && text_eq key key') ≡ false
    → find_key tenant_id key (set_idempotency_status tenant_id' key' status artifact rows)
      ≡ find_key tenant_id key rows
unfolding find_key set_idempotency_status
find_key-set_other tenant_id tenant_id' key key' status artifact [] differ = refl
find_key-set_other tenant_id tenant_id' key key' status artifact (r ∷ rows) differ =
    elim (Bool-cases (has_key tenant_id' key' r)) [
      | inl theirs ↦
          let mine = has_key-differ tenant_id tenant_id' key key' r differ theirs in
          ground (
            arith,
            theirs,
            mine,
            find_key-set_other tenant_id tenant_id' key key' status artifact rows differ,
          )
      | inr other ↦ ground (
        arith,
        other,
        find_key-set_other tenant_id tenant_id' key key' status artifact rows differ,
      )
    ]

-- An insertion of a row that is there changes nothing.
pub insert_key-present :
    (new : IdempotencyKey) (rows : List IdempotencyKey)
    → any (has_key new.tenant_id new.key) rows ≡ true
    → insert_key new rows ≡ accepted rows
unfolding insert_key
insert_key-present new rows h = rw h refl

-- An insertion that goes through either finds the key, or adds the row.
pub insert_key-absent :
    (new : IdempotencyKey) (rows rows' : List IdempotencyKey)
    → any (has_key new.tenant_id new.key) rows ≡ false
    → insert_key new rows ≡ accepted rows'
    → new ∷ rows ≡ rows'
unfolding insert_key
insert_key-absent new rows rows' absent h =
    let red : insert_key new rows ≡ (do
      refuse_if (any (λ row. row.run_id == new.run_id) rows) integrity_error
      accepted (new ∷ rows)) =
      rw absent refl in
    accepted-injective ((>>-eq-accepted (sym red ∙ h)).1)

any-same_key :
    (new : IdempotencyKey) (rows : List IdempotencyKey) (tenant_id : ℕ) (key : Text)
    → has_key tenant_id key new ≡ true
    → any (has_key tenant_id key) rows ≡ true
    → any (has_key new.tenant_id new.key) rows ≡ true
any-same_key new rows tenant_id key h there =
    let tenants : new.tenant_id ≡ tenant_id = ground (arith, h) in
    let keys = text_eq_sound new.key key (ground (arith, h)) in rw (tenants, keys) there

pub insert_key-find :
    (new : IdempotencyKey) (rows rows' : List IdempotencyKey) (tenant_id : ℕ) (key : Text)
    (row : IdempotencyKey)
    → insert_key new rows ≡ accepted rows'
    → find_key tenant_id key rows ≡ some row
    → find_key tenant_id key rows' ≡ some row
unfolding find_key
insert_key-find new rows rows' tenant_id key row h f =
    elim (Bool-cases (any (has_key new.tenant_id new.key) rows)) [
      | inl present ↦
          let same : rows ≡ rows' =
            accepted-injective (sym (insert_key-present new rows present) ∙ h) in
          subst (λ x. find_key tenant_id key x ≡ some row) same f
      | inr absent ↦
          subst (λ x. find_key tenant_id key x ≡ some row)
            (insert_key-absent new rows rows' absent h)
            (elim (Bool-cases (has_key tenant_id key new)) [
              | inl same ↦ absurd (
                  let there =
                    any-same_key new rows tenant_id key same
                      (find_key-any tenant_id key rows row f) in
                  cc)
              | inr other ↦ rw other f
            ])
    ]

-- What an accepted record is.
pub check_record-eq-accepted :
    (request_hash : Text) (found : Option IdempotencyKey) (row : IdempotencyKey)
    → check_record request_hash found ≡ accepted row
    → (found ≡ some row) × (row.request_sha256 ≡ request_hash)
unfolding check_record
check_record-eq-accepted request_hash found row h =
    let (r, e, h1) = >>=-eq-accepted h in
    let (fine, h2) = >>-eq-accepted h1 in
    let same = accepted-injective h2 in
    (
      found_or-eq-accepted run_unavailable found e ∙ ap some same,
      ap (λ x. x.request_sha256) (sym same)
          ∙ text_eq_sound r.request_sha256 request_hash
              (ground (arith, refuse_if-eq-accepted idempotency_conflict fine)),
    )

pub check_record-same :
    (request_hash : Text) (row : IdempotencyKey)
    → row.request_sha256 ≡ request_hash
    → check_record request_hash (some row) ≡ accepted row
unfolding check_record ◌>>=◌ ◌>>◌ found_or refuse_if
check_record-same request_hash row h = rw (h, text_eq_refl request_hash) refl

pub check_record-other :
    (request_hash : Text) (row : IdempotencyKey)
    → text_eq row.request_sha256 request_hash ≡ false
    → check_record request_hash (some row) ≡ refused idempotency_conflict
unfolding check_record ◌>>=◌ ◌>>◌ found_or refuse_if
check_record-other request_hash row h = rw h refl

pub require_owned_run-owned :
    (tenant_id run_id : ℕ) (rows : List IdempotencyKey)
    → any (owns tenant_id run_id) rows ≡ true
    → require_owned_run tenant_id run_id rows ≡ accepted tt
unfolding require_owned_run refuse_if
require_owned_run-owned tenant_id run_id rows h = rw h refl

find_of_any :
    (tenant_id : ℕ) (key : Text) (rows : List IdempotencyKey)
    → any (has_key tenant_id key) rows ≡ true
    → (row : IdempotencyKey) × (find_key tenant_id key rows ≡ some row)
unfolding find_key
find_of_any tenant_id key [] h = absurd cc
find_of_any tenant_id key (r ∷ rows) h = elim (Bool-cases (has_key tenant_id key r)) [
  | inl here ↦ (r, rw here refl)
  | inr other ↦ rw other (find_of_any tenant_id key rows (ground (arith, h, other)))
]

-- Behind an insertion the row is there.
pub insert_key-found :
    (new : IdempotencyKey) (rows rows' : List IdempotencyKey)
    → insert_key new rows ≡ accepted rows'
    → (row : IdempotencyKey) × (find_key new.tenant_id new.key rows' ≡ some row)
unfolding find_key
insert_key-found new rows rows' h = elim (Bool-cases (any (has_key new.tenant_id new.key) rows)) [
  | inl present ↦
      let same : rows ≡ rows' =
        accepted-injective (sym (insert_key-present new rows present) ∙ h) in
      subst (λ x. (row : IdempotencyKey) × (find_key new.tenant_id new.key x ≡ some row)) same
        (find_of_any new.tenant_id new.key rows present)
  | inr absent ↦
      subst (λ x. (row : IdempotencyKey) × (find_key new.tenant_id new.key x ≡ some row))
        (insert_key-absent new rows rows' absent h) (new, rw (text_eq_refl new.key) (ground arith))
]

-- An insertion fails for a second run under one identifier only.
pub insert_key-refused :
    (new : IdempotencyKey) (rows : List IdempotencyKey) (reason : Error)
    → insert_key new rows ≡ refused reason
    → reason ≡ integrity_error
unfolding insert_key ◌>>◌ refuse_if
insert_key-refused new rows reason h =
    elim (Bool-cases (any (has_key new.tenant_id new.key) rows)) [
      | inl present ↦ absurd (ground (arith, h, present))
      | inr absent ↦ elim (Bool-cases (any (λ row. row.run_id == new.run_id) rows)) [
        | inl taken ↦ ground (arith, h, absent, taken)
        | inr free ↦ absurd (ground (arith, h, absent, free))
      ]
    ]
