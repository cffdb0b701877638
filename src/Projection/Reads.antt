-- ===== src/Projection/Reads.antt =====
-- What `get` reads behind `apply`, and that a repeated `apply` changes nothing.
use acoding_agent.Prelude.{
  ℕ, ◌≡◌, ◌≢◌, refl, ap, subst, Bool, true, false, ◌&&◌, ◌⊎◌, ◌||◌, not, some, List, [], ◌∷◌, ◌==◌,
  any, arith, inl, inr, Bool-cases,
}
use text.Mathlib.Text.{◌==◌ as str_eq}
use acoding_agent.Prelude.Checked.{accepted, refused, ◌>>=◌, >>=-eq-accepted, accepted-injective}
use acoding_agent.Domain.Enums.{RunStatus}
use acoding_agent.Run.World.{ProjectionEvent}
use acoding_agent.Projection.Store.{
  Error, RunProjection, AuditEvent, Tables, projection_of, overwrite, is_taken, has_run, update_row,
  upsert, find_projection, add_audit, audit_of, apply, event_of, get,
}

-- Whether the row shows what the new one brings.
abbrev Shows : RunProjection → RunProjection → Type 0
Shows new row =
    (row.status ≡ new.status)
    × (row.base_revision ≡ new.base_revision)
    × (row.updated_at ≡ new.updated_at)

has_run-update_row :
    (new : RunProjection) (run_id : ℕ) (rows : List RunProjection)
    → has_run run_id (update_row new rows) ≡ has_run run_id rows
unfolding update_row
has_run-update_row new run_id [] = refl
has_run-update_row new run_id (row ∷ rows) = elim (Bool-cases (row.run_id == new.run_id)) [
  | inl same ↦ rw (same) refl
  | inr other ↦ rw (other, has_run-update_row new run_id rows) refl
]

find-update_row :
    (new : RunProjection) (rows : List RunProjection)
    → has_run new.run_id rows ≡ true
    → (row : RunProjection) × (find_projection new.run_id (update_row new rows) ≡ some row)
      × Shows new row
unfolding find_projection update_row
find-update_row new [] h = cc
find-update_row new (row ∷ rows) h = elim (Bool-cases (row.run_id == new.run_id)) [
  | inl same ↦ (overwrite new row, rw (same) (ground arith), (refl, refl, refl))
  | inr other ↦
      let (found, e, shows) = find-update_row new rows (ground arith) in
      (found, rw (other) (ground (arith, e)), shows)
]

update_row-update_row :
    (new : RunProjection) (rows : List RunProjection)
    → update_row new (update_row new rows) ≡ update_row new rows
unfolding update_row
update_row-update_row new [] = refl
update_row-update_row new (row ∷ rows) = elim (Bool-cases (row.run_id == new.run_id)) [
  | inl same ↦ rw (same) (rw (same) refl)
  | inr other ↦ rw (other) (rw (other) (ap (λ r. row ∷ r) (update_row-update_row new rows)))
]

find-update_row_other :
    (run_id : ℕ) (new : RunProjection) (rows : List RunProjection)
    → new.run_id ≢ run_id
    → find_projection run_id (update_row new rows) ≡ find_projection run_id rows
unfolding find_projection update_row
find-update_row_other run_id new [] n = ground arith
find-update_row_other run_id new (row ∷ rows) n = elim (Bool-cases (row.run_id == new.run_id)) [
  | inl same ↦ rw (same) (ground arith)
  | inr other ↦ rw (other) (ground (arith, find-update_row_other run_id new rows n))
]

-- What `upsert` does with a row.
abbrev IsDone : RunProjection → List RunProjection → List RunProjection → Type 0
IsDone new rows rows' =
    ((row : RunProjection) × (find_projection new.run_id rows' ≡ some row) × Shows new row)
    × ((run_id : ℕ)
        → new.run_id ≢ run_id
        → find_projection run_id rows' ≡ find_projection run_id rows)

upsert-IsDone :
    (new : RunProjection) (rows : List RunProjection)
    → (has_run new.run_id rows || not (is_taken new.workflow_id rows)) ≡ true
    → (rows' : List RunProjection) × (upsert new rows ≡ accepted rows') × IsDone new rows rows'
unfolding upsert find_projection
upsert-IsDone new rows may = elim (Bool-cases (has_run new.run_id rows)) [
  | inl known ↦ (
    update_row new rows,
    rw (known) refl,
    (find-update_row new rows known, λ run_id n. find-update_row_other run_id new rows n),
  )
  | inr fresh ↦
      let free : is_taken new.workflow_id rows ≡ false = ground (arith, may, fresh) in
      (
        new ∷ rows,
        rw (fresh, free) refl,
        ((new, ground arith, (refl, refl, refl)), λ run_id n. ground arith),
      )
]

upsert-refused :
    (new : RunProjection) (rows : List RunProjection)
    → has_run new.run_id rows ≡ false
    → is_taken new.workflow_id rows ≡ true
    → upsert new rows ≡ refused Error.integrity_error
unfolding upsert
upsert-refused new rows fresh taken = rw (fresh, taken) refl

upsert-upsert :
    (new : RunProjection) (rows rows' : List RunProjection)
    → upsert new rows ≡ accepted rows'
    → upsert new rows' ≡ accepted rows'
unfolding upsert
upsert-upsert new rows rows' h = elim (Bool-cases (has_run new.run_id rows)) [
  | inl known ↦
      let e : update_row new rows ≡ rows' = ground (arith, known, h) in
      subst (λ rs. upsert new rs ≡ accepted rs) e
        (rw (has_run-update_row new new.run_id rows, known, update_row-update_row new rows) refl)
  | inr fresh ↦
      let e : new ∷ rows ≡ rows' = ground (arith, fresh, h) in
      subst (λ rs. upsert new rs ≡ accepted rs) e (ground arith)
]

add_audit-add_audit :
    (new : AuditEvent) (events : List AuditEvent)
    → add_audit new (add_audit new events) ≡ add_audit new events
add_audit-add_audit new events = elim (Bool-cases (any (λ e. e.event_id == new.event_id) events)) [
  | inl known ↦ rw (known) (rw (known) refl)
  | inr fresh ↦ rw (fresh) (ground arith)
]

-- Whether the event would add a row with a workflow id that stands in another row already.
abbrev pub conflicts : ProjectionEvent → Tables → Bool
conflicts e t =
    any (λ row. str_eq row.workflow_id e.workflow_id) t.projections
    && not (any (λ row. row.run_id == e.run_id) t.projections)

module _ (event_id : (run_id sequence : ℕ) → RunStatus → ℕ) where
  -- When an event has been applied, applying it again succeeds and leaves the tables as they are.
  pub apply-apply :
      (e : ProjectionEvent) (t t' : Tables)
      → apply event_id e t ≡ accepted t'
      → apply event_id e t' ≡ accepted t'
  unfolding apply ◌>>=◌
  apply-apply e t t' h =
      let (rows, h0, h1) = >>=-eq-accepted h in
      let again = upsert-upsert (projection_of e) t.projections rows h0 in
      subst (λ x. apply event_id e x ≡ accepted x) (accepted-injective h1)
        (rw (again, add_audit-add_audit (audit_of event_id e) t.audit_events) refl)

  -- An event whose run has no row and whose workflow id stands in a row is refused with an integrity
  -- error. Any other event is applied: behind it `get` reads the event's status, revision and time for its
  -- run, and for any other run what it read before.
  pub get-apply :
      (e : ProjectionEvent) (t : Tables) (other : ℕ)
      → e.run_id ≢ other
      → ((conflicts e t ≡ true) × (apply event_id e t ≡ refused Error.integrity_error))
        ⊎ ((conflicts e t ≡ false)
            × ((t' : Tables) × (apply event_id e t ≡ accepted t')
                × ((x : ProjectionEvent) × (get e.run_id t' ≡ some x)
                    × (x.status ≡ e.status)
                    × (x.base_revision ≡ e.base_revision)
                    × (x.occurred_at ≡ e.occurred_at))
                × (get other t' ≡ get other t)))
  unfolding apply get ◌>>=◌
  get-apply e t other apart = elim (Bool-cases (conflicts e t)) [
    | inl conflict ↦ inl (
      conflict,
      rw
          (upsert-refused (projection_of e) t.projections (ground (arith, conflict))
            (ground (arith, conflict)))
          refl,
    )
    | inr fine ↦
        let (rows, done, ((row, found, (s, b, o)), others)) =
          upsert-IsDone (projection_of e) t.projections (ground (arith, fine)) in
        inr (
          fine,
          (
            record {
              projections = rows;
              audit_events = add_audit (audit_of event_id e) t.audit_events;
            },
            rw (done) refl,
            (event_of row, rw (found, get) refl, s, b, o),
            rw (others other apart, get) refl,
          ),
        )
  ]
