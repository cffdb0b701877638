-- ===== src/Artifacts/Promises.antt =====
-- Writes that are read back, whatever is written after them.
use acoding_agent.Prelude.{
  ℕ, ◌≡◌, refl, sym, ap, ◌∙◌, subst, Bool, true, false, some, List, [], ◌∷◌, Text, text_eq_sound,
  text_eq_refl, length, All, Bool-cases, Option-cases, inl, inr, arith,
}
use acoding_agent.Prelude.Checked.{
  Checked, accepted, refused, ◌>>=◌, ◌>>◌, refuse_if, found_or, >>-eq-accepted, accepted-injective,
  refuse_if-eq-accepted,
}
use acoding_agent.Domain.Enums.{ArtifactKind, same_kind-eq, same_kind_refl}
use acoding_agent.Artifacts.Refs.{
  ArtifactRef, Artifact, ArtifactMetadata, ArtifactCaller, is_valid_ref, row_to_ref,
}
use acoding_agent.Artifacts.Access.{check_read_access}
use acoding_agent.Artifacts.Objects.{ObjectStore}
use acoding_agent.Artifacts.Store.{
  Error, value_error, State, has_identity, find_by_content_identity, insert, checked_ref, new_row,
  finish, record_row, put_row, put_bytes, get_bytes,
}
use acoding_agent.Artifacts.Intact.{IsStored, IsIntact, put_row-IsIntact, put_row-IsStored}

find-All :
    (P : Artifact → Type 0) (tenant_id run_id : ℕ) (kind : ArtifactKind) (sha256 : Text)
    (rows : List Artifact) (row : Artifact)
    → find_by_content_identity tenant_id run_id kind sha256 rows ≡ some row
    → All P rows
    → P row × (has_identity tenant_id run_id kind sha256 row ≡ true)
unfolding find_by_content_identity
find-All P tenant_id run_id kind sha256 [] row h all = cc
find-All P tenant_id run_id kind sha256 (r ∷ rows) row h (p, all) =
    elim (Bool-cases (has_identity tenant_id run_id kind sha256 r)) [
      | inl here ↦
          let same : r ≡ row = ground (arith, h, here) in
          subst (λ x. P x × (has_identity tenant_id run_id kind sha256 x ≡ true)) same (p, here)
      | inr other ↦ find-All P tenant_id run_id kind sha256 rows row (ground (arith, h, other)) all
    ]

has_identity-eq :
    (tenant_id run_id : ℕ) (kind : ArtifactKind) (sha256 : Text) (row : Artifact)
    → has_identity tenant_id run_id kind sha256 row ≡ true
    → (row.sha256 ≡ sha256) × (row.kind ≡ kind)
has_identity-eq tenant_id run_id kind sha256 row h = (
  text_eq_sound row.sha256 sha256 (ground (arith, h)),
  same_kind-eq row.kind kind (ground (arith, h)),
)

identity_refl :
    (row : Artifact) → has_identity row.tenant_id row.run_id row.kind row.sha256 row ≡ true
identity_refl row = ground (arith, same_kind_refl row.kind, text_eq_refl row.sha256)

find_head :
    (row : Artifact) (rows : List Artifact)
    → find_by_content_identity row.tenant_id row.run_id row.kind row.sha256 (row ∷ rows) ≡ some row
unfolding find_by_content_identity
find_head row rows = rw (identity_refl row) refl

-- One call of `put_bytes`.
pub record Write : Type 0 where
  pub artifact_id : ℕ
  pub created_at : ℕ
  pub kind : ArtifactKind
  pub content : Text
  pub metadata : ArtifactMetadata

module _ (sha256 : Text → Text) (uuid_text : ℕ → Text) {O : Type 0} (storage : ObjectStore O) where
  abbrev pub put : Write → State O → State O × Checked Error ArtifactRef
  put w = put_bytes sha256 uuid_text storage w.artifact_id w.created_at w.kind w.content w.metadata

  unfoldable pub put_all : List Write → State O → State O
  put_all [] s = s
  put_all (w ∷ ws) s = put_all ws ((put w s).0)

  -- The row behind an answer.
  record Answers (new : Artifact) (inputs : List ℕ) (s' : State O) (ref : ArtifactRef)
      : Type 0 where
    row : Artifact
    found :
        find_by_content_identity new.tenant_id new.run_id new.kind new.sha256 s'.artifacts
        ≡ some row
    valid_new : is_valid_ref (row_to_ref new inputs) ≡ true
    valid : is_valid_ref (row_to_ref row inputs) ≡ true
    built : ref ≡ row_to_ref row inputs

  finish-Answers :
      (new : Artifact) (inputs : List ℕ) (rows : List Artifact) (o : O)
      (r : Checked Error (List Artifact)) (s' : State O) (ref : ArtifactRef)
      → is_valid_ref (row_to_ref new inputs) ≡ true
      → insert new rows ≡ r
      → finish sha256 uuid_text storage new inputs rows o r ≡ (s', accepted ref)
      → Answers new inputs s' ref
  unfolding finish insert
  finish-Answers new inputs rows o (refused reason) s' ref good e h = cc
  finish-Answers new inputs rows o (accepted rows') s' ref good e h =
      let (fine, e2) = >>-eq-accepted e in
      record {
        row = new;
        found =
            subst
              (λ xs.
                find_by_content_identity new.tenant_id new.run_id new.kind new.sha256 xs ≡ some new)
              (accepted-injective e2 ∙ ap (λ x. x.0.artifacts) h) (find_head new rows);
        valid_new = good;
        valid = good;
        built = sym (accepted-injective (ap (λ x. x.1) h));
      }

  checked_ref-Answers :
      (new old : Artifact) (inputs : List ℕ) (s s' : State O) (ref : ArtifactRef)
      → find_by_content_identity new.tenant_id new.run_id new.kind new.sha256 s.artifacts ≡ some old
      → is_valid_ref (row_to_ref new inputs) ≡ true
      → ◌≡◌ {A = State O × Checked Error ArtifactRef}
          (s, checked_ref (row_to_ref old inputs))
          (s', accepted ref)
      → Answers new inputs s' ref
  unfolding checked_ref
  checked_ref-Answers new old inputs s s' ref e good h =
      let (fine, e2) = >>-eq-accepted (ap (λ x. x.1) h) in
      record {
        row = old;
        found =
            subst
              (λ x.
                find_by_content_identity new.tenant_id new.run_id new.kind new.sha256 x.artifacts
                ≡ some old)
              (ap (λ x. x.0) h) e;
        valid_new = good;
        valid = ground (arith, refuse_if-eq-accepted value_error fine);
        built = sym (accepted-injective e2);
      }

  record_row-Answers :
      (new : Artifact) (inputs : List ℕ) (rows : List Artifact) (o : O) (b : Bool) (s' : State O)
      (ref : ArtifactRef)
      → is_valid_ref (row_to_ref new inputs) ≡ true
      → record_row sha256 uuid_text storage new inputs rows (o, b) ≡ (s', accepted ref)
      → Answers new inputs s' ref
  unfolding record_row
  record_row-Answers new inputs rows o true s' ref good h =
      finish-Answers new inputs rows o (insert new rows) s' ref good refl h
  record_row-Answers new inputs rows o false s' ref good h = absurd cc

  put_row-Answers :
      (new : Artifact) (content : Text) (inputs : List ℕ) (s s' : State O) (ref : ArtifactRef)
      → put_row sha256 uuid_text storage new content inputs s ≡ (s', accepted ref)
      → Answers new inputs s' ref
  unfolding put_row
  put_row-Answers new content inputs s s' ref h =
      elim (Bool-cases (is_valid_ref (row_to_ref new inputs))) [
        | inr bad ↦
            let red : put_row sha256 uuid_text storage new content inputs s
                ≡ (s, refused value_error) =
              rw bad refl in
            absurd cc
        | inl good ↦
            elim (Option-cases
              (find_by_content_identity new.tenant_id new.run_id new.kind new.sha256 s.artifacts)) [
                | inr (old, e) ↦
                    let red : put_row sha256 uuid_text storage new content inputs s
                        ≡ (s, checked_ref (row_to_ref old inputs)) =
                      rw (good, e) refl in
                    checked_ref-Answers new old inputs s s' ref e good (sym red ∙ h)
                | inl e ↦
                    let stored = storage.put_object new.object_key content s.objects in
                    let red : put_row sha256 uuid_text storage new content inputs s
                        ≡ record_row sha256 uuid_text storage new inputs s.artifacts stored =
                      rw (good, e) refl in
                    record_row-Answers new inputs s.artifacts (stored.0) (stored.1) s' ref good
                      (sym red ∙ h)
              ]
      ]

  -- A second write answers as the first.
  put_row-twice :
      (new new' : Artifact) (content : Text) (inputs : List ℕ) (s s' : State O) (ref : ArtifactRef)
      → put_row sha256 uuid_text storage new content inputs s ≡ (s', accepted ref)
      → is_valid_ref (row_to_ref new' inputs) ≡ is_valid_ref (row_to_ref new inputs)
      → find_by_content_identity new'.tenant_id new'.run_id new'.kind new'.sha256 s'.artifacts
        ≡ find_by_content_identity new.tenant_id new.run_id new.kind new.sha256 s'.artifacts
      → put_row sha256 uuid_text storage new' content inputs s' ≡ (s', accepted ref)
  unfolding put_row checked_ref ◌>>◌ refuse_if
  put_row-twice new new' content inputs s s' ref h valid same =
      let a = put_row-Answers new content inputs s s' ref h in
      rw (valid, a.valid_new, same, a.found, a.valid, a.built) refl

  -- A second write of the same content, of the same kind and with the same metadata, answers with the
  -- reference that the first one answered with and changes nothing, under any new identifier and time.
  pub put_bytes-twice :
      (w : Write) (artifact_id created_at : ℕ) (s s' : State O) (ref : ArtifactRef)
      → put w s ≡ (s', accepted ref)
      → put (record w { artifact_id = artifact_id; created_at = created_at }) s'
        ≡ (s', accepted ref)
  unfolding put_bytes
  put_bytes-twice w artifact_id created_at s s' ref h =
      put_row-twice
        (new_row sha256 uuid_text storage w.artifact_id w.created_at w.kind w.content w.metadata)
        (new_row sha256 uuid_text storage artifact_id created_at w.kind w.content w.metadata)
        w.content w.metadata.input_artifact_ids s s' ref h refl refl

  module _ (digest : (content : Text) → length (sha256 content) ≡ 64) where
    pub put-IsIntact :
        (w : Write) (s : State O)
        → IsIntact sha256 uuid_text storage digest s
        → IsIntact sha256 uuid_text storage digest ((put w s).0)
    unfolding put_bytes
    put-IsIntact w s =
        put_row-IsIntact sha256 uuid_text storage digest
          (new_row sha256 uuid_text storage w.artifact_id w.created_at w.kind w.content w.metadata)
          w.content w.metadata.input_artifact_ids s (refl, refl)

    put_all-IsStored :
        (ws : List Write) (row : Artifact) (s : State O)
        → IsStored sha256 uuid_text storage digest row s.objects
        → IsStored sha256 uuid_text storage digest row ((put_all ws s).objects)
    unfolding put_all put_bytes
    put_all-IsStored [] row s st = st
    put_all-IsStored (w ∷ ws) row s st = put_all-IsStored ws row ((put w s).0) (
        put_row-IsStored sha256 uuid_text storage digest row
          (new_row sha256 uuid_text storage w.artifact_id w.created_at w.kind w.content w.metadata)
          w.content w.metadata.input_artifact_ids s (refl, refl) st)

    get_bytes-IsStored :
        (row : Artifact) (inputs : List ℕ) (caller : ArtifactCaller) (s : State O)
        → (st : IsStored sha256 uuid_text storage digest row s.objects)
        → check_read_access row.kind caller ≡ true
        → get_bytes sha256 uuid_text storage (row_to_ref row inputs) caller s ≡ accepted st.content
    unfolding get_bytes refuse_if found_or ◌>>=◌ ◌>>◌
    get_bytes-IsStored row inputs caller s st allowed =
        rw (allowed, st.found, st.same_digest, text_eq_refl row.sha256) refl

    -- What a write has answered with can be read back after any further writes, of any run: a caller
    -- whose role may read the kind gets the content that was written. The store is intact to begin
    -- with, digests have 64 characters, and no other content has the digest of this one.
    pub put_bytes-get_bytes :
        (w : Write) (ws : List Write) (caller : ArtifactCaller) (s s' : State O) (ref : ArtifactRef)
        → IsIntact sha256 uuid_text storage digest s
        → put w s ≡ (s', accepted ref)
        → check_read_access w.kind caller ≡ true
        → ((other : Text) → sha256 other ≡ sha256 w.content → other ≡ w.content)
        → get_bytes sha256 uuid_text storage ref caller (put_all ws s') ≡ accepted w.content
    unfolding put_bytes
    put_bytes-get_bytes w ws caller s s' ref intact h allowed unique =
        let new =
          new_row sha256 uuid_text storage w.artifact_id w.created_at w.kind w.content w.metadata in
        let a = put_row-Answers new w.content w.metadata.input_artifact_ids s s' ref h in
        let intact' : IsIntact sha256 uuid_text storage digest s' =
          subst (λ x. IsIntact sha256 uuid_text storage digest x) (ap (λ x. x.0) h)
            (put-IsIntact w s intact) in
        let (st, ident) =
          find-All (λ row. IsStored sha256 uuid_text storage digest row s'.objects) new.tenant_id
            new.run_id new.kind new.sha256 s'.artifacts a.row a.found intact' in
        let (same_sha, kind_eq) =
          has_identity-eq new.tenant_id new.run_id new.kind new.sha256 a.row ident in
        let st' = put_all-IsStored ws a.row s' st in
        ap (λ x. get_bytes sha256 uuid_text storage x caller (put_all ws s')) a.built
        ∙ get_bytes-IsStored a.row w.metadata.input_artifact_ids caller (put_all ws s') st'
            (ap (λ x. check_read_access x caller) kind_eq ∙ allowed)
        ∙ ap accepted (unique st'.content (st'.same_digest ∙ same_sha))
