-- ===== src/Artifacts/Intact.antt =====
-- What the store keeps: the object of every row is there and has the digest that the row says.
use acoding_agent.Prelude.{
  ℕ, ◌≡◌, refl, sym, subst, Option-cases, ap, ◌∙◌, Bool, true, false, some, List, [], ◌∷◌, Text,
  text_eq, text_eq_sound, length, All, Bool-cases, inl, inr,
}
use acoding_agent.Prelude.Checked.{Checked, accepted, refused, >>-eq-accepted, accepted-injective}
use acoding_agent.Artifacts.Refs.{Artifact, is_valid_ref, build_object_key, row_to_ref}
use acoding_agent.Artifacts.Objects.{ObjectStore}
use acoding_agent.Artifacts.Keys.{build_object_key-digest}
use acoding_agent.Artifacts.Store.{
  Error, State, find_by_content_identity, insert, finish, record_row, put_row,
}

module _ (sha256 : Text → Text) (uuid_text : ℕ → Text) {O : Type 0} (storage : ObjectStore O)
    (digest : (content : Text) → length (sha256 content) ≡ 64) where
  pub record IsStored (row : Artifact) (o : O) : Type 0 where
    pub content : Text
    pub found : storage.get_object row.object_key o ≡ some content
    pub same_digest : sha256 content ≡ row.sha256
    pub key :
        row.object_key ≡ build_object_key uuid_text row.tenant_id row.run_id row.kind row.sha256

  abbrev pub IsIntact : State O → Type 0
  IsIntact s = All (λ row. IsStored row s.objects) s.artifacts

  -- A row for a content, as `put_bytes` makes it.
  abbrev pub IsFor : Text → Artifact → Type 0
  IsFor content row =
      (sha256 content ≡ row.sha256)
      × (row.object_key ≡ build_object_key uuid_text row.tenant_id row.run_id row.kind row.sha256)

  -- Rows with one key have one digest.
  same-sha256 :
      (row new : Artifact) (content content' : Text)
      → IsFor content row
      → IsFor content' new
      → row.object_key ≡ new.object_key
      → row.sha256 ≡ new.sha256
  same-sha256 row new content content' (d, k) (d', k') same =
      build_object_key-digest uuid_text row.tenant_id new.tenant_id row.run_id new.run_id row.kind
        new.kind row.sha256 new.sha256 (sym k ∙ same ∙ k')
        (sym (ap length d) ∙ digest content ∙ sym (digest content') ∙ ap length d')

  -- The object of a row after a write under the same key.
  rewritten :
      (row new : Artifact) (content : Text) (o' : O)
      → IsFor content new
      → row.object_key ≡ new.object_key
      → row.sha256 ≡ new.sha256
      → row.object_key ≡ build_object_key uuid_text row.tenant_id row.run_id row.kind row.sha256
      → storage.get_object new.object_key o' ≡ some content
      → IsStored row o'
  rewritten row new content o' (d, k) same sha key h = record {
    content = content;
    found = ap (λ x. storage.get_object x o') same ∙ h;
    same_digest = d ∙ sym sha;
    key = key;
  }

  overwritten :
      (row new : Artifact) (content : Text) (o o' : O) (b : Bool)
      → IsFor content new
      → storage.put_object new.object_key content o ≡ (o', b)
      → row.object_key ≡ new.object_key
      → IsStored row o
      → IsStored row o'
  overwritten row new content o o' true for_new h same st =
      rewritten row new content o' for_new same
        (same-sha256 row new st.content content (st.same_digest, st.key) for_new same) st.key
        (storage.get-put new.object_key content o o' h)
  overwritten row new content o o' false for_new h same st =
      elim (storage.get-put_failed new.object_key content o o' h) [
        | inl as_before ↦ record {
          content = st.content;
          found =
              ap (λ x. storage.get_object x o') same
              ∙ as_before
              ∙ ap (λ x. storage.get_object x o) (sym same)
              ∙ st.found;
          same_digest = st.same_digest;
          key = st.key;
        }
        | inr written ↦
            rewritten row new content o' for_new same
              (same-sha256 row new st.content content (st.same_digest, st.key) for_new same) st.key
              written
      ]

  -- No write spoils the object of a row.
  put-IsStored :
      (row new : Artifact) (content : Text) (o o' : O) (b : Bool)
      → IsFor content new
      → storage.put_object new.object_key content o ≡ (o', b)
      → IsStored row o
      → IsStored row o'
  put-IsStored row new content o o' b for_new h st =
      elim (Bool-cases (text_eq row.object_key new.object_key)) [
        | inr other ↦ record {
          content = st.content;
          found =
              storage.get-put_other row.object_key new.object_key content o o' b h other ∙ st.found;
          same_digest = st.same_digest;
          key = st.key;
        }
        | inl same ↦
            overwritten row new content o o' b for_new h
              (text_eq_sound row.object_key new.object_key same) st
      ]

  put-All :
      (rows : List Artifact) (new : Artifact) (content : Text) (o o' : O) (b : Bool)
      → IsFor content new
      → storage.put_object new.object_key content o ≡ (o', b)
      → All (λ row. IsStored row o) rows
      → All (λ row. IsStored row o') rows
  put-All [] new content o o' b for_new h all = tt
  put-All (row ∷ rows) new content o o' b for_new h (st, all) = (
    put-IsStored row new content o o' b for_new h st,
    put-All rows new content o o' b for_new h all,
  )

  finish-IsIntact :
      (new : Artifact) (content : Text) (inputs : List ℕ) (rows : List Artifact) (o : O)
      (r : Checked Error (List Artifact))
      → insert new rows ≡ r
      → All (λ row. IsStored row o) rows
      → IsStored new o
      → IsIntact ((finish sha256 uuid_text storage new inputs rows o r).0)
  unfolding finish insert
  finish-IsIntact new content inputs rows o (refused reason) h all st = all
  finish-IsIntact new content inputs rows o (accepted rows') h all st =
      let (fine, e) = >>-eq-accepted h in
      subst (λ xs. All (λ row. IsStored row o) xs) (accepted-injective e) (st, all)

  record_row-IsIntact :
      (new : Artifact) (content : Text) (inputs : List ℕ) (rows : List Artifact) (o o' : O)
      (b : Bool)
      → IsFor content new
      → storage.put_object new.object_key content o ≡ (o', b)
      → All (λ row. IsStored row o) rows
      → IsIntact ((record_row sha256 uuid_text storage new inputs rows (o', b)).0)
  unfolding record_row
  record_row-IsIntact new content inputs rows o o' false for_new h all =
      put-All rows new content o o' false for_new h all
  record_row-IsIntact new content inputs rows o o' true for_new h all =
      finish-IsIntact new content inputs rows o' (insert new rows) refl
        (put-All rows new content o o' true for_new h all)
        (rewritten new new content o' for_new refl refl (for_new.1)
          (storage.get-put new.object_key content o o' h))

  pub put_row-IsIntact :
      (new : Artifact) (content : Text) (inputs : List ℕ) (s : State O)
      → IsFor content new
      → IsIntact s
      → IsIntact ((put_row sha256 uuid_text storage new content inputs s).0)
  unfolding put_row
  put_row-IsIntact new content inputs s for_new all =
      elim (Bool-cases (is_valid_ref (row_to_ref new inputs))) [
        | inr bad ↦ rw bad all
        | inl good ↦
            elim (Option-cases
              (find_by_content_identity new.tenant_id new.run_id new.kind new.sha256 s.artifacts)) [
                | inr (row, e) ↦ rw (good, e) all
                | inl e ↦
                    rw (good, e)
                      (record_row-IsIntact new content inputs s.artifacts s.objects
                        ((storage.put_object new.object_key content s.objects).0)
                        ((storage.put_object new.object_key content s.objects).1) for_new refl all)
              ]
      ]

  record_row-IsStored :
      (row new : Artifact) (inputs : List ℕ) (rows : List Artifact) (o : O) (b : Bool)
      → IsStored row o
      → IsStored row ((record_row sha256 uuid_text storage new inputs rows (o, b)).0.objects)
  unfolding record_row finish
  record_row-IsStored row new inputs rows o false st = st
  record_row-IsStored row new inputs rows o true st = go (insert new rows)
    where
      go :
          (r : Checked Error (List Artifact))
          → IsStored row ((finish sha256 uuid_text storage new inputs rows o r).0.objects)
      go (refused reason) = st
      go (accepted rows') = st

  pub put_row-IsStored :
      (row new : Artifact) (content : Text) (inputs : List ℕ) (s : State O)
      → IsFor content new
      → IsStored row s.objects
      → IsStored row ((put_row sha256 uuid_text storage new content inputs s).0.objects)
  unfolding put_row
  put_row-IsStored row new content inputs s for_new st =
      elim (Bool-cases (is_valid_ref (row_to_ref new inputs))) [
        | inr bad ↦ rw bad st
        | inl good ↦
            elim (Option-cases
              (find_by_content_identity new.tenant_id new.run_id new.kind new.sha256 s.artifacts)) [
                | inr (old, e) ↦ rw (good, e) st
                | inl e ↦
                    rw (good, e)
                      (let stored = storage.put_object new.object_key content s.objects in
                        record_row-IsStored row new inputs s.artifacts (stored.0) (stored.1) (
                          put-IsStored row new content s.objects (stored.0) (stored.1) for_new refl
                            st))
              ]
      ]
