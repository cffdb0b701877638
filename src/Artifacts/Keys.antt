-- ===== src/Artifacts/Keys.antt =====
-- Object keys end with the digest of the content.
use acoding_agent.Prelude.{
  ℕ, ◌≡◌, ap, List, [], ◌∷◌, ◌++◌, Text, codes, length, drop, length-append, arith,
}
use acoding_agent.Domain.Enums.{ArtifactKind}
use acoding_agent.Artifacts.Refs.{kind_value, build_object_key}

append-suffix :
    {A : Type 0} (xs us ys vs : List A) → xs ++ ys ≡ us ++ vs → length ys ≡ length vs → ys ≡ vs
append-suffix [] [] ys vs h same = h
append-suffix [] (u ∷ us) ys vs h same =
    absurd (omega (arith, ap length h, length-append us vs, same))
append-suffix (x ∷ xs) [] ys vs h same =
    absurd (omega (arith, ap length h, length-append xs ys, same))
append-suffix (x ∷ xs) (u ∷ us) ys vs h same = append-suffix xs us ys vs (ap (drop 1) h) same

-- Two keys that agree have the same digest, if digests have one length.
pub build_object_key-digest :
    (uuid_text : ℕ → Text) (tenant_id tenant_id' run_id run_id' : ℕ) (kind kind' : ArtifactKind)
    (sha256 sha256' : Text)
    → build_object_key uuid_text tenant_id run_id kind sha256
      ≡ build_object_key uuid_text tenant_id' run_id' kind' sha256'
    → length sha256 ≡ length sha256'
    → sha256 ≡ sha256'
unfolding build_object_key
build_object_key-digest uuid_text tenant_id tenant_id' run_id run_id' kind kind' sha256 sha256' h
      same =
    append-suffix
      (uuid_text tenant_id
        ++ codes "/"
        ++ uuid_text run_id
        ++ codes "/"
        ++ kind_value kind
        ++ codes "/")
      (uuid_text tenant_id'
        ++ codes "/"
        ++ uuid_text run_id'
        ++ codes "/"
        ++ kind_value kind'
        ++ codes "/")
      sha256 sha256' h same
