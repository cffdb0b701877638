-- ===== src/Artifacts/Samples.antt =====
-- Samples for the tests of the artifact store and of its users: a dictionary as the storage, and a
-- digest that tells one content from the others.
use acoding_agent.Prelude.{
  ℕ, zero, suc, ◌≡◌, refl, sym, ap, ◌∙◌, text_eq_refl, Bool, true, false, [], ◌∷◌, Text, codes,
  text_eq, text_eq_sound, length, if◌then◌else◌, Bool-cases, inl, inr, arith,
}
use acoding_agent.Workspace.Files.{Files, get, set, del, get-set}
use acoding_agent.Artifacts.Objects.{ObjectStore}

abbrev pub repeat : ℕ → ℕ → Text
repeat zero c = []
repeat (suc n) c = c ∷ repeat n c

abbrev pub hello : Text
hello = codes "hello"

abbrev pub sample_digest : Text → Text
sample_digest content = if text_eq content hello then repeat 64 b'a' else repeat 64 b'b'

abbrev pub sample_uuid_text : ℕ → Text
sample_uuid_text n = n ∷ []

pub sample_digest-length : (content : Text) → length (sample_digest content) ≡ 64
sample_digest-length content = elim (Bool-cases (text_eq content hello)) [
  | inl h ↦ rw h refl
  | inr h ↦ rw h refl
]

pub only_hello : (other : Text) → sample_digest other ≡ sample_digest hello → other ≡ hello
only_hello other h = elim (Bool-cases (text_eq other hello)) [
  | inl same ↦ text_eq_sound other hello same
  | inr differ ↦ absurd (ground (arith, h, differ))
]

pub never_failed :
    {A : Type 0} (key content : Text) (o o' : Files)
    → ◌≡◌ {A = Files × Bool} (set key content o, true) (o', false)
    → A
never_failed key content o o' h = absurd cc

abbrev pub dictionary : ObjectStore Files
dictionary = record {
  put_object = λ key content o. (set key content o, true);
  get_object = get;
  remove_object = λ key o. (del key o, true);
  get-put = λ key content o o' h.
      sym (ap (λ x. get key (x.0)) h) ∙ get-set key key content o ∙ rw (text_eq_refl key) refl;
  get-put_failed = λ key content o o' h. never_failed key content o o' h;
  get-put_other = λ other key content o o' b h differ.
      sym (ap (λ x. get other (x.0)) h) ∙ get-set other key content o ∙ rw differ refl;
}
