-- ===== src/Workspace/Files.antt =====
-- A dictionary from paths to contents, as `ArchiveWorkspaceBackend` keeps two.
use acoding_agent.Prelude.{
  ◌≡◌, refl, sym, ap, subst, Bool, true, false, Option, none, some, List, [], ◌∷◌, map, Text,
  text_eq, mem_text, text_eq_sound, text_eq_refl, if◌then◌else◌, arith, Bool-cases, inl, inr,
}

abbrev pub Files : Type 0
Files = List (Text × Text)

-- `files.get(path)`
unfoldable pub get : Text → Files → Option Text
get path [] = none
get path ((p, content) ∷ files) = if text_eq path p then some content else get path files

-- `files[path] = content`
unfoldable pub set : Text → Text → Files → Files
set path content [] = (path, content) ∷ []
set path content ((p, old) ∷ files) =
    if text_eq path p then (p, content) ∷ files else (p, old) ∷ set path content files

-- `del files[path]`
unfoldable pub del : Text → Files → Files
del path [] = []
del path ((p, content) ∷ files) =
    let rest = del path files in if text_eq path p then rest else (p, content) ∷ rest

abbrev pub paths_of : Files → List Text
paths_of = map (λ (path, content). path)

abbrev pub same_content : Option Text → Option Text → Bool
same_content none none = true
same_content (some a) (some b) = text_eq a b
same_content _ _ = false

pub same_content_sound : (a b : Option Text) → same_content a b ≡ true → a ≡ b
same_content_sound none none h = refl
same_content_sound none (some b) h = cc
same_content_sound (some a) none h = cc
same_content_sound (some a) (some b) h = ap some (text_eq_sound a b h)

pub same_content_refl : (a : Option Text) → same_content a a ≡ true
same_content_refl none = refl
same_content_refl (some t) = text_eq_refl t

pub get-set :
    (p path content : Text) (files : Files)
    → get p (set path content files) ≡ (if text_eq p path then some content else get p files)
unfolding get set
get-set p path content [] = refl
get-set p path content ((q, old) ∷ files) = elim (Bool-cases (text_eq path q)) [
  | inl here ↦
      let same : text_eq p path ≡ text_eq p q = ap (λ x. text_eq p x) (text_eq_sound path q here) in
      ground arith
  | inr other ↦ elim (Bool-cases (text_eq p path)) [
    | inl h ↦
        let apart : text_eq p q ≡ false =
          subst (λ x. text_eq x q ≡ false) (sym (text_eq_sound p path h)) other in
        ground (arith, get-set p path content files)
    | inr h ↦ ground (arith, get-set p path content files)
  ]
]

pub get-del :
    (p path : Text) (files : Files)
    → get p (del path files) ≡ (if text_eq p path then none else get p files)
unfolding get del
get-del p path [] = ground arith
get-del p path ((q, old) ∷ files) = elim (Bool-cases (text_eq path q)) [
  | inl here ↦
      let same : text_eq p path ≡ text_eq p q = ap (λ x. text_eq p x) (text_eq_sound path q here) in
      ground (arith, get-del p path files)
  | inr other ↦ elim (Bool-cases (text_eq p path)) [
    | inl h ↦
        let apart : text_eq p q ≡ false =
          subst (λ x. text_eq x q ≡ false) (sym (text_eq_sound p path h)) other in
        ground (arith, get-del p path files)
    | inr h ↦ ground (arith, get-del p path files)
  ]
]

pub get_of_not_mem :
    (p : Text) (files : Files) → mem_text p (paths_of files) ≡ false → get p files ≡ none
unfolding get
get_of_not_mem p [] h = refl
get_of_not_mem p ((q, content) ∷ files) h = ground (arith, get_of_not_mem p files)
