-- ===== src/Artifacts/Objects.antt =====
-- The object storage behind src/repopilot/infrastructure/artifacts/minio.py, as the source calls it.
-- It is a service: its state is a parameter, and so are its operations with the laws that its
-- documentation gives.
use acoding_agent.Prelude.{◌≡◌, ◌⊎◌, Bool, true, false, Option, some, Text, text_eq}

-- A write or a removal also answers whether it went through. A write is atomic: when it did not go
-- through, the object is as before, or is the new one.
pub record ObjectStore (O : Type 0) : Type 0 where
  pub put_object : (key content : Text) → O → O × Bool
  pub get_object : (key : Text) → O → Option Text
  pub remove_object : (key : Text) → O → O × Bool
  pub get-put :
      (key content : Text) (o o' : O)
      → put_object key content o ≡ (o', true)
      → get_object key o' ≡ some content
  pub get-put_failed :
      (key content : Text) (o o' : O)
      → put_object key content o ≡ (o', false)
      → (get_object key o' ≡ get_object key o) ⊎ (get_object key o' ≡ some content)
  pub get-put_other :
      (other key content : Text) (o o' : O) (b : Bool)
      → put_object key content o ≡ (o', b)
      → text_eq other key ≡ false
      → get_object other o' ≡ get_object other o
