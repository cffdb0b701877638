-- ===== src/Prelude/Checked.antt =====
-- Checks that refuse with a reason, as the services raise an exception.
use mathlib.Core.Path.{◌≡◌, refl}
use mathlib.Core.Logic.{◌≢◌}
use mathlib.Core.Bool.{Bool, true, false}
use mathlib.Core.List.{List, [], ◌∷◌}
use mathlib.Core.Option.{Option, none, some}

pub data Checked (E A : Type 0) : Type 0 where
  accepted : (value : A) → Checked E A
  refused : (reason : E) → Checked E A

module _ {E : Type 0} where
  pub accepted-injective :
      {A : Type 0} {x y : A} → ◌≡◌ {A = Checked E A} (accepted x) (accepted y) → x ≡ y
  accepted-injective h = cc

  infixl 4 ◌>>=◌ ◌>>◌
  unfoldable pub ◌>>=◌ : {A B : Type 0} → Checked E A → (A → Checked E B) → Checked E B
  accepted value >>= next = next value
  refused reason >>= next = refused reason

  unfoldable pub ◌>>◌ : {B : Type 0} → Checked E (Unit {0}) → Checked E B → Checked E B
  accepted value >> next = next
  refused reason >> next = refused reason

  unfoldable pub refuse_if : Bool → E → Checked E (Unit {0})
  refuse_if true reason = refused reason
  refuse_if false reason = accepted tt

  unfoldable pub found_or : {A : Type 0} → E → Option A → Checked E A
  found_or reason none = refused reason
  found_or reason (some value) = accepted value

  -- `f` at each element, in order.
  unfoldable pub check_all : {A B : Type 0} → (A → Checked E B) → List A → Checked E (List B)
  check_all f [] = accepted []
  check_all f (x ∷ xs) = do y ← f x; ys ← check_all f xs; accepted (y ∷ ys)

  -- A chain is accepted if its parts are.
  pub >>=-eq-accepted :
      {A B : Type 0} {m : Checked E A} {f : A → Checked E B} {b : B}
      → (m >>= f) ≡ accepted b
      → (a : A) × (m ≡ accepted a) × (f a ≡ accepted b)
  unfolding ◌>>=◌
  >>=-eq-accepted {m = accepted value} h = (value, refl, h)
  >>=-eq-accepted {m = refused reason} h = cc

  pub >>-eq-accepted :
      {B : Type 0} {m : Checked E (Unit {0})} {next : Checked E B} {b : B}
      → (m >> next) ≡ accepted b
      → (m ≡ accepted tt) × (next ≡ accepted b)
  unfolding ◌>>◌
  >>-eq-accepted {m = accepted tt} h = (refl, h)
  >>-eq-accepted {m = refused reason} h = cc

  pub refuse_if-eq-accepted :
      {b : Bool} (reason : E) {u : Unit {0}} → refuse_if b reason ≡ accepted u → b ≡ false
  unfolding refuse_if
  refuse_if-eq-accepted {b = true} reason h = cc
  refuse_if-eq-accepted {b = false} reason h = refl

  pub found_or-eq-accepted :
      {A : Type 0} (reason : E) (o : Option A) {a : A} → found_or reason o ≡ accepted a → o ≡ some a
  unfolding found_or
  found_or-eq-accepted reason none h = cc
  found_or-eq-accepted reason (some value) h = cc

  pub refuse_if-eq-refused :
      (b : Bool) (reason other : E) → refuse_if b reason ≡ refused other → b ≡ true
  unfolding refuse_if
  refuse_if-eq-refused true reason other h = refl
  refuse_if-eq-refused false reason other h = cc

  -- A chain does not give a reason that none of its parts gives.
  pub >>=-never :
      {A B : Type 0} {m : Checked E A} {f : A → Checked E B} {reason : E}
      → m ≢ refused reason
      → ((a : A) → m ≡ accepted a → f a ≢ refused reason)
      → (m >>= f) ≢ refused reason
  unfolding ◌>>=◌
  >>=-never {m = accepted value} first next h = next value refl h
  >>=-never {m = refused reason} first next h = first cc

  pub >>-never :
      {B : Type 0} {m : Checked E (Unit {0})} {next : Checked E B} {reason : E}
      → m ≢ refused reason
      → (m ≡ accepted tt → next ≢ refused reason)
      → (m >> next) ≢ refused reason
  unfolding ◌>>◌
  >>-never {m = accepted tt} first next h = next refl h
  >>-never {m = refused reason} first next h = first cc

  pub refuse_if-never :
      (b : Bool) (reason other : E) → reason ≢ other → refuse_if b reason ≢ refused other
  unfolding refuse_if
  refuse_if-never true reason other d h = d cc
  refuse_if-never false reason other d h = cc

  pub found_or-never :
      {A : Type 0} (reason other : E) (o : Option A)
      → reason ≢ other
      → found_or reason o ≢ refused other
  unfolding found_or
  found_or-never reason other none d h = d cc
  found_or-never reason other (some value) d h = cc

  pub check_all-never :
      {A B : Type 0} (f : A → Checked E B) (reason : E) (xs : List A)
      → ((x : A) → f x ≢ refused reason)
      → check_all f xs ≢ refused reason
  unfolding check_all
  check_all-never f reason [] d = λ h. cc
  check_all-never f reason (x ∷ xs) d =
      >>=-never (d x) λ y e. >>=-never (check_all-never f reason xs d) λ ys e2 h. cc
