-- ===== src/Io/Success.antt =====
-- Inversion: what a routine's success says of its parts.
use quietfill.Prelude.{String, Bool, true, false, ◌≡◌, ◌≢◌, refl, ap, sym, subst, arith}
use quietfill.World.{Reply, ok, fail as error}
use quietfill.Io.{
  Io, NoError, nil, return, throw, view, labelled, wrapped, continue, ◌>>=◌, ◌>>◌, require,
}

abbrev value_or : {A : Type 0} → A → Reply A → A
value_or a (ok b) = b
value_or a (error _) = a

pub ok_injective : {A : Type 0} {a b : A} → ok a ≡ ok b → a ≡ b
ok_injective {a = a} h = ap (value_or a) h

module _ {S A B : Type 0} where
  continue-ok :
      (f : A → Io S B) (out : Reply A × S) {b : B} {s' : S}
      → continue f out ≡ (ok b, s')
      → (a : A) × (s₁ : S) × (out ≡ (ok a, s₁)) × (f a s₁ ≡ (ok b, s'))
  continue-ok f (ok a, s₁) h = (a, s₁, refl, h)
  continue-ok f (error e, s₁) h = ground (arith, h)

  pub >>=-ok :
      (m : Io S A) (f : A → Io S B) {s s' : S} {b : B}
      → (m >>= f) s ≡ (ok b, s')
      → (a : A) × (s₁ : S) × (m s ≡ (ok a, s₁)) × (f a s₁ ≡ (ok b, s'))
  >>=-ok m f {s} h = continue-ok f (m s) (unfold ◌>>=◌ in h)

  pub >>-ok :
      (m : Io S A) (n : Io S B) {s s' : S} {b : B}
      → (m >> n) s ≡ (ok b, s')
      → (a : A) × (s₁ : S) × (m s ≡ (ok a, s₁)) × (n s₁ ≡ (ok b, s'))
  >>-ok m n {s} h = continue-ok (λ _. n) (m s) (unfold ◌>>◌ ◌>>=◌ in h)

-- The same, for a chain of calls: what follows takes the parts as variables.
module _ {S A B Q : Type 0} where
  pub >>=_success :
      (m : Io S A) (f : A → Io S B) {s s' : S} {b : B}
      → (m >>= f) s ≡ (ok b, s')
      → ((a : A) (s₁ : S) → m s ≡ (ok a, s₁) → f a s₁ ≡ (ok b, s') → Q)
      → Q
  >>=_success m f h q = let (a, s₁, e, h') = >>=-ok m f h in q a s₁ e h'

  pub >>_success :
      (m : Io S A) (n : Io S B) {s s' : S} {b : B}
      → (m >> n) s ≡ (ok b, s')
      → ((a : A) (s₁ : S) → m s ≡ (ok a, s₁) → n s₁ ≡ (ok b, s') → Q)
      → Q
  >>_success m n h q = let (a, s₁, e, h') = >>-ok m n h in q a s₁ e h'

module _ {S A : Type 0} where
  wrapped-ok :
      (e : String) (out : Reply A × S) {a : A} {s' : S}
      → wrapped e out ≡ (ok a, s')
      → out ≡ (ok a, s')
  wrapped-ok e (ok a, s) h = h
  wrapped-ok e (error e', s) h = ground (arith, h)

  pub labelled-ok :
      (e : String) (m : Io S A) {s s' : S} {a : A} → labelled e m s ≡ (ok a, s') → m s ≡ (ok a, s')
  labelled-ok e m {s} h = wrapped-ok e (m s) (unfold labelled in h)

  pub view-ok :
      (f : S → Reply A) {s s' : S} {a : A} → view f s ≡ (ok a, s') → (f s ≡ ok a) × (s ≡ s')
  view-ok f h = unfold view in (ap (λ (t : Reply A × S). t.0) h, ap (λ (t : Reply A × S). t.1) h)

  -- What was read still holds after the reading.
  pub view-ok_after :
      (f : S → Reply A) (s : S) {s' : S} {a : A} → view f s ≡ (ok a, s') → f s' ≡ ok a
  view-ok_after f s {a = a} h =
      let (found, same) = view-ok f h in subst (λ (t : S). f t ≡ ok a) same found

  pub throw-ok : (e : String) (s : S) {s' : S} {a : A} → throw e s ≢ (ok a, s')
  throw-ok e s h = unfold throw in ground (arith, h)

  pub return-ok : {a b : A} {s s' : S} → return a s ≡ (ok b, s') → (a ≡ b) × (s ≡ s')
  return-ok h = unfold return in ground (arith, h)

module _ {S : Type 0} where
  pub require-ok :
      (b : Bool) (e : String) (s : S) {s' : S} {n : NoError}
      → require b e s ≡ (ok n, s')
      → (b ≡ true) × (s ≡ s')
  require-ok true e s h = unfold require in (refl, ap (λ (t : Reply NoError × S). t.1) h)
  require-ok false e s h = unfold require in ground (arith, h)

-- Inversion for the calls that only read: what follows runs from the same state.
module _ {S A B Q : Type 0} (g : A → Io S B) {s s' : S} {b : B} where
  pub view_success :
      (f : S → Reply A)
      → (view f >>= g) s ≡ (ok b, s')
      → ((a : A) → f s ≡ ok a → g a s ≡ (ok b, s') → Q)
      → Q
  view_success f h q = >>=_success (view f) g h λ a s₁ e h'.
      let (found, same) = view-ok f e in
      q a found (subst (λ (t : S). g a t ≡ (ok b, s')) (sym same) h')

  pub labelled_success :
      (l : String) (f : S → Reply A)
      → (labelled l (view f) >>= g) s ≡ (ok b, s')
      → ((a : A) → f s ≡ ok a → g a s ≡ (ok b, s') → Q)
      → Q
  labelled_success l f h q = >>=_success (labelled l (view f)) g h λ a s₁ e h'.
      let (found, same) = view-ok f (labelled-ok l (view f) e) in
      q a found (subst (λ (t : S). g a t ≡ (ok b, s')) (sym same) h')

module _ {S B Q : Type 0} (g : NoError → Io S B) {s s' : S} {b : B} where
  pub require_success :
      (c : Bool) (e : String)
      → (require c e >>= g) s ≡ (ok b, s')
      → (c ≡ true → g nil s ≡ (ok b, s') → Q)
      → Q
  require_success c e h q = >>=_success (require c e) g h λ a s₁ r h'.
      let (passed, same) = require-ok c e s r in
      q passed (only a (subst (λ (t : S). g a t ≡ (ok b, s')) (sym same) h'))
    where
      only : (a : NoError) → g a s ≡ (ok b, s') → g nil s ≡ (ok b, s')
      only nil h = h
