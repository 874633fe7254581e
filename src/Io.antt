-- ===== src/Io.antt =====
-- A routine that reaches out: it takes the state of what is outside, the chain, the proxies and the
-- disk, and returns its result, which may be an error, with that state afterwards. A routine that
-- ends the process, `FatalWithCause`, is one that fails.
pub mod Loop
pub mod Preserves
pub mod Success
use quietfill.Prelude.{String, sprintf, [], ◌∷◌, Bool, if◌then◌else◌}
use quietfill.World.{Reply, ok, fail as error}

-- What a routine returns that has only an error.
pub data NoError : Type 0 where
  nil : NoError

abbrev pub Io : Type 0 → Type 0 → Type 0
Io S A = S → Reply A × S

module _ {S A : Type 0} where
  unfoldable pub return : A → Io S A
  return a = λ s. (ok a, s)

  unfoldable pub throw : String → Io S A
  throw e = λ s. (error e, s)

  -- A call that only reads.
  unfoldable pub view : (S → Reply A) → Io S A
  view f = λ s. (f s, s)

  abbrev pub wrapped : String → Reply A × S → Reply A × S
  wrapped label (ok a, s) = (ok a, s)
  wrapped label (error e, s) = (error (sprintf (label ∷ e ∷ [])), s)

  -- `errors.Errorf` with a label in front of the error's text.
  unfoldable pub labelled : String → Io S A → Io S A
  labelled label m = λ s. wrapped label (m s)

  -- A call whose error the caller handles.
  unfoldable pub attempt : Io S A → Io S (Reply A)
  attempt m = λ s. let out = m s in (ok (out.0), out.1)

module _ {S A B : Type 0} where
  abbrev pub continue : (A → Io S B) → Reply A × S → Reply B × S
  continue f (ok a, s) = f a s
  continue f (error e, s) = (error e, s)

  infixl 5 ◌>>=◌ ◌>>◌
  -- `if err != nil { return err }` between two calls.
  unfoldable pub ◌>>=◌ : Io S A → (A → Io S B) → Io S B
  m >>= f = λ s. continue f (m s)

  unfoldable pub ◌>>◌ : Io S A → Io S B → Io S B
  m >> n = m >>= λ _. n

module _ {S : Type 0} where
  -- `if !test { fail }`.
  unfoldable pub require : Bool → String → Io S NoError
  require b e = λ s. if b then (ok nil, s) else (error e, s)
