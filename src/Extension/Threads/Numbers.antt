-- ===== src/Extension/Threads/Numbers.antt =====
-- The numbers of greetings that are asked for at the same time.
use quietfill.Prelude.{
  ℕ, ◌+◌, ◌%◌, ◌^◌, ◌<◌, ◌≡◌, ◌≢◌, ◌∙◌, ◌⊎◌, inl, inr, ap, sym, subst, String, List, [], ◌∷◌, ◌++◌,
  append_assoc, arith,
}
use mathlib.Core.List.{map-append}
use quietfill.Wire.{Codec, State, Response}
use quietfill.Extension.{new, greeting_text}
use quietfill.Extension.Effect.{greeting, effect}
use quietfill.Extension.Answer.{Success}
use quietfill.Extension.Serve.{post_action, serve, serve_one, greetings}
use quietfill.Extension.Numbers.{greeting_number_lem, greetings-append, greetings-greeting}
use quietfill.Extension.Threads.{answered, Server, Entry, Reach}
use quietfill.Extension.Threads.Logged.{Serial, after, requests, Has}
use quietfill.Extension.Threads.Linear.{Reach-Serial}

-- The answer of an entry, by what stands before it.
Serial-split :
    (c : Codec) (s : State) (before : List Entry) (e : Entry) (rest : List Entry)
    → Serial c s (before ++ e ∷ rest)
    → e.response ≡ (serve_one c (after c s before) e.request).1
unfolding serve
Serial-split c s [] e rest (right, _) = sym right
Serial-split c s (x ∷ xs) e rest (_, h) = Serial-split c (serve_one c s x.request).0 xs e rest h

-- Of two entries of different handlers, one stands before the other.
abbrev Before : Entry → Entry → List Entry → Type 0
Before e e' log = (xs ys zs : List Entry) × (log ≡ xs ++ e ∷ (ys ++ e' ∷ zs))

Has-split :
    (e : Entry) (log : List Entry)
    → Has e log
    → (before rest : List Entry) × (log ≡ before ++ e ∷ rest)
Has-split e [] h = elim h [ ]
Has-split e (x ∷ xs) (inl same) = ([], xs, ap (λ (y : Entry). y ∷ xs) (sym same))
Has-split e (x ∷ xs) (inr later) =
    let (before, rest, split) = Has-split e xs later in
    (x ∷ before, rest, ap (λ (l : List Entry). x ∷ l) split)

Before-cons : (x e e' : Entry) (log : List Entry) → Before e e' log → Before e e' (x ∷ log)
Before-cons x e e' log (xs, ys, zs, split) = (x ∷ xs, ys, zs, ap (λ (l : List Entry). x ∷ l) split)

Has-Before :
    (e e' : Entry) (log : List Entry)
    → e.by ≢ e'.by
    → Has e log
    → Has e' log
    → Before e e' log ⊎ Before e' e log
Has-Before e e' [] ne h h' = elim h [ ]
Has-Before e e' (x ∷ xs) ne (inl same) (inl same') =
    absurd (ne (ap (λ (y : Entry). y.by) (same ∙ sym same')))
Has-Before e e' (x ∷ xs) ne (inl same) (inr later) =
    let (before, rest, split) = Has-split e' xs later in
    inl (
      [],
      before,
      rest,
      ap (λ (l : List Entry). x ∷ l) split
          ∙ ap (λ (y : Entry). y ∷ (before ++ e' ∷ rest)) (sym same),
    )
Has-Before e e' (x ∷ xs) ne (inr later) (inl same) =
    let (before, rest, split) = Has-split e xs later in
    inr (
      [],
      before,
      rest,
      ap (λ (l : List Entry). x ∷ l) split
          ∙ ap (λ (y : Entry). y ∷ (before ++ e ∷ rest)) (sym same),
    )
Has-Before e e' (x ∷ xs) ne (inr later) (inr later') = elim (Has-Before e e' xs ne later later') [
  | inl b ↦ inl (Before-cons x e e' xs b)
  | inr b ↦ inr (Before-cons x e' e xs b)
]

-- An entry of a handler that was asked for a greeting.
abbrev greeted_by : ℕ → String → Response → Entry
greeted_by i body resp = record { by = i; request = post_action body; response = resp }

module _ (c : Codec) where
  -- The greetings that a part of a log asked for.
  abbrev asked : List Entry → ℕ
  asked log = greetings c (requests log)

  -- The answer to a greeting with a number.
  abbrev pub Numbered : String → ℕ → Response → Type 0
  Numbered name n =
      Success c (c.marshal_hello (record { greeting = greeting_text name; greeting_number = n }))

  asked-greeted :
      (xs : List Entry) (i : ℕ) (body name : String) (resp : Response) (ys : List Entry)
      → effect c body ≡ greeting name
      → asked (xs ++ greeted_by i body resp ∷ ys) ≡ asked xs + (1 + asked ys)
  asked-greeted xs i body name resp ys asks =
      ap (greetings c) (map-append (λ (e : Entry). e.request) xs (greeted_by i body resp ∷ ys))
      ∙ greetings-append c (requests xs) (post_action body ∷ requests ys)
      ∙ ap (λ (n : ℕ). asked xs + n) (greetings-greeting c body name (requests ys) asks)

  entry-Numbered :
      (xs : List Entry) (i : ℕ) (body name : String) (resp : Response) (ys : List Entry)
      → effect c body ≡ greeting name
      → Serial c new (xs ++ greeted_by i body resp ∷ ys)
      → Numbered name ((asked xs + 1) % 2 ^ 64) resp
  entry-Numbered xs i body name resp ys asks serial =
      subst (Numbered name ((asked xs + 1) % 2 ^ 64))
        (sym (Serial-split c new xs (greeted_by i body resp) ys serial))
        (greeting_number_lem c (requests xs) body name asks)

  -- The answers to two greetings of a log, with their numbers.
  abbrev pub Distinguished : String → Response → String → Response → Type 0
  Distinguished name resp name' resp' =
      (n n' : ℕ) × Numbered name n resp × Numbered name' n' resp' × (n ≢ n')

  Before-Distinguished :
      (log : List Entry) (i j : ℕ) (body body' name name' : String) (resp resp' : Response)
      → effect c body ≡ greeting name
      → effect c body' ≡ greeting name'
      → Serial c new log
      → asked log < 2 ^ 64
      → Before (greeted_by i body resp) (greeted_by j body' resp') log
      → Distinguished name resp name' resp'
  Before-Distinguished log i j body body' name name' resp resp' asks asks' serial few
        (xs, ys, zs, split) =
      let e = greeted_by i body resp in
      let e' = greeted_by j body' resp' in
      let split' : log ≡ (xs ++ e ∷ ys) ++ e' ∷ zs =
        split ∙ sym (append_assoc xs (e ∷ ys) (e' ∷ zs)) in
      let first = asked-greeted xs i body name resp ys asks in
      let total = ap asked split' ∙ asked-greeted (xs ++ e ∷ ys) j body' name' resp' zs asks' in
      (
        (asked xs + 1) % 2 ^ 64,
        (asked (xs ++ e ∷ ys) + 1) % 2 ^ 64,
        entry-Numbered xs i body name resp (ys ++ e' ∷ zs) asks (subst (Serial c new) split serial),
        entry-Numbered (xs ++ e ∷ ys) j body' name' resp' zs asks'
            (subst (Serial c new) split' serial),
        λ same. omega (arith, first, total, few, same),
      )

  -- However the handlers of a new extension interleave: two of them that have answered a request for
  -- a greeting have answered it by a success with different numbers, as long as fewer than 2 ^ 64
  -- greetings have taken effect.
  pub Reach-Distinguished :
      (log : List Entry) (s : Server) (i j : ℕ) (body body' name name' : String)
      (resp resp' : Response)
      → Reach c new log s
      → i ≢ j
      → s.handler i ≡ answered (post_action body) resp
      → s.handler j ≡ answered (post_action body') resp'
      → effect c body ≡ greeting name
      → effect c body' ≡ greeting name'
      → greetings c (requests log) < 2 ^ 64
      → Distinguished name resp name' resp'
  Reach-Distinguished log s i j body body' name name' resp resp' r ne at at' asks asks' few =
      let (serial, distinct, has, settled) = Reach-Serial c new r in
      elim (Has-Before (greeted_by i body resp) (greeted_by j body' resp') log ne
        (has i (post_action body) resp at) (has j (post_action body') resp' at')) [
          | inl b ↦
              Before-Distinguished log i j body body' name name' resp resp' asks asks' serial few b
          | inr b ↦
              let (n, n', h, h', differ) =
                Before-Distinguished log j i body' body name' name resp' resp asks' asks serial few
                  b in
              (n', n, h', h, λ e. differ (sym e))
        ]
