-- ===== src/Node/Recorded.antt =====
-- What the steps of a run of `RegisterNode` leave in the state file when the run fails.
use quietfill.Prelude.{
  ℕ, ◌≡◌, ◌∙◌, ap, refl, sym, subst, ◌⊎◌, inl, inr, String, Bool, true, false, [], ◌∷◌, sprintf,
  Bool-cases, if◌then◌else◌, arith,
}
use quietfill.World.{Reply, ok, fail as error}
use quietfill.Io.{Io, NoError, ◌>>=◌, continue}
use quietfill.Node.Calls.{Outside, RegistrationState, request_attestation}
use quietfill.Node.Register.{
  Live, has_letter, load_state, save_state, record_step, step, production, run_steps, register_node,
  outside, attested, checked, register_or_attest, checked_availability,
}
use quietfill.Node.Disk.{Disk}
use quietfill.Node.Resume.{register_node-load_state}
use quietfill.Node.Skip.{IsDone, step-skips}

module _ {S : Type 0} (o : Outside S) (tee_id ftdc_tee : ℕ) (command text : String) where
  -- The progress that a run from a progress has reached in memory when it ends.
  abbrev pub reached : RegistrationState → S → RegistrationState
  reached st s = (run_steps o tee_id ftdc_tee command text (st, s)).1.0

  -- After an attestation step: its letter behind the steps, and its id; and behind these the step a
  -- with its id, if that is done too.
  abbrev pub HasAttestation : RegistrationState → String → ℕ → RegistrationState → Type 0
  HasAttestation st letter id final =
      (final ≡ record {
        completed_steps = sprintf (st.completed_steps ∷ letter ∷ []);
        tee_attest_instruction_id = id;
        instruction_id = st.instruction_id;
      })
      ⊎ ((check : ℕ) × (final ≡ record {
        completed_steps = sprintf (sprintf (st.completed_steps ∷ letter ∷ []) ∷ "a" ∷ []);
        tee_attest_instruction_id = id;
        instruction_id = check;
      }))

  -- The id of an attestation that the check of a run that repeats neither r nor R is asked for by.
  abbrev pub saved_attestation : RegistrationState → ℕ
  saved_attestation st =
      if has_letter b'R' command
      then st.tee_attest_instruction_id
      else if has_letter b'r' command
      then st.tee_attest_instruction_id
      else 0

  step-records :
      (letter otherwise : ℕ) (saved : RegistrationState → ℕ)
      (change : ℕ → RegistrationState → RegistrationState) (call : Io S ℕ) (named : Bool)
      (st : RegistrationState) (s s₁ : S) (id : ℕ)
      → named ≡ true
      → has_letter letter st.completed_steps ≡ false
      → call s ≡ (ok id, s₁)
      → step o named letter otherwise saved change call (st, s)
        ≡ (ok id, (change id st, (save_state o (change id st) s₁).1))
  unfolding step
  step-records letter otherwise saved change call named st s s₁ id on new called =
      rw (on, new, called) refl

  recorded :
      (change : ℕ → RegistrationState → RegistrationState) (st : RegistrationState)
      (out : Reply ℕ × S)
      → ((record_step o change st out).1.0 ≡ st)
        ⊎ ((id : ℕ) × ((record_step o change st out).1.0 ≡ change id st))
  recorded change st (ok id, s) = inr (id, refl)
  recorded change st (error e, s) = inl refl

  -- A step leaves the progress, or changes it by an id.
  step-changes :
      (named : Bool) (letter otherwise : ℕ) (saved : RegistrationState → ℕ)
      (change : ℕ → RegistrationState → RegistrationState) (call : Io S ℕ) (st : RegistrationState)
      (s : S)
      → ((step o named letter otherwise saved change call (st, s)).1.0 ≡ st)
        ⊎ ((id : ℕ) × ((step o named letter otherwise saved change call (st, s)).1.0
              ≡ change id st))
  unfolding step
  step-changes false letter otherwise saved change call st s = inl refl
  step-changes true letter otherwise saved change call st s =
      elim (Bool-cases (has_letter letter st.completed_steps)) [
        | inl old ↦ inl (rw old refl)
        | inr new ↦ rw new (recorded change st (call s))
      ]

  outside-kept :
      {A : Type 0} (st : RegistrationState) (out : Reply A × S) → (outside o st out).1.0 ≡ st
  outside-kept st (ok a, s) = refl
  outside-kept st (error e, s) = refl

  -- Production leaves the progress.
  production-kept :
      (out : Reply ℕ × Live S)
      → (continue (λ id live. outside o live.0 (production o command id live.1)) out).1.0 ≡ out.1.0
  production-kept (ok id, (st, s)) = outside-kept st (production o command id s)
  production-kept (error e, live) = refl

  -- The step a and what follows.
  abbrev last : ℕ → Live S → Reply NoError × Live S
  last attest live =
      continue (λ id live. outside o live.0 (production o command id live.1))
        (step o (has_letter b'a' command) b'a' (o.hex_to_hash text) RegistrationState.instruction_id
          (checked o) (checked_availability o tee_id ftdc_tee attest) live)

  attestation-kept :
      (st : RegistrationState) (letter : String) (id attest : ℕ) (s : S)
      → HasAttestation st letter id (last attest (attested o letter id st, s)).1.0
  attestation-kept st letter id attest s =
      subst (HasAttestation st letter id) (sym (production-kept _)) (
        step-changes (has_letter b'a' command) b'a' (o.hex_to_hash text)
          RegistrationState.instruction_id (checked o)
          (checked_availability o tee_id ftdc_tee attest) (attested o letter id st) s)

  -- After the steps r and R, where they leave an id and a state.
  run_steps-last :
      (st : RegistrationState) (s : S) (registered attest : ℕ) (live live' : Live S)
      → step o
          (has_letter b'r' command)
          b'r'
          0
          RegistrationState.tee_attest_instruction_id
          (attested o "r")
          (register_or_attest o tee_id)
          (st, s)
        ≡ (ok registered, live)
      → step o
          (has_letter b'R' command)
          b'R'
          registered
          RegistrationState.tee_attest_instruction_id
          (attested o "R")
          (request_attestation o tee_id)
          live
        ≡ (ok attest, live')
      → run_steps o tee_id ftdc_tee command text (st, s) ≡ last attest live'
  unfolding run_steps ◌>>=◌
  run_steps-last st s registered attest live live' first second = rw (first, second) refl

  run_steps-r :
      (st : RegistrationState) (s : S) (id : ℕ) (s₁ : S)
      → has_letter b'r' command ≡ true
      → has_letter b'r' st.completed_steps ≡ false
      → has_letter b'R' command ≡ false
      → register_or_attest o tee_id s ≡ (ok id, s₁)
      → HasAttestation st "r" id (reached st s)
  run_steps-r st s id s₁ named new no_R called =
      let s₂ = (save_state o (attested o "r" id st) s₁).1 in
      subst (λ (out : Reply NoError × Live S). HasAttestation st "r" id out.1.0)
        (sym (
          run_steps-last st s id _ _ _
            (step-records b'r' 0 RegistrationState.tee_attest_instruction_id (attested o "r")
              (register_or_attest o tee_id) _ st s s₁ id named new called)
            (step-skips o (has_letter b'R' command) b'R' id
              RegistrationState.tee_attest_instruction_id (attested o "R")
              (request_attestation o tee_id) (attested o "r" id st) s₂
              (λ yes. absurd (ground (arith, yes, no_R))))))
        (attestation-kept st "r" id _ s₂)

  run_steps-R :
      (st : RegistrationState) (s : S) (id : ℕ) (s₁ : S)
      → IsDone command st b'r'
      → has_letter b'R' command ≡ true
      → has_letter b'R' st.completed_steps ≡ false
      → request_attestation o tee_id s ≡ (ok id, s₁)
      → HasAttestation st "R" id (reached st s)
  run_steps-R st s id s₁ done_r named new called =
      subst (λ (out : Reply NoError × Live S). HasAttestation st "R" id out.1.0)
        (sym (
          run_steps-last st s _ id _ _
            (step-skips o (has_letter b'r' command) b'r' 0
              RegistrationState.tee_attest_instruction_id (attested o "r")
              (register_or_attest o tee_id) st s done_r)
            (step-records b'R' _ RegistrationState.tee_attest_instruction_id (attested o "R")
              (request_attestation o tee_id) _ st s s₁ id named new called)))
        (attestation-kept st "R" id id (save_state o (attested o "R" id st) s₁).1)

  run_steps-a :
      (st : RegistrationState) (s : S) (id : ℕ) (s₁ : S)
      → IsDone command st b'r'
      → IsDone command st b'R'
      → has_letter b'a' command ≡ true
      → has_letter b'a' st.completed_steps ≡ false
      → checked_availability o tee_id ftdc_tee (saved_attestation st) s ≡ (ok id, s₁)
      → reached st s ≡ record st {
        completed_steps = sprintf (st.completed_steps ∷ "a" ∷ []);
        instruction_id = id;
      }
  run_steps-a st s id s₁ done_r done_R named new called =
      ap (λ (out : Reply NoError × Live S). out.1.0)
        (run_steps-last st s _ (saved_attestation st) _ _
          (step-skips o (has_letter b'r' command) b'r' 0 RegistrationState.tee_attest_instruction_id
            (attested o "r") (register_or_attest o tee_id) st s done_r)
          (step-skips o (has_letter b'R' command) b'R' _ RegistrationState.tee_attest_instruction_id
            (attested o "R") (request_attestation o tee_id) st s done_R))
      ∙ production-kept (
          step o (has_letter b'a' command) b'a' (o.hex_to_hash text)
            RegistrationState.instruction_id (checked o)
            (checked_availability o tee_id ftdc_tee (saved_attestation st)) (st, s))
      ∙ ap (λ (out : Reply ℕ × Live S). out.1.0)
          (step-records b'a' (o.hex_to_hash text) RegistrationState.instruction_id (checked o)
            (checked_availability o tee_id ftdc_tee (saved_attestation st)) _ st s s₁ id named new
            called)

  -- What a progress that a run has reached says of the steps that the run has done.
  abbrev pub Records : RegistrationState → S → RegistrationState → Type 0
  Records st s final =
      ((id : ℕ) (s₁ : S)
        → has_letter b'r' command ≡ true
        → has_letter b'r' st.completed_steps ≡ false
        → has_letter b'R' command ≡ false
        → register_or_attest o tee_id s ≡ (ok id, s₁)
        → HasAttestation st "r" id final)
      × ((id : ℕ) (s₁ : S)
          → IsDone command st b'r'
          → has_letter b'R' command ≡ true
          → has_letter b'R' st.completed_steps ≡ false
          → request_attestation o tee_id s ≡ (ok id, s₁)
          → HasAttestation st "R" id final)
      × ((id : ℕ) (s₁ : S)
          → IsDone command st b'r'
          → IsDone command st b'R'
          → has_letter b'a' command ≡ true
          → has_letter b'a' st.completed_steps ≡ false
          → checked_availability o tee_id ftdc_tee (saved_attestation st) s ≡ (ok id, s₁)
          → final ≡ record st {
            completed_steps = sprintf (st.completed_steps ∷ "a" ∷ []);
            instruction_id = id;
          })

  -- Where the disk is as described: a run that starts with the progress that the file has, and fails,
  -- leaves a file from which the next run loads the progress that it had reached in memory. If r, not
  -- done before and without R behind it, or R, not done before, has returned an id, that progress has
  -- the step's letter behind the steps before, and the id as that of the attestation, and no more but
  -- the letter and an id of a check that succeeded too. If a, not done before, has returned an id,
  -- asked for by the saved attestation's, it has the letter a behind the steps before, and the id as
  -- that of the instruction.
  pub register_node-records :
      (disk : Disk o) (st : RegistrationState) (s : S) (e : String)
      → load_state o s ≡ ok st
      → (register_node o tee_id ftdc_tee command text s).0 ≡ error e
      → (load_state o (register_node o tee_id ftdc_tee command text s).1 ≡ ok (reached st s))
        × Records st s (reached st s)
  register_node-records disk st s e loads fails = (
    register_node-load_state o disk tee_id ftdc_tee command text st s e loads fails,
    (run_steps-r st s, run_steps-R st s, run_steps-a st s),
  )
