-- ===== src/Node/Resume.antt =====
-- What `RegisterNode` leaves in the state file, and what a run that resumes from it does.
use quietfill.Prelude.{ℕ, ◌≡◌, ◌∙◌, ap, refl, sym, arith, String, Bool, not, Option, If-both}
use quietfill.World.{Reply, ok, fail as error}
use quietfill.Io.{Io, NoError, nil, labelled, wrapped}
use quietfill.Io.Preserves.{Preserves, >>=-Preserves}
use quietfill.Node.Calls.{Outside, RegistrationState}
use quietfill.Node.Register.{
  Live, has_letter, load_state, save_state, loaded, parsed, write_printed, record_step, step,
  production, run_steps, register_node, outside, removed, from_progress,
}
use quietfill.Node.Disk.{
  Disk, Content, request_attestation-Preserves, availability-Preserves,
  register_or_attest-Preserves, production-Preserves,
}

-- The file has the progress in memory.
abbrev pub Saved : {S : Type 0} → Outside S → Live S → Type 0
Saved o live = load_state o live.1 ≡ ok live.0

outside-state :
    {S A : Type 0} (o : Outside S) (st : RegistrationState) (out : Reply A × S)
    → load_state o out.1 ≡ ok st
    → Saved o (outside o st out).1
outside-state o st (ok a, s) h = h
outside-state o st (error e, s) h = h

module _ {S : Type 0} (o : Outside S) (disk : Disk o) where
  wrapped-state : {A : Type 0} (e : String) (out : Reply A × S) → (wrapped e out).1 ≡ out.1
  wrapped-state e (ok a, s) = refl
  wrapped-state e (error _, s) = refl

  -- What `saveState` writes, `loadState` reads.
  pub load_state-save_state :
      (st : RegistrationState) (s : S) → load_state o (save_state o st s).1 ≡ ok st
  unfolding load_state save_state labelled
  load_state-save_state st s =
      let (d, printed, parses) = disk.prints st in
      ap (λ r. loaded o (o.read_file (write_printed o r s).1)) printed
      ∙ ap (λ t. loaded o (o.read_file t))
          (wrapped-state "failed to write state file: " (o.write_file d s))
      ∙ ap (loaded o) (disk.writes d s).1
      ∙ ap (parsed o) parses

  load_state-call :
      {A : Type 0} (call : Io S A)
      → ((d : Reply (Option String)) → Preserves (Content o d) call)
      → (s : S) → load_state o (call s).1 ≡ load_state o s
  unfolding load_state
  load_state-call call keeps s = ap (loaded o) ((keeps (o.read_file s)).holds s refl)

  record_step-Saved :
      (change : ℕ → RegistrationState → RegistrationState) (st : RegistrationState)
      (out : Reply ℕ × S)
      → load_state o out.1 ≡ ok st
      → Saved o (record_step o change st out).1
  record_step-Saved change st (error e, s) h = h
  record_step-Saved change st (ok id, s) h = load_state-save_state (change id st) s

  step-Saved :
      (named : Bool) (letter otherwise : ℕ) (saved : RegistrationState → ℕ)
      (change : ℕ → RegistrationState → RegistrationState) (call : Io S ℕ)
      → ((d : Reply (Option String)) → Preserves (Content o d) call)
      → Preserves (Saved o) (step o named letter otherwise saved change call)
  unfolding step
  step-Saved named letter otherwise saved change call keeps = record {
    holds = λ (st, s) h.
        If-both (λ (out : Reply ℕ × Live S). Saved o out.1) (not named) h
          (If-both (λ (out : Reply ℕ × Live S). Saved o out.1)
            (has_letter letter st.completed_steps) h
            (record_step-Saved change st (call s) (load_state-call call keeps s ∙ h)));
  }

  outside-Saved :
      (command : String) (id : ℕ)
      → Preserves (Saved o) (λ live. outside o live.0 (production o command id live.1))
  outside-Saved command id = record {
    holds = λ (st, s) h. outside-state o st (production o command id s) (
        load_state-call (production o command id) (λ d. production-Preserves o disk d command id) s
        ∙ h);
  }

  -- The steps keep the file and the progress in memory together, whether or not they succeed.
  pub run_steps-Saved :
      (tee_id ftdc_tee : ℕ) (command text : String)
      → Preserves (Saved o) (run_steps o tee_id ftdc_tee command text)
  unfolding run_steps
  run_steps-Saved tee_id ftdc_tee command text =
      >>=-Preserves (step-Saved _ _ _ _ _ _ (λ d. register_or_attest-Preserves o disk d tee_id))
        (λ registered.
          >>=-Preserves
            (step-Saved _ _ _ _ _ _ (λ d. request_attestation-Preserves o disk d tee_id))
            (λ attest.
              >>=-Preserves
                (step-Saved _ _ _ _ _ _
                  (λ d. availability-Preserves o disk d tee_id ftdc_tee attest))
                (λ id. outside-Saved command id)))

  removed-failed :
      (out : Reply NoError × Live S) (e : String)
      → (removed o out).0 ≡ error e
      → (removed o out).1 ≡ out.1.1
  removed-failed (error e', (st, s)) e h = refl
  removed-failed (ok nil, (st, s)) e h = ground (arith, h)

  -- Where the disk is as described: a run that starts with the progress that the file has, and
  -- fails, leaves a file from which the next run loads the progress that it had reached in memory.
  pub register_node-load_state :
      (tee_id ftdc_tee : ℕ) (command text : String) (st : RegistrationState) (s : S) (e : String)
      → load_state o s ≡ ok st
      → (register_node o tee_id ftdc_tee command text s).0 ≡ error e
      → load_state o (register_node o tee_id ftdc_tee command text s).1
        ≡ ok (run_steps o tee_id ftdc_tee command text (st, s)).1.0
  register_node-load_state tee_id ftdc_tee command text st s e loads fails =
      let out = run_steps o tee_id ftdc_tee command text (st, s) in
      let here : register_node o tee_id ftdc_tee command text s ≡ removed o out =
        unfold register_node in ap (λ r. from_progress o tee_id ftdc_tee command text r s) loads in
      ap (λ (t : Reply NoError × S). load_state o t.1) here
      ∙ ap (load_state o)
          (removed-failed out e (ap (λ (t : Reply NoError × S). t.0) (sym here) ∙ fails))
      ∙ (run_steps-Saved tee_id ftdc_tee command text).holds (st, s) loads
