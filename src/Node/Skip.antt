-- ===== src/Node/Skip.antt =====
-- A run of `RegisterNode` whose steps are done, and the end of a run that succeeds.
use quietfill.Prelude.{
  ℕ, ◌≡◌, ◌∙◌, ap, refl, String, Bool, true, false, if◌then◌else◌, inl, inr, Bool-cases, arith,
}
use quietfill.World.{Reply, ok, fail as error}
use quietfill.Io.{Io, NoError, nil, return, ◌>>=◌}
use quietfill.Node.Calls.{
  Outside, RegistrationState, get_ftdc_availability_check_result, to_production_call,
}
use quietfill.Node.Register.{
  Live, has_letter, no_progress, load_state, loaded, step, production, run_steps, register_node,
  outside, removed, from_progress,
}
use quietfill.Node.Disk.{Disk}

-- The progress has the step, where the command names it.
abbrev pub IsDone : String → RegistrationState → ℕ → Type 0
IsDone command st letter =
    has_letter letter command ≡ true → has_letter letter st.completed_steps ≡ true

module _ {S : Type 0} (o : Outside S) where
  pub step-skips :
      (named : Bool) (letter otherwise : ℕ) (saved : RegistrationState → ℕ)
      (change : ℕ → RegistrationState → RegistrationState) (call : Io S ℕ) (st : RegistrationState)
      (s : S)
      → (named ≡ true → has_letter letter st.completed_steps ≡ true)
      → step o named letter otherwise saved change call (st, s)
        ≡ (ok (if named then saved st else otherwise), (st, s))
  unfolding step
  step-skips true letter otherwise saved change call st s h = rw (h refl)
  step-skips false letter otherwise saved change call st s h = refl

  -- The id that the run takes to production.
  abbrev production_id : String → String → RegistrationState → ℕ
  production_id command text st =
      if has_letter b'a' command then st.instruction_id else o.hex_to_hash text

  run_steps-skips :
      (tee_id ftdc_tee : ℕ) (command text : String) (st : RegistrationState) (s : S)
      → IsDone command st b'r'
      → IsDone command st b'R'
      → IsDone command st b'a'
      → run_steps o tee_id ftdc_tee command text (st, s)
        ≡ outside o st (production o command (production_id command text st) s)
  unfolding run_steps ◌>>=◌
  run_steps-skips tee_id ftdc_tee command text st s r R a =
      rw (
        step-skips _ _ _ _ _ _ st s r,
        step-skips _ _ _ _ _ _ st s R,
        step-skips _ _ _ _ _ _ st s a,
      )

  -- A run's result, with the file removed where it succeeds.
  abbrev pub finished : Reply NoError × S → Reply NoError × S
  finished (error e, s) = (error e, s)
  finished (ok nil, s) = (ok nil, o.remove_file s)

  removed-outside :
      (st : RegistrationState) (out : Reply NoError × S)
      → removed o (outside o st out) ≡ finished out
  removed-outside st (error e, s) = refl
  removed-outside st (ok nil, s) = refl

  production-asks :
      (command : String) (id : ℕ) (s : S)
      → production o command id s ≡ (
          if has_letter b'p' command
          then (get_ftdc_availability_check_result o id >>= to_production_call o) s
          else (ok nil, s))
  unfolding production return
  production-asks command id s = elim (Bool-cases (has_letter b'p' command)) [
    | inl named ↦ rw named refl
    | inr unnamed ↦ rw unnamed refl
  ]

  -- A run whose file has every step of r, R and a that the command names repeats none of them: if the
  -- command names p, it asks the proxy for the result of the availability check by the instruction id
  -- that the file has, or by the given one where the command does not name a, and takes the machine to
  -- production with it; and it does nothing else but remove the file on success.
  pub register_node-production :
      (tee_id ftdc_tee : ℕ) (command text : String) (st : RegistrationState) (s : S)
      → load_state o s ≡ ok st
      → IsDone command st b'r'
      → IsDone command st b'R'
      → IsDone command st b'a'
      → register_node o tee_id ftdc_tee command text s
        ≡ finished (
            if has_letter b'p' command
            then (get_ftdc_availability_check_result o
                    (if has_letter b'a' command then st.instruction_id else o.hex_to_hash text)
                  >>= to_production_call o)
                s
            else (ok nil, s))
  unfolding register_node
  register_node-production tee_id ftdc_tee command text st s loads r R a =
      ap (λ p. from_progress o tee_id ftdc_tee command text p s) loads
      ∙ ap (removed o) (run_steps-skips tee_id ftdc_tee command text st s r R a)
      ∙ removed-outside st (production o command (production_id command text st) s)
      ∙ ap finished (production-asks command (production_id command text st) s)

  removed-ok :
      (disk : Disk o) (out : Reply NoError × Live S)
      → (removed o out).0 ≡ ok nil
      → load_state o (removed o out).1 ≡ ok no_progress
  unfolding load_state
  removed-ok disk (error e, (st, s)) h = ground (arith, h)
  removed-ok disk (ok nil, (st, s)) h = ap (loaded o) (disk.removes s)

  from_progress-ok :
      (disk : Disk o) (tee_id ftdc_tee : ℕ) (command text : String) (r : Reply RegistrationState)
      (s : S)
      → (from_progress o tee_id ftdc_tee command text r s).0 ≡ ok nil
      → load_state o (from_progress o tee_id ftdc_tee command text r s).1 ≡ ok no_progress
  from_progress-ok disk tee_id ftdc_tee command text (error e) s h = ground (arith, h)
  from_progress-ok disk tee_id ftdc_tee command text (ok st) s h = removed-ok disk _ h

  -- After a run that succeeds, on a disk as described, the next run starts afresh.
  pub register_node-no_progress :
      (disk : Disk o) (tee_id ftdc_tee : ℕ) (command text : String) (s : S)
      → (register_node o tee_id ftdc_tee command text s).0 ≡ ok nil
      → load_state o (register_node o tee_id ftdc_tee command text s).1 ≡ ok no_progress
  unfolding register_node
  register_node-no_progress disk tee_id ftdc_tee command text s h =
      from_progress-ok disk tee_id ftdc_tee command text (load_state o s) s h
