-- ===== src/Node/Register.antt =====
-- `RegisterNode` of tools/pkg/fccutils/registration.go, with `loadState` and `saveState`. A step
-- takes and returns the progress in memory beside the state of what is outside.
use quietfill.Prelude.{
  ℕ, Bool, false, ◌||◌, not, String, code, Option, none, some, [], ◌∷◌, sprintf, eqb, if◌then◌else◌,
}
use quietfill.World.{Reply, ok, fail as error}
use quietfill.Io.{Io, NoError, nil, return, throw, view, labelled, ◌>>=◌, ◌>>◌}
use quietfill.Node.Policy.{check_ftdc_proxy_policy_consistency}
use quietfill.Node.Calls.{
  Outside, RegistrationState, request_attestation, request_ftdc_availability_check,
  to_production_call, pre_registration, get_ftdc_availability_check_result,
}

-- `strings.Contains` of a text of one letter.
unfoldable pub has_letter : ℕ → String → Bool
has_letter l String.[] = false
has_letter l (String.◌∷◌ c s) = eqb (code c) l || has_letter l s

unfoldable pub no_progress : RegistrationState
no_progress = record { completed_steps = ""; tee_attest_instruction_id = 0; instruction_id = 0 }

-- The progress in memory, and what is outside.
abbrev pub Live : Type 0 → Type 0
Live S = RegistrationState × S

module _ {S : Type 0} (o : Outside S) where
  abbrev pub parsed : Reply RegistrationState → Reply RegistrationState
  parsed (error e) = error (sprintf ("failed to parse state file: " ∷ e ∷ []))
  parsed (ok st) = ok st

  abbrev pub loaded : Reply (Option String) → Reply RegistrationState
  loaded (error e) = error (sprintf ("failed to read state file: " ∷ e ∷ []))
  loaded (ok none) = ok no_progress
  loaded (ok (some bytes)) = parsed (o.parse_state bytes)

  -- `loadState`.
  unfoldable pub load_state : S → Reply RegistrationState
  load_state s = loaded (o.read_file s)

  abbrev pub write_printed : Reply String → Io S NoError
  write_printed (error e) = throw (sprintf ("failed to marshal state: " ∷ e ∷ []))
  write_printed (ok bytes) = labelled "failed to write state file: " (o.write_file bytes)

  -- `saveState`.
  unfoldable pub save_state : RegistrationState → Io S NoError
  save_state st = write_printed (o.print_state st)

  -- A call that returns an id; then the progress with it, saved, where an error is only logged.
  abbrev pub record_step :
      (ℕ → RegistrationState → RegistrationState)
      → RegistrationState
      → Reply ℕ × S
      → Reply ℕ × Live S
  record_step change st (error e, s) = (error e, (st, s))
  record_step change st (ok id, s) = (ok id, (change id st, (save_state (change id st) s).1))

  abbrev pub attested : String → ℕ → RegistrationState → RegistrationState
  attested letter id st = record st {
    completed_steps = sprintf (st.completed_steps ∷ letter ∷ []);
    tee_attest_instruction_id = id;
  }

  abbrev pub checked : ℕ → RegistrationState → RegistrationState
  checked id st = record st {
    completed_steps = sprintf (st.completed_steps ∷ "a" ∷ []);
    instruction_id = id;
  }

  abbrev pub is_registered : Reply ℕ → Bool
  is_registered (error _) = false
  is_registered (ok id) = not (eqb id 0)

  -- The call of the step `r`: a machine that is on the chain already asks for a fresh attestation.
  unfoldable pub register_or_attest : ℕ → Io S ℕ
  register_or_attest tee_id s =
      if is_registered (o.get_tee_machine tee_id s)
      then request_attestation o tee_id s
      else pre_registration o s

  -- The call of the step `a`, behind its check of the policy.
  unfoldable pub checked_availability : ℕ → ℕ → ℕ → Io S ℕ
  checked_availability tee_id ftdc_tee attest_id = do
    view (λ s.
        check_ftdc_proxy_policy_consistency (o.get_current_reward_epoch_id s)
          (o.last_signing_policy_id s))
    request_ftdc_availability_check o tee_id ftdc_tee attest_id

  -- A step: skipped where the command does not name it, and where the progress has it already.
  unfoldable pub step :
      Bool
      → ℕ
      → ℕ
      → (RegistrationState → ℕ)
      → (ℕ → RegistrationState → RegistrationState)
      → Io S ℕ
      → Io (Live S) ℕ
  step named letter otherwise saved change call (st, s) =
      if not named
      then (ok otherwise, (st, s))
      else if has_letter letter st.completed_steps
      then (ok (saved st), (st, s))
      else record_step change st (call s)

  abbrev pub outside : {A : Type 0} → RegistrationState → Reply A × S → Reply A × Live S
  outside st (result, s) = (result, (st, s))

  -- The part under `if strings.Contains(command, "p")`.
  unfoldable pub production : String → ℕ → Io S NoError
  production command instruction_id =
      if has_letter b'p' command
      then get_ftdc_availability_check_result o instruction_id >>= to_production_call o
      else return nil

  -- `RegisterNode` from the load of the state file to its removal.
  unfoldable pub run_steps : ℕ → ℕ → String → String → Io (Live S) NoError
  run_steps tee_id ftdc_tee command instruction_text = do
    registered ←
        step (has_letter b'r' command) b'r' 0 RegistrationState.tee_attest_instruction_id
          (attested "r") (register_or_attest tee_id)
    attest_id ←
        step (has_letter b'R' command) b'R' registered RegistrationState.tee_attest_instruction_id
          (attested "R") (request_attestation o tee_id)
    id ←
        step (has_letter b'a' command) b'a' (o.hex_to_hash instruction_text)
          RegistrationState.instruction_id checked (checked_availability tee_id ftdc_tee attest_id)
    λ live. outside live.0 (production command id live.1)

  abbrev pub removed : Reply NoError × Live S → Reply NoError × S
  removed (error e, (st, s)) = (error e, s)
  removed (ok nil, (st, s)) = (ok nil, o.remove_file s)

  abbrev pub from_progress : ℕ → ℕ → String → String → Reply RegistrationState → Io S NoError
  from_progress tee_id ftdc_tee command instruction_text (error e) s = (error e, s)
  from_progress tee_id ftdc_tee command instruction_text (ok st) s =
      removed (run_steps tee_id ftdc_tee command instruction_text (st, s))

  -- `RegisterNode`, once `TeeProxyId` has the machine's id.
  unfoldable pub register_node : ℕ → ℕ → String → String → Io S NoError
  register_node tee_id ftdc_tee command instruction_text s =
      from_progress tee_id ftdc_tee command instruction_text (load_state s) s
