-- ===== src/Node/Disk.antt =====
-- The disk as registration relies on it, and that no call outside the state file touches the file.
use quietfill.Prelude.{ℕ, ◌≡◌, String, Option, none, some, List, [], ◌∷◌, eqb}
use quietfill.World.{Reply, ok}
use quietfill.Io.{nil}
use quietfill.Io.Preserves.{
  Preserves, >>=-Preserves, >>-Preserves, view-Preserves, return-Preserves, throw-Preserves,
  labelled-Preserves, if-Preserves, choose-Preserves,
}
use quietfill.Instructions.{Sent, sent, refused}
use quietfill.Node.Calls.{
  Outside, RegistrationState, request_attestation, request_ftdc_availability_check,
  to_production_call, Proof, pre_registration, get_ftdc_availability_check_result, length_guard,
  reverted, registration_ids, attestation_id, check_id, is_machine,
}
use quietfill.Node.Register.{
  register_or_attest, checked_availability, is_registered, production, has_letter,
}

-- The file's content at `s` is `d`.
abbrev pub Content : {S : Type 0} → Outside S → Reply (Option String) → S → Type 0
Content o d s = o.read_file s ≡ d

-- A write succeeds and is read back, a removed file is not there, a state's JSON is parsed as the
-- state, and no transaction touches the file.
pub record Disk {S : Type 0} (o : Outside S) : Type 0 where
  pub writes :
      (d : String) (s : S)
      → ((o.write_file d s).0 ≡ ok nil) × (o.read_file (o.write_file d s).1 ≡ ok (some d))
  pub prints :
      (st : RegistrationState)
      → (d : String) × (o.print_state st ≡ ok d) × (o.parse_state d ≡ ok st)
  pub removes : (s : S) → o.read_file (o.remove_file s) ≡ ok none
  pub keeps_attestation :
      (d : Reply (Option String)) (m a : ℕ)
      → Preserves (Content o d) (o.request_tee_attestation m a)
  pub keeps_check :
      (d : Reply (Option String)) (m i e p b : ℕ)
      → Preserves (Content o d) (o.request_availability_check_attestation m i e p b)
  pub keeps_production :
      (d : Reply (Option String)) (p : Proof) → Preserves (Content o d) (o.to_production p)
  pub keeps_tx : (d : Reply (Option String)) (tx : ℕ) → Preserves (Content o d) (o.check_tx tx)
  pub keeps_registration :
      (d : Reply (Option String)) (s : S) → Content o d s → Content o d (o.register s).1

module _ {S : Type 0} (o : Outside S) (disk : Disk o) (d : Reply (Option String)) where
  attestation_id-Preserves : (logs : List ℕ) → Preserves (Content o d) (attestation_id o logs)
  attestation_id-Preserves [] = (throw-Preserves _)
  attestation_id-Preserves (log ∷ []) = (throw-Preserves _)
  attestation_id-Preserves (log ∷ next ∷ rest) = labelled-Preserves _ (view-Preserves _)

  check_id-Preserves : (logs : List ℕ) → Preserves (Content o d) (check_id o logs)
  check_id-Preserves [] = (throw-Preserves _)
  check_id-Preserves (log ∷ rest) = labelled-Preserves _ (view-Preserves _)

  pub request_attestation-Preserves :
      (tee : ℕ) → Preserves (Content o d) (request_attestation o tee)
  unfolding request_attestation
  request_attestation-Preserves tee = >>-Preserves (view-Preserves _) (
      >>=-Preserves (labelled-Preserves _ (disk.keeps_attestation d tee o.own_address))
        (λ tx. >>=-Preserves (disk.keeps_tx d tx) attestation_id-Preserves))

  pub availability-Preserves :
      (tee ftdc i : ℕ) → Preserves (Content o d) (checked_availability o tee ftdc i)
  unfolding checked_availability request_ftdc_availability_check
  availability-Preserves tee ftdc i = >>-Preserves (view-Preserves _) (
      >>-Preserves (view-Preserves _) (
        >>=-Preserves (disk.keeps_check d tee i ftdc o.own_address o.own_address)
          (λ tx. >>=-Preserves (disk.keeps_tx d tx) check_id-Preserves)))

  length_guard-Preserves : Preserves (Content o d) (length_guard o)
  length_guard-Preserves =
      if-Preserves (eqb o.signature_length 65) (return-Preserves _) (throw-Preserves _)

  reverted-state : (out : Sent × S) → Content o d out.1 → Content o d (reverted o out).1
  reverted-state (sent tx, s) h = h
  reverted-state (refused e, s) h = h

  register-Preserves : Preserves (Content o d) (λ s. reverted o (o.register s))
  register-Preserves = record {
    holds = λ s h. reverted-state (o.register s) (disk.keeps_registration d s h);
  }

  registration_ids-Preserves : (logs : List ℕ) → Preserves (Content o d) (registration_ids o logs)
  registration_ids-Preserves [] = throw-Preserves _
  registration_ids-Preserves (log ∷ []) = throw-Preserves _
  registration_ids-Preserves (instruction ∷ requested ∷ rest) =
      >>-Preserves (labelled-Preserves _ (view-Preserves _))
        (labelled-Preserves _ (view-Preserves _))

  pre_registration-Preserves : Preserves (Content o d) (pre_registration o)
  unfolding pre_registration
  pre_registration-Preserves = >>-Preserves (view-Preserves _) (
      >>-Preserves length_guard-Preserves (
        >>-Preserves (view-Preserves _) (
          >>=-Preserves register-Preserves
            (λ tx. >>=-Preserves (disk.keeps_tx d tx) registration_ids-Preserves))))

  result-Preserves : (id : ℕ) → Preserves (Content o d) (get_ftdc_availability_check_result o id)
  unfolding get_ftdc_availability_check_result
  result-Preserves id = >>=-Preserves (view-Preserves _) (λ bytes.
      >>=-Preserves (view-Preserves _) (λ proof. >>=-Preserves (view-Preserves _) (λ header.
        >>=-Preserves (view-Preserves _)
          (λ request. >>=-Preserves (view-Preserves _) (λ response. return-Preserves _)))))

  pub register_or_attest-Preserves : (tee : ℕ) → Preserves (Content o d) (register_or_attest o tee)
  unfolding register_or_attest
  register_or_attest-Preserves tee =
      choose-Preserves (λ s. is_registered o (o.get_tee_machine tee s)) (request_attestation o tee)
        (pre_registration o) (request_attestation-Preserves tee) pre_registration-Preserves

  is_machine-Preserves : (id wanted : ℕ) → Preserves (Content o d) (is_machine o id wanted)
  is_machine-Preserves id wanted =
      if-Preserves (eqb id wanted) (return-Preserves _) (throw-Preserves _)

  to_production-Preserves : (p : Proof) → Preserves (Content o d) (to_production_call o p)
  unfolding to_production_call
  to_production-Preserves p = >>-Preserves (view-Preserves _) (
      >>=-Preserves (disk.keeps_production d p) (λ tx. >>=-Preserves (disk.keeps_tx d tx) (λ _.
        >>=-Preserves (view-Preserves _)
          (λ id. is_machine-Preserves id (o.request_tee_id p.request_body)))))

  pub production-Preserves :
      (command : String) (i : ℕ) → Preserves (Content o d) (production o command i)
  unfolding production
  production-Preserves command i =
      if-Preserves (has_letter b'p' command)
        (>>=-Preserves (result-Preserves i) to_production-Preserves) (return-Preserves _)
