-- ===== src/Node/Calls.antt =====
-- The calls that registration makes: the transactions of tools/pkg/fccutils/registration.go over
-- the contract bindings, which are parameters. A transaction, a log, and the decoded
-- parts of a proof are numbers.
use quietfill.Prelude.{sprintf, ℕ, String, Option, List, [], ◌∷◌, eqb, if◌then◌else◌}
use quietfill.World.{Reply, ok, fail as error}
use quietfill.Encoding.{
  Structs, decode_ftdc_tee_availability_check_request, decode_ftdc_tee_availability_check_response,
}
use quietfill.Instructions.{Sent, sent, refused}
use quietfill.Node.Poll.{Answer, action_result}
use quietfill.Node.Reverted.{RegisterCall, register_reason}
use quietfill.Io.{Io, NoError, nil, return, throw, view, labelled, ◌>>=◌, ◌>>◌}

-- `registrationState`.
pub record RegistrationState : Type 0 where
  pub completed_steps : String
  pub tee_attest_instruction_id : ℕ
  pub instruction_id : ℕ

-- `fdc.ProveResponse`: the fields that are read.
pub record ProveResponse : Type 0 where
  pub response_header : String
  pub request_body : String
  pub response_body : String
  pub data_provider_signatures : String

-- `machinemanager.ITeeAvailabilityCheckProof`, its parts as they were decoded.
pub record Proof : Type 0 where
  pub signatures : String
  pub header : ℕ
  pub request_body : ℕ
  pub response_body : ℕ

-- What is outside, with the state `S` of it: the chain, the proxies, the disk.
pub record Outside (S : Type 0) : Type 0 where
  -- `os.ReadFile` of the state file: `none` where `os.IsNotExist`.
  pub read_file : S → Reply (Option String)
  pub write_file : String → Io S NoError
  pub remove_file : S → S
  -- `json.Unmarshal` and `json.MarshalIndent`.
  pub parse_state : String → Reply RegistrationState
  pub print_state : RegistrationState → Reply String
  pub hex_to_hash : String → ℕ
  pub keyed_transactor : Reply NoError  -- `bind.NewKeyedTransactorWithChainID`
  pub own_address : ℕ  -- `crypto.PubkeyToAddress` of the key's public half
  -- `GetTeeMachine`: the id that the registry has for a machine, 0 for none.
  pub get_tee_machine : ℕ → S → Reply ℕ
  -- Transactions: the machine, the challenge, and the addresses that each one carries.
  pub request_tee_attestation : ℕ → ℕ → Io S ℕ
  pub request_availability_check_attestation : ℕ → ℕ → ℕ → ℕ → ℕ → Io S ℕ
  pub to_production : Proof → Io S ℕ
  -- `support.CheckTx`: the logs of the receipt.
  pub check_tx : ℕ → Io S (List ℕ)
  -- `ParseTeeInstructionsSent`: the instruction's id.
  pub parse_tee_instructions_sent : ℕ → Reply ℕ
  -- `GetCurrentRewardEpochId`, and the policy that the FTDC proxy's `/info` reports.
  pub get_current_reward_epoch_id : S → Reply (Option ℕ)
  pub last_signing_policy_id : S → Reply ℕ
  -- The field `TeeId` of a request's body.
  pub request_tee_id : ℕ → ℕ
  -- `len(teeInfo.DataSignature)`, and `TransformSignatureRSVtoVRS` of it.
  pub signature_length : ℕ
  pub transform_signature : Reply NoError
  -- The transaction `Register`, with the machine's data, its signature, its proxy and its host.
  pub register : S → Sent × S
  pub register_call : RegisterCall S
  -- `ParseTeeAttestationRequested`: the challenge.
  pub parse_tee_attestation_requested : ℕ → Reply ℕ
  -- The answer of the FTDC proxy for an action, in each round; and `json.Unmarshal` of the response,
  -- as far as `Result.Data`, and of the data.
  pub get_action_result : ℕ → S → ℕ → Reply Answer
  pub decode_action_response : String → Reply String
  pub decode_proof : String → Reply ProveResponse
  -- `fdc.DecodeResponse`, and the codec of the request and of the response.
  pub decode_header : String → Reply ℕ
  pub structs : Structs

module _ {S : Type 0} (o : Outside S) where
  abbrev pub sent_event : String → Reply ℕ → Io S ℕ
  sent_event label id = labelled label (view (λ _. id))

  abbrev pub parse_label : String
  parse_label = "failed to parse TeeInstructionsSent event: "

  abbrev pub attestation_id : List ℕ → Io S ℕ
  attestation_id (log ∷ _ ∷ _) = sent_event parse_label (o.parse_tee_instructions_sent log)
  attestation_id _ = throw "unexpected logs, this should not happen"

  abbrev pub check_id : List ℕ → Io S ℕ
  check_id (log ∷ _) = sent_event parse_label (o.parse_tee_instructions_sent log)
  check_id [] = throw "no logs found in receipt"

  abbrev pub length_guard : Io S NoError
  length_guard = if eqb o.signature_length 65 then return nil else throw "signature error"

  abbrev pub reverted : Sent × S → Reply ℕ × S
  reverted (sent tx, s) = (ok tx, s)
  reverted (refused e, s) =
      (error (sprintf ("register() reverted: " ∷ register_reason o.register_call e s ∷ [])), s)

  abbrev pub registration_ids : List ℕ → Io S ℕ
  registration_ids (instruction ∷ requested ∷ _) = do
    labelled "failed to parse TeeAttestationRequested event: "
        (view (λ _. o.parse_tee_attestation_requested requested))
    sent_event parse_label (o.parse_tee_instructions_sent instruction)
  registration_ids _ = throw "unexpected logs, this should not happen"

  -- `PreRegistration`, and of its results the instruction's id, which is the one that is used.
  unfoldable pub pre_registration : Io S ℕ
  pre_registration = do
    view (λ _. o.keyed_transactor)
    length_guard
    view (λ _. o.transform_signature)
    tx ← λ s. reverted (o.register s)
    logs ← o.check_tx tx
    registration_ids logs

  -- `RequestTeeAttestation`.
  unfoldable pub request_attestation : ℕ → Io S ℕ
  request_attestation tee_id = do
    view (λ _. o.keyed_transactor)
    tx ← labelled "error: " (o.request_tee_attestation tee_id o.own_address)
    logs ← o.check_tx tx
    attestation_id logs

  -- `RequestFTDCAvailabilityCheck`.
  unfoldable pub request_ftdc_availability_check : ℕ → ℕ → ℕ → Io S ℕ
  request_ftdc_availability_check tee_id external_tee_id tee_attest_instruction_id = do
    view (λ _. o.keyed_transactor)
    tx ←
        o.request_availability_check_attestation tee_id tee_attest_instruction_id external_tee_id
          o.own_address o.own_address
    logs ← o.check_tx tx
    check_id logs

  -- `GetFTDCAvailabilityCheckResult`.
  unfoldable pub get_ftdc_availability_check_result : ℕ → Io S Proof
  get_ftdc_availability_check_result instruction_id = do
    bytes ←
        view (λ s. action_result (o.get_action_result instruction_id s) o.decode_action_response)
    ftdc_proof ← view (λ _. o.decode_proof bytes)
    header ← view (λ _. o.decode_header ftdc_proof.response_header)
    request ←
        view (λ _. decode_ftdc_tee_availability_check_request o.structs ftdc_proof.request_body)
    response ←
        view (λ _. decode_ftdc_tee_availability_check_response o.structs ftdc_proof.response_body)
    return (record {
      signatures = ftdc_proof.data_provider_signatures;
      header = header;
      request_body = request;
      response_body = response;
    })

  abbrev pub is_machine : ℕ → ℕ → Io S NoError
  is_machine id wanted =
      if eqb id wanted then return nil else throw "tee machine not set up correctly"

  -- `ToProduction`.
  unfoldable pub to_production_call : Proof → Io S NoError
  to_production_call proof = do
    view (λ _. o.keyed_transactor)
    tx ← o.to_production proof
    logs ← o.check_tx tx
    id ← view (o.get_tee_machine (o.request_tee_id proof.request_body))
    is_machine id (o.request_tee_id proof.request_body)
