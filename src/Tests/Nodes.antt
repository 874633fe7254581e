-- ===== src/Tests/Nodes.antt =====
-- The theorems about registration on a small chain with a disk.
use quietfill.Prelude.{
  ℕ, zero, suc, ◌≡◌, ◌∙◌, refl, ap, sprintf, String, code, Option, none, some, [], ◌∷◌, eqb,
  if◌then◌else◌, true,
}
use quietfill.World.{ok, fail as error}
use quietfill.Io.{nil, return, view, labelled, ◌>>=◌, ◌>>◌}
use quietfill.Encoding.{request, response}
use quietfill.Node.Policy.{check_ftdc_proxy_policy_consistency, out_of_sync_error}
use quietfill.Revert.{returned}
use quietfill.Instructions.{sent}
use quietfill.Node.Calls.{
  Outside, RegistrationState, pre_registration, get_ftdc_availability_check_result,
  to_production_call,
}
use quietfill.Node.Register.{
  has_letter, load_state, register_node, run_steps, no_progress, step, save_state,
  register_or_attest, checked_availability,
}
use quietfill.Node.Disk.{Disk}
use quietfill.Node.Recorded.{reached, Records, register_node-records}
use quietfill.Node.Skip.{finished, register_node-production}

pub record Place : Type 0 where
  pub file : Option String
  pub machine : ℕ

-- A number in front of a text.
abbrev tally_mark : ℕ → String → String
tally_mark zero t = String.◌∷◌ "0" t
tally_mark (suc n) t = String.◌∷◌ "1" (tally_mark n t)

abbrev read_mark : String → ℕ × String
read_mark String.[] = (0, "")
read_mark (String.◌∷◌ c t) =
    let more = read_mark t in if eqb (code c) b'1' then (suc more.0, more.1) else (0, t)

read-tally : (n : ℕ) (t : String) → read_mark (tally_mark n t) ≡ (n, t)
read-tally zero t = refl
read-tally (suc n) t = ap (λ (r : ℕ × String). (suc r.0, r.1)) (read-tally n t)

abbrev print : RegistrationState → String
print st = tally_mark st.tee_attest_instruction_id (tally_mark st.instruction_id st.completed_steps)

abbrev assemble : ℕ × String → ℕ × String → RegistrationState
assemble (a, _) (i, steps) = record {
  completed_steps = steps;
  tee_attest_instruction_id = a;
  instruction_id = i;
}

abbrev parse : String → RegistrationState
parse t = assemble (read_mark t) (read_mark (read_mark t).1)

parse-print : (st : RegistrationState) → parse (print st) ≡ st
parse-print st =
    ap (λ r. assemble r (read_mark r.1))
      (read-tally st.tee_attest_instruction_id (tally_mark st.instruction_id st.completed_steps))
    ∙ ap (assemble (st.tee_attest_instruction_id, ""))
        (read-tally st.instruction_id st.completed_steps)

-- The epoch is 3; the proxy has the given policy.
abbrev pub outside_at : ℕ → Outside Place
outside_at policy = record {
  read_file = λ p. ok p.file;
  write_file = λ d p. (ok nil, record p { file = some d });
  remove_file = λ p. record p { file = none };
  parse_state = λ d. ok (parse d);
  print_state = λ st. ok (print st);
  hex_to_hash = λ _. 0;
  keyed_transactor = ok nil;
  own_address = 4;
  get_tee_machine = λ _ p. ok p.machine;
  request_tee_attestation = λ _ _ p. (ok 1, p);
  request_availability_check_attestation = λ _ _ _ _ _ p. (ok 2, p);
  to_production = λ _ p. (ok 3, p);
  check_tx = λ tx p. (ok (tx ∷ 8 ∷ []), p);
  parse_tee_instructions_sent = λ log. ok log;
  get_current_reward_epoch_id = λ _. ok (some 3);
  last_signing_policy_id = λ _. ok policy;
  request_tee_id = λ _. 9;
  signature_length = 65;
  transform_signature = ok nil;
  register = λ p. (sent 5, record p { machine = 9 });
  register_call = record {
    unpack_revert = λ b. none;
    abi_errors = error "no ABI";
    pack = ok nil;
    call_contract = λ p. returned [];
  };
  parse_tee_attestation_requested = λ log. ok log;
  get_action_result = λ _ _ _. ok (record { status_code = 200; body = "result" });
  decode_action_response = λ t. ok t;
  decode_proof = λ t. ok (record {
    response_header = t;
    request_body = t;
    response_body = t;
    data_provider_signatures = t;
  });
  decode_header = λ _. ok 1;
  structs = record {
    encode = λ field body. ok "";
    decode_to = λ field bytes. elim field [ request ↦ ok 2 | response ↦ ok 3 ];
  };
}

pub Place-Disk : (policy : ℕ) → Disk (outside_at policy)
Place-Disk policy = record {
  writes = λ d s. (refl, refl);
  prints = λ st. (print st, refl, ap ok (parse-print st));
  removes = λ s. refl;
  keeps_attestation = λ d m a. record { holds = λ s h. h };
  keeps_check = λ d m i e p b. record { holds = λ s h. h };
  keeps_production = λ d p. record { holds = λ s h. h };
  keeps_tx = λ d tx. record { holds = λ s h. h };
  keeps_registration = λ d s h. h;
}

abbrev pub fresh : Place
fresh = record { file = none; machine = 0 }

fails : (register_node (outside_at 7) 9 8 "rap" "" fresh).0 ≡ error (out_of_sync_error 3 7)
unfolding register_node run_steps step register_or_attest checked_availability load_state save_state
    has_letter view labelled ◌>>=◌ ◌>>◌ check_ftdc_proxy_policy_consistency sprintf no_progress
    pre_registration return
fails = refl

abbrev done_state : RegistrationState
done_state = record { completed_steps = "ra"; tee_attest_instruction_id = 5; instruction_id = 2 }

abbrev resumed : Place
resumed = record { file = some (print done_state); machine = 9 }

no_file : load_state (outside_at 7) fresh ≡ ok no_progress
unfolding load_state
no_file = refl

with_file : load_state (outside_at 7) resumed ≡ ok done_state
unfolding load_state
with_file = refl

register_node-records_example :
    (load_state (outside_at 7) (register_node (outside_at 7) 9 8 "rap" "" fresh).1
      ≡ ok (reached (outside_at 7) 9 8 "rap" "" no_progress fresh))
    × Records
        (outside_at 7)
        9
        8
        "rap"
        ""
        no_progress
        fresh
        (reached (outside_at 7) 9 8 "rap" "" no_progress fresh)
register_node-records_example =
    register_node-records (outside_at 7) 9 8 "rap" "" (Place-Disk 7) no_progress fresh
      (out_of_sync_error 3 7) no_file fails

completed_r : has_letter b'r' "ra" ≡ true
unfolding has_letter
completed_r = refl

completed_a : has_letter b'a' "ra" ≡ true
unfolding has_letter
completed_a = refl

unnamed_R : has_letter b'R' "rap" ≡ true → has_letter b'R' "ra" ≡ true
unfolding has_letter
unnamed_R h = h

register_node-production_example :
    register_node (outside_at 7) 9 8 "rap" "" resumed
    ≡ finished (outside_at 7) (
        (get_ftdc_availability_check_result (outside_at 7) done_state.instruction_id
            >>= to_production_call (outside_at 7))
          resumed)
unfolding ◌>>=◌ has_letter
register_node-production_example =
    register_node-production (outside_at 7) 9 8 "rap" "" done_state resumed with_file
      (λ _. completed_r) unnamed_R (λ _. completed_a)
