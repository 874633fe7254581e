-- ===== src/Tests/Registering.antt =====
-- register-tee at a small disk, and a machine that the registry refuses.
use quietfill.Prelude.{ℕ, ◌≡◌, refl, inl, inr, true, false, none, some, [], ◌∷◌, sprintf, arith}
use quietfill.World.{ok, fail as error}
use quietfill.Io.{nil, return, view, labelled, require, ◌>>=◌, ◌>>◌}
use quietfill.Revert.{absent, returned, CustomError, same_bytes, first_four}
use quietfill.Revert.Match.{Listed}
use quietfill.Instructions.{refused}
use quietfill.Encoding.{
  decode_ftdc_tee_availability_check_request, decode_ftdc_tee_availability_check_response,
}
use quietfill.Node.Poll.{action_result}
use quietfill.Node.Calls.{
  Outside, pre_registration, request_ftdc_availability_check, to_production_call,
  get_ftdc_availability_check_result,
}
use quietfill.Node.Register.{
  register_node, run_steps, step, register_or_attest, checked_availability, load_state, save_state,
  has_letter, production, no_progress,
}
use quietfill.Node.Policy.{check_ftdc_proxy_policy_consistency}
use quietfill.Node.Named.{pre_registration-named}
use quietfill.RegisterTee.{
  TeeTools, expected, get_code_hash_and_platform, start_fresh, main, IsExpected, Reports,
  main-IsExpected,
}
use quietfill.Tests.Nodes.{Place, fresh, outside_at, Place-Disk}
use quietfill.TeeCalls.{SignedTeeInfo, tee_info, tee_proxy_id, get_tee_proxy_id}
use quietfill.Tests.Tools.{chain_support, reporting, machine_report}

abbrev custom : CustomError
custom = record {
  name = "InvalidGovernanceHash";
  selector = 1 ∷ 2 ∷ 3 ∷ 4 ∷ [];
  unpack = λ b. some "(0x5)";
}

abbrev refusing : Outside Place
refusing = record (outside_at 3) {
  register = λ p. (refused (record { message = "execution reverted"; payload = absent }), p);
  register_call = record {
    unpack_revert = λ b. none;
    abi_errors = ok (custom ∷ []);
    pack = ok nil;
    call_contract = λ p. returned (1 ∷ 2 ∷ 3 ∷ 4 ∷ 5 ∷ []);
  };
}

pre_registration-named_example : pre_registration refusing fresh ≡ (
  error (sprintf ("register() reverted: " ∷ sprintf ("InvalidGovernanceHash" ∷ "(0x5)" ∷ []) ∷ [])),
  fresh,
)
unfolding sprintf
pre_registration-named_example =
    pre_registration-named refusing (record { message = "execution reverted"; payload = absent })
      fresh fresh (custom ∷ []) (1 ∷ 2 ∷ 3 ∷ 4 ∷ 5 ∷ []) custom refl refl refl refl refl refl refl
      (omega arith, (omega arith, (omega arith, (omega arith, (omega arith, tt))))) (omega arith)
      refl (inl refl) refl only refl
  where
    only :
        (e : CustomError)
        → Listed e (custom ∷ [])
        → same_bytes e.selector (first_four (1 ∷ 2 ∷ 3 ∷ 4 ∷ 5 ∷ [])) ≡ true
        → e ≡ custom
    only e (inl here) same = here
    only e (inr later) same = absurd later

abbrev tools : TeeTools Place
tools = record {
  outside = λ info host external_url. outside_at 3;
  remove_state_file = λ p. record p { file = none };
  libraries = reporting Place (machine_report 1 2);
  simulated_tee = "";
}

abbrev registered : Place
registered = record { file = none; machine = 9 }

run :
    main tools false "http://proxy" "" "http://ftdc" "rap" "" (ok chain_support) fresh
    ≡ (ok nil, registered)
unfolding main start_fresh get_tee_proxy_id get_code_hash_and_platform expected register_node
    run_steps step register_or_attest checked_availability load_state save_state has_letter view
    labelled ◌>>=◌ ◌>>◌ check_ftdc_proxy_policy_consistency sprintf request_ftdc_availability_check
    production to_production_call return no_progress require pre_registration
    get_ftdc_availability_check_result action_result decode_ftdc_tee_availability_check_request
    decode_ftdc_tee_availability_check_response
run = refl

main-IsExpected_example :
    (info : SignedTeeInfo) × (ids ftdc_ids : ℕ × ℕ) × (tee_info tools.libraries "http://proxy" fresh
      ≡ ok info)
    × (tee_proxy_id tools.libraries info ≡ ok ids)
    × Reports tools "http://ftdc" ftdc_ids fresh
    × IsExpected tools info
    × (register_node (outside_at 3) ids.0 ftdc_ids.0 "rap" "" fresh ≡ (ok nil, registered))
    × (load_state (outside_at 3) registered ≡ ok no_progress)
main-IsExpected_example =
    main-IsExpected tools false "http://proxy" "" "http://ftdc" "rap" "" (ok chain_support) fresh
      registered (λ info host_url. Place-Disk 3) run
