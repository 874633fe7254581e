-- ===== src/Tests/Governance.antt =====
-- set-governance and start-tee on one host, with nothing set.
use quietfill.Prelude.{
  ℕ, zero, suc, ap, ◌+◌, ◌<◌, ◌≤◌, ◌≡◌, refl, String, Option, length, trim_space, trim_left,
  trim_right, ◌==◌, if◌then◌else◌,
}
use quietfill.World.{ok, fail as error}
use quietfill.Io.{nil, return, view, labelled, ◌>>=◌, ◌>>◌}
use quietfill.Support.{default_private_key, check_tx, judge_receipt}
use quietfill.VerifyDeploy.{split_commas}
use quietfill.Node.Governance.{GovernanceChain, send_governance, set_tee_governance}
use quietfill.Node.Governed.{HasHash, Sets}
use quietfill.SetGovernance.{
  GovernanceTools, parse_signers, parse_threshold, owner_key, default_signer, signers_for,
  threshold_for, main,
}
use quietfill.SetGovernance.Settled.{main-HasHash}
use quietfill.Launch.{set_owner_address, owner_variable, launcher, set_owner_address-default_signer}
use quietfill.TeeCalls.{SignedTeeInfo, tee_info}
use quietfill.Tests.Tools.{mined_at_once, at_once, setup, chain_support, reporting, machine_report}

-- The outside is the latest hash.
abbrev governance : GovernanceChain ℕ
governance = record {
  governance_hash = λ signers threshold. ok (threshold + length signers);
  keyed_transactor = ok nil;
  get_latest_tee_governance_hash = λ _ s. ok s;
  set_new_tee_governance = λ _ signers threshold s. (ok 1, threshold + length signers);
  client = mined_at_once ℕ;
}

abbrev tools : GovernanceTools ℕ
tools = record {
  getenv = λ name. "";
  hex_to_ecdsa = λ t. ok 5;
  pubkey_to_address = λ key. key;
  hex_to_address = λ t. if t == "0x5" then 5 else 0;
  parse_uint = λ t. error "invalid syntax";
  libraries = reporting ℕ (machine_report 6 8);
  proxy_url = "http://proxy";
  chain = λ key. governance;
}

governance-Sets :
    (priv_key extension_id : ℕ)
    → Sets governance extension_id (signers_for tools priv_key) (threshold_for tools)
governance-Sets priv_key extension_id h e =
    at_once (λ s. governance.get_latest_tee_governance_hash extension_id s ≡ ok h)
      (governance.set_new_tee_governance extension_id (signers_for tools priv_key)
        (threshold_for tools))
      (λ s. e)

run : main tools (ok chain_support) 0 ≡ (ok nil, 2)
unfolding main owner_key default_signer parse_signers parse_threshold split_commas trim_space
    trim_left trim_right set_tee_governance send_governance check_tx judge_receipt return view
    labelled ◌>>=◌ ◌>>◌
run = refl

main-HasHash_example :
    (priv_key : ℕ) × (info : SignedTeeInfo) × (owner_key tools chain_support ≡ ok priv_key)
    × (tee_info tools.libraries tools.proxy_url 0 ≡ ok info)
    × (0 < threshold_for tools)
    × (threshold_for tools ≤ length (signers_for tools priv_key))
    × HasHash governance info.extension_id (signers_for tools priv_key) (threshold_for tools) 2
main-HasHash_example = main-HasHash tools chain_support 0 2 governance-Sets run

-- Addresses printed in unary.
abbrev unary : ℕ → String
unary zero = ""
unary (suc n) = String.◌∷◌ "1" (unary n)

abbrev count : String → ℕ
count String.[] = 0
count (String.◌∷◌ c s) = suc (count s)

count-unary : (n : ℕ) → count (unary n) ≡ n
count-unary zero = refl
count-unary (suc n) = ap suc (count-unary n)

abbrev host : GovernanceTools ℕ
host = record tools { hex_to_address = count }

bare : trim_space (host.getenv "INITIAL_OWNER") ≡ host.getenv "INITIAL_OWNER"
unfolding trim_space trim_left trim_right
bare = refl

known_key :
    default_private_key (record setup { getenv = host.getenv; hex_to_ecdsa = host.hex_to_ecdsa })
    ≡ ok 5
unfolding default_private_key
known_key = refl

set_owner_address-default_signer_example :
    (returned : ℕ) × (exports : Option String) × (set_owner_address (launcher host unary)
      ≡ ok (returned, exports))
    × (count (owner_variable (launcher host unary) exports) ≡ default_signer host 5)
set_owner_address-default_signer_example =
    set_owner_address-default_signer host unary setup 5 refl count-unary bare known_key
