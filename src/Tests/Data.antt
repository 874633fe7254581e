-- ===== src/Tests/Data.antt =====
-- A deployment to look at: an environment, a file, a chain and its contracts.
use quietfill.Prelude.{String, true, false, Option, none, some, [], ◌∷◌, eqb, ◌==◌, if◌then◌else◌}
use quietfill.World.{World, Eth, Client, Registry, Allowlist, ok, fail as error}
use quietfill.Report.{Report, check, pass, warn, fail, skip}
use quietfill.VerifyDeploy.{Support}

abbrev pub sender_text : String
sender_text = "0x1234567890abcdef1234567890abcdef12345678"

abbrev pub id_text : String
id_text = "0x00000000000000000000000000000000000000000000000000000000000101fe"

-- As scripts/pre-build.sh writes it.
abbrev pub env_file : String
env_file =
    "# written by pre-build.sh\nINSTRUCTION_SENDER=0x1234567890abcdef1234567890abcdef12345678\nEXTENSION_ID=0x00000000000000000000000000000000000000000000000000000000000101fe\n"

abbrev variables : String → String
variables name =
    if name == "EXT_PROXY_URL"
    then "http://proxy"
    else if name == "LOCAL_MODE"
    then "staging"
    else ""

abbrev files : String → Option String
files path = if path == "extension.env" then some env_file else none

abbrev pub world : World
world = record {
  getenv = variables;
  open_file = files;
  not_exist = λ path. if path == "extension.env" then false else true;
  dial = λ address. false;
  http_get = λ url. some 200;
}

abbrev pub eth : Eth
eth = record {
  hex = λ n. if eqb n 0 then "0x0" else "0xab";
  hex_to_address = λ s. 7;
  pubkey_to_address = λ k. k;
  evm_type = 1;
  quote = λ s. s;
}

abbrev pub client : Client
client = record {
  code_at = λ a. ok 100;
  balance_at = λ a. ok 20_000_000_000_000_000;
  chain_id = ok 114;
}

-- Two of the first four extensions have the sender 7.
abbrev pub registry : Registry
registry = record {
  next_public_extension_id = ok 4;
  get_instructions_sender =
      λ id. if eqb id 1 then ok 7 else if eqb id 3 then ok 7 else error "none";
  is_key_type_supported = λ id type. ok true;
}

abbrev pub allowlist : Allowlist
allowlist = record { is_allowed_machine_owner = λ id owner. ok true }

abbrev pub support : Support
support = record {
  prv = 5;
  chain_client = client;
  tee_extension_registry = registry;
  tee_owner_allowlist = allowlist;
  flare_tee_manager = 9;
}

abbrev pub sample : Report
sample = record {
  results =
      check "deploy" "D3" "a" pass "ok" ""
      ∷ check "register" "R2" "b" fail "no" "redo"
      ∷ check "deploy" "D1" "c" skip "" ""
      ∷ check "register" "R7" "d" warn "twice" ""
      ∷ [];
}
