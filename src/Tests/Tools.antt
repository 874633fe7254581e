-- ===== src/Tests/Tools.antt =====
-- The tools at concrete inputs.
use quietfill.Prelude.{
  ℕ, zero, suc, ◌*◌, code, ◌+◌, ◌≤◌, ◌≡◌, refl, ap, subst, String, none, List, [], ◌∷◌, ◌==◌,
  if◌then◌else◌,
}
use quietfill.Io.{Io}
use quietfill.Support.Mined.{Brings}
use quietfill.World.{Reply, ok, fail as error}
use quietfill.Encoding.{platform_intel, platform_amd, platform_amdesev, test_platform}
use quietfill.Revert.{returned}
use quietfill.Support.{TxClient, Receipt, Setup, Support, default_private_key, default_support}
use quietfill.TeeCalls.{SignedTeeInfo, TeeLibraries, tee_proxy_id, tee_proxy_id-signer}
use quietfill.Support.Entries.{tee_manager, address_of}
use quietfill.Support.Wired.{IsWired, default_support-IsWired}
use quietfill.TeeVersion.{string_to_bytes32}
use quietfill.AuditDeploy.Packed.{IsPacked, string_to_bytes32-bytes32_to_string}

-- A client whose transactions are mined at once, with two logs.
abbrev pub mined_at_once : (S : Type 0) → TxClient S
mined_at_once S = record {
  wait_mined = λ tx s. (ok (record { status = 1; logs = 11 ∷ 12 ∷ [] }), s);
  tx_hex = λ tx. "0x1";
  transaction_by_hash = λ tx s. ok tx;
  sender = λ tx. ok 5;
  call_contract = λ tx from s. returned [];
  unpack_revert = λ b. none;
}

-- What a send leaves, it leaves once the transaction is mined.
pub at_once :
    {S : Type 0} (P : S → Type 0) (send : Io S ℕ)
    → ((s : S) → P (send s).1)
    → Brings (mined_at_once S) send P
at_once {S} P send holds tx receipt s s₁ s₂ sends mined good =
    subst P (ap (λ (o : Reply Receipt × S). o.1) mined)
      (subst P (ap (λ (o : Reply ℕ × S). o.1) sends) (holds s))

-- A proxy whose signature is the key, and a machine whose public key is 9.
abbrev pub reporting : (S : Type 0) → SignedTeeInfo → TeeLibraries S
reporting S info = record {
  http_get = λ url s. ok "{}";
  http_post = λ url body s. (ok 200, s);
  decode_info = λ body. ok info;
  marshal_url = λ url. ok url;
  parse_token = λ token. ok (record { code_hash = ok info.code_hash; platform = ok info.platform });
  parse_pub_key = λ key. ok 9;
  pubkey_to_address = λ key. key;
  info_hash = λ i. ok "hash";
  bytes_to_hash = λ b. 3;
  payload_hash = λ domain chain hash. ok (chain + hash);
  text_hash = λ n. n;
  sig_to_pub = λ n sig. ok 8;
}

abbrev pub machine_report : ℕ → ℕ → SignedTeeInfo
machine_report code_hash platform = record {
  attestation = "token";
  code_hash = code_hash;
  platform = platform;
  extension_id = 4;
  public_key = "0x04";
  chain_id = 114;
  proxy_signature = "0x8";
}

abbrev pub setup : Setup
setup = record {
  read_file = λ path. ok "[]";
  unmarshal_addresses = λ t. error "an array";
  unmarshal_contracts = λ t. ok (
      record { name = "FlareTeeManager"; address = "0x1" }
      ∷ record { name = "Relay"; address = "0x3" }
      ∷ record { name = "FlareTeeManager"; address = "0x2" }
      ∷ []);
  hex_to_address = λ t. if t == "0x1" then 1 else 2;
  dial = λ url. ok 1;
  getenv = λ name. "";
  hex_to_ecdsa = λ t. ok 5;
  prv_with_funds = 5;
  new_binding = λ name addr cc. ok addr;
  chain_id = λ cc. ok 114;
}

-- What `DefaultSupport` returns.
abbrev pub chain_support : Support
chain_support = record {
  prv = 5;
  addresses = record { flare_system_manager = 3; fdc2_hub = 4; flare_tee_manager = 9 };
  chain_client = 1;
  chain_id = 114;
  flare_system_manager = 3;
  fdc2_hub = 4;
  tee_machine_registry = 9;
  tee_wallet_project_manager = 9;
  tee_wallet_manager = 9;
  tee_wallet_key_manager = 9;
  tee_verification = 9;
  tee_extension_registry = 9;
  tee_extension_governance = 9;
  tee_owner_allowlist = 9;
}

-- What the list of the setup gives.
abbrev listed_support : Support
listed_support = record {
  prv = 5;
  addresses = record { flare_system_manager = 0; fdc2_hub = 0; flare_tee_manager = 2 };
  chain_client = 1;
  chain_id = 114;
  flare_system_manager = 0;
  fdc2_hub = 0;
  tee_machine_registry = 2;
  tee_wallet_project_manager = 2;
  tee_wallet_manager = 2;
  tee_wallet_key_manager = 2;
  tee_verification = 2;
  tee_extension_registry = 2;
  tee_extension_governance = 2;
  tee_owner_allowlist = 2;
}

default_support-IsWired_example :
    IsWired setup listed_support
    × (default_private_key setup ≡ ok 5)
    × (setup.dial "http://node" ≡ ok 1)
    × (address_of tee_manager listed_support.addresses ≡ 2)
unfolding default_support
default_support-IsWired_example =
    default_support-IsWired setup "addresses.json" "http://node" tee_manager listed_support refl
      refl refl refl

-- Two bytes, a zero byte between them, and one at the end.
abbrev packed_version : List ℕ
packed_version = 118 ∷ 0 ∷ 49 ∷ 0 ∷ []

string_to_bytes32-bytes32_to_string_example :
    (4 ≤ 32 → IsPacked (λ s. "v1") (λ s. s) packed_version)
    × (33 ≤ 4 → (e : String) × (string_to_bytes32 (λ s. "v1") packed_version ≡ error e))
string_to_bytes32-bytes32_to_string_example =
    string_to_bytes32-bytes32_to_string (λ s. "v1") (λ s. s) packed_version

-- Libraries that tell the proxy's domain from others.
abbrev signing : TeeLibraries ℕ
signing = record (reporting ℕ (machine_report 1 2)) {
  payload_hash = λ domain chain hash.
      if domain == "ProxyTeeInfo" then ok (chain + hash) else error "another domain";
}

tee_proxy_id-signer_example : tee_proxy_id signing (machine_report 1 2) ≡ ok (9, 8)
tee_proxy_id-signer_example =
    tee_proxy_id-signer signing (λ k n. "0x8") (λ k. 8) (machine_report 1 2) 7 117 9 "hash"
      (λ k n. refl) refl refl refl refl

-- A text as a number, its first character first, in 32 bytes with zero bytes at the end.
abbrev left_aligned : ℕ → ℕ → String → ℕ
left_aligned zero n s = n
left_aligned (suc bytes) n String.[] = left_aligned bytes (n * 256) String.[]
left_aligned (suc bytes) n (String.◌∷◌ c s) = left_aligned bytes (n * 256 + code c) s

-- The platforms are the texts that stand beside them.
platform_texts :
    (left_aligned 32 0 "GCP_INTEL_TDX" ≡ platform_intel)
    × (left_aligned 32 0 "GCP_AMD_SEV" ≡ platform_amd)
    × (left_aligned 32 0 "GCP_AMD_SEV_ES" ≡ platform_amdesev)
    × (left_aligned 32 0 "TEST_PLATFORM" ≡ test_platform)
platform_texts = (refl, refl, refl, refl)
