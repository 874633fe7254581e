-- ===== src/SetGovernance.antt =====
-- tools/cmd/set-governance/main.go.
pub mod Settled
use quietfill.Prelude.{
  ℕ, String, Bool, List, [], ◌∷◌, Option, none, some, collect, length, ltb, ◌==◌, if◌then◌else◌,
  trim_space,
}
use quietfill.Hex.{trim_0x, trim_upper_0x}
use quietfill.World.{Reply, ok, fail as error}
use quietfill.Io.{Io, NoError, view, ◌>>=◌}
use quietfill.Support.{Support}
use quietfill.TeeCalls.{TeeLibraries, tee_info}
use quietfill.VerifyDeploy.{split_commas}
use quietfill.Node.Governance.{GovernanceChain, set_tee_governance}

abbrev pub signer_of : (String → ℕ) → String → Option ℕ
signer_of hex_to_address part =
    let trimmed = trim_space part in if trimmed == "" then none else some (hex_to_address trimmed)

abbrev pub or_fallback : List ℕ → ℕ → List ℕ
or_fallback [] fallback = fallback ∷ []
or_fallback (signer ∷ signers) fallback = signer ∷ signers

-- `parseSigners`, with `common.HexToAddress`.
unfoldable pub parse_signers : (String → ℕ) → String → ℕ → List ℕ
parse_signers hex_to_address raw fallback =
    or_fallback (collect (signer_of hex_to_address) (split_commas raw)) fallback

abbrev pub positive_or_one : Reply ℕ → ℕ
positive_or_one (ok v) = if ltb 0 v then v else 1
positive_or_one (error _) = 1

-- `parseThreshold`, with `strconv.ParseUint(…, 10, 64)`.
unfoldable pub parse_threshold : (String → Reply ℕ) → String → ℕ
parse_threshold parse_uint raw = positive_or_one (parse_uint (trim_space raw))

-- The environment, the libraries, and the chain as a key's transactor sees it.
pub record GovernanceTools (S : Type 0) : Type 0 where
  pub getenv : String → String
  pub hex_to_ecdsa : String → Reply ℕ
  pub pubkey_to_address : ℕ → ℕ  -- of a key's public half
  pub hex_to_address : String → ℕ
  pub parse_uint : String → Reply ℕ
  pub libraries : TeeLibraries S
  pub proxy_url : String  -- the flag -p
  pub chain : ℕ → GovernanceChain S

module _ {S : Type 0} (g : GovernanceTools S) where
  -- The key of the extension's owner.
  unfoldable pub owner_key : Support → Reply ℕ
  owner_key support =
      if g.getenv "EXTENSION_OWNER_KEY" == ""
      then ok support.prv
      else g.hex_to_ecdsa (trim_upper_0x (trim_0x (g.getenv "EXTENSION_OWNER_KEY")))

  -- `defaultSigner`.
  unfoldable pub default_signer : ℕ → ℕ
  default_signer priv_key =
      let initial_owner = trim_space (g.getenv "INITIAL_OWNER") in
      if initial_owner == "" then g.pubkey_to_address priv_key else g.hex_to_address initial_owner

  -- The signers and the threshold that `main` registers.
  abbrev pub signers_for : ℕ → List ℕ
  signers_for priv_key =
      parse_signers g.hex_to_address (g.getenv "GOVERNANCE_SIGNERS") (default_signer priv_key)

  abbrev pub threshold_for : ℕ
  threshold_for = parse_threshold g.parse_uint (g.getenv "GOVERNANCE_THRESHOLD")

  -- `main`; `support` is what `DefaultSupport` returns.
  unfoldable pub main : Reply Support → Io S NoError
  unfolding tee_info
  main support = do
    found ← view (λ _. support)
    priv_key ← view (λ _. owner_key found)
    info ← view (tee_info g.libraries g.proxy_url)
    set_tee_governance (g.chain priv_key) info.extension_id (signers_for priv_key) threshold_for
