-- ===== src/Launch.antt =====
-- `setOwnerAddress` of go/cmd/start-tee/main.go, which gives the node its owner, against the default
-- signer of tools/cmd/set-governance/main.go.
pub mod Ports
pub mod Processes
pub mod Started
use quietfill.Prelude.{
  ℕ, String, Bool, true, false, ◌≡◌, ◌∙◌, refl, Option, none, some, trim_space, ◌==◌, if◌then◌else◌,
  Bool-cases, inl, inr,
}
use quietfill.World.{Reply, ok, fail as error}
use quietfill.Support.{Setup, strip_prefix, default_private_key}
use quietfill.SetGovernance.{GovernanceTools, default_signer}

-- The default key, in hexadecimal.
abbrev pub default_key : String
default_key = "804b01a8c27a65cc694a867be76edae3ccce7a7161cda1f67a8349df696d2207"

-- The environment and go-ethereum; `hex` is `Address.String`.
pub record Launcher : Type 0 where
  pub getenv : String → String
  pub hex_to_ecdsa : String → Reply ℕ
  pub pubkey_to_address : ℕ → ℕ  -- of a key's public half
  pub hex : ℕ → String
  pub hex_to_address : String → ℕ

module _ (l : Launcher) where
  abbrev pub launch_key : Reply ℕ
  launch_key =
      if l.getenv "DEPLOYMENT_PRIVATE_KEY" == ""
      then l.hex_to_ecdsa default_key
      else l.hex_to_ecdsa (strip_prefix (l.getenv "DEPLOYMENT_PRIVATE_KEY"))

  abbrev pub exported : Reply ℕ → Reply (ℕ × Option String)
  exported (error e) = error e
  exported (ok key) = ok (l.hex_to_address "", some (l.hex (l.pubkey_to_address key)))

  -- `setOwnerAddress`: the address that it returns, and what it sets `INITIAL_OWNER` to, if it does;
  -- an error where it ends the process.
  unfoldable pub set_owner_address : Reply (ℕ × Option String)
  set_owner_address =
      let owner = l.getenv "INITIAL_OWNER" in
      if owner == "" then exported launch_key else ok (l.hex_to_address owner, none)

  -- The variable `INITIAL_OWNER` afterwards.
  abbrev pub owner_variable : Option String → String
  owner_variable (some owner) = owner
  owner_variable none = l.getenv "INITIAL_OWNER"

-- The programs of one host have the same environment and libraries.
module _ {S : Type 0} (g : GovernanceTools S) (hex : ℕ → String) where
  abbrev pub launcher : Launcher
  launcher = record {
    getenv = g.getenv;
    hex_to_ecdsa = g.hex_to_ecdsa;
    pubkey_to_address = g.pubkey_to_address;
    hex = hex;
    hex_to_address = g.hex_to_address;
  }

  launch_key-default_private_key :
      (u : Setup) (b : Bool)
      → g.hex_to_ecdsa default_key ≡ ok u.prv_with_funds
      → (g.getenv "DEPLOYMENT_PRIVATE_KEY" == "") ≡ b
      → launch_key launcher
        ≡ default_private_key (record u { getenv = g.getenv; hex_to_ecdsa = g.hex_to_ecdsa })
  unfolding default_private_key
  launch_key-default_private_key u true default unset = rw unset default
  launch_key-default_private_key u false default is_set = rw is_set refl

  -- On one host, where the default keys are the same, a printed address is read back, INITIAL_OWNER
  -- has no blanks around it, and the deployment key is good: start-tee leaves the node with the
  -- owner that set-governance, run with the deployment key, takes as its default signer.
  pub set_owner_address-default_signer :
      (u : Setup) (key : ℕ)
      → g.hex_to_ecdsa default_key ≡ ok u.prv_with_funds
      → ((addr : ℕ) → g.hex_to_address (hex addr) ≡ addr)
      → trim_space (g.getenv "INITIAL_OWNER") ≡ g.getenv "INITIAL_OWNER"
      → default_private_key (record u { getenv = g.getenv; hex_to_ecdsa = g.hex_to_ecdsa }) ≡ ok key
      → (returned : ℕ) × (exports : Option String) × (set_owner_address launcher
          ≡ ok (returned, exports))
        × (g.hex_to_address (owner_variable launcher exports) ≡ default_signer g key)
  unfolding set_owner_address default_signer
  set_owner_address-default_signer u key default read_back bare good =
      let launched : launch_key launcher ≡ ok key =
        launch_key-default_private_key u _ default refl ∙ good in
      elim (Bool-cases (g.getenv "INITIAL_OWNER" == "")) [
        | inl unset ↦ (
          g.hex_to_address "",
          some (hex (g.pubkey_to_address key)),
          rw (unset, launched) refl,
          rw (bare, unset) (read_back (g.pubkey_to_address key)),
        )
        | inr is_set ↦ (
          g.hex_to_address (g.getenv "INITIAL_OWNER"),
          none,
          rw is_set refl,
          rw (bare, is_set) refl,
        )
      ]
