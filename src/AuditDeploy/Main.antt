-- ===== src/AuditDeploy/Main.antt =====
-- `main` of audit-deploy: what it prints, line by line, and how it exits. A line is without its
-- newline, and the one that a title begins with is an empty line.
use quietfill.Prelude.{
  ℕ, String, not, ◌&&◌, Option, none, some, List, [], ◌∷◌, ◌++◌, map, length, sprintf, eqb, ◌==◌,
  if◌then◌else◌,
}
use quietfill.Decimal.{decimal}
use quietfill.World.{Reply, ok, fail as error, Printed}
use quietfill.Support.{Addresses}
use quietfill.AuditDeploy.{
  address_status, status_text, bytes32_to_string, Replay, replay_add_tee_version,
}

-- The chain, `*extensionmanager.ExtensionManager`, and the texts of what they return.
pub record AuditChain : Type 0 where
  pub chain_id : Reply ℕ
  pub block_number : ℕ  -- zero where the call fails
  pub code_at : ℕ → Reply ℕ  -- the length of the code
  pub new_extension_manager : ℕ → Reply ℕ
  pub get_system_supported_platforms : Reply (List (List ℕ))
  pub next_public_extension_id : Reply ℕ
  pub get_extension_owner : ℕ → Reply ℕ
  pub get_supported_code_hashes : ℕ → Reply (List (List ℕ))
  pub get_supported_key_types : ℕ → Reply (List (List ℕ))
  pub hex : ℕ → String
  pub hash_hex : List ℕ → String  -- `common.Hash.Hex` of 32 bytes
  pub quote_bytes : List ℕ → String  -- the verb `%q` of a text, by its bytes
  pub trim_space : List ℕ → List ℕ

-- The flags -ext, of which a negative number is none, -codeHash and -platform.
pub record AuditFlags : Type 0 where
  pub ext_id : Option ℕ
  pub code_hash : String
  pub platform : String
  pub version : List ℕ

module _ (a : AuditChain) where
  -- The body of the loop over the addresses; the name fills 25 columns.
  unfoldable pub address_line : String → ℕ → String
  unfolding address_status
  address_line name addr = sprintf (
      "  "
      ∷ name
      ∷ " "
      ∷ a.hex addr
      ∷ "   "
      ∷ status_text (address_status addr (a.code_at addr))
      ∷ [])

  unfoldable pub address_lines : Addresses → List String
  unfolding address_line
  address_lines addr =
      address_line "FlareTeeManager          " addr.flare_tee_manager
      ∷ address_line "FlareSystemsManager      " addr.flare_system_manager
      ∷ address_line "Fdc2Hub                  " addr.fdc2_hub
      ∷ []

  -- A value of 32 bytes, and the text that it holds.
  unfoldable pub named_hash : List ℕ → String
  unfolding bytes32_to_string
  named_hash b =
      sprintf
        ("    " ∷ a.hash_hex b ∷ "   " ∷ a.quote_bytes (bytes32_to_string a.trim_space b) ∷ [])

  abbrev pub platform_lines : Reply (List (List ℕ)) → List String
  platform_lines (error e) = sprintf ("  getSystemSupportedPlatforms ERROR: " ∷ e ∷ []) ∷ []
  platform_lines (ok plats) =
      sprintf ("  systemSupportedPlatforms (" ∷ decimal (length plats) ∷ "):" ∷ [])
      ∷ map named_hash plats

  abbrev pub next_id_lines : Reply ℕ → List String
  next_id_lines (error e) = []
  next_id_lines (ok cnt) = sprintf ("  nextPublicExtensionId: " ∷ decimal cnt ∷ []) ∷ []

  -- The part on the ExtensionManager facet.
  unfoldable pub facet_lines : ℕ → List String
  unfolding named_hash
  facet_lines diamond =
      ""
        ∷ sprintf ("=== ExtensionManager facet @ FlareTeeManager " ∷ a.hex diamond ∷ " ===" ∷ [])
        ∷ platform_lines a.get_system_supported_platforms
      ++ next_id_lines a.next_public_extension_id

  abbrev pub owner_line : Reply ℕ → String
  owner_line (error e) = sprintf ("  getExtensionOwner ERROR: " ∷ e ∷ [])
  owner_line (ok owner) = sprintf ("  owner: " ∷ a.hex owner ∷ [])

  abbrev pub code_hash_lines : Reply (List (List ℕ)) → List String
  code_hash_lines (error e) = sprintf ("  getSupportedCodeHashes ERROR: " ∷ e ∷ []) ∷ []
  code_hash_lines (ok hashes) =
      sprintf ("  supportedCodeHashes (" ∷ decimal (length hashes) ∷ "):" ∷ [])
      ∷ map (λ h. sprintf ("    " ∷ a.hash_hex h ∷ [])) hashes

  abbrev pub key_type_lines : Reply (List (List ℕ)) → List String
  key_type_lines (error e) = []
  key_type_lines (ok types) =
      sprintf ("  supportedKeyTypes (" ∷ decimal (length types) ∷ "):" ∷ []) ∷ map named_hash types

  -- `if *extID >= 0`.
  unfoldable pub extension_lines : Option ℕ → List String
  unfolding named_hash
  extension_lines none = []
  extension_lines (some eid) =
      ""
        ∷ sprintf ("=== Extension id=" ∷ decimal eid ∷ " ===" ∷ [])
        ∷ owner_line (a.get_extension_owner eid)
        ∷ code_hash_lines (a.get_supported_code_hashes eid)
      ++ key_type_lines (a.get_supported_key_types eid)

  abbrev pub replay_lines : (ℕ → Replay) → AuditFlags → Option ℕ → List String
  replay_lines replay f none = []
  replay_lines replay f (some eid) =
      ""
      ∷ "=== addTeeVersion eth_call replay (decoding revert) ==="
      ∷ replay_add_tee_version (replay eid) f.version
      ∷ []

  -- Once the ExtensionManager is bound; `replay` is the call for an extension id.
  abbrev pub audit_bound : (ℕ → Replay) → AuditFlags → ℕ → Reply ℕ → List String × List String
  audit_bound replay f diamond (error e) = ([], sprintf ("bind ExtensionManager: " ∷ e ∷ []) ∷ [])
  audit_bound replay f diamond (ok er) = (
    facet_lines diamond
        ++ (extension_lines f.ext_id
            ++ (if not (f.code_hash == "") && not (f.platform == "")
                then replay_lines replay f f.ext_id
                else [])),
    [],
  )

  -- Once the addresses, the client and the chain's id are there: the lines of the two outputs.
  unfoldable pub audit : (ℕ → Replay) → AuditFlags → Addresses → ℕ → List String × List String
  unfolding address_lines facet_lines extension_lines
  audit replay f addr chain_id =
      let head =
        sprintf ("Chain ID: " ∷ decimal chain_id ∷ "   block: " ∷ decimal a.block_number ∷ [])
        ∷ address_lines addr in
      if eqb addr.flare_tee_manager 0
      then (head, [])
      else let more =
          audit_bound replay f addr.flare_tee_manager
            (a.new_extension_manager addr.flare_tee_manager) in
        (head ++ more.0, more.1)

abbrev pub stopped : String → String → Printed
stopped what e = record { out = []; err = sprintf (what ∷ e ∷ []) ∷ []; status = 1 }

abbrev pub audit_with : (ℕ → Replay) → AuditFlags → Addresses → AuditChain → Reply ℕ → Printed
audit_with replay f addr a (error e) = stopped "chainId: " e
audit_with replay f addr a (ok id) =
    let lines = audit a replay f addr id in record { out = lines.0; err = lines.1; status = 0 }

abbrev pub audit_dialed : (ℕ → Replay) → AuditFlags → Addresses → Reply AuditChain → Printed
audit_dialed replay f addr (error e) = stopped "dial: " e
audit_dialed replay f addr (ok a) = audit_with replay f addr a a.chain_id

abbrev pub audit_parsed : Reply AuditChain → (ℕ → Replay) → AuditFlags → Reply Addresses → Printed
audit_parsed dialed replay f (error e) = stopped "parse addresses: " e
audit_parsed dialed replay f (ok addr) = audit_dialed replay f addr dialed

-- `main`: the addresses that `ParseAddresses` reads, and the client of -rpc.
unfoldable pub main : Reply Addresses → Reply AuditChain → (ℕ → Replay) → AuditFlags → Printed
unfolding audit
main parsed dialed replay f = audit_parsed dialed replay f parsed
