-- ===== src/TeeVersion.antt =====
-- `StringToBytes32` and `AddTeeVersion` of tools/pkg/fccutils/registration.go, and
-- tools/cmd/allow-tee-version/main.go. A Go string is here the list of its bytes, where its bytes
-- matter.
pub mod Supported
use quietfill.Prelude.{
  ℕ, zero, suc, ◌-◌, String, Bool, List, [], ◌∷◌, ◌++◌, sprintf, length, ltb, ◌==◌, if◌then◌else◌,
}
use quietfill.World.{Reply, ok, fail as error}
use quietfill.Io.{Io, NoError, nil, return, throw, view, labelled, attempt, ◌>>=◌, ◌>>◌}
use quietfill.Support.{Support, TxClient, check_tx, strip_prefix}
use quietfill.TeeCalls.{SignedTeeInfo, TeeLibraries, tee_info, tee_proxy_id}
use quietfill.RunTest.{contains}

-- So many zero bytes.
abbrev pub zeros : ℕ → List ℕ
zeros zero = []
zeros (suc n) = 0 ∷ zeros n

-- `StringToBytes32`, with the verb `%q`.
unfoldable pub string_to_bytes32 : (List ℕ → String) → List ℕ → Reply (List ℕ)
string_to_bytes32 quote s =
    if ltb 32 (length s)
    then error (sprintf ("version " ∷ quote s ∷ " exceeds 32 bytes" ∷ []))
    else ok (s ++ zeros (32 - length s))

-- The environment, the libraries and the registry.
pub record VersionTools (S : Type 0) : Type 0 where
  pub client : TxClient S
  pub extension_owner_key : String  -- the variable `EXTENSION_OWNER_KEY`
  pub hex_to_ecdsa : String → Reply ℕ
  pub quote : List ℕ → String
  pub libraries : TeeLibraries S
  pub proxy_url : String  -- the flag -p
  pub keyed_transactor : ℕ → Reply NoError
  pub is_code_hash_platform_supported : ℕ → ℕ → ℕ → S → Reply Bool
  -- `AddTeeVersion` of the binding, with the key, the extension, the version, the code hash and the
  -- one platform.
  pub add_tee_version : ℕ → ℕ → List ℕ → ℕ → ℕ → Io S ℕ

module _ {S : Type 0} (v : VersionTools S) where
  -- `AddTeeVersion`.
  unfoldable pub add_tee_version : ℕ → ℕ → ℕ → ℕ → List ℕ → Io S NoError
  add_tee_version priv_key extension_id code_hash platform version = do
    view (λ _. v.keyed_transactor priv_key)
    version_bytes ← view (λ _. string_to_bytes32 v.quote version)
    tx ←
        labelled "TeeExtensionRegistry.AddTeeVersion failed: "
          (v.add_tee_version priv_key extension_id version_bytes code_hash platform)
    check_tx v.client tx
    return nil

  -- The key of the extension's owner.
  unfoldable pub version_key : Support → Reply ℕ
  version_key support =
      if v.extension_owner_key == ""
      then ok support.prv
      else v.hex_to_ecdsa (strip_prefix v.extension_owner_key)

  -- `strings.Contains(err.Error(), "VersionAlreadyExists")` at the end of `main`.
  unfoldable pub tolerate_existing : Reply NoError → Io S NoError
  tolerate_existing (ok _) = return nil
  tolerate_existing (error e) = if contains e "VersionAlreadyExists" then return nil else throw e

  -- The end of `main`: whether the code hash is supported on the platform decides.
  unfoldable pub allow : ℕ → SignedTeeInfo → List ℕ → Bool → Io S NoError
  allow priv_key m version supported =
      if supported
      then return nil
      else (attempt (add_tee_version priv_key m.extension_id m.code_hash m.platform version)
          >>= tolerate_existing)

  -- `main`, with its flag `-version`; `support` is what `DefaultSupport` returns.
  unfoldable pub main : Reply Support → List ℕ → Io S NoError
  unfolding tee_info tee_proxy_id
  main support version = do
    found ← view (λ _. support)
    m ← view (tee_info v.libraries v.proxy_url)
    priv_key ← view (λ _. version_key found)
    view (λ _. tee_proxy_id v.libraries m)
    supported ← view (v.is_code_hash_platform_supported m.extension_id m.code_hash m.platform)
    allow priv_key m version supported
