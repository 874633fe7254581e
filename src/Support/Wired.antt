-- ===== src/Support/Wired.antt =====
-- What `DefaultSupport` returns: the addresses, the key, the chain, and the bindings.
use quietfill.Prelude.{ℕ, ◌≡◌, ◌∙◌, ap, refl, sym, subst, String, List, arith}
use quietfill.World.{Reply, ok, fail as error}
use quietfill.Io.Success.{ok_injective}
use quietfill.Support.{
  RawContract, Addresses, Setup, Support, and_then, or_else, parse_addresses, read_addresses,
  default_private_key, new_support, default_support,
}
use quietfill.Support.Entries.{
  Field, tag, address_of, last_entry, entry_address, parse_addresses-entry,
}

and_then_success :
    {A B Q : Type 0} (r : Reply A) (f : A → Reply B) {b : B}
    → and_then r f ≡ ok b
    → ((a : A) → r ≡ ok a → f a ≡ ok b → Q)
    → Q
and_then_success (ok a) f h q = q a refl h
and_then_success (error e) f h q = ground (arith, h)

module _ (u : Setup) where
  -- Each facet's binding is at the diamond, the two others at their own addresses, all with the
  -- client.
  abbrev pub IsWired : Support → Type 0
  IsWired s =
      let diamond = s.addresses.flare_tee_manager in
      let cc = s.chain_client in
      (u.new_binding "MachineManager" diamond cc ≡ ok s.tee_machine_registry)
      × (u.new_binding "WalletManager" diamond cc ≡ ok s.tee_wallet_manager)
      × (u.new_binding "WalletKeyManager" diamond cc ≡ ok s.tee_wallet_key_manager)
      × (u.new_binding "WalletProjectManager" diamond cc ≡ ok s.tee_wallet_project_manager)
      × (u.new_binding "FlareSystemsManager" s.addresses.flare_system_manager cc
          ≡ ok s.flare_system_manager)
      × (u.new_binding "Fdc2Hub" s.addresses.fdc2_hub cc ≡ ok s.fdc2_hub)
      × (u.new_binding "Verification" diamond cc ≡ ok s.tee_verification)
      × (u.new_binding "ExtensionManager" diamond cc ≡ ok s.tee_extension_registry)
      × (u.new_binding "OwnerAllowlist" diamond cc ≡ ok s.tee_owner_allowlist)
      × (u.new_binding "ExtensionGovernance" diamond cc ≡ ok s.tee_extension_governance)
      × (u.chain_id cc ≡ ok s.chain_id)

  new_support-IsWired :
      (prv client : ℕ) (addresses : Addresses) (s : Support)
      → new_support u prv client addresses ≡ ok s
      → IsWired s × (s.prv ≡ prv) × (s.chain_client ≡ client) × (s.addresses ≡ addresses)
  unfolding new_support
  new_support-IsWired prv client addresses s h = and_then_success _ _ h λ tr e₁ h₁.
      and_then_success _ _ h₁ λ twm e₂ h₂. and_then_success _ _ h₂ λ twkm e₃ h₃.
        and_then_success _ _ h₃ λ twpm e₄ h₄. and_then_success _ _ h₄ λ sm e₅ h₅.
          and_then_success _ _ h₅ λ ftdc e₆ h₆. and_then_success _ _ h₆ λ tv e₇ h₇.
            and_then_success _ _ h₇ λ ter e₈ h₈. and_then_success _ _ h₈ λ toal e₉ h₉.
              and_then_success _ _ h₉ λ teg e₁₀ h₁₀. and_then_success _ _ h₁₀ λ id e₁₁ made.
                subst
                  (λ (s : Support).
                    IsWired s
                    × (s.prv ≡ prv)
                    × (s.chain_client ≡ client)
                    × (s.addresses ≡ addresses))
                  (ok_injective made)
                  ((e₁, e₂, e₃, e₄, e₅, e₆, e₇, e₈, e₉, e₁₀, e₁₁), refl, refl, refl)

  -- Where the addresses file is no object of addresses but a list of contracts: a DefaultSupport
  -- that succeeds has the key of DefaultPrivateKey and the client that the URL dials; each of the
  -- three fields of its addresses is the address of the last entry with the field's JSON name, or
  -- zero where there is none; every facet is bound to its FlareTeeManager, FlareSystemsManager and
  -- Fdc2Hub to their own addresses, all with that client, and the chain's id is the client's.
  pub default_support-IsWired :
      (path url : String) (k : Field) {file e : String} {raw : List RawContract} (s : Support)
      → u.read_file path ≡ ok file
      → u.unmarshal_addresses file ≡ error e
      → u.unmarshal_contracts file ≡ ok raw
      → default_support u path url ≡ ok s
      → IsWired s
        × (default_private_key u ≡ ok s.prv)
        × (u.dial url ≡ ok s.chain_client)
        × (address_of k s.addresses ≡ entry_address u.hex_to_address 0 (last_entry (tag k) raw))
  unfolding default_support read_addresses parse_addresses
  default_support-IsWired path url k s read no_object list h =
      let (a, parsed, entry) = parse_addresses-entry u path k read list in
      and_then_success (or_else (read_addresses u path) (parse_addresses u path)) _ h
        λ addresses resolved h₁. and_then_success _ _ h₁ λ client dialed h₂.
          and_then_success _ _ h₂ λ key known h₃.
            let (wired, same_key, same_client, same_addresses) =
              new_support-IsWired key client addresses s h₃ in
            let listed =
              ok_injective
                (sym (rw (read, list) at parsed) ∙ rw (read, no_object, list) at resolved) in
            (
              wired,
              known ∙ ap ok (sym same_key),
              dialed ∙ ap ok (sym same_client),
              ap (address_of k) (same_addresses ∙ sym listed) ∙ entry,
            )
