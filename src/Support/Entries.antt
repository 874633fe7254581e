-- ===== src/Support/Entries.antt =====
-- The entries of an addresses file, against the loop of `ParseAddresses`.
use quietfill.Prelude.{
  ℕ, String, ◌≡◌, ◌∙◌, ap, refl, Option, none, some, List, [], ◌∷◌, ◌==◌, if◌then◌else◌, arith, inl,
  inr, Bool-cases, Option-cases, eq_iff,
}
use quietfill.World.{ok}
use quietfill.Support.{
  RawContract, Addresses, no_addresses, assign_address, assign_addresses, Setup, parse_addresses,
}

-- The fields of `Addresses`.
pub data Field : Type 0 where
  system_manager : Field
  hub : Field
  tee_manager : Field

-- The key of a field in `fieldMap`: its JSON tag.
abbrev pub tag : Field → String
tag system_manager = "FlareSystemsManager"
tag hub = "Fdc2Hub"
tag tee_manager = "FlareTeeManager"

abbrev pub address_of : Field → Addresses → ℕ
address_of system_manager a = a.flare_system_manager
address_of hub a = a.fdc2_hub
address_of tee_manager a = a.flare_tee_manager

-- The last entry with a name.
abbrev pub last_entry : String → List RawContract → Option RawContract
last_entry key [] = none
last_entry key (c ∷ rest) =
    let later = last_entry key rest in
    elim later [ some found ↦ some found | none ↦ if c.name == key then some c else none ]

abbrev pub entry_address : (String → ℕ) → ℕ → Option RawContract → ℕ
entry_address hex_to_address before none = before
entry_address hex_to_address before (some c) = hex_to_address c.address

-- What the update leaves in a field: its own key decides.
module _ (key : String) (addr : ℕ) (a : Addresses) where
  field_after :
      (k : Field)
      → address_of k (assign_address key addr a) ≡ (if key == tag k then addr else address_of k a)
  unfolding assign_address
  field_after k =
      let s : String = "FlareSystemsManager" in
      let h : String = "Fdc2Hub" in
      let t : String = "FlareTeeManager" in
      elim k [
        | system_manager ↦
            ground
              (arith, eq_iff key s, eq_iff key h, eq_iff key t, eq_iff s h, eq_iff s t, eq_iff h t)
        | hub ↦
            ground
              (arith, eq_iff key s, eq_iff key h, eq_iff key t, eq_iff s h, eq_iff s t, eq_iff h t)
        | tee_manager ↦
            ground
              (arith, eq_iff key s, eq_iff key h, eq_iff key t, eq_iff s h, eq_iff s t, eq_iff h t)
      ]

module _ (hex_to_address : String → ℕ) where
  assign_addresses-entry :
      (k : Field) (raw : List RawContract) (a : Addresses)
      → address_of k (assign_addresses hex_to_address raw a)
        ≡ entry_address hex_to_address (address_of k a) (last_entry (tag k) raw)
  unfolding assign_addresses
  assign_addresses-entry k [] a = refl
  assign_addresses-entry k (c ∷ rest) a =
      assign_addresses-entry k rest (assign_address c.name (hex_to_address c.address) a)
      ∙ ap (λ (n : ℕ). entry_address hex_to_address n (last_entry (tag k) rest))
          (field_after c.name (hex_to_address c.address) a k)
      ∙ entry_over k c rest a
    where
      entry_over :
          (k : Field) (c : RawContract) (rest : List RawContract) (a : Addresses)
          → entry_address hex_to_address
              (if c.name == tag k then hex_to_address c.address else address_of k a)
              (last_entry (tag k) rest)
            ≡ entry_address hex_to_address (address_of k a) (last_entry (tag k) (c ∷ rest))
      entry_over k c rest a = elim (Option-cases (last_entry (tag k) rest)) [
        | inl h ↦ elim (Bool-cases (c.name == tag k)) [
          | inl e ↦ rw (h, e) refl
          | inr e ↦ rw (h, e) refl
        ]
        | inr (found, h) ↦ rw h refl
      ]

no_addresses-zero : (k : Field) → address_of k no_addresses ≡ 0
no_addresses-zero system_manager = refl
no_addresses-zero hub = refl
no_addresses-zero tee_manager = refl

-- Where the file is read and is a list of contracts, ParseAddresses gives each of the three fields
-- the address of the last entry with the field's JSON name, and zero where there is none, whatever
-- other entries the list has and in whatever order.
pub parse_addresses-entry :
    (u : Setup) (path : String) (k : Field) {file : String} {raw : List RawContract}
    → u.read_file path ≡ ok file
    → u.unmarshal_contracts file ≡ ok raw
    → (a : Addresses) × (parse_addresses u path ≡ ok a)
      × (address_of k a ≡ entry_address u.hex_to_address 0 (last_entry (tag k) raw))
unfolding parse_addresses
parse_addresses-entry u path k {file} {raw} read parsed = (
  assign_addresses u.hex_to_address raw no_addresses,
  rw (read, parsed) refl,
  assign_addresses-entry u.hex_to_address k raw no_addresses
      ∙ ap (λ (n : ℕ). entry_address u.hex_to_address n (last_entry (tag k) raw))
          (no_addresses-zero k),
)
