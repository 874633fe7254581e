-- ===== src/Support/Fields.antt =====
-- `fieldMap` of tools/pkg/support/support.go: reflection over the struct `Addresses`.
use quietfill.Prelude.{
  ℕ, zero, suc, ◌+◌, ◌≡◌, refl, String, Bool, true, ◌||◌, Option, none, some, List, [], ◌∷◌, ◌==◌,
  eq_iff, if◌then◌else◌, false, sym, subst, inl, inr, Bool-cases,
}
use quietfill.Support.{Addresses, assign_address}

-- What reflection tells of a field: its name, its JSON tag, and whether it is an address.
record StructField : Type 0 where
  name : String
  tag : String
  is_address : Bool

-- The fields of `Addresses`, in order.
abbrev addresses_fields : List StructField
addresses_fields =
    record { name = "FlareSystemManager"; tag = "FlareSystemsManager"; is_address = true }
    ∷ record { name = "Fdc2Hub"; tag = "Fdc2Hub"; is_address = true }
    ∷ record { name = "FlareTeeManager"; tag = "FlareTeeManager"; is_address = true }
    ∷ []

abbrev key_of : StructField → String
key_of f = if f.tag == "" || f.tag == "-" then f.name else f.tag

-- `fieldMap`, from the field at an index on: the keys of the address fields with their indices, the
-- last assignment first.
unfoldable field_map : List (String × ℕ) → ℕ → List StructField → List (String × ℕ)
field_map out i [] = out
field_map out i (f ∷ fields) =
    field_map (if f.is_address then (key_of f, i) ∷ out else out) (i + 1) fields

-- `targets[key]`.
abbrev target : String → List (String × ℕ) → Option ℕ
target key [] = none
target key ((k, i) ∷ rest) = let later = target key rest in if key == k then some i else later

-- `*dest = addr`, for the pointer to the field at an index.
abbrev set_field : ℕ → ℕ → Addresses → Addresses
set_field zero addr a = record a { flare_system_manager = addr }
set_field (suc zero) addr a = record a { fdc2_hub = addr }
set_field (suc (suc i)) addr a = record a { flare_tee_manager = addr }

abbrev assigned : Option ℕ → ℕ → Addresses → Addresses
assigned none addr a = a
assigned (some i) addr a = set_field i addr a

abbrev Agrees : String → ℕ → Addresses → Type 0
Agrees key addr a =
    assign_address key addr a ≡ assigned (target key (field_map [] 0 addresses_fields)) addr a

-- A key is the given one, or is not.
by_key :
    (key k : String) (addr : ℕ) (a : Addresses)
    → Agrees k addr a
    → ((key == k) ≡ false → Agrees key addr a)
    → Agrees key addr a
by_key key k addr a at_k otherwise = elim (Bool-cases (key == k)) [
  | inl same ↦ subst (λ l. Agrees l addr a) (sym ((eq_iff key k).0 same)) at_k
  | inr differs ↦ otherwise differs
]

-- An assignment of ParseAddresses is one through the map that reflection builds.
assign_address-field_map : (key : String) (addr : ℕ) (a : Addresses) → Agrees key addr a
unfolding assign_address field_map
assign_address-field_map key addr a = by_key key "FlareSystemsManager" addr a refl λ n.
    by_key key "Fdc2Hub" addr a refl
      λ n'. by_key key "FlareTeeManager" addr a refl λ n''. rw (n, n', n'') refl
