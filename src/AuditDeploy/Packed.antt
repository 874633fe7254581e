-- ===== src/AuditDeploy/Packed.antt =====
-- The version in 32 bytes, written by `StringToBytes32` and read by `bytes32ToString`; and what the
-- audit says of an address, against the deploy checks.
use quietfill.Prelude.{
  ℕ, zero, suc, ◌-◌, ◌≤◌, ◌≡◌, ◌≢◌, ◌↔◌, ◌∙◌, ap, refl, eqb, ◌&&◌, Bool-cases, String, true, false,
  none, some, List, [], ◌∷◌, ◌++◌, length, length-append, ltb, arith, inl, inr, sprintf,
}
use quietfill.World.{Reply-cases, ok, fail as error, Eth, Client}
use quietfill.Deploy.{address_not_zero, address_has_code}
use quietfill.TeeVersion.{zeros, string_to_bytes32}
use quietfill.AuditDeploy.{trim_zeros, bytes32_to_string, has_code, address_status}

trim_zeros-zeros : (n : ℕ) → trim_zeros (zeros n) ≡ []
unfolding trim_zeros
trim_zeros-zeros zero = refl
trim_zeros-zeros (suc n) = rw (trim_zeros-zeros n) refl

-- Zero bytes at the end make no difference.
trim_zeros-append : (s : List ℕ) (n : ℕ) → trim_zeros (s ++ zeros n) ≡ trim_zeros s
unfolding trim_zeros
trim_zeros-append [] n = trim_zeros-zeros n
trim_zeros-append (b ∷ s) n = rw (trim_zeros-append s n) refl

length-zeros : (n : ℕ) → length (zeros n) ≡ n
length-zeros zero = refl
length-zeros (suc n) = ap suc (length-zeros n)

-- A text and as many zero bytes as it takes to make it another one.
trim_zeros-split : (s : List ℕ) → (k : ℕ) × (s ≡ trim_zeros s ++ zeros k)
unfolding trim_zeros
trim_zeros-split [] = (0, refl)
trim_zeros-split (b ∷ s) =
    let (k, e) = trim_zeros-split s in
    elim (Bool-cases (eqb b 0 && eqb (length (trim_zeros s)) 0)) [
      | inl only_zeros ↦
          let zero_byte : b ≡ 0 = ground (arith, only_zeros) in
          let no_rest : length (trim_zeros s) ≡ 0 = ground (arith, only_zeros) in
          (suc k, rw only_zeros (all_zeros b s k zero_byte no_rest e))
      | inr other ↦ (k, rw other (ap (λ t. b ∷ t) e))
    ]
  where
    empty : (t : List ℕ) → length t ≡ 0 → t ≡ []
    empty [] h = refl
    empty (x ∷ t) h = absurd (omega (arith, h))

    all_zeros :
        (b : ℕ) (s : List ℕ) (k : ℕ)
        → b ≡ 0
        → length (trim_zeros s) ≡ 0
        → s ≡ trim_zeros s ++ zeros k
        → b ∷ s ≡ 0 ∷ zeros k
    all_zeros b s k zero_byte no_rest e =
        ap (λ x. x ∷ s) zero_byte
        ∙ ap (λ t. 0 ∷ t) (e ∙ ap (λ t. t ++ zeros k) (empty (trim_zeros s) no_rest))

-- The last byte is not zero.
abbrev pub EndsNonzero : List ℕ → Type 0
EndsNonzero t = (front : List ℕ) → t ≢ front ++ 0 ∷ []

trim_zeros-EndsNonzero : (s : List ℕ) → EndsNonzero (trim_zeros s)
unfolding trim_zeros
trim_zeros-EndsNonzero [] [] h = ground (arith, h)
trim_zeros-EndsNonzero [] (x ∷ front) h = ground (arith, h)
trim_zeros-EndsNonzero (b ∷ s) front h =
    elim (Bool-cases (eqb b 0 && eqb (length (trim_zeros s)) 0)) [
      | inl only_zeros ↦ not_empty front (rw only_zeros at h)
      | inr other ↦ kept front other (trim_zeros-EndsNonzero s) (rw other at h)
    ]
  where
    not_empty : (front : List ℕ) → [] ≢ front ++ 0 ∷ []
    not_empty [] e = ground (arith, e)
    not_empty (x ∷ front) e = ground (arith, e)

    kept :
        (front : List ℕ)
        → (eqb b 0 && eqb (length (trim_zeros s)) 0) ≡ false
        → EndsNonzero (trim_zeros s)
        → b ∷ trim_zeros s ≢ front ++ 0 ∷ []
    kept [] other ends e =
        let head : b ≡ 0 = ground (arith, e) in
        let rest : trim_zeros s ≡ [] = ground (arith, e) in
        let none_left : length (trim_zeros s) ≡ 0 = ap length rest in
        ground (arith, other, head, none_left)
    kept (x ∷ front) other ends e =
        let rest : trim_zeros s ≡ front ++ 0 ∷ [] = ground (arith, e) in ends front rest

-- The version is packed into 32 bytes, which begin with it and are zero behind it; and they are read
-- back as the trimmed text of the version's part in front of the zero bytes at its end.
abbrev pub IsPacked : (List ℕ → String) → (List ℕ → List ℕ) → List ℕ → Type 0
IsPacked quote trim_space s =
    (b text : List ℕ) × (k n : ℕ) × (string_to_bytes32 quote s ≡ ok b)
    × (length b ≡ 32)
    × (b ≡ s ++ zeros n)
    × (s ≡ text ++ zeros k)
    × EndsNonzero text
    × (bytes32_to_string trim_space b ≡ trim_space text)

short-IsPacked :
    (quote : List ℕ → String) (trim_space : List ℕ → List ℕ) (s : List ℕ)
    → length s ≤ 32
    → IsPacked quote trim_space s
unfolding string_to_bytes32 bytes32_to_string
short-IsPacked quote trim_space s short =
    let fits : ltb 32 (length s) ≡ false = ground (arith, short) in
    let (k, split) = trim_zeros-split s in
    (
      s ++ zeros (32 - length s),
      trim_zeros s,
      k,
      32 - length s,
      rw fits refl,
      omega (arith, length-append s (zeros (32 - length s)), length-zeros (32 - length s), short),
      refl,
      split,
      trim_zeros-EndsNonzero s,
      ap trim_space (trim_zeros-append s (32 - length s)),
    )

-- A version of at most 32 bytes is packed into 32 bytes, the version and zero bytes behind it, and
-- bytes32ToString reads back the trimmed text of what is in front of the version's trailing zero
-- bytes, all of these and no other byte; a longer one is an error.
pub string_to_bytes32-bytes32_to_string :
    (quote : List ℕ → String) (trim_space : List ℕ → List ℕ) (s : List ℕ)
    → (length s ≤ 32 → IsPacked quote trim_space s)
      × (33 ≤ length s → (e : String) × (string_to_bytes32 quote s ≡ error e))
unfolding string_to_bytes32
string_to_bytes32-bytes32_to_string quote trim_space s = (
  short-IsPacked quote trim_space s,
  λ long.
      let over : ltb 32 (length s) ≡ true = ground (arith, long) in
      (sprintf ("version " ∷ quote s ∷ " exceeds 32 bytes" ∷ []), rw over refl),
)

-- Both deploy checks of an address pass exactly when audit-deploy finds code there.
pub address_status-has_code :
    (eth : Eth) (client : Client) (addr : ℕ) (label : String)
    → ((address_not_zero eth addr label ≡ none)
        × (address_has_code eth (some client) addr label ≡ none))
      ↔ ((size : ℕ) × (address_status addr (client.code_at addr) ≡ has_code size))
unfolding address_not_zero address_has_code address_status
address_status-has_code eth client addr label = elim (Reply-cases (client.code_at addr)) [
  | inl (size, found) ↦ rw found (
    λ (nonzero, coded). (size, ground (arith, nonzero, coded)),
    λ (n, h). (ground (arith, h), ground (arith, h)),
  )
  | inr (e, failed) ↦
      rw failed (λ (nonzero, coded). ground (arith, coded), λ (n, h). ground (arith, h))
]
