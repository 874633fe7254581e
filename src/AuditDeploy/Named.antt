-- ===== src/AuditDeploy/Named.antt =====
-- The custom error that the diagnosis of an availability check and the replay of audit-deploy name.
use quietfill.Prelude.{
  ℕ, ◌≤◌, ◌≡◌, ◌∙◌, sym, ap, refl, subst, String, true, false, Option, none, some, List, [], ◌∷◌,
  sprintf, length, eqb, ltb, ◌⊎◌, inl, inr, Bool-cases, Option-cases, ◌≢◌, arith,
}
use quietfill.World.{Reply, ok, fail as error}
use quietfill.Io.{NoError}
use quietfill.Revert.{RpcError, failed, same_bytes, first_four, extract_revert_data}
use quietfill.Revert.Sources.{
  AbiError, AbiSource, first_with, find_source, Diagnosis, named_text, error_string_selector,
  diag_availability_check_revert, hex_of, after_four,
}
use quietfill.TeeVersion.{string_to_bytes32}
use quietfill.AuditDeploy.{Replay, replay_named, replay_add_tee_version}

abbrev pub Among : AbiError → List AbiError → Type 0
Among e [] = ⊥
Among e (x ∷ xs) = (e ≡ x) ⊎ Among e xs

abbrev pub AmongLoaded : AbiError → Reply (List AbiError) → Type 0
AmongLoaded e (ok errors) = Among e errors
AmongLoaded e (error _) = ⊥

-- A source with this name has this error in its ABI, which loads.
abbrev pub Declares : String × AbiError → List AbiSource → Type 0
Declares p [] = ⊥
Declares p (source ∷ sources) =
    ((p.0 ≡ source.name) × AmongLoaded p.1 source.errors) ⊎ Declares p sources

abbrev value_or : AbiError → Option AbiError → AbiError
value_or e none = e
value_or e (some x) = x

some_injective : {e x : AbiError} → some e ≡ some x → e ≡ x
some_injective {e} h = ap (value_or e) h

module _ (selector : List ℕ) where
  abbrev pub Has : AbiError → Type 0
  Has e = same_bytes e.selector selector ≡ true

  first_with-Among :
      (errors : List AbiError) (x : AbiError)
      → first_with selector errors ≡ some x
      → Among x errors × Has x
  unfolding first_with
  first_with-Among [] x h = ground (arith, h)
  first_with-Among (e ∷ es) x h = elim (Bool-cases (same_bytes e.selector selector)) [
    | inl here ↦
        let same : e ≡ x = some_injective (rw here at h) in (inl (sym same), subst Has same here)
    | inr other ↦ let (among, has) = first_with-Among es x (rw other at h) in (inr among, has)
  ]

  first_with-some :
      (e : AbiError) (errors : List AbiError)
      → Among e errors
      → Has e
      → first_with selector errors ≢ none
  unfolding first_with
  first_with-some e [] among has h = absurd among
  first_with-some e (x ∷ xs) (inl here) has h =
      let found : same_bytes x.selector selector ≡ true = subst Has here has in
      ground (arith, rw found at h)
  first_with-some e (x ∷ xs) (inr later) has h =
      elim (Bool-cases (same_bytes x.selector selector)) [
        | inl found ↦ ground (arith, rw found at h)
        | inr other ↦ first_with-some e xs later has (rw other at h)
      ]

  -- What the two loops find.
  abbrev pub Found : List AbiSource → String × AbiError → Type 0
  Found sources p = (find_source selector sources ≡ some p) × Declares p sources × Has p.1

  Found-cons :
      (source : AbiSource) (sources : List AbiSource) (r : Reply (List AbiError))
      (p : String × AbiError)
      → source.errors ≡ r
      → Declares p (source ∷ sources)
      → Has p.1
      → (Declares p sources → (q : String × AbiError) × Found sources q)
      → (q : String × AbiError) × Found (source ∷ sources) q
  unfolding find_source
  Found-cons source sources (error e) p loaded (inl (name, among)) has later =
      absurd (subst (AmongLoaded p.1) loaded among)
  Found-cons source sources (error e) p loaded (inr declares) has later =
      let (q, (found, where_q, has_q)) = later declares in
      (q, (rw loaded found, inr where_q, has_q))
  Found-cons source sources (ok errors) p loaded declares has later =
      elim (Option-cases (first_with selector errors)) [
        | inr (x, first) ↦
            let (among, has_x) = first_with-Among errors x first in
            ((source.name, x), (rw (loaded, first) refl, inl (refl, rw loaded among), has_x))
        | inl missing ↦ elim declares [
          | inl (name, among) ↦
              absurd (first_with-some p.1 errors (subst (AmongLoaded p.1) loaded among) has missing)
          | inr declared ↦
              let (q, (found, where_q, has_q)) = later declared in
              (q, (rw (loaded, missing) found, inr where_q, has_q))
        ]
      ]

  find_source-Found :
      (p : String × AbiError) (sources : List AbiSource)
      → Declares p sources
      → Has p.1
      → (q : String × AbiError) × Found sources q
  find_source-Found p [] declares has = absurd declares
  find_source-Found p (source ∷ sources) declares has =
      Found-cons source sources _ p refl declares has
        (λ declared. find_source-Found p sources declared has)

  -- The one error with the selector is found.
  find_source-only :
      (p : String × AbiError) (sources : List AbiSource)
      → Declares p sources
      → Has p.1
      → ((q : String × AbiError) → Declares q sources → Has q.1 → q ≡ p)
      → find_source selector sources ≡ some p
  find_source-only p sources declares has only =
      let (q, (found, declared, has_q)) = find_source-Found p sources declares has in
      found ∙ ap some (only q declared has_q)

-- An error that the sources declare, and no other with its selector.
abbrev pub Only : List ℕ → List AbiSource → String × AbiError → Type 0
Only selector sources p =
    Declares p sources
    × Has selector p.1
    × ((q : String × AbiError) → Declares q sources → Has selector q.1 → q ≡ p)

-- The two texts, by what unpacking the error's arguments returns: each has the name of the contract, a
-- dot and the name of the error.
abbrev pub BothName :
    Diagnosis → Replay → List ℕ → List ℕ → String → AbiError → Reply String → Type 0
BothName d r version revert contract e (ok args) =
    (diag_availability_check_revert d
      ≡ sprintf ("diag: revert -> " ∷ contract ∷ "." ∷ e.name ∷ "(" ∷ args ∷ ")" ∷ []))
    × (replay_add_tee_version r version
        ≡ sprintf ("  revert -> " ∷ contract ∷ "." ∷ e.name ∷ args ∷ []))
BothName d r version revert contract e (error why) =
    (diag_availability_check_revert d
      ≡ sprintf (
          "diag: revert -> "
          ∷ contract
          ∷ "."
          ∷ e.name
          ∷ " (arg unpack failed: "
          ∷ why
          ∷ ") data="
          ∷ hex_of revert
          ∷ []))
    × (replay_add_tee_version r version
        ≡ sprintf (
            "  revert -> "
            ∷ contract
            ∷ "."
            ∷ e.name
            ∷ " (unpack failed: "
            ∷ why
            ∷ ") data="
            ∷ hex_of revert
            ∷ []))

named-BothName :
    (d : Diagnosis) (r : Replay) (revert version : List ℕ) (contract : String) (e : AbiError)
    (out : Reply String)
    → e.unpack_inputs (after_four revert) ≡ out
    → diag_availability_check_revert d ≡ named_text revert (some (contract, e))
    → replay_add_tee_version r version ≡ replay_named revert (some (contract, e))
    → BothName d r version revert contract e out
named-BothName d r revert version contract e (ok args) unpacked diag replay =
    (rw unpacked at diag, rw unpacked at replay)
named-BothName d r revert version contract e (error why) unpacked diag replay =
    (rw unpacked at diag, rw unpacked at replay)

-- Where a refused call carries at least four bytes of revert data that is no Error(string), and of
-- the errors that either tool's ABIs declare just one has the selector, the same for both: the
-- diagnosis and the replay of a version that fits both print a text that has the contract's name, a
-- dot and the error's name, then its arguments, or why they cannot be unpacked; whatever the order of
-- the ABIs and of their errors.
pub diag_availability_check_revert-replay_add_tee_version :
    (d : Diagnosis) (r : Replay) (e : RpcError) (revert version packed : List ℕ)
    (p : String × AbiError) {n m k l : NoError}
    → (d.load_abi ≡ ok n) × (d.pack ≡ ok m) × (d.call ≡ failed e)
    → (r.load_abi ≡ ok k) × (r.pack packed ≡ ok l) × (r.call ≡ failed e)
    → string_to_bytes32 r.quote_bytes version ≡ ok packed
    → extract_revert_data d.from_hex (some e) ≡ revert
    → extract_revert_data r.from_hex (some e) ≡ revert
    → 4 ≤ length revert
    → same_bytes (first_four revert) error_string_selector ≡ false
    → Only (first_four revert) d.sources p
    → Only (first_four revert) r.sources p
    → BothName d r version revert p.0 p.1 (p.1.unpack_inputs (after_four revert))
unfolding diag_availability_check_revert replay_add_tee_version
diag_availability_check_revert-replay_add_tee_version d r e revert version packed p
      (d_abi, d_pack, d_call) (r_abi, r_pack, r_call) fits d_data r_data enough custom
      (d_has, d_same, d_only) (r_has, r_same, r_only) =
    let some_data : eqb (length revert) 0 ≡ false = ground (arith, enough) in
    let long : ltb (length revert) 4 ≡ false = ground (arith, enough) in
    named-BothName d r revert version p.0 p.1 _ refl
      (rw (d_abi, d_pack, d_call, d_data, some_data, long, custom)
        (ap (named_text revert)
          (find_source-only (first_four revert) p d.sources d_has d_same d_only)))
      (rw (r_abi, fits, r_pack, r_call, r_data, long, custom)
        (ap (replay_named revert)
          (find_source-only (first_four revert) p r.sources r_has r_same r_only)))
