-- ===== src/Revert/Match.antt =====
-- From a revert payload to the name of a custom error.
use quietfill.Prelude.{
  ℕ, ◌≡◌, ◌∙◌, ap, refl, sym, subst, String, true, false, none, some, List, [], ◌∷◌, length,
  sprintf, ltb, ◌≤◌, All, arith, ◌⊎◌, inl, inr, Bool-cases,
}
use Prim.Native.String
use text.Mathlib.TextLemmas.{append-nil as text_append-nil, cons-append, nil-append}
use quietfill.Hex.{
  decode_hex, encode_hex, trim_0x, IsByte, decode_hex-encode_hex, trim_0x-encode_hex,
  trim_0x-append,
}
use quietfill.Revert.{
  UnpackRevert, returned, CustomError, same_bytes, first_four, find_error, match_custom_error,
  with_arguments, decode_revert_hex, simulate_and_decode_revert,
}

-- Membership of an error in a list.
abbrev pub Listed : CustomError → List CustomError → Type 0
Listed e [] = ⊥
Listed e (x ∷ xs) = (e ≡ x) ⊎ Listed e xs

prefix_cons : (t : String) → String.◌++◌ "0x" t ≡ String.◌∷◌ "0" (String.◌∷◌ "x" t)
prefix_cons t =
    cons-append "0" "x" t
    ∙ ap (String.◌∷◌ "0") (cons-append "x" "" t ∙ ap (String.◌∷◌ "x") (nil-append t))

trim_0x-prefixed : (hex_str : String) → trim_0x (sprintf ("0x" ∷ hex_str ∷ [])) ≡ hex_str
unfolding sprintf
trim_0x-prefixed hex_str =
    ap trim_0x (prefix_cons (String.◌++◌ hex_str ""))
    ∙ trim_0x-append (String.◌++◌ hex_str "")
    ∙ text_append-nil hex_str

module _ (unpack_revert : UnpackRevert) where
  -- The reason of at least four bytes of revert data, from their digits.
  decode_revert_hex-encode_hex :
      (bs : List ℕ)
      → All IsByte bs
      → 4 ≤ length bs
      → unpack_revert bs ≡ none
      → decode_revert_hex unpack_revert (encode_hex bs) ≡ sprintf ("0x" ∷ encode_hex bs ∷ [])
  unfolding decode_revert_hex
  decode_revert_hex-encode_hex bs small long undecoded =
      rw (trim_0x-encode_hex bs small, decode_hex-encode_hex bs small)
        (ground (arith, long, undecoded))

  simulated_payload :
      (bs : List ℕ)
      → All IsByte bs
      → 4 ≤ length bs
      → unpack_revert bs ≡ none
      → decode_hex (trim_0x (simulate_and_decode_revert unpack_revert (returned bs))) ≡ some bs
  unfolding simulate_and_decode_revert
  simulated_payload bs small long undecoded =
      let enough : ltb (length bs) 4 ≡ false = ground (arith, long) in
      rw
        (
          enough,
          decode_revert_hex-encode_hex bs small long undecoded,
          trim_0x-prefixed (encode_hex bs),
        )
        (decode_hex-encode_hex bs small)

find_error-Listed :
    (es : List CustomError) (revert : List ℕ) (e : CustomError)
    → Listed e es
    → same_bytes e.selector (first_four revert) ≡ true
    → ((e' : CustomError)
        → Listed e' es
        → same_bytes e'.selector (first_four revert) ≡ true
        → e' ≡ e)
    → find_error es revert ≡ with_arguments e.name (e.unpack revert)
unfolding find_error
find_error-Listed [] revert e listed same only = absurd listed
find_error-Listed (x ∷ xs) revert e (inl here) same only =
    let first : same_bytes x.selector (first_four revert) ≡ true =
      subst (λ (y : CustomError). same_bytes y.selector (first_four revert) ≡ true) here same in
    rw first (ap (λ (y : CustomError). with_arguments y.name (y.unpack revert)) (sym here))
find_error-Listed (x ∷ xs) revert e (inr later) same only =
    elim (Bool-cases (same_bytes x.selector (first_four revert))) [
      | inl first ↦ rw first (
          ap (λ (y : CustomError). with_arguments y.name (y.unpack revert))
            (only x (inl refl) first))
      | inr other ↦ rw other (find_error-Listed xs revert e later same (λ e' l. only e' (inr l)))
    ]

-- Revert data of at least four bytes that a simulated call returns and that is no encoded reason is
-- matched to the custom error of its selector, whatever the order in which the errors of the ABI are
-- enumerated, where one error only has that selector.
pub match_custom_error-simulate :
    (unpack_revert : UnpackRevert) (es : List CustomError) (bs : List ℕ) (e : CustomError)
    → All IsByte bs
    → 4 ≤ length bs
    → unpack_revert bs ≡ none
    → Listed e es
    → same_bytes e.selector (first_four bs) ≡ true
    → ((e' : CustomError) → Listed e' es → same_bytes e'.selector (first_four bs) ≡ true → e' ≡ e)
    → match_custom_error es (simulate_and_decode_revert unpack_revert (returned bs))
      ≡ with_arguments e.name (e.unpack bs)
unfolding match_custom_error
match_custom_error-simulate unpack_revert es bs e small long undecoded listed same only =
    let enough : ltb (length bs) 4 ≡ false = ground (arith, long) in
    rw (simulated_payload unpack_revert bs small long undecoded, enough)
      (find_error-Listed es bs e listed same only)

find_error-unknown :
    (es : List CustomError) (revert : List ℕ)
    → ((e : CustomError) → Listed e es → same_bytes e.selector (first_four revert) ≡ false)
    → find_error es revert ≡ ""
unfolding find_error
find_error-unknown [] revert none_same = refl
find_error-unknown (x ∷ xs) revert none_same =
    rw (none_same x (inl refl)) (find_error-unknown xs revert (λ e l. none_same e (inr l)))
