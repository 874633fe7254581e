-- ===== src/EnvFile/Format.antt =====
-- The formats of the values (`addressRegex`, `extensionIDRegex`), and `CheckExtensionEnvFormat`.
use quietfill.Prelude.{
  ℕ, zero, suc, String, code, Bool, true, false, ◌&&◌, ◌||◌, Option, none, some, List, [], ◌∷◌, leb,
  eqb, ◌==◌, if◌then◌else◌, sprintf, ◌≡◌, refl,
}
use quietfill.World.{World, Eth}
use quietfill.Report.{CheckResult, check, pass, fail, skip}
use quietfill.EnvFile.{parse_pairs}

-- `[0-9a-fA-F]`.
abbrev pub is_hex_digit : ℕ → Bool
is_hex_digit c =
    (leb b'0' c && leb c b'9') || (leb b'a' c && leb c b'f') || (leb b'A' c && leb c b'F')

-- `[0-9a-fA-F]{n}$`.
unfoldable pub hex_digits : ℕ → String → Bool
hex_digits zero String.[] = true
hex_digits zero (String.◌∷◌ c s) = false
hex_digits (suc n) String.[] = false
hex_digits (suc n) (String.◌∷◌ c s) = is_hex_digit (code c) && hex_digits n s

-- `^0x[0-9a-fA-F]{n}$`.
unfoldable pub is_hex_of : ℕ → String → Bool
unfolding hex_digits
is_hex_of n (String.◌∷◌ c (String.◌∷◌ d s)) =
    eqb (code c) b'0' && (eqb (code d) b'x' && hex_digits n s)
is_hex_of n _ = false

abbrev pub address_matches : String → Bool
address_matches = is_hex_of 40

abbrev pub extension_id_matches : String → Bool
extension_id_matches = is_hex_of 64

-- The empty text has neither format.
pub is_hex_of-empty : (n : ℕ) → is_hex_of n "" ≡ false
unfolding is_hex_of
is_hex_of-empty n = refl

-- A Go map with text keys, as an association list: a write replaces the key's value.
unfoldable pub lookup : String → List (String × String) → Option String
lookup k [] = none
lookup k ((j, v) ∷ m) = if j == k then some v else lookup k m

unfoldable pub insert : String → String → List (String × String) → List (String × String)
insert k v [] = (k, v) ∷ []
insert k v ((j, u) ∷ m) = if j == k then (k, v) ∷ m else (j, u) ∷ insert k v m

unfoldable pub insert_all : List (String × String) → List (String × String) → List (String × String)
unfolding insert
insert_all m [] = m
insert_all m ((k, v) ∷ rest) = insert_all (insert k v m) rest

-- One of the two blocks that check an entry of the file, for a key and its regular expression.
unfoldable pub check_entry : Eth → String → (String → Bool) → Option String → CheckResult
check_entry lib key matches none =
    check "deploy" "D7" (sprintf (key ∷ " in extension.env" ∷ [])) fail
      (sprintf (key ∷ " not found in extension.env" ∷ []))
      "Delete config/extension.env and re-run scripts/pre-build.sh"
check_entry lib key matches (some val) =
    let name = sprintf (key ∷ " in extension.env" ∷ []) in
    if matches val
    then check "deploy" "D7" name pass val ""
    else check "deploy" "D7" name fail
        (sprintf (key ∷ " has invalid format: " ∷ lib.quote val ∷ []))
        "Delete config/extension.env and re-run scripts/pre-build.sh"

abbrev check_vars : Eth → List (String × String) → List CheckResult
check_vars lib vars =
    check_entry lib "INSTRUCTION_SENDER" address_matches (lookup "INSTRUCTION_SENDER" vars)
    ∷ check_entry lib "EXTENSION_ID" extension_id_matches (lookup "EXTENSION_ID" vars)
    ∷ []

abbrev check_file : Eth → String → Option String → List CheckResult
check_file lib path none =
    check "deploy" "D7" "extension.env exists" skip (sprintf ("file not found: " ∷ path ∷ [])) ""
    ∷ []
check_file lib path (some content) = check_vars lib (insert_all [] (parse_pairs content))

-- `CheckExtensionEnvFormat`.
unfoldable pub check_extension_env_format : World → Eth → String → List CheckResult
unfolding insert_all lookup parse_pairs check_entry is_hex_of
check_extension_env_format w lib path = check_file lib path (w.open_file path)
