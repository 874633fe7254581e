-- ===== src/EnvFile.antt =====
-- The file config/extension.env as tools/pkg/validate/checks.go reads it: `parseExtensionEnv`, and
-- the two regular expressions for its values. Texts are valid UTF-8.
pub mod Format
pub mod Agree
use quietfill.Prelude.{
  Char, ℕ, zero, suc, String, code, Bool, true, false, not, ◌&&◌, ◌||◌, Option, none, some, List,
  [], ◌∷◌, length, collect, trim_space, leb, ltb, eqb, ◌==◌, if◌then◌else◌,
}
use Prim.Native.String.{len}
use text.Mathlib.Text.{starts_with}
use quietfill.World.{World}

-- One more character at the front of the first line.
abbrev pub extend : Char → List String → List String
extend c [] = String.◌∷◌ c "" ∷ []
extend c (l ∷ ls) = String.◌∷◌ c l ∷ ls

-- `bufio.ScanLines` over a whole text: lines end at a line feed, and nothing stands behind the last.
unfoldable pub split_lines : String → List String
split_lines String.[] = []
split_lines (String.◌∷◌ c s) =
    let rest = split_lines s in if eqb (code c) 10 then "" ∷ rest else extend c rest

-- `bufio.ScanLines` drops a carriage return at the end of a line.
unfoldable pub drop_cr : String → String
drop_cr String.[] = ""
drop_cr (String.◌∷◌ c s) =
    let rest = drop_cr s in if eqb (code c) 13 && (s == "") then "" else String.◌∷◌ c rest

-- `bufio.MaxScanTokenSize`: the scanner stops for good at a line that does not fit its buffer.
abbrev pub max_token : ℕ
max_token = 65536

unfoldable pub until_too_long : List String → List String
unfolding drop_cr
until_too_long [] = []
until_too_long (l ∷ ls) =
    let rest = until_too_long ls in if ltb (len l) max_token then drop_cr l ∷ rest else []

-- The texts that `scanner.Text()` returns, one for each `scanner.Scan()` that succeeds.
unfoldable pub scan_lines : String → List String
unfolding split_lines until_too_long
scan_lines content = until_too_long (split_lines content)

-- `strings.SplitN(line, "=", 2)` with two parts; `none` stands for one part.
unfoldable pub split_at_equals : String → Option (String × String)
split_at_equals String.[] = none
split_at_equals (String.◌∷◌ c s) =
    let rest = split_at_equals s in
    if eqb (code c) b'='
    then some ("", s)
    else elim rest [ none ↦ none | some (k, v) ↦ some (String.◌∷◌ c k, v) ]

abbrev pub trim_both : Option (String × String) → Option (String × String)
trim_both none = none
trim_both (some (k, v)) = some (trim_space k, trim_space v)

-- The body of the scanning loops up to the key and the value: blank lines, comments and lines with
-- no `=` are passed over.
unfoldable pub parse_line : String → Option (String × String)
unfolding split_at_equals trim_space
parse_line text =
    let line = trim_space text in
    if (line == "") || starts_with line "#" then none else trim_both (split_at_equals line)

-- The key-value pairs of a file in order.
unfoldable pub parse_pairs : String → List (String × String)
unfolding scan_lines parse_line
parse_pairs content = collect parse_line (scan_lines content)

pub record ExtensionEnv : Type 0 where
  pub extension_id : String
  pub instruction_sender : String

abbrev pub no_env : ExtensionEnv
no_env = record { extension_id = ""; instruction_sender = "" }

-- The `switch` of `parseExtensionEnv`.
unfoldable pub assign : String × String → ExtensionEnv → ExtensionEnv
assign (key, val) e =
    if key == "EXTENSION_ID"
    then record e { extension_id = val }
    else if key == "INSTRUCTION_SENDER"
    then record e { instruction_sender = val }
    else e

unfoldable pub assign_all : ExtensionEnv → List (String × String) → ExtensionEnv
unfolding assign
assign_all e [] = e
assign_all e (pair ∷ rest) = assign_all (assign pair e) rest

abbrev pub read_env : Option String → ExtensionEnv
read_env none = no_env
read_env (some content) = assign_all no_env (parse_pairs content)

-- `parseExtensionEnv`; its error is `nil` on every path, so it is left out of the result.
unfoldable pub parse_extension_env : World → String → ExtensionEnv
unfolding assign_all parse_pairs
parse_extension_env w path = read_env (w.open_file path)
