-- ===== src/Hex.antt =====
-- `encoding/hex` of the Go library, and the prefix `0x`. Bytes are a list of numbers below 256.
use quietfill.Prelude.{
  ℕ, zero, suc, ◌+◌, ◌-◌, ◌*◌, ◌/◌, ◌%◌, ◌<◌, ◌≡◌, refl, Char, code, String, Bool, true, false,
  ◌&&◌, Option, none, some, List, [], ◌∷◌, All, leb, eqb, ltb, if◌then◌else◌, arith,
}

abbrev pub hex_char : ℕ → Char
hex_char d =
    if ltb d 8
    then (if ltb d 4
        then (if ltb d 2 then (if eqb d 0 then "0" else "1") else (if eqb d 2 then "2" else "3"))
        else (if ltb d 6 then (if eqb d 4 then "4" else "5") else (if eqb d 6 then "6" else "7")))
    else (if ltb d 12
        then (if ltb d 10 then (if eqb d 8 then "8" else "9") else (if eqb d 10 then "a" else "b"))
        else (if ltb d 14
            then (if eqb d 12 then "c" else "d")
            else (if eqb d 14 then "e" else "f")))

-- The value of a character's code as a hexadecimal digit.
unfoldable pub hex_value : ℕ → Option ℕ
hex_value c =
    if leb b'0' c && leb c b'9'
    then some (c - b'0')
    else if leb b'a' c && leb c b'f'
    then some (c - b'a' + 10)
    else if leb b'A' c && leb c b'F'
    then some (c - b'A' + 10)
    else none

reads_as : Option ℕ → ℕ → Bool
reads_as none d = false
reads_as (some v) d = eqb v d

reads_as-eq : (o : Option ℕ) (d : ℕ) → reads_as o d ≡ true → o ≡ some d
unfolding reads_as
reads_as-eq none d h = ground (arith, h)
reads_as-eq (some v) d h = ground (arith, h)

-- The digits below `n` are read back.
digits_read : ℕ → Bool
digits_read zero = true
digits_read (suc n) = reads_as (hex_value (code (hex_char n))) n && digits_read n

digits_read-lt :
    (n d : ℕ) → digits_read n ≡ true → d < n → reads_as (hex_value (code (hex_char d))) d ≡ true
unfolding digits_read
digits_read-lt zero d h lt = absurd (omega arith)
digits_read-lt (suc n) d h lt = ground (arith, digits_read-lt n d)

all_digits : digits_read 16 ≡ true
unfolding digits_read hex_value reads_as
all_digits = refl

hex_value-char : (d : ℕ) → d < 16 → hex_value (code (hex_char d)) ≡ some d
hex_value-char d h = reads_as-eq _ d (digits_read-lt 16 d all_digits h)

-- `hex.EncodeToString`.
unfoldable pub encode_hex : List ℕ → String
encode_hex [] = ""
encode_hex (b ∷ bs) =
    String.◌∷◌ (hex_char (b / 16)) (String.◌∷◌ (hex_char (b % 16)) (encode_hex bs))

abbrev pub pair_up : Option ℕ → Option ℕ → Option (List ℕ) → Option (List ℕ)
pair_up (some hi) (some lo) (some rest) = some ((hi * 16 + lo) ∷ rest)
pair_up _ _ _ = none

-- `hex.DecodeString`; `none` for its errors, an odd length and a character that is no digit.
unfoldable pub decode_hex : String → Option (List ℕ)
unfolding hex_value
decode_hex String.[] = some []
decode_hex (String.◌∷◌ c String.[]) = none
decode_hex (String.◌∷◌ c (String.◌∷◌ d s)) =
    pair_up (hex_value (code c)) (hex_value (code d)) (decode_hex s)

abbrev pub IsByte : ℕ → Type 0
IsByte b = b < 256

byte_digits : (b : ℕ) → b / 16 * 16 + b % 16 ≡ b
byte_digits b = omega arith

pub decode_hex-encode_hex : (bs : List ℕ) → All IsByte bs → decode_hex (encode_hex bs) ≡ some bs
unfolding decode_hex encode_hex
decode_hex-encode_hex [] h = refl
decode_hex-encode_hex (b ∷ bs) (small, h) = rw (
  hex_value-char (b / 16) (omega (arith, small)),
  hex_value-char (b % 16) (omega (arith, small)),
  decode_hex-encode_hex bs h,
  byte_digits b,
)

-- `strings.TrimPrefix(s, "0X")`.
unfoldable pub trim_upper_0x : String → String
trim_upper_0x String.[] = ""
trim_upper_0x (String.◌∷◌ c String.[]) = String.◌∷◌ c ""
trim_upper_0x (String.◌∷◌ c (String.◌∷◌ d s)) =
    if eqb (code c) b'0'
    then if eqb (code d) b'X' then s else String.◌∷◌ c (String.◌∷◌ d s)
    else String.◌∷◌ c (String.◌∷◌ d s)

-- `strings.TrimPrefix(s, "0x")`.
unfoldable pub trim_0x : String → String
trim_0x String.[] = ""
trim_0x (String.◌∷◌ c String.[]) = String.◌∷◌ c ""
trim_0x (String.◌∷◌ c (String.◌∷◌ d s)) =
    if eqb (code c) b'0' && eqb (code d) b'x' then s else String.◌∷◌ c (String.◌∷◌ d s)

not_x : (c v : ℕ) → hex_value c ≡ some v → eqb c b'x' ≡ false
unfolding hex_value
not_x c v h = ground (arith, h)

-- The digits of bytes have no prefix `0x` to trim.
pub trim_0x-encode_hex : (bs : List ℕ) → All IsByte bs → trim_0x (encode_hex bs) ≡ encode_hex bs
unfolding trim_0x encode_hex
trim_0x-encode_hex [] h = refl
trim_0x-encode_hex (b ∷ bs) (small, h) =
    let digit : hex_value (code (hex_char (b % 16))) ≡ some (b % 16) =
      hex_value-char (b % 16) (omega (arith, small)) in
    ground (arith, not_x (code (hex_char (b % 16))) (b % 16) digit)

pub trim_0x-append : (h : String) → trim_0x (String.◌∷◌ "0" (String.◌∷◌ "x" h)) ≡ h
unfolding trim_0x
trim_0x-append h = refl
