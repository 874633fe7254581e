-- ===== src/Decimal/Atoi.antt =====
-- `strconv.Atoi`: an int of 64 bits from its text, and none where it returns an error; and that it
-- reads what Go prints.
use quietfill.Prelude.{
  ℕ, zero, suc, ◌+◌, ◌-◌, ◌*◌, ◌/◌, ◌%◌, ◌^◌, ◌<◌, ◌≡◌, ◌∙◌, ap, refl, sym, String, code, Bool,
  true, false, ◌&&◌, Option, none, some, eqb, ltb, leb, if◌then◌else◌, arith, inl, inr,
}
use quietfill.Decimal.{digit, digits, decimal, small_step, large_step, split_at_ten}

-- `negsuc n` is -(n + 1).
pub data ℤ : Type 0 where
  pos : ℕ → ℤ
  negsuc : ℕ → ℤ

abbrev is_digit : ℕ → Bool
is_digit c = leb b'0' c && leb c b'9'

-- The value of the digits behind those of `n`.
unfoldable pub digits_value : ℕ → String → Option ℕ
digits_value n String.[] = some n
digits_value n (String.◌∷◌ c s) =
    let rest = digits_value (n * 10 + (code c - b'0')) s in if is_digit (code c) then rest else none

unfoldable pub natural : String → Option ℕ
unfolding digits_value
natural String.[] = none
natural (String.◌∷◌ c s) = digits_value 0 (String.◌∷◌ c s)

abbrev pub positive : Option ℕ → Option ℤ
positive none = none
positive (some n) = if ltb n (2 ^ 63) then some (pos n) else none

abbrev negate : ℕ → ℤ
negate zero = pos 0
negate (suc n) = negsuc n

abbrev pub negative : Option ℕ → Option ℤ
negative none = none
negative (some n) = if leb n (2 ^ 63) then some (negate n) else none

unfoldable pub atoi : String → Option ℤ
unfolding natural
atoi String.[] = none
atoi (String.◌∷◌ c s) =
    if eqb (code c) b'-'
    then negative (natural s)
    else if eqb (code c) b'+'
    then positive (natural s)
    else positive (natural (String.◌∷◌ c s))

digit_code : (d : ℕ) → d < 10 → code (digit d) ≡ d + b'0'
digit_code zero small = refl
digit_code (suc zero) small = refl
digit_code (suc (suc zero)) small = refl
digit_code (suc (suc (suc zero))) small = refl
digit_code (suc (suc (suc (suc zero)))) small = refl
digit_code (suc (suc (suc (suc (suc zero))))) small = refl
digit_code (suc (suc (suc (suc (suc (suc zero)))))) small = refl
digit_code (suc (suc (suc (suc (suc (suc (suc zero))))))) small = refl
digit_code (suc (suc (suc (suc (suc (suc (suc (suc zero)))))))) small = refl
digit_code (suc (suc (suc (suc (suc (suc (suc (suc (suc zero))))))))) small = refl
digit_code (suc (suc (suc (suc (suc (suc (suc (suc (suc (suc n)))))))))) small =
    absurd (omega arith)

-- One digit read.
digits_value-digit :
    (n d : ℕ) (out : String)
    → d < 10
    → digits_value n (String.◌∷◌ (digit d) out) ≡ digits_value (n * 10 + d) out
unfolding digits_value
digits_value-digit n d out small =
    let is : code (digit d) ≡ d + b'0' = digit_code d small in
    let digit_here : is_digit (code (digit d)) ≡ true = rw is (ground (arith, small)) in
    let value : n * 10 + (code (digit d) - b'0') ≡ n * 10 + d = rw is (omega arith) in
    rw digit_here (ap (λ (m : ℕ). digits_value m out) value)

-- The digits of a number, in front of others, read from nothing.
digits_value-digits :
    (f n : ℕ) (out : String) → n < f → digits_value 0 (digits f n out) ≡ digits_value n out
digits_value-digits zero n out enough = absurd (omega arith)
digits_value-digits (suc f) n out enough = elim (split_at_ten n) [
  | inl small ↦
      let same : 0 * 10 + n % 10 ≡ n = omega (arith, small) in
      ap (digits_value 0) (small_step f n out small)
      ∙ digits_value-digit 0 (n % 10) out (omega arith)
      ∙ ap (λ (m : ℕ). digits_value m out) same
  | inr large ↦
      let same : (n / 10) * 10 + n % 10 ≡ n = omega arith in
      ap (digits_value 0) (large_step f n out large)
      ∙ digits_value-digits f (n / 10) (String.◌∷◌ (digit (n % 10)) out)
          (omega (arith, large, enough))
      ∙ digits_value-digit (n / 10) (n % 10) out (omega arith)
      ∙ ap (λ (m : ℕ). digits_value m out) same
]

-- The text of a number starts with a digit.
digits-starts :
    (f n : ℕ) (out : String)
    → n < f
    → (d : ℕ) × (d < 10) × (rest : String) × (digits f n out ≡ String.◌∷◌ (digit d) rest)
digits-starts zero n out enough = absurd (omega arith)
digits-starts (suc f) n out enough = elim (split_at_ten n) [
  | inl small ↦ (n % 10, omega arith, out, small_step f n out small)
  | inr large ↦
      let (d, small, rest, e) =
        digits-starts f (n / 10) (String.◌∷◌ (digit (n % 10)) out) (omega (arith, large, enough)) in
      (d, small, rest, large_step f n out large ∙ e)
]

-- A text that starts with a digit has no sign.
atoi-digit :
    (d : ℕ) (rest : String)
    → d < 10
    → atoi (String.◌∷◌ (digit d) rest) ≡ positive (digits_value 0 (String.◌∷◌ (digit d) rest))
unfolding atoi
atoi-digit d rest small =
    let is : code (digit d) ≡ d + b'0' = digit_code d small in
    let no_minus : eqb (code (digit d)) b'-' ≡ false = rw is (ground arith) in
    let no_plus : eqb (code (digit d)) b'+' ≡ false = rw is (ground arith) in
    rw (no_minus, no_plus) refl

-- Atoi reads a number that Go printed, and refuses one that is no int.
pub atoi-decimal : (n : ℕ) → atoi (decimal n) ≡ (if ltb n (2 ^ 63) then some (pos n) else none)
unfolding decimal digits_value
atoi-decimal n =
    let (d, small, rest, e) = digits-starts (suc n) n "" (omega arith) in
    ap atoi e
    ∙ atoi-digit d rest small
    ∙ ap (λ (t : String). positive (digits_value 0 t)) (sym e)
    ∙ ap positive (digits_value-digits (suc n) n "" (omega arith))

minus_one : atoi "-1" ≡ some (negsuc 0)
unfolding atoi
minus_one = refl

no_number : atoi "80a" ≡ none
unfolding atoi
no_number = refl
