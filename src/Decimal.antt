-- ===== src/Decimal.antt =====
-- How Go prints an integer in decimal (`%d`, `big.Int.String`).
pub mod Atoi
use quietfill.Prelude.{
  ◌<◌, ◌≤◌, ◌⊎◌, inl, inr, ◌∙◌, sym, arith, ℕ, zero, suc, ◌/◌, ◌%◌, ◌≡◌, refl, Char, String, eqb,
  ltb, if◌then◌else◌,
}

abbrev pub digit : ℕ → Char
digit d =
    if eqb d 0
    then "0"
    else if eqb d 1
    then "1"
    else if eqb d 2
    then "2"
    else if eqb d 3
    then "3"
    else if eqb d 4
    then "4"
    else if eqb d 5
    then "5"
    else if eqb d 6
    then "6"
    else if eqb d 7
    then "7"
    else if eqb d 8
    then "8"
    else "9"

-- The digits of `n` in front of `out`. A number has fewer digits than `suc n`, the fuel given.
unfoldable pub digits : ℕ → ℕ → String → String
digits zero n out = out
digits (suc f) n out =
    let more = digits f (n / 10) (String.◌∷◌ (digit (n % 10)) out) in
    if ltb n 10 then String.◌∷◌ (digit (n % 10)) out else more

pub small_step :
    (f n : ℕ) (out : String) → n < 10 → digits (suc f) n out ≡ String.◌∷◌ (digit (n % 10)) out
unfolding digits
small_step f n out small = ground (arith, small)

pub large_step :
    (f n : ℕ) (out : String)
    → 10 ≤ n
    → digits (suc f) n out ≡ digits f (n / 10) (String.◌∷◌ (digit (n % 10)) out)
unfolding digits
large_step f n out large = ground (arith, large)

pub split_at_ten : (n : ℕ) → (n < 10) ⊎ (10 ≤ n)
split_at_ten n = grind arith

-- Any fuel above the number gives the same digits.
digits-enough : (f g n : ℕ) (out : String) → n < f → n < g → digits f n out ≡ digits g n out
digits-enough zero g n out hf hg = ground (arith, hf)
digits-enough (suc f) zero n out hf hg = ground (arith, hg)
digits-enough (suc f) (suc g) n out hf hg = elim (split_at_ten n) [
  | inl small ↦ small_step f n out small ∙ sym (small_step g n out small)
  | inr large ↦
      large_step f n out large
      ∙ digits-enough f g (n / 10) (String.◌∷◌ (digit (n % 10)) out) (omega (arith, hf, large))
          (omega (arith, hg, large))
      ∙ sym (large_step g n out large)
]

unfoldable pub decimal : ℕ → String
unfolding digits
decimal n = digits (suc n) n ""

decimal-66046 : decimal 66046 ≡ "66046"
unfolding decimal
decimal-66046 = refl

decimal-zero : decimal 0 ≡ "0"
unfolding decimal
decimal-zero = refl
