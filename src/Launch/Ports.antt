-- ===== src/Launch/Ports.antt =====
-- The ports of the processes: `init` of go/internal/config/config.go and `intEnv` of
-- go/cmd/docker/main.go.
use quietfill.Prelude.{
  ℕ, ◌^◌, ◌≡◌, ◌∙◌, ap, refl, String, Option, none, some, not, ltb, ◌==◌, if◌then◌else◌, Bool-cases,
  inl, inr, eq_iff,
}
use quietfill.Decimal.{decimal}
use quietfill.Decimal.Atoi.{ℤ, pos, atoi, atoi-decimal}

abbrev pub or_default : Option ℤ → ℤ → ℤ
or_default none fallback = fallback
or_default (some v) fallback = v

-- `intEnv`.
unfoldable pub int_env : (String → String) → String → ℤ → ℤ
unfolding atoi
int_env getenv key fallback = or_default (atoi (getenv key)) fallback

-- What `init` makes of one of its two variables and its default.
unfoldable pub init_port : String → ℤ → ℤ
unfolding atoi
init_port text default = if not (text == "") then or_default (atoi text) default else default

-- `ExtensionPort` and `SignPort`.
pub record Config : Type 0 where
  pub extension_port : ℤ
  pub sign_port : ℤ

-- `init`.
unfoldable pub init : (String → String) → Config
unfolding init_port
init getenv = record {
  extension_port = init_port (getenv "EXTENSION_PORT") (pos 8080);
  sign_port = init_port (getenv "SIGN_PORT") (pos 9090);
}

init_port-int_env :
    (getenv : String → String) (key : String) (default : ℤ)
    → init_port (getenv key) default ≡ int_env getenv key default
unfolding init_port int_env
init_port-int_env getenv key default = elim (Bool-cases (getenv key == "")) [
  | inr given ↦ rw given refl
  | inl unset ↦ let empty : getenv key ≡ "" = (eq_iff (getenv key) "").0 unset in rw empty refl
]

-- The init of the package config and the intEnv of the Docker image read a variable alike, whatever
-- it holds: a number that Go printed is read back where it is below 2 ^ 63, and the default stands
-- in for a larger one.
pub init-int_env :
    (getenv : String → String)
    → ((init getenv).extension_port ≡ int_env getenv "EXTENSION_PORT" (pos 8080))
      × ((init getenv).sign_port ≡ int_env getenv "SIGN_PORT" (pos 9090))
      × ((key : String) (fallback : ℤ) (n : ℕ)
          → getenv key ≡ decimal n
          → int_env getenv key fallback ≡ (if ltb n (2 ^ 63) then pos n else fallback))
unfolding init int_env
init-int_env getenv = (
  init_port-int_env getenv "EXTENSION_PORT" (pos 8080),
  init_port-int_env getenv "SIGN_PORT" (pos 9090),
  λ key fallback n printed.
      ap (λ (t : String). or_default (atoi t) fallback) printed
      ∙ ap (λ (o : Option ℤ). or_default o fallback) (atoi-decimal n)
      ∙ chosen fallback n,
)
  where
    chosen :
        (fallback : ℤ) (n : ℕ)
        → or_default (if ltb n (2 ^ 63) then some (pos n) else none) fallback
          ≡ (if ltb n (2 ^ 63) then pos n else fallback)
    chosen fallback n = elim (Bool-cases (ltb n (2 ^ 63))) [
      | inl small ↦ rw small refl
      | inr large ↦ rw large refl
    ]
