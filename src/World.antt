-- ===== src/World.antt =====
-- What the tools call and do not implement: the environment, files, sockets and HTTP as the checks
-- see them while they run, the chain's JSON-RPC client, the generated contract bindings, and the
-- functions of go-ethereum. None of it is under the repository's sources, so each is a parameter.
use quietfill.Prelude.{ℕ, Bool, String, List, Option, ◌≡◌, refl, ◌⊎◌, inl, inr}

-- A call's `(value, error)`: the value, or the error's text (`err.Error()`).
pub data Reply {ℓ} (A : Type ℓ) : Type ℓ where
  ok : A → Reply A
  fail : String → Reply A

pub Reply-cases :
    {A : Type 0} (r : Reply A) → ((a : A) × (r ≡ ok a)) ⊎ ((e : String) × (r ≡ fail e))
Reply-cases (ok a) = inl (a, refl)
Reply-cases (fail e) = inr (e, refl)

-- The process and its surroundings: what the checks read, and read alike each time.
pub record World : Type 0 where
  -- `os.Getenv`: the empty text where the variable is unset.
  pub getenv : String → String
  -- `os.Open` and what a scanner then reads; `none` where the file cannot be opened.
  pub open_file : String → Option String
  -- `os.IsNotExist` of the error of `os.Stat`.
  pub not_exist : String → Bool
  -- `net.DialTimeout("tcp", address, …)` returns no error.
  pub dial : String → Bool
  -- The status code of `httpClient.Get(url)`; `none` on a transport error.
  pub http_get : String → Option ℕ

-- Functions of go-ethereum, of tee-node, and `strconv.Quote`; an address and a hash are numbers.
pub record Eth : Type 0 where
  pub hex : ℕ → String  -- `Address.Hex`
  pub hex_to_address : String → ℕ  -- `common.HexToAddress`
  pub pubkey_to_address : ℕ → ℕ  -- `crypto.PubkeyToAddress` of a key's public half
  pub evm_type : ℕ  -- `wallets.EVMType`
  pub quote : String → String  -- the verb `%q`

-- `*ethclient.Client`, each call under its timeout.
pub record Client : Type 0 where
  pub code_at : ℕ → Reply ℕ  -- the length of the code
  pub balance_at : ℕ → Reply ℕ
  pub chain_id : Reply ℕ

-- `*extensionmanager.ExtensionManager`.
pub record Registry : Type 0 where
  pub next_public_extension_id : Reply ℕ
  pub get_instructions_sender : ℕ → Reply ℕ
  pub is_key_type_supported : ℕ → ℕ → Reply Bool

-- `*ownerallowlist.OwnerAllowlist`.
pub record Allowlist : Type 0 where
  pub is_allowed_machine_owner : ℕ → ℕ → Reply Bool

-- What a process prints to standard output and to standard error, and its exit status.
pub record Printed : Type 0 where
  pub out : List String
  pub err : List String
  pub status : ℕ
