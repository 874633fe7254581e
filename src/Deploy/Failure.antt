-- ===== src/Deploy/Failure.antt =====
-- When `RegisterDeployChecks` makes a report fail.
use quietfill.Prelude.{
  ℕ, String, Bool, true, false, not, ◌&&◌, ◌||◌, Option, none, some, List, [], ◌∷◌, ◌≡◌, ◌≢◌, ◌↔◌,
  eq_iff, ◌∙◌, ap, refl, any, eqb, arith, ◌==◌, All,
}
use quietfill.World.{World, Eth, Client, Reply, ok, fail as error}
use quietfill.Report.{CheckResult, has_failures, any_failure, warn, Report}
use quietfill.Report.Checker.{
  Checker, Emits, Emits-emit, Emits-unless, ◌▸◌, added, added-then, adds_failure, adds_failure-then,
  has_failures-Emits, emit, done, unless,
}
use quietfill.EnvFile.Format.{check_extension_env_format}
use quietfill.Deploy.{
  address_has_code, key_has_funds, min_deploy_balance, is_some, from_error, check_chain_id,
  check_deployer_key_source, is_using_dev_key, zero_check, zero_checks, zero_addrs, code_check,
  code_checks, funds_checks, chain_checks, emit_all, register_deploy_checks,
}
use quietfill.Deploy.Emitted.{
  DeployEntry, zero_check-IsEntry, zero_checks-Emits, code_check-IsEntry, code_checks-Emits,
  key_source-IsEntry, funds_checks-Emits, chain_checks-Emits, emit_all-Emits, env_format-IsEntry,
  after_loops, after_loops-Emits, register_deploy_checks-Emits,
}

-- The check of the key's source warns exactly where the development key is in use and the mode is
-- not local.
check_deployer_key_source-is_using_dev_key :
    (w : World)
    → ((check_deployer_key_source w).status ≡ warn) ↔ (
        (is_using_dev_key w ≡ true)
        × (w.getenv "LOCAL_MODE" ≢ "true")
        × (w.getenv "LOCAL_MODE" ≢ ""))
unfolding check_deployer_key_source is_using_dev_key
check_deployer_key_source-is_using_dev_key w =
    ground (arith, eq_iff (w.getenv "LOCAL_MODE") "true", eq_iff (w.getenv "LOCAL_MODE") "")

-- An entry of the map that is the zero address.
abbrev pub is_zero : String × ℕ → Bool
is_zero (label, addr) = eqb addr 0

zero_check-failure :
    (lib : Eth) (e : String × ℕ) → adds_failure (emit (zero_check lib e)) ≡ is_zero e
unfolding zero_check any_failure emit
zero_check-failure lib e = ground arith

zero_checks-failure :
    (lib : Eth) (es : List (String × ℕ)) → adds_failure (zero_checks lib es) ≡ any is_zero es
unfolding zero_checks
zero_checks-failure lib [] = unfold any_failure done in refl
zero_checks-failure lib (e ∷ es) =
    adds_failure-then {P = DeployEntry} _ _ (Emits-emit _ (zero_check-IsEntry lib e))
      (zero_checks-Emits lib es)
    ∙ ap (λ b. b || adds_failure (zero_checks lib es)) (zero_check-failure lib e)
    ∙ ap (λ b. is_zero e || b) (zero_checks-failure lib es)

from_error-failure :
    (step id name : String) (o : Option String) (message fix : String)
    → adds_failure (emit (from_error step id name o message fix)) ≡ is_some o
unfolding from_error any_failure emit
from_error-failure step id name o message fix = ground arith

-- An entry that D1 finds without code, and does not pass over as one that D3 marked.
abbrev pub lacks_code : Eth → Option Client → List String → String × ℕ → Bool
lacks_code lib client zeros (label, addr) =
    not (any (λ l. l == label) zeros) && is_some (address_has_code lib client addr label)

unless-failure : (b : Bool) (c : Checker) → adds_failure (unless b c) ≡ (not b && adds_failure c)
unfolding unless
unless-failure true c = unfold done any_failure in refl
unless-failure false c = refl

code_check-failure :
    (lib : Eth) (client : Option Client) (zeros : List String) (label : String) (addr : ℕ)
    → adds_failure
        (unless (any (λ l. l == label) zeros) (emit (code_check lib client (label, addr))))
      ≡ lacks_code lib client zeros (label, addr)
unfolding code_check
code_check-failure lib client zeros label addr =
    unless-failure (any (λ l. l == label) zeros) _
    ∙ ap (λ b. not (any (λ l. l == label) zeros) && b) (from_error-failure _ _ _ _ _ _)

code_checks-failure :
    (lib : Eth) (client : Option Client) (zeros : List String) (es : List (String × ℕ))
    → adds_failure (code_checks lib client zeros es) ≡ any (lacks_code lib client zeros) es
unfolding code_checks
code_checks-failure lib client zeros [] = unfold any_failure done in refl
code_checks-failure lib client zeros ((label, addr) ∷ es) =
    adds_failure-then {P = DeployEntry} _ _
      (Emits-unless _ (Emits-emit _ (code_check-IsEntry lib client (label, addr))))
      (code_checks-Emits lib client zeros es)
    ∙ ap (λ b. b || adds_failure (code_checks lib client zeros es))
        (code_check-failure lib client zeros label addr)
    ∙ ap (λ b. lacks_code lib client zeros (label, addr) || b)
        (code_checks-failure lib client zeros es)

-- The deployer's address has too little, where there is a key and a client to ask.
abbrev pub lacks_funds : Eth → Option Client → Option ℕ → Bool
lacks_funds lib (some client) (some key) =
    is_some (key_has_funds lib (some client) key min_deploy_balance)
lacks_funds lib _ _ = false

funds_checks-failure :
    (lib : Eth) (client : Option Client) (key : Option ℕ)
    → adds_failure (funds_checks lib client key) ≡ lacks_funds lib client key
unfolding funds_checks
funds_checks-failure lib (some client) (some key) = from_error-failure _ _ _ _ _ _
funds_checks-failure lib none key = unfold any_failure done in refl
funds_checks-failure lib (some client) none = unfold any_failure done in refl

abbrev pub is_error {ℓ} : {A : Type ℓ} → Reply A → Bool
is_error (ok a) = false
is_error (error e) = true

-- The chain does not answer for its id.
abbrev pub lacks_chain : Option Client → Bool
lacks_chain none = false
lacks_chain (some client) = is_error client.chain_id

chain_checks-failure :
    (client : Option Client) → adds_failure (chain_checks client) ≡ lacks_chain client
unfolding chain_checks check_chain_id
chain_checks-failure none = unfold any_failure done in refl
chain_checks-failure (some client) = unfold any_failure emit in ground arith

added-emit_all : (xs : List CheckResult) → All DeployEntry xs → added (emit_all xs) ≡ xs
unfolding emit_all emit done
added-emit_all [] h = refl
added-emit_all (x ∷ xs) (p, h) =
    added-then {P = DeployEntry} _ _ (Emits-emit x p) (emit_all-Emits xs h)
    ∙ ap (λ l. x ∷ l) (added-emit_all xs h)

env_format-failure :
    (w : World) (lib : Eth) (path : String)
    → adds_failure (unless (path == "") (emit_all (check_extension_env_format w lib path)))
      ≡ (not (path == "") && any_failure (check_extension_env_format w lib path))
env_format-failure w lib path =
    unless-failure (path == "") _
    ∙ ap (λ l. not (path == "") && any_failure l)
        (added-emit_all (check_extension_env_format w lib path) (env_format-IsEntry w lib path))

key_source-failure : (w : World) → adds_failure (emit (check_deployer_key_source w)) ≡ false
unfolding check_deployer_key_source emit any_failure
key_source-failure w = ground arith

after_loops-failure :
    (w : World) (lib : Eth) (client : Option Client) (key : Option ℕ) (path : String)
    → adds_failure (after_loops w lib client key path) ≡ (
        lacks_funds lib client key
        || (lacks_chain client
            || (not (path == "") && any_failure (check_extension_env_format w lib path))))
after_loops-failure w lib client key path =
    let funds = funds_checks-Emits lib client key in
    let chain = chain_checks-Emits client in
    let env : Emits DeployEntry
        (unless (path == "") (emit_all (check_extension_env_format w lib path))) =
      Emits-unless _ (emit_all-Emits _ (env_format-IsEntry w lib path)) in
    adds_failure-then {P = DeployEntry} _ _ (Emits-emit _ (key_source-IsEntry w))
      (funds ▸ chain ▸ env)
    ∙ rw
        (
          key_source-failure w,
          adds_failure-then _ _ funds (chain ▸ env),
          adds_failure-then _ _ chain env,
          funds_checks-failure lib client key,
          chain_checks-failure client,
          env_format-failure w lib path,
        )
        refl

-- The deploy checks add a failure exactly when an address of the map is zero; or one that is not
-- marked as zero has no code; or the deployer lacks funds; or the chain does not answer for its id; or
-- extension.env, if a path is given, has a value that has not its format.
pub register_deploy_checks-failure :
    (w : World) (lib : Eth) (client : Option Client) (key : Option ℕ)
    (first second : List (String × ℕ)) (path : String)
    → adds_failure (register_deploy_checks w lib client key first second path) ≡ (
        any is_zero first
        || (any (lacks_code lib client (zero_addrs lib first)) second
            || (lacks_funds lib client key
                || (lacks_chain client
                    || (not (path == "") && any_failure (check_extension_env_format w lib path))))))
unfolding register_deploy_checks
register_deploy_checks-failure w lib client key first second path =
    let codes = code_checks-Emits lib client (zero_addrs lib first) second in
    let rest = after_loops-Emits w lib client key path in
    adds_failure-then {P = DeployEntry} _ _ (zero_checks-Emits lib first) (codes ▸ rest)
    ∙ rw
        (
          adds_failure-then _ _ codes rest,
          zero_checks-failure lib first,
          code_checks-failure lib client (zero_addrs lib first) second,
          after_loops-failure w lib client key path,
        )
        refl

-- A map with a zero address makes the deploy checks fail a report, whatever the order of the map,
-- the chain and the environment.
register_deploy_checks-zero :
    (w : World) (lib : Eth) (client : Option Client) (key : Option ℕ)
    (first second : List (String × ℕ)) (path : String) (r : Report)
    → any is_zero first ≡ true
    → has_failures (register_deploy_checks w lib client key first second path r) ≡ true
register_deploy_checks-zero w lib client key first second path r zero =
    has_failures-Emits (register_deploy_checks-Emits w lib client key first second path) r
    ∙ ground (arith, register_deploy_checks-failure w lib client key first second path, zero)
