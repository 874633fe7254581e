-- ===== src/Register/Passed.antt =====
-- When the registration checks make no report fail.
use quietfill.Prelude.{
  ℕ, String, Bool, true, false, ◌≡◌, ◌∙◌, refl, Option, none, some, List, eqb, ltb, ◌==◌, ◌&&◌,
  arith,
}
use quietfill.World.{World, Eth, Client, Registry, Allowlist, ok}
use quietfill.Report.{any_failure, check, skip}
use quietfill.Report.Checker.{
  Checker, Emits, Emits-emit, Emits-branch, adds_failure, adds_failure-then, emit, done, when,
  branch, ◌▸◌, ◌>>◌,
}
use quietfill.EnvFile.{parse_extension_env}
use quietfill.EnvFile.Format.{extension_id_matches, address_matches}
use quietfill.Register.{
  r1, r2, r3, r4, r7, r7_result, id_checks, chain_side_checks, env_checks,
  register_registration_checks, parse_extension_id, counter_of,
}
use quietfill.Register.Emitted.{
  RegisterEntry, r1-Emits, r2-Emits, r3-Emits, r4-Emits, r7-Emits, id_checks-Emits,
}

-- A sequence of checkers of which none adds a failure.
Passes-then :
    (f g : Checker)
    → Emits RegisterEntry f
    → Emits RegisterEntry g
    → adds_failure f ≡ false
    → adds_failure g ≡ false
    → adds_failure (f >> g) ≡ false
Passes-then f g hf hg pf pg = adds_failure-then f g hf hg ∙ ground (arith, pf, pg)

when-passes : (b : Bool) (c : Checker) → adds_failure c ≡ false → adds_failure (when b c) ≡ false
unfolding when
when-passes true c h = h
when-passes false c h = unfold done any_failure in refl

eqb_self : (n : ℕ) → eqb n n ≡ true
eqb_self n = ground arith

r7_result-passes :
    (sender : String) (ids : List ℕ) → adds_failure (emit (r7_result sender ids)) ≡ false
unfolding r7_result emit any_failure
r7_result-passes sender ids = ground arith

module _ (lib : Eth) (registry : Registry) where
  r1-passes :
      {n : ℕ} → registry.next_public_extension_id ≡ ok n → adds_failure (r1 (some registry)) ≡ false
  unfolding r1 emit any_failure
  r1-passes {n} known = rw known (ground arith)

  r2-passes :
      (id : ℕ) (sender : String)
      → registry.get_instructions_sender id ≡ ok (lib.hex_to_address sender)
      → adds_failure (r2 lib (some registry) id sender) ≡ false
  unfolding r2
  r2-passes id sender known =
      when-passes (address_matches sender) _
        (unfold emit any_failure in rw (known, eqb_self (lib.hex_to_address sender)) refl)

  r4-passes :
      (id : ℕ)
      → registry.is_key_type_supported id lib.evm_type ≡ ok true
      → adds_failure (r4 lib (some registry) id) ≡ false
  unfolding r4 emit any_failure
  r4-passes id supported = rw supported refl

  r7-passes :
      (counter : Option ℕ) (sender : String)
      → adds_failure (r7 lib (some registry) counter sender) ≡ false
  unfolding r7
  r7-passes none sender = unfold done any_failure in refl
  r7-passes (some n) sender =
      when-passes (ltb 0 n && address_matches sender) _ (r7_result-passes sender _)

  r3-passes :
      (key : ℕ) (allowlist : Allowlist) (client : Client) (id : ℕ)
      → allowlist.is_allowed_machine_owner id (lib.pubkey_to_address key) ≡ ok true
      → adds_failure (r3 lib (some key) (some allowlist) (some client) id) ≡ false
  unfolding r3 emit any_failure
  r3-passes key allowlist client id allowed = rw allowed refl

branch-passes :
    (b : Bool) (c d : Checker)
    → adds_failure c ≡ false
    → adds_failure d ≡ false
    → adds_failure (branch b c d) ≡ false
unfolding branch
branch-passes true c d hc hd = hc
branch-passes false c d hc hd = hd

branch-true-passes :
    (b : Bool) (c d : Checker)
    → b ≡ true
    → adds_failure c ≡ false
    → adds_failure (branch b c d) ≡ false
unfolding branch
branch-true-passes true c d h passes = passes
branch-true-passes false c d h passes = ground (arith, h)

skipped-passes :
    (name detail : String)
    → adds_failure (emit (check "register" "R1-R7" name skip detail "")) ≡ false
unfolding emit any_failure
skipped-passes name detail = refl

module _ (lib : Eth) (client : Client) (key : ℕ) (registry : Registry) (allowlist : Allowlist) where
  -- What the registry and the allowlist answer of an extension that is set up.
  pub record SetUp (id : ℕ) (sender : String) : Type 0 where
    pub next_id : ℕ
    pub counted : registry.next_public_extension_id ≡ ok next_id
    pub sends : registry.get_instructions_sender id ≡ ok (lib.hex_to_address sender)
    pub allowed : allowlist.is_allowed_machine_owner id (lib.pubkey_to_address key) ≡ ok true
    pub supported : registry.is_key_type_supported id lib.evm_type ≡ ok true

  id_checks-passes :
      (sender : String) (id : ℕ)
      → SetUp id sender
      → adds_failure
          (id_checks lib (some client) (some key) (some registry) (some allowlist) sender id)
        ≡ false
  unfolding id_checks
  id_checks-passes sender id h =
      let s2 = r2-Emits lib (some registry) id sender in
      let s3 = r3-Emits lib (some key) (some allowlist) (some client) id in
      let s4 = r4-Emits lib (some registry) id in
      let s7 = r7-Emits lib (some registry) (counter_of (some registry)) sender in
      Passes-then _ _ s2 (s3 ▸ s4 ▸ s7) (r2-passes lib registry id sender h.sends) (
        Passes-then _ _ s3 (s4 ▸ s7) (r3-passes lib registry key allowlist client id h.allowed) (
          Passes-then _ _ s4 s7 (r4-passes lib registry id h.supported)
            (r7-passes lib registry _ sender)))

  -- The registration checks find no failure in an extension that is set up and that extension.env
  -- names.
  pub register_registration_checks-passes :
      (w : World) (path : String)
      → extension_id_matches (parse_extension_env w path).extension_id ≡ true
      → SetUp
          (parse_extension_id (parse_extension_env w path).extension_id)
          (parse_extension_env w path).instruction_sender
      → adds_failure (
          register_registration_checks w lib
            (some client)
            (some key)
            (some registry)
            (some allowlist)
            path)
        ≡ false
  unfolding register_registration_checks env_checks chain_side_checks
  register_registration_checks-passes w path formed h =
      let env = parse_extension_env w path in
      let id = parse_extension_id env.extension_id in
      let s1 = r1-Emits (some registry) in
      branch-passes (path == "") _ _ (skipped-passes _ _) (
        branch-passes ((env.extension_id == "") && (env.instruction_sender == "")) _ _
          (skipped-passes _ _)
          (Passes-then _ _ s1
            (Emits-branch (extension_id_matches env.extension_id)
              (id_checks-Emits lib (some client) (some key) (some registry) (some allowlist)
                env.instruction_sender id)
              (Emits-emit _ (refl, tt)))
            (r1-passes lib registry h.counted)
            (branch-true-passes _ _ _ formed (id_checks-passes env.instruction_sender id h))))
