-- ===== src/RegisterTee.antt =====
-- tools/cmd/register-tee/main.go, with `GetCodeHashAndPlatform` of
-- tools/pkg/fccutils/common.go.
use quietfill.Prelude.{
  ℕ, ◌≡◌, ◌≢◌, ◌∙◌, ap, sym, subst, inl, inr, Bool-cases, eq_iff, String, Bool, true, false, eqb,
  ◌==◌, if◌then◌else◌, arith,
}
use quietfill.World.{Reply, ok}
use quietfill.Io.{Io, NoError, nil, view, require, ◌>>=◌, ◌>>◌}
use quietfill.Io.Success.{
  >>=_success, >>_success, view_success, require_success, require-ok, view-ok, ok_injective,
}
use quietfill.Support.{Support}
use quietfill.TeeCalls.{
  SignedTeeInfo, TeeLibraries, tee_info, tee_proxy_id, code_hash_and_platform, get_tee_proxy_id,
}
use quietfill.Encoding.{tee_code_hash, test_platform}
use quietfill.Node.Calls.{Outside}
use quietfill.Node.Register.{register_node, load_state, no_progress}
use quietfill.Node.Disk.{Disk}
use quietfill.Node.Skip.{register_node-no_progress}

-- The proxies, the environment and the decoders; and what registration acts on, for the machine
-- that a proxy reports and the urls of the host and of the external proxy.
pub record TeeTools (S : Type 0) : Type 0 where
  pub outside : SignedTeeInfo → String → String → Outside S
  pub remove_state_file : S → S
  pub libraries : TeeLibraries S
  pub simulated_tee : String  -- the variable `SIMULATED_TEE`

module _ {S : Type 0} (t : TeeTools S) where
  -- The code hash and the platform that a machine has to have.
  unfoldable pub expected : SignedTeeInfo → Reply (ℕ × ℕ)
  unfolding code_hash_and_platform
  expected info =
      if t.simulated_tee == "true"
      then ok (tee_code_hash, test_platform)
      else code_hash_and_platform t.libraries info.attestation

  -- `GetCodeHashAndPlatform`; its results are not used.
  unfoldable pub get_code_hash_and_platform : SignedTeeInfo → Io S NoError
  get_code_hash_and_platform info = do
    wanted ← view (λ _. expected info)
    require (eqb wanted.0 info.code_hash) "code hashes do not match"
    require (eqb wanted.1 info.platform) "platforms do not match"

  -- `if !*resume { os.Remove(…) }`; an error of `os.Remove` is only logged.
  unfoldable pub start_fresh : Bool → Io S NoError
  start_fresh resume s = if resume then (ok nil, s) else (ok nil, t.remove_state_file s)

  -- The url of the machine: that of -h, or that of -p.
  abbrev pub host_url_of : String → String → String
  host_url_of host proxy_url = if host == "" then proxy_url else host

  -- `main`, with its flags -resume, -p, -h, -ep, -command and -i; `support` is what
  -- `DefaultSupport` returns.
  unfoldable pub main :
      Bool → String → String → String → String → String → Reply Support → Io S NoError
  main resume proxy_url host external_url command instruction support = do
    start_fresh resume
    view (λ _. support)
    info ← view (tee_info t.libraries proxy_url)
    ids ← view (λ _. tee_proxy_id t.libraries info)
    ftdc_ids ← get_tee_proxy_id t.libraries external_url
    get_code_hash_and_platform info
    register_node (t.outside info (host_url_of host proxy_url) external_url) ids.0 ftdc_ids.0
        command instruction

  -- A machine has the code hash and the platform of the simulation, where SIMULATED_TEE is true, and
  -- else those that its attestation says.
  abbrev pub IsExpected : SignedTeeInfo → Type 0
  IsExpected info =
      (t.simulated_tee ≡ "true"
        → (info.code_hash ≡ tee_code_hash) × (info.platform ≡ test_platform))
      × (t.simulated_tee ≢ "true"
          → code_hash_and_platform t.libraries info.attestation
            ≡ ok (info.code_hash, info.platform))

  expected-IsExpected :
      (info : SignedTeeInfo) → expected info ≡ ok (info.code_hash, info.platform) → IsExpected info
  unfolding expected
  expected-IsExpected info h = elim (Bool-cases (t.simulated_tee == "true")) [
    | inl simulated ↦
        let same : ok (tee_code_hash, test_platform) ≡ ok (info.code_hash, info.platform) =
          rw simulated at h in
        let pair = ok_injective same in
        (
          λ _. (sym (ap (λ (p : ℕ × ℕ). p.0) pair), sym (ap (λ (p : ℕ × ℕ). p.1) pair)),
          λ no. absurd (no ((eq_iff t.simulated_tee "true").0 simulated)),
        )
    | inr other ↦ (
      λ yes. absurd (ground (arith, other, (eq_iff t.simulated_tee "true").1 yes)),
      λ _. rw other at h,
    )
  ]

  get_code_hash_and_platform-IsExpected :
      (info : SignedTeeInfo) (s s' : S) {n : NoError}
      → get_code_hash_and_platform info s ≡ (ok n, s')
      → IsExpected info × (s ≡ s')
  unfolding get_code_hash_and_platform ◌>>◌
  get_code_hash_and_platform-IsExpected info s s' h = view_success _ _ h λ wanted found h₁.
      require_success _ _ _ h₁ λ same_hash h₂.
        let (same_platform, same) = require-ok _ _ _ h₂ in
        let hash : wanted.0 ≡ info.code_hash = ground (arith, same_hash) in
        let platform : wanted.1 ≡ info.platform = ground (arith, same_platform) in
        (
          expected-IsExpected info (
              found
              ∙ ap (λ (n : ℕ). ok (n, wanted.1)) hash
              ∙ ap (λ (n : ℕ). ok (info.code_hash, n)) platform),
          same,
        )

  -- The machine's and the proxy's addresses, by the report that the proxy at a url gives.
  abbrev pub Reports : String → ℕ × ℕ → S → Type 0
  Reports url ids s =
      (info : SignedTeeInfo) × (tee_info t.libraries url s ≡ ok info)
      × (tee_proxy_id t.libraries info ≡ ok ids)

  get_tee_proxy_id-Reports :
      (url : String) (ids : ℕ × ℕ) (s s' : S)
      → get_tee_proxy_id t.libraries url s ≡ (ok ids, s')
      → Reports url ids s × (s ≡ s')
  unfolding get_tee_proxy_id
  get_tee_proxy_id-Reports url ids s s' h =
      view_success _ _ h
        λ info found h₁. let (signed, same) = view-ok _ h₁ in ((info, found, signed), same)

  -- Where the run starts: without -resume, the state file is removed first.
  abbrev pub started : Bool → S → S
  started resume s = if resume then s else t.remove_state_file s

  start_fresh-started :
      (resume : Bool) (s s' : S) {n : NoError}
      → start_fresh resume s ≡ (ok n, s')
      → started resume s ≡ s'
  unfolding start_fresh
  start_fresh-started true s s' h = ap (λ (p : Reply NoError × S). p.1) h
  start_fresh-started false s s' h = ap (λ (p : Reply NoError × S). p.1) h

  pub main-IsExpected :
      (resume : Bool) (proxy_url host external_url command instruction : String)
      (support : Reply Support) (s s' : S)
      → ((info : SignedTeeInfo) (host_url : String) → Disk (t.outside info host_url external_url))
      → main resume proxy_url host external_url command instruction support s ≡ (ok nil, s')
      → (info : SignedTeeInfo) × (ids ftdc_ids : ℕ × ℕ) × (tee_info t.libraries proxy_url
            (started resume s)
          ≡ ok info)
        × (tee_proxy_id t.libraries info ≡ ok ids)
        × Reports external_url ftdc_ids (started resume s)
        × IsExpected info
        × (register_node
              (t.outside info (host_url_of host proxy_url) external_url)
              ids.0
              ftdc_ids.0
              command
              instruction
              (started resume s)
            ≡ (ok nil, s'))
        × (load_state (t.outside info (host_url_of host proxy_url) external_url) s'
            ≡ ok no_progress)
  unfolding main
  main-IsExpected resume proxy_url host external_url command instruction support s s' disk h =
      >>_success _ _ h λ _ s₁ begun h₁. >>_success _ _ h₁ λ _ s₂ supported h₂.
        view_success _ _ h₂ λ info reported h₃. view_success _ _ h₃ λ ids signed h₄.
          >>=_success _ _ h₄ λ ftdc_ids s₅ asked h₅. >>_success _ _ h₅ λ _ s₆ checked h₆.
            let o = t.outside info (host_url_of host proxy_url) external_url in
            let first : started resume s ≡ s₂ =
              start_fresh-started resume s s₁ begun ∙ (view-ok _ supported).1 in
            let (reports, same₁) = get_tee_proxy_id-Reports external_url ftdc_ids s₂ s₅ asked in
            let (is, same₂) = get_code_hash_and_platform-IsExpected info s₅ s₆ checked in
            let at : s₆ ≡ started resume s = sym (first ∙ same₁ ∙ same₂) in
            (
              info,
              ids,
              ftdc_ids,
              subst (λ (u : S). tee_info t.libraries proxy_url u ≡ ok info) (sym first) reported,
              signed,
              subst (Reports external_url ftdc_ids) (sym first) reports,
              is,
              subst
                  (λ (u : S).
                    register_node o (ids.0) (ftdc_ids.0) command instruction u ≡ (ok nil, s'))
                  at h₆,
              subst (λ (u : S). load_state o u ≡ ok no_progress)
                  (ap (λ (p : Reply NoError × S). p.1) h₆)
                  (register_node-no_progress o (disk info (host_url_of host proxy_url)) (ids.0)
                    (ftdc_ids.0) command instruction s₆ (ap (λ (p : Reply NoError × S). p.0) h₆)),
            )
