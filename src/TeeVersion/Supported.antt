-- ===== src/TeeVersion/Supported.antt =====
-- What a successful allow-tee-version leaves on the chain.
use quietfill.Prelude.{
  ℕ, ◌≤◌, ◌-◌, ◌++◌, ◌∙◌, [], ◌∷◌, length, ltb, sprintf, arith, ap, ◌≡◌, ◌⊎◌, inl, inr, refl, subst,
  String, Bool, true, false, List, Bool-cases,
}
use quietfill.World.{Reply, ok, fail as error}
use quietfill.Io.{NoError, nil, return, view, labelled, wrapped, continue, attempt, ◌>>=◌, ◌>>◌}
use quietfill.Io.Success.{>>=_success, view_success, labelled-ok, return-ok, throw-ok}
use quietfill.Support.{Support, Receipt, check_tx}
use quietfill.Support.Mined.{Brings, check_tx-ok}
use quietfill.RunTest.{contains}
use quietfill.TeeCalls.{SignedTeeInfo, tee_info, tee_proxy_id}
use quietfill.TeeVersion.{
  VersionTools, zeros, string_to_bytes32, add_tee_version, version_key, tolerate_existing, allow,
  main,
}

abbrev text_of : {A : Type 0} → Reply A → String
text_of (ok _) = ""
text_of (error e) = e

error_injective : {A : Type 0} {e e' : String} → ◌≡◌ {A = Reply A} (error e) (error e') → e ≡ e'
error_injective h = ap text_of h

module _ {S : Type 0} (v : VersionTools S) where
  -- The registry has the machine's code hash on its platform.
  abbrev pub IsSupported : SignedTeeInfo → S → Type 0
  IsSupported m s =
      v.is_code_hash_platform_supported m.extension_id m.code_hash m.platform s ≡ ok true

  -- The registry's promise: a transaction that is mined without error adds the version.
  abbrev pub Adds : SignedTeeInfo → Type 0
  Adds m =
      (priv_key : ℕ) (version : List ℕ)
      → Brings v.client (v.add_tee_version priv_key m.extension_id version m.code_hash m.platform)
          (IsSupported m)

  add_tee_version-IsSupported :
      (priv_key : ℕ) (m : SignedTeeInfo) (version : List ℕ) (s s' : S) {n : NoError}
      → Adds m
      → add_tee_version v priv_key m.extension_id m.code_hash m.platform version s ≡ (ok n, s')
      → IsSupported m s'
  unfolding add_tee_version ◌>>◌
  add_tee_version-IsSupported priv_key m version s s' adds h = view_success _ _ h λ _ _ h₁.
      view_success _ _ h₁ λ version_bytes _ h₂. >>=_success _ _ h₂ λ tx s₁ sent h₃.
        >>=_success _ _ h₃ λ r s₂ waited returned.
          let (receipt, mined, good) = check_tx-ok v.client tx s₁ waited in
          subst (IsSupported m) ((return-ok returned).1)
            (adds priv_key version_bytes tx receipt s s₁ s₂ (labelled-ok _ _ sent) mined good)

  -- The transaction with the packed version is refused, when it is sent or when it is mined, by an error
  -- whose text says that the version exists.
  abbrev pub IsRefused : ℕ → SignedTeeInfo → List ℕ → S → S → Type 0
  IsRefused priv_key m version s s' =
      ((e : String) × (v.add_tee_version priv_key m.extension_id
            (version ++ zeros (32 - length version)) m.code_hash m.platform s
          ≡ (error e, s'))
        × (contains (sprintf ("TeeExtensionRegistry.AddTeeVersion failed: " ∷ e ∷ []))
              "VersionAlreadyExists"
            ≡ true))
      ⊎ ((e : String) × (tx : ℕ) × (s₁ : S) × (v.add_tee_version priv_key m.extension_id
              (version ++ zeros (32 - length version)) m.code_hash m.platform s
            ≡ (ok tx, s₁))
          × (check_tx v.client tx s₁ ≡ (error e, s'))
          × (contains e "VersionAlreadyExists" ≡ true))

  mined-error :
      (tx : ℕ) (s₁ : S) (w : Reply Receipt × S) (e : String) (s' : S)
      → check_tx v.client tx s₁ ≡ w
      → continue (λ r. return nil) w ≡ (error e, s')
      → check_tx v.client tx s₁ ≡ (error e, s')
  mined-error tx s₁ (ok r, s₂) e s' waited h = unfold return in ground (arith, h)
  mined-error tx s₁ (error e', s₂) e s' waited h =
      waited
      ∙ ap (λ (x : String). (error x, s₂)) (error_injective (ap (λ (t : Reply NoError × S). t.0) h))
      ∙ ap (λ (u : S). (error e, u)) (ap (λ (t : Reply NoError × S). t.1) h)

  sent-error :
      (priv_key : ℕ) (m : SignedTeeInfo) (version : List ℕ) (out : Reply ℕ × S) (e : String)
      (s s' : S)
      → v.add_tee_version priv_key m.extension_id
          (version ++ zeros (32 - length version))
          m.code_hash
          m.platform
          s
        ≡ out
      → continue
          (λ tx t. continue (λ r. return nil) (check_tx v.client tx t))
          (wrapped "TeeExtensionRegistry.AddTeeVersion failed: " out)
        ≡ (error e, s')
      → contains e "VersionAlreadyExists" ≡ true
      → IsRefused priv_key m version s s'
  sent-error priv_key m version (error e', s₁) e s s' called h exists = inl (
    e',
    called ∙ ap (λ (u : S). (error e', u)) (ap (λ (t : Reply NoError × S). t.1) h),
    ap (λ (x : String). contains x "VersionAlreadyExists")
          (error_injective (ap (λ (t : Reply NoError × S). t.0) h))
        ∙ exists,
  )
  sent-error priv_key m version (ok tx, s₁) e s s' called h exists =
      inr (e, tx, s₁, called, mined-error tx s₁ _ e s' refl h, exists)

  add_tee_version-IsRefused :
      (priv_key : ℕ) (m : SignedTeeInfo) (version : List ℕ) (e : String) (s s' : S)
      → ((key : ℕ) → v.keyed_transactor key ≡ ok nil)
      → length version ≤ 32
      → add_tee_version v priv_key m.extension_id m.code_hash m.platform version s ≡ (error e, s')
      → contains e "VersionAlreadyExists" ≡ true
      → IsRefused priv_key m version s s'
  unfolding add_tee_version string_to_bytes32 view labelled ◌>>=◌ ◌>>◌
  add_tee_version-IsRefused priv_key m version e s s' keyed short ran exists =
      let fits : ltb 32 (length version) ≡ false = ground (arith, short) in
      sent-error priv_key m version _ e s s' refl (rw (keyed priv_key, fits) at ran) exists

  tolerated :
      (priv_key : ℕ) (m : SignedTeeInfo) (version : List ℕ) (out : Reply NoError × S) (s s' : S)
      {n : NoError}
      → Adds m
      → ((key : ℕ) → v.keyed_transactor key ≡ ok nil)
      → length version ≤ 32
      → add_tee_version v priv_key m.extension_id m.code_hash m.platform version s ≡ out
      → tolerate_existing v out.0 out.1 ≡ (ok n, s')
      → IsSupported m s' ⊎ IsRefused priv_key m version s s'
  unfolding tolerate_existing
  tolerated priv_key m version (ok n, s₁) s s' adds keyed short ran h = inl (
      subst (IsSupported m) ((return-ok h).1)
        (add_tee_version-IsSupported priv_key m version s s₁ adds ran))
  tolerated priv_key m version (error e, s₁) s s' adds keyed short ran h =
      elim (Bool-cases (contains e "VersionAlreadyExists")) [
        | inl exists ↦ inr (
            subst (IsRefused priv_key m version s) ((return-ok (rw exists at h)).1)
              (add_tee_version-IsRefused priv_key m version e s s₁ keyed short ran exists))
        | inr other ↦ absurd (throw-ok e s₁ (rw other at h))
      ]

  allow-IsSupported :
      (priv_key : ℕ) (m : SignedTeeInfo) (version : List ℕ) (supported : Bool) (s s' : S)
      {n : NoError}
      → Adds m
      → ((key : ℕ) → v.keyed_transactor key ≡ ok nil)
      → length version ≤ 32
      → v.is_code_hash_platform_supported m.extension_id m.code_hash m.platform s ≡ ok supported
      → allow v priv_key m version supported s ≡ (ok n, s')
      → IsSupported m s' ⊎ IsRefused priv_key m version s s'
  unfolding allow attempt ◌>>=◌
  allow-IsSupported priv_key m version true s s' adds keyed short is h =
      inl (subst (IsSupported m) ((return-ok h).1) is)
  allow-IsSupported priv_key m version false s s' adds keyed short is h =
      tolerated priv_key m version _ s s' adds keyed short refl h

  -- Where the registry keeps its promise and every key has a transactor: an allow-tee-version that
  -- succeeds with a version of at most 32 bytes leaves the code hash of the machine, as the proxy
  -- reports it, supported on its platform, or the registry's transaction with the packed version was
  -- refused, when it was sent or when it was mined, by an error whose text says VersionAlreadyExists.
  pub main-IsSupported :
      (support : Reply Support) (version : List ℕ) (s s' : S)
      → ((m : SignedTeeInfo) → Adds m)
      → ((key : ℕ) → v.keyed_transactor key ≡ ok nil)
      → length version ≤ 32
      → main v support version s ≡ (ok nil, s')
      → (m : SignedTeeInfo) × (tee_info v.libraries v.proxy_url s ≡ ok m)
        × (IsSupported m s' ⊎ ((priv_key : ℕ) × IsRefused priv_key m version s s'))
  unfolding main ◌>>◌
  main-IsSupported support version s s' adds keyed short h = view_success _ _ h λ found _ h₁.
      view_success _ _ h₁ λ m info h₂. view_success _ _ h₂ λ priv_key _ h₃.
        view_success _ _ h₃ λ _ _ h₄. view_success _ _ h₄ λ supported is h₅. (
          m,
          info,
          elim (allow-IsSupported priv_key m version supported s s' (adds m) keyed short is h₅) [
            | inl good ↦ inl good
            | inr known ↦ inr (priv_key, known)
          ],
        )

  -- Once it has succeeded in that way, a second run changes nothing, as long as the proxy reports
  -- the same machine.
  pub main-twice :
      (support : Support) (version : List ℕ) (m : SignedTeeInfo) (s : S) {priv_key : ℕ}
      {ids : ℕ × ℕ}
      → version_key v support ≡ ok priv_key
      → tee_proxy_id v.libraries m ≡ ok ids
      → tee_info v.libraries v.proxy_url s ≡ ok m
      → IsSupported m s
      → main v (ok support) version s ≡ (ok nil, s)
  unfolding main view return allow ◌>>=◌ ◌>>◌
  main-twice support version m s key proxied info is = rw (info, key, proxied, is) refl
