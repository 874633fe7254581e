-- ===== src/SetupExtension/Owners.antt =====
-- What a successful `SetupExtension` leaves on the chain.
use quietfill.Prelude.{ℕ, String, Bool, true, false, ◌≡◌, subst, List, [], ◌∷◌}
use quietfill.World.{Reply, ok}
use quietfill.Io.{◌>>◌, NoError, nil}
use quietfill.Io.Preserves.{
  Preserves, Preserves_after, >>=-Preserves, >>-Preserves, view-Preserves, return-Preserves,
  throw-Preserves, labelled-Preserves, if-Preserves,
}
use quietfill.Io.Success.{
  view_success, labelled_success, >>=_success, >>=-ok, >>-ok, labelled-ok, return-ok,
}
use quietfill.Support.Mined.{
  check_tx-Preserves, check_tx-ok, Brings, transact-Preserves, transact-ok,
}
use quietfill.SetupExtension.{
  ExtensionContracts, added_event, allow_tee_machine_owners, allow_tee_project_manager_owners,
  add_supported_key_types_tx, add_supported_key_types, is_key_type_supported, set_machine_owner,
  set_project_owner, set_key_type, setup_extension,
}

module _ {S : Type 0} (c : ExtensionContracts S) where
  abbrev pub MachineOwner : ℕ → S → Type 0
  MachineOwner id s = c.is_allowed_tee_machine_owner id c.deployer s ≡ ok true

  abbrev pub ProjectOwner : ℕ → S → Type 0
  ProjectOwner id s = c.is_allowed_tee_wallet_project_owner id c.deployer s ≡ ok true

  abbrev pub KeyType : ℕ → S → Type 0
  KeyType id s = c.is_key_type_supported id c.evm_type s ≡ ok true

  -- The deployer is an allowed machine owner and an allowed wallet project owner of an extension,
  -- which supports the EVM key type.
  abbrev pub Owned : ℕ → S → Type 0
  Owned id s = MachineOwner id s × ProjectOwner id s × KeyType id s

  -- What the contracts promise: a transaction that is mined without error does what its name says,
  -- and none of those that follow undoes it.
  pub record Promises : Type 0 where
    pub machine_owner_added :
        (id : ℕ)
        → Brings c.client (c.add_allowed_tee_machine_owners id (c.deployer ∷ [])) (MachineOwner id)
    pub project_owner_added :
        (id : ℕ)
        → Brings c.client
            (c.add_allowed_tee_wallet_project_owners id (c.deployer ∷ []))
            (ProjectOwner id)
    pub key_type_added :
        (id : ℕ) → Brings c.client (c.add_supported_key_types id (c.evm_type ∷ [])) (KeyType id)
    pub machine_owner_kept :
        (id : ℕ)
        → Preserves (MachineOwner id) (c.add_allowed_tee_wallet_project_owners id (c.deployer ∷ []))
          × Preserves (MachineOwner id) (c.add_supported_key_types id (c.evm_type ∷ []))
    pub project_owner_kept :
        (id : ℕ) → Preserves (ProjectOwner id) (c.add_supported_key_types id (c.evm_type ∷ []))
    pub mining_keeps :
        (id tx : ℕ)
        → Preserves (MachineOwner id) (c.client.wait_mined tx)
          × Preserves (ProjectOwner id) (c.client.wait_mined tx)

  added_event-Preserves :
      {P : S → Type 0} (name : String) (parse : ℕ → Reply ℕ) (logs : List ℕ)
      → Preserves P (added_event c name parse logs)
  added_event-Preserves name parse [] = throw-Preserves _
  added_event-Preserves name parse (log ∷ _) = labelled-Preserves _ (view-Preserves _)

  -- A step keeps what its transaction and the wait for it keep.
  module _ {P : S → Type 0} (mined : (tx : ℕ) → Preserves P (c.client.wait_mined tx)) where
    pub set_machine_owner-Preserves :
        (id : ℕ) (b : Bool)
        → Preserves P (c.add_allowed_tee_machine_owners id (c.deployer ∷ []))
        → Preserves P (set_machine_owner c id b)
    unfolding set_machine_owner allow_tee_machine_owners
    set_machine_owner-Preserves id b sent = if-Preserves b (return-Preserves nil) (
        >>-Preserves
          (labelled-Preserves _ (
            transact-Preserves c.client _ _ _ _ sent mined (λ r. added_event-Preserves _ _ r.logs)))
          (return-Preserves nil))

    pub set_project_owner-Preserves :
        (id : ℕ) (b : Bool)
        → Preserves P (c.add_allowed_tee_wallet_project_owners id (c.deployer ∷ []))
        → Preserves P (set_project_owner c id b)
    unfolding set_project_owner allow_tee_project_manager_owners
    set_project_owner-Preserves id b sent = if-Preserves b (return-Preserves nil) (
        >>-Preserves
          (labelled-Preserves _ (
            transact-Preserves c.client _ _ _ _ sent mined (λ r. added_event-Preserves _ _ r.logs)))
          (return-Preserves nil))

    pub set_key_type-Preserves :
        (id : ℕ) (b : Bool)
        → Preserves P (c.add_supported_key_types id (c.evm_type ∷ []))
        → Preserves P (set_key_type c id b)
    unfolding set_key_type add_supported_key_types add_supported_key_types_tx
    set_key_type-Preserves id b sent = if-Preserves b (return-Preserves nil) (
        >>-Preserves (view-Preserves _) (
          >>=-Preserves sent (λ tx.
            >>-Preserves (check_tx-Preserves c.client tx (mined tx)) (return-Preserves nil))))

  module _ (promises : Promises) where
    set_machine_owner-ok :
        (id : ℕ) (b : Bool) (s : S) {n : NoError} {s' : S}
        → c.is_allowed_tee_machine_owner id c.deployer s ≡ ok b
        → set_machine_owner c id b s ≡ (ok n, s')
        → MachineOwner id s'
    unfolding set_machine_owner allow_tee_machine_owners
    set_machine_owner-ok id true s is h = subst (MachineOwner id) ((return-ok h).1) is
    set_machine_owner-ok id false s is h =
        let (_, s₁, allowed, returned) = >>-ok _ _ h in
        subst (MachineOwner id) ((return-ok returned).1) (
          transact-ok c.client _ _ _ _ (MachineOwner id) (promises.machine_owner_added id)
            (λ r. added_event-Preserves _ _ r.logs) s (labelled-ok _ _ allowed))

    set_project_owner-ok :
        (id : ℕ) (b : Bool) (s : S) {n : NoError} {s' : S}
        → c.is_allowed_tee_wallet_project_owner id c.deployer s ≡ ok b
        → set_project_owner c id b s ≡ (ok n, s')
        → ProjectOwner id s'
    unfolding set_project_owner allow_tee_project_manager_owners
    set_project_owner-ok id true s is h = subst (ProjectOwner id) ((return-ok h).1) is
    set_project_owner-ok id false s is h =
        let (_, s₁, allowed, returned) = >>-ok _ _ h in
        subst (ProjectOwner id) ((return-ok returned).1) (
          transact-ok c.client _ _ _ _ (ProjectOwner id) (promises.project_owner_added id)
            (λ r. added_event-Preserves _ _ r.logs) s (labelled-ok _ _ allowed))

    set_key_type-ok :
        (id : ℕ) (b : Bool) (s : S) {n : NoError} {s' : S}
        → c.is_key_type_supported id c.evm_type s ≡ ok b
        → set_key_type c id b s ≡ (ok n, s')
        → KeyType id s'
    unfolding set_key_type add_supported_key_types add_supported_key_types_tx
    set_key_type-ok id true s is h = subst (KeyType id) ((return-ok h).1) is
    set_key_type-ok id false s is h =
        let (_, s₁, _, h₁) = >>-ok _ _ h in
        let (tx, s₂, sent, h₂) = >>=-ok _ _ h₁ in
        let (_, s₃, waited, returned) = >>-ok _ _ h₂ in
        let (receipt, mined, good) = check_tx-ok c.client tx s₂ waited in
        subst (KeyType id) ((return-ok returned).1)
          (promises.key_type_added id tx receipt s₁ s₂ s₃ sent mined good)

  -- The last three steps, one after the other.
  steps-Owned :
      Promises
      → (id : ℕ) (machine project key : Bool) (s₁ s₂ s₃ s₄ : S) {m p k : NoError}
      → (c.is_allowed_tee_machine_owner id c.deployer s₁ ≡ ok machine)
        × (c.is_allowed_tee_wallet_project_owner id c.deployer s₂ ≡ ok project)
        × (c.is_key_type_supported id c.evm_type s₃ ≡ ok key)
      → (set_machine_owner c id machine s₁ ≡ (ok m, s₂))
        × (set_project_owner c id project s₂ ≡ (ok p, s₃))
        × (set_key_type c id key s₃ ≡ (ok k, s₄))
      → Owned id s₄
  steps-Owned promises id machine project key s₁ s₂ s₃ s₄ (is_machine, is_project, is_key)
        (set_machine, set_project, set_key) =
      let machine_owner : MachineOwner id s₃ =
        Preserves_after
          (set_project_owner-Preserves (λ tx. (promises.mining_keeps id tx).0) id project
            (promises.machine_owner_kept id).0)
          set_project (set_machine_owner-ok promises id machine s₁ is_machine set_machine) in
      let project_owner : ProjectOwner id s₃ =
        set_project_owner-ok promises id project s₂ is_project set_project in
      (
        Preserves_after
            (set_key_type-Preserves (λ tx. (promises.mining_keeps id tx).0) id key
              (promises.machine_owner_kept id).1)
            set_key machine_owner,
        Preserves_after
            (set_key_type-Preserves (λ tx. (promises.mining_keeps id tx).1) id key
              (promises.project_owner_kept id))
            set_key project_owner,
        set_key_type-ok promises id key s₃ is_key set_key,
      )

  -- Where the contracts keep their promises: a SetupExtension that succeeds leaves the chain with
  -- the deployer as an allowed machine owner and an allowed wallet project owner of the extension
  -- that it returns, and with the EVM key type supported.
  pub setup_extension-Owned :
      (instructions_sender state_verifier id : ℕ) (s s' : S)
      → Promises
      → setup_extension c instructions_sender state_verifier s ≡ (ok id, s')
      → Owned id s'
  unfolding setup_extension is_key_type_supported ◌>>◌
  setup_extension-Owned instructions_sender state_verifier id s s' promises h =
      view_success _ _ h λ _ _ h₁. >>=_success _ _ h₁ λ i s₁ _ h₂.
        labelled_success _ _ _ h₂ λ machine is_machine h₃. >>=_success _ _ h₃ λ _ s₂ set_machine h₄.
          labelled_success _ _ _ h₄ λ project is_project h₅.
            >>=_success _ _ h₅ λ _ s₃ set_project h₆. view_success _ _ h₆ λ key is_key h₇.
              >>=_success _ _ h₇ λ _ s₄ set_key returned.
                let (same_id, same) = return-ok returned in
                subst (λ (j : ℕ). Owned j s') same_id
                  (subst (Owned i) same (
                    steps-Owned promises i machine project key s₁ s₂ s₃ s₄
                      (is_machine, is_project, is_key) (set_machine, set_project, set_key)))
