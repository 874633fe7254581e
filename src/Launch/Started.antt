-- ===== src/Launch/Started.antt =====
-- What start-tee starts, and in which environment.
use quietfill.Prelude.{
  ℕ, ◌≡◌, ◌≢◌, ◌⊎◌, inl, inr, ◌∙◌, ap, refl, sym, subst, String, Option, none, some, List, [], ◌∷◌,
  sprintf, ◌==◌, Bool-cases, eq_iff, eq_refl, arith,
}
use quietfill.Decimal.{decimal}
use quietfill.Decimal.Atoi.{pos}
use quietfill.World.{Reply, ok, fail as error, Reply-cases}
use quietfill.Io.Success.{ok_injective}
use quietfill.Launch.{Launcher, set_owner_address, launch_key, exported}
use quietfill.Launch.Processes.{
  Env, setenv, node, server, Event, fatal, Process, TeeHost, load_env, export_owner,
  export_extension, start_tee_main,
}

setenv_self : (name value : String) (env : Env) → setenv name value env name ≡ value
setenv_self name value env = rw (eq_refl name) refl

setenv_other :
    (name value other : String) (env : Env) → other ≢ name → setenv name value env other ≡ env other
setenv_other name value other env ne = elim (Bool-cases (other == name)) [
  | inl same ↦ absurd (ne ((eq_iff other name).0 same))
  | inr differs ↦ rw differs refl
]

-- The variables that setOwnerAddress and the flag leave.
module _ (l : Launcher) (prints : (a : ℕ) → l.hex a ≢ "") where
  exported-owner :
      (key : Reply ℕ) (env : Env) {returned : ℕ} {exports : Option String}
      → exported l key ≡ ok (returned, exports)
      → (exports ≢ none) × (export_owner exports env "INITIAL_OWNER" ≢ "")
  exported-owner (error e) env h = ground (arith, h)
  exported-owner (ok key) env {exports = exports} h =
      let same : some (l.hex (l.pubkey_to_address key)) ≡ exports =
        ap (λ (p : ℕ × Option String). p.1) (ok_injective h) in
      subst (λ o. (o ≢ none) × (export_owner o env "INITIAL_OWNER" ≢ "")) same
        (
          λ e. ground (arith, e),
          λ e.
              prints (l.pubkey_to_address key)
                (sym (setenv_self "INITIAL_OWNER" (l.hex (l.pubkey_to_address key)) env) ∙ e),
        )

  -- Either way there is an owner, and only its variable has changed.
  set_owner_address-owner :
      {returned : ℕ} {exports : Option String}
      → set_owner_address l ≡ ok (returned, exports)
      → export_owner exports l.getenv "INITIAL_OWNER" ≢ ""
  unfolding set_owner_address
  set_owner_address-owner h = elim (Bool-cases (l.getenv "INITIAL_OWNER" == "")) [
    | inl unset ↦ (exported-owner (launch_key l) l.getenv (rw unset at h)).1
    | inr is_set ↦
        let kept = ap (λ (p : ℕ × Option String). p.1) (ok_injective (rw is_set at h)) in
        subst (λ o. export_owner o l.getenv "INITIAL_OWNER" ≢ "") kept
          (λ e. ground (arith, is_set, (eq_iff (l.getenv "INITIAL_OWNER") "").1 e))
  ]

export_owner-other :
    (exports : Option String) (env : Env) (name : String)
    → name ≢ "INITIAL_OWNER"
    → export_owner exports env name ≡ env name
export_owner-other none env name ne = refl
export_owner-other (some owner) env name ne = setenv_other "INITIAL_OWNER" owner name env ne

export_extension-other :
    (extension_id : String) (env : Env) (name : String)
    → name ≢ "EXTENSION_ID"
    → export_extension extension_id env name ≡ env name
export_extension-other extension_id env name ne = elim (Bool-cases (extension_id == "")) [
  | inl unset ↦ rw unset refl
  | inr given ↦ rw given (setenv_other "EXTENSION_ID" extension_id name env ne)
]

export_extension-given :
    (extension_id : String) (env : Env)
    → extension_id ≢ ""
    → export_extension extension_id env "EXTENSION_ID" ≡ extension_id
export_extension-given extension_id env ne = elim (Bool-cases (extension_id == "")) [
  | inl unset ↦ absurd (ne ((eq_iff extension_id "").0 unset))
  | inr given ↦ rw given (setenv_self "EXTENSION_ID" extension_id env)
]

module _ (h : TeeHost) (extension_id : String) (env : Env) (events : List Event) where
  abbrev pub process : Process
  process = start_tee_main h extension_id env events

  -- The process ends before it has started anything.
  abbrev pub EndsFirst : Type 0
  EndsFirst = (e : String) × (process ≡ record { started = []; outcome = fatal e })

  -- It starts the node on its three ports, in an environment with an owner and the given id, and
  -- then the server.
  abbrev pub StartsBoth : Type 0
  StartsBoth =
      (started_env : Env) × (process.started
        ≡ node started_env (pos 5501) (pos 7701) (pos 7702) ∷ server ":7702" ∷ [])
      × (started_env "INITIAL_OWNER" ≢ "")
      × (extension_id ≢ "" → started_env "EXTENSION_ID" ≡ extension_id)
      × ((name : String)
          → name ≢ "INITIAL_OWNER"
          → name ≢ "EXTENSION_ID"
          → started_env name ≡ load_env h env name)

  process-StartsBoth :
      (returned : ℕ) (exports : Option String)
      → ((a : ℕ) → h.libraries.hex a ≢ "")
      → set_owner_address (record h.libraries { getenv = load_env h env }) ≡ ok (returned, exports)
      → StartsBoth
  unfolding start_tee_main sprintf decimal
  process-StartsBoth returned exports prints good =
      let loaded = load_env h env in
      let with_id = export_owner exports loaded in
      (
        export_extension extension_id with_id,
        rw good refl,
        λ e.
            set_owner_address-owner (record h.libraries { getenv = loaded }) prints good
              (sym (export_extension-other extension_id with_id "INITIAL_OWNER" (cc)) ∙ e),
        export_extension-given extension_id with_id,
        λ name no_owner no_id.
            export_extension-other extension_id with_id name no_id
            ∙ export_owner-other exports loaded name no_owner,
      )

  -- Where the text of an address is not empty: start-tee either ends without having started
  -- anything, or it starts the tee-node before the extension's server, which listens on 7702, in
  -- an environment that has an INITIAL_OWNER, that has the id of the flag as EXTENSION_ID if one is
  -- given, and that is otherwise the one that loadEnv leaves.
  pub start_tee_main-Starts : ((a : ℕ) → h.libraries.hex a ≢ "") → EndsFirst ⊎ StartsBoth
  unfolding start_tee_main
  start_tee_main-Starts prints =
      elim (Reply-cases (set_owner_address (record h.libraries { getenv = load_env h env }))) [
        | inr (e, failed) ↦ inl (e, rw failed refl)
        | inl ((returned, exports), good) ↦ inr (process-StartsBoth returned exports prints good)
      ]
