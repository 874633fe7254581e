-- ===== src/StartProxy.antt =====
-- tools/cmd/start-proxy/main.go: which configuration it runs on, and the ids that it logs. The
-- proxy itself, `initProxy.Init`, is a library.
use quietfill.Prelude.{
  ◌≡◌, ◌≢◌, refl, inl, inr, eq_iff, arith, ℕ, String, Bool, Option, none, some, [], ◌∷◌, sprintf,
  ◌==◌, if◌then◌else◌,
}
use quietfill.World.{Reply, ok, fail as error, Reply-cases}
use quietfill.Io.{Io, view, labelled, ◌>>=◌}
use quietfill.TeeCalls.{TeeLibraries, get_tee_proxy_id}

abbrev pub Env : Type 0
Env = String → String

-- The file system, and `proxyConfig.Read`, as far as the external port.
pub record ProxyFiles : Type 0 where
  pub exists : String → Bool  -- `os.Stat` returns no error
  pub project_root : String
  pub read_external_port : String → Reply String
  pub load : Option String → Env → Reply Env  -- `godotenv.Load`, of a file or of `.env`

module _ (f : ProxyFiles) where
  abbrev pub candidate : String
  candidate = sprintf (f.project_root ∷ "/config/proxy/extension_proxy.toml" ∷ [])

  -- `findProxyConfig`.
  unfoldable pub find_proxy_config : Env → String
  find_proxy_config getenv =
      if getenv "PROXY_CONFIG" == ""
      then if f.exists candidate then candidate else "./config/proxy/extension_proxy.toml"
      else getenv "PROXY_CONFIG"

  -- `logProxyAndTeeIds`: the ids that it logs.
  unfoldable pub proxy_and_tee_ids : {S : Type 0} → TeeLibraries S → String → Io S (ℕ × ℕ)
  unfolding get_tee_proxy_id
  proxy_and_tee_ids l config_file = do
    external ←
        labelled "failed to read proxy config: " (view (λ _. f.read_external_port config_file))
    labelled "failed to extract teeID and proxyID: "
        (get_tee_proxy_id l (sprintf ("http://localhost:" ∷ external ∷ [])))

  abbrev or_env : Env → Reply Env → Env
  or_env env (ok loaded) = loaded
  or_env env (error e) = env

  abbrev or_load : Env → Reply Env → Env
  or_load env (ok loaded) = loaded
  or_load env (error e) = or_env env (f.load none env)

  -- `loadEnv`.
  unfoldable pub load_proxy_env : Env → Env
  load_proxy_env env = or_load env (f.load (some (sprintf (f.project_root ∷ "/.env" ∷ []))) env)

  abbrev log_line : Reply (ℕ × ℕ) → (ℕ → String) → String
  log_line (ok (tee_id, proxy_id)) hex =
      sprintf ("Proxy started - TeeID: " ∷ hex tee_id ∷ ", ProxyID: " ∷ hex proxy_id ∷ [])
  log_line (error e) hex = sprintf ("Failed to log proxy and tee IDs: " ∷ e ∷ [])

  -- `main`, up to the signal that it waits for; `start` is `initProxy.Init`. What it returns is what
  -- it logs once the proxy is up.
  unfoldable pub main :
      {S : Type 0}
      → TeeLibraries S
      → (ℕ → String)
      → (start : Env → String → S → S) → Env
      → S
      → String × S
  unfolding load_proxy_env find_proxy_config proxy_and_tee_ids
  main l hex start env s =
      let loaded = load_proxy_env env in
      let config_file = find_proxy_config loaded in
      let (ids, s') = proxy_and_tee_ids l config_file (start loaded config_file s) in
      (log_line ids hex, s')

  -- `godotenv.Load` leaves a variable that is set as it is.
  abbrev KeepsSet : Type 0
  KeepsSet =
      (file : Option String) (env env' : Env) (name : String)
      → f.load file env ≡ ok env'
      → env name ≢ ""
      → env' name ≡ env name

  or_env-kept :
      KeepsSet
      → (env : Env) (name : String) → env name ≢ ""
      → or_env env (f.load none env) name ≡ env name
  or_env-kept keeps env name is_set = elim (Reply-cases (f.load none env)) [
    | inl (env', h) ↦ rw h (keeps none env env' name h is_set)
    | inr (e, h) ↦ rw h refl
  ]

  -- A variable that the process has is not changed by a file `.env`.
  load_proxy_env-kept :
      KeepsSet → (env : Env) (name : String) → env name ≢ "" → load_proxy_env env name ≡ env name
  unfolding load_proxy_env
  load_proxy_env-kept keeps env name is_set =
      let file = some (sprintf (f.project_root ∷ "/.env" ∷ [])) in
      elim (Reply-cases (f.load file env)) [
        | inl (env', h) ↦ rw h (keeps file env env' name h is_set)
        | inr (e, h) ↦ rw h (or_env-kept keeps env name is_set)
      ]

  -- Where Load leaves the variables that are set, the proxy runs on the PROXY_CONFIG of the process,
  -- if it has one, whatever the files `.env` say.
  find_proxy_config-own :
      KeepsSet
      → (env : Env) → env "PROXY_CONFIG" ≢ ""
      → find_proxy_config (load_proxy_env env) ≡ env "PROXY_CONFIG"
  unfolding find_proxy_config
  find_proxy_config-own keeps env is_set = ground (
    arith,
    load_proxy_env-kept keeps env "PROXY_CONFIG" is_set,
    eq_iff (env "PROXY_CONFIG") "",
    is_set,
  )
