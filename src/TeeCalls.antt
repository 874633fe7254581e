-- ===== src/TeeCalls.antt =====
-- tools/pkg/fccutils/tee_calls.go but for `ActionResult`, which is in Node/Poll; and
-- GetTeeProxyID of common.go: what a proxy
-- reports of its machine, and who signed that report.
use quietfill.Prelude.{ℕ, ◌≡◌, refl, String, [], ◌∷◌, sprintf, eqb, if◌then◌else◌}
use quietfill.Decimal.{decimal}
use quietfill.World.{Reply, ok}
use quietfill.Io.{Io, NoError, nil, return, throw, view, ◌>>=◌}
use quietfill.Support.{and_then}

-- `*types.SignedTeeInfoResponse`: the fields that are read. Bytes are a text.
pub record SignedTeeInfo : Type 0 where
  pub attestation : String
  pub code_hash : ℕ
  pub platform : ℕ
  pub extension_id : ℕ
  pub public_key : String  -- `TeeInfo.PublicKey`
  pub chain_id : ℕ  -- `TeeInfo.ChainID`
  pub proxy_signature : String

-- What the claims of an attestation say.
pub record NeededClaims : Type 0 where
  pub code_hash : Reply ℕ
  pub platform : Reply ℕ

-- HTTP, the JSON library, tee-node, go-flare-common and go-ethereum.
pub record TeeLibraries (S : Type 0) : Type 0 where
  pub http_get : String → S → Reply String  -- the body
  pub http_post : String → String → Io S ℕ  -- the status code
  pub decode_info : String → Reply SignedTeeInfo
  pub marshal_url : String → Reply String  -- of a `ConfigureProxyURLRequest`
  pub parse_token : String → Reply NeededClaims  -- `ParsePKITokenUnverifiedClaims`
  pub parse_pub_key : String → Reply ℕ
  pub pubkey_to_address : ℕ → ℕ
  pub info_hash : SignedTeeInfo → Reply String  -- `TeeInfo.Hash`
  pub bytes_to_hash : String → ℕ
  pub payload_hash : String → ℕ → ℕ → Reply ℕ  -- `NewPayload(domain, chain, hash).Hash()`
  pub text_hash : ℕ → ℕ  -- `accounts.TextHash`
  pub sig_to_pub : ℕ → String → Reply ℕ  -- `crypto.SigToPub`

module _ {S : Type 0} (l : TeeLibraries S) where
  -- `TeeInfo`.
  unfoldable pub tee_info : String → S → Reply SignedTeeInfo
  tee_info node_url s =
      and_then (l.http_get (sprintf (node_url ∷ "/info" ∷ [])) s) λ body. l.decode_info body

  -- `CodeHashAndPlatform`.
  unfoldable pub code_hash_and_platform : String → Reply (ℕ × ℕ)
  code_hash_and_platform attestation = and_then (l.parse_token attestation) λ claims.
      and_then claims.code_hash
        λ code_hash. and_then claims.platform λ platform. ok (code_hash, platform)

  -- What the proxy signs: the hash of the report, bound to its domain and to the chain.
  unfoldable pub info_sign_hash : SignedTeeInfo → Reply ℕ
  info_sign_hash info =
      and_then (l.info_hash info)
        λ hash. l.payload_hash "ProxyTeeInfo" info.chain_id (l.bytes_to_hash hash)

  -- `TeeProxyId`.
  unfoldable pub tee_proxy_id : SignedTeeInfo → Reply (ℕ × ℕ)
  unfolding info_sign_hash
  tee_proxy_id info = and_then (l.parse_pub_key info.public_key) λ pub_key.
      and_then (info_sign_hash info) λ sign_hash.
        and_then (l.sig_to_pub (l.text_hash sign_hash) info.proxy_signature)
          λ proxy_key. ok (l.pubkey_to_address pub_key, l.pubkey_to_address proxy_key)

  -- `GetTeeProxyID` of tools/pkg/fccutils/common.go.
  unfoldable pub get_tee_proxy_id : String → Io S (ℕ × ℕ)
  unfolding tee_info tee_proxy_id
  get_tee_proxy_id proxy_url = do info ← view (tee_info proxy_url); view (λ _. tee_proxy_id info)

  abbrev pub expect_ok : ℕ → Io S NoError
  expect_ok status =
      if eqb status 200
      then return nil
      else throw (sprintf ("unexpected status code: " ∷ decimal status ∷ []))

  -- `SetProxyUrl`.
  unfoldable pub set_proxy_url : ℕ → ℕ → Io S NoError
  set_proxy_url configuration_port proxy_port = do
    body ← view (λ _. l.marshal_url (sprintf ("http://localhost:" ∷ decimal proxy_port ∷ [])))
    status ←
        l.http_post (sprintf ("http://localhost:" ∷ decimal configuration_port ∷ "/proxy" ∷ []))
          body
    expect_ok status

  -- Where the signature library recovers who signed, and the payload library gives the hash of the
  -- report in the domain ProxyTeeInfo and for the report's chain: where the signature of the report
  -- is one of the text hash of that, TeeProxyId returns the address of its signer as the proxy, and
  -- that of the public key of the report as the machine.
  pub tee_proxy_id-signer :
      (sign : ℕ → ℕ → String) (public : ℕ → ℕ) (info : SignedTeeInfo) (key hash machine : ℕ)
      (report : String)
      → ((k n : ℕ) → l.sig_to_pub n (sign k n) ≡ ok (public k))
      → l.parse_pub_key info.public_key ≡ ok machine
      → l.info_hash info ≡ ok report
      → l.payload_hash "ProxyTeeInfo" info.chain_id (l.bytes_to_hash report) ≡ ok hash
      → info.proxy_signature ≡ sign key (l.text_hash hash)
      → tee_proxy_id info ≡ ok (l.pubkey_to_address machine, l.pubkey_to_address (public key))
  unfolding tee_proxy_id info_sign_hash
  tee_proxy_id-signer sign public info key hash machine report recovers parsed reported hashed
        signed =
      rw (parsed, reported, hashed, signed, recovers key (l.text_hash hash)) refl
