-- ===== src/RunTest.antt =====
-- tools/cmd/run-test/main.go: what the program calls, and its helpers. The rest of `main` is in
-- Main. A key, an address, a hash and a transaction are numbers.
pub mod Arguments
pub mod Typed
pub mod Reading
pub mod Stack
pub mod Steps
pub mod Main
pub mod Polling
pub mod Retry
pub mod Facts
pub mod Achieved
pub mod Passed
pub mod Cached
use quietfill.Prelude.{
  ℕ, String, Bool, true, false, ◌||◌, Option, none, some, List, [], ◌∷◌, ◌⊎◌, inl, inr, sprintf,
  eqb, leb, ltb, ◌==◌, if◌then◌else◌, code,
}
use Prim.Native.String
use text.Mathlib.Text.{starts_with}
use quietfill.Decimal.{decimal}
use quietfill.Hex.{trim_0x, trim_upper_0x}
use quietfill.World.{Reply, ok, fail as error}
use quietfill.Revert.{RpcError, decode_revert_reason}
use quietfill.Io.{Io, NoError, nil, return, throw, view, labelled, attempt, ◌>>=◌, ◌>>◌}
use quietfill.Io.Loop.{loop}
use quietfill.Support.{TxClient, Receipt, check_tx}
use quietfill.Instructions.{Sent, sent, refused}
use quietfill.Node.Poll.{Answer, action_result}

-- `teenodetypes.ActionResponse`: the fields that are read.
pub record ActionResponse : Type 0 where
  pub status : ℕ
  pub log : String
  pub result_data : String
  pub submission_tag : String
  pub signature : List ℕ

-- `*big.Int`, as `SetString` gives it.
pub data BigInt : Type 0 where
  nonnegative : ℕ → BigInt
  negative : ℕ → BigInt

-- `mustBig`, with `SetString(v, 10)`.
unfoldable pub must_big : (String → Option BigInt) → String → String → Reply ℕ
must_big set_string v name =
    let invalid = sprintf ("invalid " ∷ name ∷ ": " ∷ v ∷ []) in
    elim (set_string v) [
      | none ↦ error invalid
      | some (negative n) ↦ error invalid
      | some (nonnegative n) ↦ if eqb n 0 then error invalid else ok n
    ]

abbrev pub parsed_key : String → Reply ℕ → Reply ℕ
parsed_key label (ok key) = ok key
parsed_key label (error e) = error (sprintf (label ∷ e ∷ []))

-- `dealerKey`, of the value of `DEALER_PRIVATE_KEY`.
unfoldable pub dealer_key : (String → Reply ℕ) → String → ℕ → Reply ℕ
unfolding trim_upper_0x
dealer_key hex_to_ecdsa value fallback =
    let raw = trim_upper_0x (trim_0x value) in
    if raw == "" then ok fallback else parsed_key "invalid DEALER_PRIVATE_KEY: " (hex_to_ecdsa raw)

-- `strings.Contains`.
unfoldable pub contains : String → String → Bool
contains String.[] t = starts_with "" t
contains (String.◌∷◌ c s) t = starts_with (String.◌∷◌ c s) t || contains s t

-- `bind.TransactOpts`: the key and the value; 0 for nil.
pub record TransactOpts : Type 0 where
  pub key : ℕ
  pub value : ℕ

-- What the helpers call: the transactor of a key, the client, and the clock.
pub record Chain (S : Type 0) : Type 0 where
  pub client : TxClient S
  pub keyed_transactor : ℕ → Reply NoError
  pub sleep : ℕ → S → S  -- `time.Sleep` of so many seconds

-- `*testtoken.TestToken`, as run-test uses it.
pub record Token (S : Type 0) : Type 0 where
  pub balance_of : ℕ → S → Reply ℕ
  pub mint : TransactOpts → ℕ → ℕ → Io S ℕ
  pub approve : TransactOpts → ℕ → ℕ → S → Sent × S

-- `http.Get` for an action's result, in each round of `ActionResult`, and the JSON decoder.
pub record ResultProxy (S : Type 0) : Type 0 where
  pub hex : ℕ → String
  pub get_action_result : ℕ → S → ℕ → Reply Answer
  pub decode_action_response : String → Reply ActionResponse

-- What an attempt to send is told: whether it is the first, and the error of the one before, empty
-- for nil.
pub record Attempt : Type 0 where
  pub is_first : Bool
  pub last_err : String

abbrev pub first_attempt : Attempt
first_attempt = record { is_first = true; last_err = "" }

module _ {S : Type 0} (c : Chain S) where
  abbrev pub pause : ℕ → Io S NoError
  pause seconds s = (ok nil, c.sleep seconds s)

  abbrev pub unfunded : String → ℕ → ℕ → Reply ℕ × S → Reply ℕ × S
  unfunded name balance needed (ok tx, s) = (ok tx, s)
  unfunded name balance needed (error e, s) = (
    error (
        sprintf (
          name
          ∷ " token balance "
          ∷ decimal balance
          ∷ " is below the required "
          ∷ decimal needed
          ∷ " and mint() failed ("
          ∷ e
          ∷ ") — fund the account from a faucet"
          ∷ [])),
    s,
  )

  abbrev pub mint_needed : Token S → String → ℕ → ℕ → ℕ → ℕ → Io S NoError
  mint_needed token name holder holder_prv needed balance = do
    view (λ _. c.keyed_transactor holder_prv)
    tx ← λ s.
        unfunded name balance needed
          (token.mint (record { key = holder_prv; value = 0 }) holder needed s)
    check_tx c.client tx
    return nil

  abbrev pub top_up : Token S → String → ℕ → ℕ → ℕ → ℕ → Io S NoError
  top_up token name holder holder_prv needed balance =
      if leb needed balance
      then return nil
      else mint_needed token name holder holder_prv needed balance

  -- `ensureFunds`.
  unfoldable pub ensure_funds : Token S → String → ℕ → ℕ → ℕ → Io S NoError
  ensure_funds token name holder holder_prv needed = do
    balance ←
        labelled (sprintf ("balanceOf(" ∷ name ∷ " token) failed: " ∷ []))
          (view (token.balance_of holder))
    top_up token name holder holder_prv needed balance

  abbrev pub again : String → Io S (Attempt ⊎ Receipt)
  again e = return (inl (record { is_first = false; last_err = e }))

  abbrev pub refused_text : String → RpcError → String
  refused_text label e =
      let reason = decode_revert_reason c.client.unpack_revert (some e) in
      if reason == ""
      then sprintf (label ∷ " failed: " ∷ e.message ∷ [])
      else sprintf (label ∷ " reverted: " ∷ reason ∷ [])

  abbrev pub judge_mined : String → Reply Receipt → Io S (Attempt ⊎ Receipt)
  judge_mined label (ok receipt) = return (inr receipt)
  judge_mined label (error e) = again (sprintf (label ∷ ": " ∷ e ∷ []))

  abbrev pub judge_sent : String → Sent → Io S (Attempt ⊎ Receipt)
  judge_sent label (refused e) = again (refused_text label e)
  judge_sent label (sent tx) = attempt (check_tx c.client tx) >>= judge_mined label

  -- A round of the loop of `sendTxRetry`; `call` is handed the options.
  unfoldable pub send_round :
      String → (TransactOpts → S → Sent × S) → ℕ → ℕ → Attempt → Io S (Attempt ⊎ Receipt)
  send_round label call key value a = do
    if a.is_first then return nil else pause 5
    view (λ _. c.keyed_transactor key)
    outcome ← λ s. let out = call (record { key = key; value = value }) s in (ok (out.0), out.1)
    judge_sent label outcome

  -- `sendTxRetry`.
  unfoldable pub send_tx_retry : String → (TransactOpts → S → Sent × S) → ℕ → ℕ → ℕ → Io S Receipt
  send_tx_retry label call key value attempts =
      loop attempts (send_round label call key value) (λ a. throw a.last_err) first_attempt

  -- `sendTx`.
  unfoldable pub send_tx : String → (TransactOpts → S → Sent × S) → ℕ → ℕ → Io S Receipt
  unfolding send_tx_retry
  send_tx label call key value = send_tx_retry label call key value 1

  module _ (p : ResultProxy S) where
    abbrev pub judge_response :
        Option ActionResponse → Reply ActionResponse → Io S (Option ActionResponse ⊎ ActionResponse)
    judge_response last (ok resp) =
        if eqb resp.status 2 then pause 3 >> return (inl (some resp)) else return (inr resp)
    judge_response last (error e) = pause 3 >> return (inl last)

    -- A round of the loop of `pollResult`; `last` is the last response that was pending.
    unfoldable pub poll_round :
        ℕ → Option ActionResponse → Io S (Option ActionResponse ⊎ ActionResponse)
    poll_round id last = do
      resp ← attempt (view (λ s. action_result (p.get_action_result id s) p.decode_action_response))
      judge_response last resp

    abbrev pub no_result : ℕ → Option ActionResponse → Io S ActionResponse
    no_result id (some _) =
        throw (sprintf ("result for " ∷ p.hex id ∷ " still pending after polling" ∷ []))
    no_result id none = throw (sprintf ("no result for " ∷ p.hex id ∷ " from proxy" ∷ []))

    -- `pollResult`.
    unfoldable pub poll_result : ℕ → Io S ActionResponse
    unfolding poll_round
    poll_result id = loop 20 (poll_round id) (no_result id) none
