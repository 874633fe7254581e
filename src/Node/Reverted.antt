-- ===== src/Node/Reverted.antt =====
-- Why `Register` is refused: the search for a reason in `PreRegistration` of
-- tools/pkg/fccutils/registration.go.
use quietfill.Prelude.{◌≡◌, refl, String, false, some, List, ◌==◌, if◌then◌else◌}
use quietfill.World.{Reply, ok, fail as error}
use quietfill.Io.{NoError}
use quietfill.Revert.{
  UnpackRevert, RpcError, CallOutcome, CustomError, decode_revert_reason,
  simulate_and_decode_revert, match_custom_error,
}

-- The ABI of the machines' registry, the packing of the call, and the node that replays it.
pub record RegisterCall (S : Type 0) : Type 0 where
  pub unpack_revert : UnpackRevert
  pub abi_errors : Reply (List CustomError)
  pub pack : Reply NoError
  pub call_contract : S → CallOutcome

module _ {S : Type 0} (c : RegisterCall S) where
  -- `named`, or the reason from before, or `raw`.
  abbrev pub named_or : String → String → String → String
  named_or named reason raw = if named == "" then if reason == "" then raw else reason else named

  abbrev pub replayed : S → String → List CustomError → Reply NoError → String
  replayed s reason errors (error _) = reason
  replayed s reason errors (ok _) =
      let raw = simulate_and_decode_revert c.unpack_revert (c.call_contract s) in
      named_or (match_custom_error errors raw) reason raw

  abbrev pub with_abi : S → String → Reply (List CustomError) → String
  with_abi s reason (error _) = reason
  with_abi s reason (ok errors) = replayed s reason errors c.pack

  -- The reason that `PreRegistration` reports for an error of `Register`.
  unfoldable pub register_reason : RpcError → S → String
  register_reason e s =
      let reason = with_abi s (decode_revert_reason c.unpack_revert (some e)) c.abi_errors in
      if reason == "" then e.message else reason

  pub register_reason-replayed :
      (e : RpcError) (s : S) (errors : List CustomError) (named : String) {n : NoError}
      → c.abi_errors ≡ ok errors
      → c.pack ≡ ok n
      → match_custom_error errors (simulate_and_decode_revert c.unpack_revert (c.call_contract s))
        ≡ named
      → (named == "") ≡ false
      → register_reason e s ≡ named
  unfolding register_reason
  register_reason-replayed e s errors named loaded packed matched some_name =
      rw (loaded, packed, matched, some_name, some_name) refl
