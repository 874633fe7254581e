-- ===== src/Node/Named.antt =====
-- What a refused `Register` makes `PreRegistration` report.
use quietfill.Prelude.{
  ℕ, ◌≤◌, ◌≡◌, ◌∙◌, ap, refl, String, false, true, none, List, [], ◌∷◌, length, sprintf, All, ◌==◌,
}
use quietfill.Hex.{IsByte}
use quietfill.World.{ok, fail as error}
use quietfill.Io.{NoError, view, return, ◌>>=◌, ◌>>◌}
use quietfill.Revert.{RpcError, returned, CustomError, same_bytes, first_four, with_arguments}
use quietfill.Revert.Match.{Listed, match_custom_error-simulate}
use quietfill.Instructions.{refused}
use quietfill.Node.Reverted.{register_reason, register_reason-replayed}
use quietfill.Node.Calls.{Outside, pre_registration}

module _ {S : Type 0} (o : Outside S) where
  pre_registration-refused :
      (e : RpcError) (s s₁ : S) {n m : NoError}
      → o.keyed_transactor ≡ ok n
      → o.signature_length ≡ 65
      → o.transform_signature ≡ ok m
      → o.register s ≡ (refused e, s₁)
      → pre_registration o s ≡ (
        error (sprintf ("register() reverted: " ∷ register_reason o.register_call e s₁ ∷ [])),
        s₁,
      )
  unfolding pre_registration view return ◌>>=◌ ◌>>◌
  pre_registration-refused e s s₁ keyed long transformed refuses =
      rw (keyed, long, transformed, refuses) refl

  pub pre_registration-named :
      (e : RpcError) (s s₁ : S) (errors : List CustomError) (bs : List ℕ) (custom : CustomError)
      {n m k : NoError}
      → o.keyed_transactor ≡ ok n
      → o.signature_length ≡ 65
      → o.transform_signature ≡ ok m
      → o.register s ≡ (refused e, s₁)
      → o.register_call.abi_errors ≡ ok errors
      → o.register_call.pack ≡ ok k
      → o.register_call.call_contract s₁ ≡ returned bs
      → All IsByte bs
      → 4 ≤ length bs
      → o.register_call.unpack_revert bs ≡ none
      → Listed custom errors
      → same_bytes custom.selector (first_four bs) ≡ true
      → ((other : CustomError)
          → Listed other errors
          → same_bytes other.selector (first_four bs) ≡ true
          → other ≡ custom)
      → (with_arguments custom.name (custom.unpack bs) == "") ≡ false
      → pre_registration o s ≡ (
        error (
            sprintf ("register() reverted: " ∷ with_arguments custom.name (custom.unpack bs) ∷ [])),
        s₁,
      )
  pre_registration-named e s s₁ errors bs custom keyed long transformed refuses loaded packed replay
        small enough undecoded listed same only nonempty =
      let unpack = o.register_call.unpack_revert in
      pre_registration-refused e s s₁ keyed long transformed refuses
      ∙ ap (λ (reason : String). (error (sprintf ("register() reverted: " ∷ reason ∷ [])), s₁))
          (register_reason-replayed o.register_call e s₁ errors
            (with_arguments custom.name (custom.unpack bs)) loaded packed
            (rw replay (
              match_custom_error-simulate unpack errors bs custom small enough undecoded listed same
                only))
            nonempty)
