-- ===== src/SetGovernance/Settled.antt =====
-- What a successful set-governance leaves on the chain.
use quietfill.Prelude.{
  ℕ, ◌<◌, ◌≤◌, ◌≡◌, ap, subst, String, List, [], ◌∷◌, length, trim_space, ◌∙◌, arith,
}
use quietfill.World.{Reply, ok, fail as error}
use quietfill.Io.{NoError, nil}
use quietfill.Io.Success.{view_success, ok_injective}
use quietfill.Support.{Support}
use quietfill.Node.Governed.{HasHash, Sets, set_tee_governance-HasHash}
use quietfill.TeeCalls.{SignedTeeInfo, tee_info}
use quietfill.SetGovernance.{
  or_fallback, parse_signers, positive_or_one, parse_threshold, GovernanceTools, owner_key,
  signers_for, threshold_for, main,
}

or_fallback-some : (signers : List ℕ) (fallback : ℕ) → 0 < length (or_fallback signers fallback)
or_fallback-some [] fallback = omega arith
or_fallback-some (signer ∷ signers) fallback = omega arith

positive_or_one-positive : (r : Reply ℕ) → 0 < positive_or_one r
positive_or_one-positive (ok v) = ground arith
positive_or_one-positive (error _) = omega arith

-- Whatever the two variables hold, there is a signer, and the threshold is at least 1.
parse_bounds :
    (hex_to_address : String → ℕ) (parse_uint : String → Reply ℕ) (signers threshold : String)
    (fallback : ℕ)
    → (0 < length (parse_signers hex_to_address signers fallback))
      × (0 < parse_threshold parse_uint threshold)
unfolding parse_signers parse_threshold
parse_bounds hex_to_address parse_uint signers threshold fallback =
    (or_fallback-some _ fallback, positive_or_one-positive (parse_uint (trim_space threshold)))

module _ {S : Type 0} (g : GovernanceTools S) where
  pub main-HasHash :
      (support : Support) (s s' : S)
      → ((priv_key extension_id : ℕ)
          → Sets (g.chain priv_key) extension_id (signers_for g priv_key) (threshold_for g))
      → main g (ok support) s ≡ (ok nil, s')
      → (priv_key : ℕ) × (info : SignedTeeInfo) × (owner_key g support ≡ ok priv_key)
        × (tee_info g.libraries g.proxy_url s ≡ ok info)
        × (0 < threshold_for g)
        × (threshold_for g ≤ length (signers_for g priv_key))
        × HasHash (g.chain priv_key) info.extension_id (signers_for g priv_key) (threshold_for g) s'
  unfolding main
  main-HasHash support s s' sets h = view_success _ _ h λ found same h₁.
      view_success _ _ h₁ λ priv_key key h₂. view_success _ _ h₂ λ info reported h₃.
        let (positive, bounded, has) =
          set_tee_governance-HasHash (g.chain priv_key) info.extension_id (signers_for g priv_key)
            (threshold_for g) s (sets priv_key info.extension_id)
            (ap (λ (t : Reply NoError × S). t.0) h₃) in
        (
          priv_key,
          info,
          ap (owner_key g) (ok_injective same) ∙ key,
          reported,
          positive,
          bounded,
          subst
              (HasHash (g.chain priv_key) info.extension_id (signers_for g priv_key)
                (threshold_for g))
              (ap (λ (t : Reply NoError × S). t.1) h₃) has,
        )
