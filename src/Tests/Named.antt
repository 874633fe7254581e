-- ===== src/Tests/Named.antt =====
-- A revert whose selector one error of the extension manager has.
use quietfill.Prelude.{
  sprintf, ℕ, ◌≡◌, ◌∙◌, ap, refl, String, none, some, List, [], ◌∷◌, inl, inr, arith,
}
use quietfill.World.{ok, fail as error}
use quietfill.Io.{nil}
use quietfill.Revert.{RpcError, bytes, failed, extract_revert_data}
use quietfill.Revert.Sources.{AbiError, AbiSource, Diagnosis, diag_availability_check_revert}
use quietfill.TeeVersion.{zeros, string_to_bytes32}
use quietfill.AuditDeploy.{Replay, replay_add_tee_version}
use quietfill.AuditDeploy.Named.{
  Declares, Has, diag_availability_check_revert-replay_add_tee_version,
}

abbrev revert : List ℕ
revert = 1 ∷ 2 ∷ 3 ∷ 4 ∷ []

abbrev refused_call : RpcError
refused_call = record { message = "execution reverted"; payload = bytes revert }

abbrev exists : AbiError
exists = record {
  name = "VersionAlreadyExists";
  selector = revert;
  unpack_inputs = λ data_bytes. ok "[]";
}

abbrev manager : AbiSource
manager = record { name = "ExtensionManager"; errors = ok (exists ∷ []) }

abbrev diagnosis : Diagnosis
diagnosis = record {
  load_abi = ok nil;
  pack = ok nil;
  call = failed refused_call;
  from_hex = λ t. [];
  unpack_revert = λ b. none;
  quote = λ t. t;
  sources = record { name = "Verification"; errors = error "no ABI" } ∷ manager ∷ [];
}

abbrev replay : Replay
replay = record {
  load_abi = ok nil;
  quote_bytes = λ b. "v1";
  pack = λ b. ok nil;
  call = failed refused_call;
  from_hex = λ t. [];
  unpack_revert = λ b. none;
  quote = λ t. t;
  sources = manager ∷ record { name = "MachineManager"; errors = ok [] } ∷ [];
}

abbrev named : String × AbiError
named = ("ExtensionManager", exists)

same_name : (q : String × AbiError) → q.0 ≡ "ExtensionManager" → q.1 ≡ exists → q ≡ named
same_name (name, e) a b =
    ap (λ (t : String). (t, e)) a ∙ ap (λ (x : AbiError). ("ExtensionManager", x)) b

diagnosis_only : (q : String × AbiError) → Declares q diagnosis.sources → Has revert q.1 → q ≡ named
diagnosis_only q (inl (name, none_loaded)) has = absurd none_loaded
diagnosis_only q (inr (inl (name, inl e))) has = same_name q name e
diagnosis_only q (inr (inl (name, inr later))) has = absurd later
diagnosis_only q (inr (inr later)) has = absurd later

replay_only : (q : String × AbiError) → Declares q replay.sources → Has revert q.1 → q ≡ named
replay_only q (inl (name, inl e)) has = same_name q name e
replay_only q (inl (name, inr later)) has = absurd later
replay_only q (inr (inl (name, no_error))) has = absurd no_error
replay_only q (inr (inr later)) has = absurd later

abbrev packed : List ℕ
packed = zeros 32

fits : string_to_bytes32 replay.quote_bytes [] ≡ ok packed
unfolding string_to_bytes32
fits = refl

carried : extract_revert_data (λ t. []) (some refused_call) ≡ revert
unfolding extract_revert_data
carried = refl

diag_availability_check_revert-replay_add_tee_version_example :
    (diag_availability_check_revert diagnosis
      ≡ "diag: revert -> ExtensionManager.VersionAlreadyExists([])")
    × (replay_add_tee_version replay [] ≡ "  revert -> ExtensionManager.VersionAlreadyExists[]")
unfolding sprintf
diag_availability_check_revert-replay_add_tee_version_example =
    diag_availability_check_revert-replay_add_tee_version diagnosis replay refused_call revert []
      packed named (refl, refl, refl) (refl, refl, refl) fits carried carried (omega arith) refl
      (inr (inl (refl, inl refl)), refl, diagnosis_only) (inl (refl, inl refl), refl, replay_only)
