-- ===== src/EnvFile/Agree.antt =====
-- The two readers of extension.env, the map of `CheckExtensionEnvFormat` and the switch of
-- `parseExtensionEnv`, read the same values.
use quietfill.Prelude.{
  ℕ, String, ◌≡◌, refl, Bool, true, false, not, ◌&&◌, Option, none, some, List, [], ◌∷◌, ◌==◌,
  arith, eq_iff, if◌then◌else◌, Option-cases, inl, inr,
}
use quietfill.World.{World, Eth}
use quietfill.Report.{any_failure, is_fail}
use quietfill.EnvFile.{ExtensionEnv, no_env, assign, assign_all, parse_pairs, parse_extension_env}
use quietfill.EnvFile.Format.{
  lookup, insert, insert_all, check_entry, check_extension_env_format, address_matches,
  extension_id_matches, is_hex_of, is_hex_of-empty,
}

-- A Go map's value, the empty text for a missing key.
abbrev pub value : Option String → String
value none = ""
value (some v) = v

lookup-insert :
    (k j v : String) (m : List (String × String))
    → lookup j (insert k v m) ≡ (if k == j then some v else lookup j m)
unfolding lookup insert
lookup-insert k j v [] = refl
lookup-insert k j v ((i, u) ∷ m) =
    ground (arith, eq_iff k j, eq_iff i k, eq_iff i j, lookup-insert k j v m)

record SameValues (e : ExtensionEnv) (m : List (String × String)) : Type 0 where
  id : e.extension_id ≡ value (lookup "EXTENSION_ID" m)
  sender : e.instruction_sender ≡ value (lookup "INSTRUCTION_SENDER" m)

assign-SameValues :
    (e : ExtensionEnv) (m : List (String × String)) (k v : String)
    → SameValues e m
    → SameValues (assign (k, v) e) (insert k v m)
unfolding assign
assign-SameValues e m k v h = record {
  id = rw lookup-insert (
      ground (
        arith,
        h.id,
        eq_iff k "EXTENSION_ID",
        eq_iff k "INSTRUCTION_SENDER",
        eq_iff "EXTENSION_ID" "INSTRUCTION_SENDER",
      ));
  sender = rw lookup-insert (
      ground (
        arith,
        h.sender,
        eq_iff k "EXTENSION_ID",
        eq_iff k "INSTRUCTION_SENDER",
        eq_iff "EXTENSION_ID" "INSTRUCTION_SENDER",
      ));
}

assign_all-SameValues :
    (e : ExtensionEnv) (m ps : List (String × String))
    → SameValues e m
    → SameValues (assign_all e ps) (insert_all m ps)
unfolding assign_all insert_all
assign_all-SameValues e m [] h = h
assign_all-SameValues e m ((k, v) ∷ ps) h =
    assign_all-SameValues (assign (k, v) e) (insert k v m) ps (assign-SameValues e m k v h)

-- For every text, the value that the map of `CheckExtensionEnvFormat` has for EXTENSION_ID, and for
-- INSTRUCTION_SENDER, is the one that `parseExtensionEnv` returns; a missing key reads as empty.
pub readers_agree :
    (content : String)
    → ((assign_all no_env (parse_pairs content)).extension_id
        ≡ value (lookup "EXTENSION_ID" (insert_all [] (parse_pairs content))))
      × ((assign_all no_env (parse_pairs content)).instruction_sender
          ≡ value (lookup "INSTRUCTION_SENDER" (insert_all [] (parse_pairs content))))
readers_agree content =
    let same : SameValues (assign_all no_env (parse_pairs content))
        (insert_all [] (parse_pairs content)) =
      assign_all-SameValues no_env [] (parse_pairs content)
        (record { id = unfold lookup in refl; sender = unfold lookup in refl }) in
    (same.id, same.sender)

entry_fails :
    (lib : Eth) (key : String) (n : ℕ) (o : Option String)
    → is_fail (check_entry lib key (is_hex_of n) o).status ≡ not (is_hex_of n (value o))
unfolding check_entry
entry_fails lib key n o = ground (arith, is_hex_of-empty n)

file_failure :
    (lib : Eth) (content : String)
    → any_failure (
        check_entry lib "INSTRUCTION_SENDER" address_matches
          (lookup "INSTRUCTION_SENDER" (insert_all [] (parse_pairs content)))
        ∷ check_entry lib "EXTENSION_ID" extension_id_matches
            (lookup "EXTENSION_ID" (insert_all [] (parse_pairs content)))
        ∷ [])
      ≡ not (
          address_matches (assign_all no_env (parse_pairs content)).instruction_sender
          && extension_id_matches (assign_all no_env (parse_pairs content)).extension_id)
unfolding any_failure
file_failure lib content =
    let pairs = parse_pairs content in
    let (ids, senders) = readers_agree content in
    rw (ids, senders)
      (ground (
        arith,
        entry_fails lib "INSTRUCTION_SENDER" 40 (lookup "INSTRUCTION_SENDER" (insert_all [] pairs)),
        entry_fails lib "EXTENSION_ID" 64 (lookup "EXTENSION_ID" (insert_all [] pairs)),
      ))

abbrev pub opens : Option String → Bool
opens none = false
opens (some content) = true

-- D7 has a failure exactly when the file opens and one of the two values that `parseExtensionEnv`
-- reads from it has not its format.
pub env_format_failure :
    (w : World) (lib : Eth) (path : String)
    → any_failure (check_extension_env_format w lib path) ≡ (
        opens (w.open_file path)
        && not (
            address_matches (parse_extension_env w path).instruction_sender
            && extension_id_matches (parse_extension_env w path).extension_id))
env_format_failure w lib path = elim (Option-cases (w.open_file path)) [
  | inl e ↦ unfold check_extension_env_format parse_extension_env any_failure in rw e
  | inr (content, e) ↦
      unfold check_extension_env_format parse_extension_env in rw e (file_failure lib content)
]
