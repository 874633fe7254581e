-- ===== src/RunTest/Cached.antt =====
-- Step 0 of run-test, where the extension id is on the contract already.
use quietfill.Prelude.{
  ℕ, ◌≡◌, ◌∙◌, ap, refl, String, Bool, true, false, ◌||◌, none, some, List, [], ◌∷◌, sprintf,
  Bool-cases, inl, inr,
}
use Prim.Native.String
use text.Mathlib.Text.{starts_with}
use text.Mathlib.TextLemmas.{cons-append, nil-append}
use text.Mathlib.TextPositions.{starts_with-append}
use quietfill.Hex.{decode_hex, trim_0x}
use quietfill.World.{ok, fail as error}
use quietfill.Revert.{
  UnpackRevert, RpcError, text as text_payload, decode_revert_reason, decode_revert_hex,
}
use quietfill.Io.{NoError, nil, view, labelled, attempt, ◌>>=◌, ◌>>◌, return}
use quietfill.Instructions.{AuctionCode, refused, refusal, set_extension_id}
use quietfill.RunTest.{contains}
use quietfill.RunTest.Stack.{AuctionBinding, Stack}
use quietfill.RunTest.Steps.{Terms, already_set, cached, cache_extension_id}

contains-starts_with : (s t : String) → starts_with s t ≡ true → contains s t ≡ true
unfolding contains
contains-starts_with String.[] t h = h
contains-starts_with (String.◌∷◌ c s) t h = rw h refl

or_true : (b : Bool) → (b || true) ≡ true
or_true true = refl
or_true false = refl

third_true : (a b : Bool) {c : Bool} → c ≡ true → (a || b || c) ≡ true
third_true true b h = refl
third_true false true h = refl
third_true false false h = h

-- What a part of a text contains, the text contains.
contains-append : (a s t : String) → contains s t ≡ true → contains (String.◌++◌ a s) t ≡ true
unfolding contains
contains-append String.[] s t h = ap (λ (u : String). contains u t) (nil-append s) ∙ h
contains-append (String.◌∷◌ c a) s t h =
    ap (λ (u : String). contains u t) (cons-append c a s)
    ∙ rw (contains-append a s t h) (or_true (starts_with (String.◌∷◌ c (String.◌++◌ a s)) t))

-- The selector of `ExtensionIdAlreadySet`.
abbrev pub selector_text : String
selector_text = "0x88f9fe3d"

abbrev pub selector_bytes : List ℕ
selector_bytes = 0x88 ∷ 0xf9 ∷ 0xfe ∷ 0x3d ∷ []

selector_reason :
    (unpack_revert : UnpackRevert) (e : RpcError)
    → e.payload ≡ text_payload selector_text
    → unpack_revert selector_bytes ≡ none
    → decode_revert_reason unpack_revert (some e) ≡ selector_text
unfolding decode_revert_reason decode_revert_hex decode_hex trim_0x sprintf
selector_reason unpack_revert e payload bare = rw (payload, bare) refl

module _ {S : Type 0} (code : AuctionCode S) (address : ℕ) (e : RpcError) (s : S) where
  refusal-contains :
      e.payload ≡ text_payload selector_text
      → code.client.unpack_revert selector_bytes ≡ none
      → contains (refusal code address e s) selector_text ≡ true
  unfolding refusal sprintf
  refusal-contains payload bare =
      let rest : String = String.◌++◌ ")" "" in
      let found : String = String.◌++◌ selector_text rest in
      let reason = selector_reason code.client.unpack_revert e payload bare in
      rw reason (
        contains-append "failed to call setExtensionId: " _ selector_text (
          contains-append e.message _ selector_text (
            contains-append " (revert reason: " found selector_text
              (contains-starts_with found selector_text (starts_with-append selector_text rest)))))

  refused_set :
      {n m : NoError} {s₁ : S}
      → code.new_quiet_fill_auction address ≡ ok n
      → code.keyed_transactor ≡ ok m
      → code.set_extension_id address s ≡ (refused e, s₁)
      → set_extension_id code address s ≡ (error (refusal code address e s₁), s₁)
  unfolding set_extension_id labelled view ◌>>=◌ ◌>>◌
  refused_set bound keyed refused_call = rw (bound, keyed, refused_call) refl

  already_set-refusal :
      e.payload ≡ text_payload selector_text
      → code.client.unpack_revert selector_bytes ≡ none
      → already_set (refusal code address e s) ≡ true
  unfolding already_set
  already_set-refusal payload bare =
      let text = refusal code address e s in
      third_true (contains text "already set") (contains text "ExtensionIdAlreadySet")
        (refusal-contains payload bare)

module _ {S : Type 0} (k : Stack S) (b : AuctionBinding S) (t : Terms) where
  -- Where the contract refuses to set the id with the bare selector of ExtensionIdAlreadySet as its
  -- revert data, which is no text reason, step 0 goes on, whether the reading of the cached id
  -- succeeds or fails.
  pub cache_extension_id-selector :
      (e : RpcError) (s s₁ : S) {n m : NoError}
      → k.auction_code.new_quiet_fill_auction t.sender_addr ≡ ok n
      → k.auction_code.keyed_transactor ≡ ok m
      → k.auction_code.set_extension_id t.sender_addr s ≡ (refused e, s₁)
      → e.payload ≡ text_payload selector_text
      → k.auction_code.client.unpack_revert selector_bytes ≡ none
      → (cache_extension_id k b t s).0 ≡ ok nil
  unfolding cache_extension_id attempt ◌>>=◌ return
  cache_extension_id-selector e s s₁ bound keyed refused_call payload bare =
      let set = refused_set k.auction_code t.sender_addr e s bound keyed refused_call in
      let known = already_set-refusal k.auction_code t.sender_addr e s₁ payload bare in
      elim (Bool-cases (cached k b t (b.extension_id s))) [
        | inl h ↦ rw h refl
        | inr h ↦ rw (h, set, known) refl
      ]
