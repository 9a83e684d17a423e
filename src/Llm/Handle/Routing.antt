-- ===== src/Llm/Handle/Routing.antt =====
-- Which backend a call of the handle reaches.
use hwhkit_go.Prelude.{
  String, ◌≡◌, refl, sym, ◌∙◌, ◌≢◌, Bool, false, Option, none, some, List, [], ◌∷◌, arith, eq_iff,
  ◌==◌, nat_eq, string_eq, if◌then◌else◌, Option-cases, is_some,
}
use hwhkit_go.Prelude.Int.{ℤ, Duration}
use hwhkit_go.Prelude.Text.{append}
use hwhkit_go.Prelude.Dict
use hwhkit_go.Prelude.Dict.{Dict, get-put}
use text.Mathlib.TextLemmas.{append-eq-nil_iff}
use hwhkit_go.Llm.Types.{ok, ChatMessage, ChatOptions}
use hwhkit_go.Llm.Models.{Backend, split_model, split_roundtrip, slash}
use hwhkit_go.Prelude.Slices.{index_byte}
use hwhkit_go.Llm.Handle.{
  Handle, backend_map, new_handle, chat, chat_stream, resolve_chat, with_defaults,
}

-- The last backend with the key.
abbrev pub last_with : {F : Type 0} → String → List (Backend F) → Option (Backend F)
last_with p [] = none
last_with p (b ∷ bs) =
    let later = last_with p bs in
    if is_some later then later else if b.key == p then some b else none

get-backend_map :
    {F : Type 0} (p : String) (m : Dict (Backend F)) (bs : List (Backend F))
    → Dict.get p (backend_map m bs)
      ≡ (if is_some (last_with p bs) then last_with p bs else Dict.get p m)
unfolding backend_map
get-backend_map p m [] = refl
get-backend_map p m (b ∷ bs) =
    rw (get-backend_map p (Dict.put b.key b m) bs, get-put b.key p b m)
      (ground (arith, Option-cases (last_with p bs)))

is_empty_no : (s : String) → s ≢ "" → (s == "") ≡ false
is_empty_no s h = ground (arith, eq_iff s "")

append_nil_left : (s t : String) → append s t ≡ "" → s ≡ ""
append_nil_left s t e = (append-eq-nil_iff.0 e).0

resolve_found :
    {F : Type 0} (h : Handle F) (positive : F → Bool) (opts : ChatOptions F) (prefix name : String)
    (b : Backend F)
    → opts.model ≢ ""
    → split_model opts.model ≡ some (prefix, name)
    → Dict.get prefix h.backends ≡ some b
    → resolve_chat h positive opts ≡ ok (b, name, with_defaults h positive opts)
unfolding resolve_chat
resolve_found h positive opts prefix name b n s g =
    rw (is_empty_no opts.model n, is_empty_no opts.model n, s, g, resolve_chat) refl

-- A call for the model "prefix/name", prefix and name not empty and no slash in the prefix, is the call for
-- the name on the last backend that the handle was made of with that prefix as its key, with the
-- handle's defaults where the options have none; the name can have slashes in it.
pub chat_routes :
    {F : Type 0} (positive : F → Bool) (bs : List (Backend F)) (cm em : String) (t : F) (mt : ℤ)
    (d : Duration) (prefix name : String) (b : Backend F) (messages : List ChatMessage)
    (opts : ChatOptions F)
    → index_byte slash prefix ≡ none
    → prefix ≢ ""
    → name ≢ ""
    → opts.model ≡ append prefix (append "/" name)
    → last_with prefix bs ≡ some b
    → (chat (new_handle bs cm em t mt d) positive messages opts
        ≡ b.chat name messages (with_defaults (new_handle bs cm em t mt d) positive opts))
      × (chat_stream (new_handle bs cm em t mt d) positive messages opts
          ≡ b.chat_stream name messages (with_defaults (new_handle bs cm em t mt d) positive opts))
unfolding chat chat_stream Dict.get new_handle
chat_routes positive bs cm em t mt d prefix name b messages opts h p n e l =
    let hd = new_handle bs cm em t mt d in
    let split : split_model opts.model ≡ some (prefix, name) =
      rw e (split_roundtrip prefix name h p n) in
    let full : opts.model ≢ "" =
      λ z. elim (p (append_nil_left prefix (append "/" name) (sym e ∙ z))) [ ] in
    let found : Dict.get prefix hd.backends ≡ some b = rw (get-backend_map prefix [] bs, l) refl in
    let r = resolve_found hd positive opts prefix name b full split found in
    (rw (r, chat) refl, rw (r, chat_stream) refl)
