-- ===== src/Context/Store/Immutable.antt =====
-- What the methods of backend/context/store.py never change.
use ryuk.Prelude.{String, some, List, [], ◌∷◌, ◌≡◌, refl}
use ryuk.Prelude.Result.{Result, ok, err}
use ryuk.Inference.Contracts.{ChatRole}
use ryuk.Context.Contracts.{ContextPrincipal, ContextScope, ContextSourceRef}
use ryuk.Context.Tables.{Source, ContextStore, select_source}
use ryuk.Context.Store.{NewSource, create_conversation, add_source, append_message, attach_source}
use ryuk.Context.Store.Growth.{Extends-select_source, Extends, Extends-refl, Extends-trans}
use ryuk.Context.Store.Growth.Methods.{
  create_conversation-Extends, add_source-Extends, append_message-Extends, attach_source-Extends,
}

-- The methods that write, with what each one is given.
pub data Write : Type 0 where
  creates : ContextPrincipal → String → ContextScope → String → String → Write
  adds : ContextPrincipal → NewSource → String → String → Write
  appends : ContextPrincipal → String → ChatRole → String → String → String → Write
  attaches : ContextPrincipal → String → ContextSourceRef → String → Write

-- A method that raises leaves the tables as they were.
unfoldable pub or_kept : {T : Type 0} → ContextStore → Result (T × ContextStore) → ContextStore
or_kept store (err e) = store
or_kept store (ok (value, after)) = after

unfoldable pub or_same : ContextStore → Result ContextStore → ContextStore
or_same store (err e) = store
or_same store (ok after) = after

unfoldable pub write : (String → String) → ContextStore → Write → ContextStore
unfolding or_kept or_same
write sha256 store (creates actor project_id scope conversation_id at_time) =
    or_kept store (create_conversation actor project_id scope conversation_id at_time store)
write sha256 store (adds actor new source_id at_time) =
    or_kept store (add_source sha256 actor new source_id at_time store)
write sha256 store (appends actor conversation_id role content source_id at_time) =
    or_kept store (append_message sha256 actor conversation_id role content source_id at_time store)
write sha256 store (attaches actor conversation_id ref at_time) =
    or_same store (attach_source actor conversation_id ref at_time store)

unfoldable pub write_all : (String → String) → ContextStore → List Write → ContextStore
write_all sha256 store [] = store
write_all sha256 store (w ∷ ws) = write_all sha256 (write sha256 store w) ws

or_kept-Extends :
    {T : Type 0} (store : ContextStore) (r : Result (T × ContextStore))
    → ((value : T) (after : ContextStore) → r ≡ ok (value, after) → Extends after store)
    → Extends (or_kept store r) store
unfolding or_kept
or_kept-Extends store (err e) f = Extends-refl store
or_kept-Extends store (ok (value, after)) f = f value after refl

or_same-Extends :
    (store : ContextStore) (r : Result ContextStore)
    → ((after : ContextStore) → r ≡ ok after → Extends after store)
    → Extends (or_same store r) store
unfolding or_same
or_same-Extends store (err e) f = Extends-refl store
or_same-Extends store (ok after) f = f after refl

write-Extends :
    (sha256 : String → String) (store : ContextStore) (w : Write)
    → Extends (write sha256 store w) store
unfolding write
write-Extends sha256 store (creates actor project_id scope conversation_id at_time) =
    or_kept-Extends store _
      (create_conversation-Extends actor project_id scope conversation_id at_time store)
write-Extends sha256 store (adds actor new source_id at_time) =
    or_kept-Extends store _ (add_source-Extends sha256 actor new source_id at_time store)
write-Extends sha256 store (appends actor conversation_id role content source_id at_time) =
    or_kept-Extends store _
      (append_message-Extends sha256 actor conversation_id role content source_id at_time store)
write-Extends sha256 store (attaches actor conversation_id ref at_time) =
    or_same-Extends store _ (attach_source-Extends actor conversation_id ref at_time store)

pub write_all-Extends :
    (sha256 : String → String) (store : ContextStore) (ws : List Write)
    → Extends (write_all sha256 store ws) store
unfolding write_all
write_all-Extends sha256 store [] = Extends-refl store
write_all-Extends sha256 store (w ∷ ws) =
    Extends-trans store (write sha256 store w) (write_all sha256 (write sha256 store w) ws)
      (write_all-Extends sha256 (write sha256 store w) ws) (write-Extends sha256 store w)

-- Whatever conversations are created, sources added and attached and messages appended, by whatever
-- actors and in any order, a revision of a source that is stored keeps every column of its row.
pub write_all-select_source :
    (sha256 : String → String) (store : ContextStore) (ws : List Write)
    (tenant source_id revision : String) (s : Source)
    → select_source tenant source_id revision store ≡ some s
    → select_source tenant source_id revision (write_all sha256 store ws) ≡ some s
write_all-select_source sha256 store ws tenant source_id revision s =
    Extends-select_source store _ tenant source_id revision s (write_all-Extends sha256 store ws)
