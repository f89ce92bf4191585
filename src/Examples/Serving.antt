-- ===== src/Examples/Serving.antt =====
-- A server with two connections.
use clayers.Prelude.{
  arith, ◌≡◌, ◌≢◌, ◌⊎◌, refl, String, some, Option, [], ◌∷◌, ◌++◌, nat_eq, string_eq, true, not,
  ◌&&◌, ◌==◌, if◌then◌else◌,
}
use clayers.Prelude.Dict.{lookup, insert}
use clayers.Error.{ContentHash, Error, storage}
use clayers.Store.Memory
use clayers.Store.Memory.{MemoryStore, MemoryTransaction, get_ref, set_ref}
use clayers.Remote.Protocol.{ClientMessage, ref_updated, request_id}
use clayers.Remote.Server.{
  ConnectionId, Server, TxState, broadcast_ref_updated, notify, new, register_connection, subscribe,
  note_repo, add_subscriber,
}
use clayers.Remote.Server.Consistent.{
  IsConsistent, new-IsConsistent, register-IsConsistent, subscribe-IsConsistent,
}
use clayers.Remote.Server.Handlers.{
  Texts, handle, old_value, handle_begin_tx, handle_set_ref, resolve_store,
}
use clayers.Remote.Server.Invariant.{handle-IsConsistent}
use clayers.Remote.Server.Isolation.{handle-foreign_transaction}
use clayers.Remote.Server.Notified.{handle-told}
use clayers.Remote.Server.Sent.{request_repo, sent_to, subscribed, set_ref-told}
use clayers.Remote.Server.Replies.{answers, is_subtree_request, handle-answers}
use clayers.Remote.Server.Local.{served, served-Returns}
use clayers.Examples.Data.{clone}

abbrev pub shown : Error → String
shown (storage message) = message
shown e = "error"

abbrev pub texts : Texts
texts = record { describe = shown; number = λ n. "one" }

abbrev pub Local : Type 0
Local = Server MemoryStore MemoryTransaction

abbrev pub started : Local
started = new (("docs", clone) ∷ [])

-- Connections 1 and 2, of which 2 subscribed.
abbrev pub two : Local
two = (register_connection (register_connection started).1).1

abbrev pub heard : Local
heard = subscribe 2 "docs" two

two-IsConsistent : IsConsistent two
unfolding register_connection lookup
two-IsConsistent =
    register-IsConsistent (register_connection started).1
      (register-IsConsistent started (new-IsConsistent (("docs", clone) ∷ [])) (ground arith))
      (ground arith)

heard-IsConsistent : IsConsistent heard
heard-IsConsistent = subscribe-IsConsistent 2 "docs" two two-IsConsistent

-- And a transaction of connection 2.
abbrev pub writing : Local
writing = (handle served texts 2 (ClientMessage.begin_transaction 5 "docs") two).1

abbrev pub listener : ConnectionId
listener = 2

abbrev pub writer : ConnectionId
writer = 1

abbrev request : ClientMessage
request = ClientMessage.set_ref 9 "docs" "refs/heads/main" 5

handle-IsConsistent_example : IsConsistent (handle served texts 1 request heard).1
unfolding register_connection subscribe note_repo add_subscriber lookup insert
handle-IsConsistent_example =
    handle-IsConsistent 1 served texts request heard heard-IsConsistent refl (ground arith)

abbrev pub open_transaction : TxState MemoryTransaction
open_transaction = record { tx = Memory.begin; connection_id = 2; repo = "docs" }

handle-foreign_transaction_example :
    lookup 1 (handle served texts 1 (ClientMessage.tx_rollback 9 1) writing).1.transactions
    ≡ some open_transaction
unfolding register_connection subscribe note_repo add_subscriber lookup insert handle
    handle_begin_tx resolve_store
handle-foreign_transaction_example =
    handle-foreign_transaction served texts 1 (ClientMessage.tx_rollback 9 1) writing 1
      open_transaction refl (λ e. ground (arith, e)) (ground arith)

handle-told_example :
    (sent_to 2 (handle served texts 1 request heard).1 ≡ sent_to 2 heard)
    ⊎ ((repo : String) × (name : String) × (old : Option ContentHash) × (new_value : Option
          ContentHash)
        × (request_repo request ≡ some repo)
        × (listener ≢ writer)
        × (subscribed 2 repo heard ≡ true)
        × (sent_to 2 (handle served texts 1 request heard).1
            ≡ sent_to 2 heard ++ ref_updated repo name old new_value ∷ []))
handle-told_example = handle-told served texts 1 2 request heard heard-IsConsistent

set_ref-told_example : sent_to 2 (handle served texts 1 request heard).1 ≡ (
    if not (listener == writer) && subscribed 2 "docs" heard
    then sent_to 2 heard
      ++ ref_updated "docs" "refs/heads/main"
          (old_value served texts (get_ref clone "refs/heads/main"))
          (some 5)
        ∷ []
    else sent_to 2 heard)
unfolding register_connection subscribe note_repo add_subscriber lookup insert set_ref
set_ref-told_example =
    set_ref-told served texts 1 2 9 "docs" "refs/heads/main" 5 heard clone heard-IsConsistent refl
      refl

handle-answers_example :
    answers
      (is_subtree_request request)
      (request_id request)
      (handle served texts 1 request heard).0
    ≡ true
handle-answers_example = handle-answers served texts 1 request heard served-Returns

-- The listener hears of the update, and the writer does not.
update_told :
    (sent_to listener (handle served texts writer request heard).1
      ≡ ref_updated "docs" "refs/heads/main" (some 6) (some 5) ∷ [])
    × (sent_to writer (handle served texts writer request heard).1 ≡ [])
unfolding register_connection subscribe note_repo add_subscriber lookup insert set_ref get_ref
    handle handle_set_ref resolve_store broadcast_ref_updated notify
update_told = (refl, refl)
