-- ===== src/Remote/Server/Handlers.antt =====
-- `Server::handle` and the handlers that it calls (crates/clayers-repo/src/store/remote/server.rs).
use clayers.Prelude.{
  ℕ, String, ◌<>◌, Option, none, some, List, [], ◌∷◌, ◌++◌, ◌==◌, nat_eq, string_eq, if◌then◌else◌,
}
use clayers.Prelude.Dict.{Dict, lookup, insert, remove, keys}
use clayers.Error.{ContentHash, Error, storage, Result, ok, err, out_of_fuel}
use clayers.Object.{Object}
use clayers.Store.{ObjectStream}
use clayers.Remote.Protocol.{
  MessageId, TxId, ClientMessage, ServerMessage, repository_list, object_reply, contains_reply,
  object_with_hash, subtree_item, subtree_end, ref_reply, ref_set, ref_deleted, ref_list,
  cas_result, done, transaction_created, failed,
}
use clayers.Remote.Server.{
  Served, ConnectionId, TxState, Server, next_u64, subscribe, broadcast_ref_updated,
}

-- `Display` of errors and of numbers.
pub record Texts : Type 0 where
  pub describe : Error → String
  pub number : ℕ → String

module _ {S T : Type 0} (store : Served S T) (texts : Texts) where
  -- `err`
  abbrev pub failure : MessageId → Error → List ServerMessage
  failure id e = failed id (texts.describe e) ∷ []

  -- The reply to a call; a call that does not end has none.
  abbrev pub reply : MessageId → Result ServerMessage → List ServerMessage
  reply id (ok message) = message ∷ []
  reply id (err e) = failure id e
  reply id out_of_fuel = []

  abbrev pub Handled : Type 0
  Handled = List ServerMessage × Server S T

  abbrev pub repository_not_found : String → Error
  repository_not_found repo = storage ("repository not found: " <> repo)

  -- `resolve_store`, and what is done with the store.
  abbrev resolved :
      ConnectionId
      → MessageId
      → String
      → (S → Server S T → Handled)
      → Server S T
      → Option S
      → Handled
  resolved conn id repo f sv none = (failure id (repository_not_found repo), sv)
  resolved conn id repo f sv (some s) = f s (subscribe conn repo sv)

  unfoldable pub resolve_store :
      ConnectionId → MessageId → String → (S → Server S T → Handled) → Server S T → Handled
  resolve_store conn id repo f sv = resolved conn id repo f sv (lookup repo sv.repos)

  unfoldable pub with_store :
      ConnectionId → MessageId → String → (S → Result ServerMessage) → Server S T → Handled
  with_store conn id repo f = resolve_store conn id repo (λ s sv. (reply id (f s), sv))

  -- `map` on a result.
  abbrev pub mapped : {A : Type 0} → (A → ServerMessage) → Result A → Result ServerMessage
  mapped f (ok a) = ok (f a)
  mapped f (err e) = err e
  mapped f out_of_fuel = out_of_fuel

  abbrev pub items : MessageId → List (ContentHash × Object) → List ServerMessage
  items id [] = []
  items id ((h, o) ∷ rest) = subtree_item id h o ∷ items id rest

  abbrev pub stream_messages : MessageId → ObjectStream → List ServerMessage
  stream_messages id stream =
      items id stream.items ++ reply id (mapped (λ u. subtree_end id) stream.ending)

  unfoldable pub handle_subtree :
      ConnectionId → MessageId → String → ContentHash → Server S T → Handled
  handle_subtree conn id repo root =
      resolve_store conn id repo (λ s sv. (stream_messages id (store.subtree s root), sv))

  -- `.ok().flatten()`
  abbrev pub old_value : Result (Option ContentHash) → Option ContentHash
  old_value (ok h) = h
  old_value (err e) = none
  old_value out_of_fuel = none

  -- A call that writes to the store, and what follows its success.
  abbrev pub wrote :
      {A : Type 0}
      → MessageId
      → String
      → Result A × S
      → (A → Server S T → Handled)
      → Server S T
      → Handled
  wrote id repo (ok a, s) f sv = f a (record sv { repos = insert repo s sv.repos })
  wrote id repo (err e, s) f sv = (failure id e, record sv { repos = insert repo s sv.repos })
  wrote id repo (out_of_fuel, s) f sv = ([], record sv { repos = insert repo s sv.repos })

  unfoldable pub handle_set_ref :
      ConnectionId → MessageId → String → String → ContentHash → Server S T → Handled
  handle_set_ref conn id repo name h = resolve_store conn id repo (λ s.
      wrote id repo (store.set_ref name h s) (λ u sv. (
        ref_set id ∷ [],
        broadcast_ref_updated conn repo name (old_value (store.get_ref s name)) (some h) sv,
      )))

  unfoldable pub handle_delete_ref :
      ConnectionId → MessageId → String → String → Server S T → Handled
  handle_delete_ref conn id repo name = resolve_store conn id repo (λ s.
      wrote id repo (store.delete_ref name s) (λ u sv. (
        ref_deleted id ∷ [],
        broadcast_ref_updated conn repo name (old_value (store.get_ref s name)) none sv,
      )))

  unfoldable pub handle_cas_ref :
      ConnectionId
      → MessageId
      → String
      → String
      → Option ContentHash
      → ContentHash
      → Server S T
      → Handled
  handle_cas_ref conn id repo name expected h = resolve_store conn id repo (λ s.
      wrote id repo (store.cas_ref name expected h s) (λ swapped sv. (
        cas_result id swapped ∷ [],
        if swapped
            then broadcast_ref_updated conn repo name (old_value (store.get_ref s name)) (some h) sv
            else sv,
      )))

  abbrev pub begun : ConnectionId → MessageId → String → Server S T → Result T → Handled
  begun conn id repo sv (ok tx) = (
    transaction_created id sv.next_tx_id ∷ [],
    record sv {
      transactions =
          insert sv.next_tx_id (record { tx = tx; connection_id = conn; repo = repo })
            sv.transactions;
      next_tx_id = next_u64 sv.next_tx_id;
    },
  )
  begun conn id repo sv (err e) = (failure id e, sv)
  begun conn id repo sv out_of_fuel = ([], sv)

  unfoldable pub handle_begin_tx : ConnectionId → MessageId → String → Server S T → Handled
  handle_begin_tx conn id repo =
      resolve_store conn id repo (λ s sv. begun conn id repo sv (store.begin s))

  abbrev pub transaction_not_found : MessageId → TxId → List ServerMessage
  transaction_not_found id tx = failed id ("transaction not found: " <> texts.number tx) ∷ []

  -- `Some(state) if state.connection_id == conn_id`, and all else.
  abbrev pub when_owned :
      ConnectionId
      → MessageId
      → TxId
      → (TxState T → Server S T → Handled)
      → Server S T
      → Option (TxState T)
      → Handled
  when_owned conn id tx f sv none = (transaction_not_found id tx, sv)
  when_owned conn id tx f sv (some state) =
      if state.connection_id == conn then f state sv else (transaction_not_found id tx, sv)

  abbrev pub acknowledge : MessageId → Unit {0} → ServerMessage
  acknowledge id u = done id

  abbrev pub put_in : MessageId → TxId → ContentHash → Object → TxState T → Server S T → Handled
  put_in id tx h o state sv = (
    reply id (mapped (acknowledge id) (store.put h o state.tx).0),
    record sv {
      transactions = insert tx (record state { tx = (store.put h o state.tx).1 }) sv.transactions;
    },
  )

  unfoldable pub handle_tx_put :
      ConnectionId → MessageId → TxId → ContentHash → Object → Server S T → Handled
  handle_tx_put conn id tx h o sv =
      when_owned conn id tx (put_in id tx h o) sv (lookup tx sv.transactions)

  -- What a commit leaves of the transaction: nothing if it succeeded.
  abbrev after_commit :
      TxId → TxState T → Dict TxId (TxState T) → Result (Unit {0}) → T → Dict TxId (TxState T)
  after_commit tx state txns (ok u) t = remove tx txns
  after_commit tx state txns (err e) t = insert tx (record state { tx = t }) txns
  after_commit tx state txns out_of_fuel t = insert tx (record state { tx = t }) txns

  abbrev pub committed :
      MessageId → TxId → TxState T → Server S T → Result (Unit {0}) × T × S → Handled
  committed id tx state sv (r, t, s) = (
    reply id (mapped (acknowledge id) r),
    record sv {
      transactions = after_commit tx state sv.transactions r t;
      repos = insert state.repo s sv.repos;
    },
  )

  abbrev pub commit_in : MessageId → TxId → TxState T → Server S T → Option S → Handled
  commit_in id tx state sv none = (failure id (repository_not_found state.repo), sv)
  commit_in id tx state sv (some s) = committed id tx state sv (store.commit state.tx s)

  abbrev pub commit_at : MessageId → TxId → TxState T → Server S T → Handled
  commit_at id tx state sv = commit_in id tx state sv (lookup state.repo sv.repos)

  unfoldable pub handle_tx_commit : ConnectionId → MessageId → TxId → Server S T → Handled
  handle_tx_commit conn id tx sv =
      when_owned conn id tx (commit_at id tx) sv (lookup tx sv.transactions)

  abbrev pub rolled_back : MessageId → TxId → TxState T → Server S T → Handled
  rolled_back id tx state sv = (
    reply id (mapped (acknowledge id) (store.rollback state.tx).0),
    record sv { transactions = remove tx sv.transactions },
  )

  unfoldable pub handle_tx_rollback : ConnectionId → MessageId → TxId → Server S T → Handled
  handle_tx_rollback conn id tx sv =
      when_owned conn id tx (rolled_back id tx) sv (lookup tx sv.transactions)

  unfoldable pub handle : ConnectionId → ClientMessage → Server S T → Handled
  handle conn (ClientMessage.list_repositories id) sv =
      (repository_list id (keys sv.repos) ∷ [], sv)
  handle conn (ClientMessage.get id repo h) sv =
      with_store conn id repo (λ s. mapped (object_reply id) (store.get s h)) sv
  handle conn (ClientMessage.contains id repo h) sv =
      with_store conn id repo (λ s. mapped (contains_reply id) (store.contains s h)) sv
  handle conn (ClientMessage.get_by_inclusive_hash id repo h) sv =
      with_store conn id repo (λ s. mapped (object_with_hash id) (store.get_by_inclusive_hash s h))
        sv
  handle conn (ClientMessage.subtree id repo root) sv = handle_subtree conn id repo root sv
  handle conn (ClientMessage.get_ref id repo name) sv =
      with_store conn id repo (λ s. mapped (ref_reply id) (store.get_ref s name)) sv
  handle conn (ClientMessage.set_ref id repo name h) sv = handle_set_ref conn id repo name h sv
  handle conn (ClientMessage.delete_ref id repo name) sv = handle_delete_ref conn id repo name sv
  handle conn (ClientMessage.list_refs id repo prefix) sv =
      with_store conn id repo (λ s. mapped (ref_list id) (store.list_refs s prefix)) sv
  handle conn (ClientMessage.cas_ref id repo name expected h) sv =
      handle_cas_ref conn id repo name expected h sv
  handle conn (ClientMessage.begin_transaction id repo) sv = handle_begin_tx conn id repo sv
  handle conn (ClientMessage.tx_put id tx h o) sv = handle_tx_put conn id tx h o sv
  handle conn (ClientMessage.tx_commit id tx) sv = handle_tx_commit conn id tx sv
  handle conn (ClientMessage.tx_rollback id tx) sv = handle_tx_rollback conn id tx sv
