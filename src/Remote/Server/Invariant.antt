-- ===== src/Remote/Server/Invariant.antt =====
-- `Server::handle` keeps the server consistent.
use clayers.Prelude.{
  ◌+◌, ◌^◌, ◌<◌, ◌≡◌, inl, inr, String, true, false, Option, none, some, List, ◌==◌, ==_iff, nat_eq,
  string_eq, if◌then◌else◌, arith, Bool-cases, Option-cases,
}
use clayers.Prelude.Dict.{lookup, insert, lookup-insert}
use clayers.Error.{ContentHash, Result, ok, err, out_of_fuel}
use clayers.Store.Lawful.{is_some}
use clayers.Remote.Protocol.{MessageId, TxId, ClientMessage, ServerMessage}
use clayers.Remote.Server.{Served, ConnectionId, TxState, Server, subscribe, broadcast_ref_updated}
use clayers.Remote.Server.Consistent.{IsConsistent, broadcast-IsConsistent}
use clayers.Remote.Server.Handlers.{
  Texts, reply, resolve_store, old_value, put_in, commit_at, rolled_back, with_store,
  handle_subtree, wrote, handle_set_ref, handle_delete_ref, handle_cas_ref, handle_begin_tx, begun,
  when_owned, handle_tx_put, committed, commit_in, handle_tx_commit, handle_tx_rollback, handle,
}
use clayers.Remote.Server.Serving.{
  IsServing, subscribe-IsServing, repos-IsServing, insert-IsConsistent, remove-IsConsistent,
}

module _ {S T : Type 0} (conn : ConnectionId) where
  module _ (store : Served S T) (texts : Texts) where
    resolve_store-IsConsistent :
        (id : MessageId) (repo : String) (f : S → Server S T → List ServerMessage × Server S T)
        (sv : Server S T)
        → IsServing conn sv
        → ((s : S) (next : Server S T) → IsServing conn next → IsConsistent (f s next).1)
        → IsConsistent (resolve_store store texts conn id repo f sv).1
    unfolding resolve_store
    resolve_store-IsConsistent id repo f sv serving each =
        elim (Option-cases (lookup repo sv.repos)) [
          | inl gone ↦ rw gone serving.consistent
          | inr (s, there) ↦
              rw there (each s (subscribe conn repo sv) (subscribe-IsServing conn repo sv serving))
        ]

    wrote-IsConsistent :
        {A : Type 0} (id : MessageId) (repo : String) (written : Result A × S)
        (f : A → Server S T → List ServerMessage × Server S T) (sv : Server S T)
        → IsServing conn sv
        → ((a : A) (next : Server S T) → IsServing conn next → IsConsistent (f a next).1)
        → IsConsistent (wrote store texts id repo written f sv).1
    wrote-IsConsistent id repo (ok a, s) f sv serving each =
        each a (record sv { repos = insert repo s sv.repos })
          (repos-IsServing conn (insert repo s sv.repos) sv serving)
    wrote-IsConsistent id repo (err e, s) f sv serving each =
        (repos-IsServing conn (insert repo s sv.repos) sv serving).consistent
    wrote-IsConsistent id repo (out_of_fuel, s) f sv serving each =
        (repos-IsServing conn (insert repo s sv.repos) sv serving).consistent

    with_store-IsConsistent :
        (id : MessageId) (repo : String) (f : S → Result ServerMessage) (sv : Server S T)
        → IsServing conn sv
        → IsConsistent (with_store store texts conn id repo f sv).1
    unfolding with_store
    with_store-IsConsistent id repo f sv serving =
        resolve_store-IsConsistent id repo (λ s next. (reply store texts id (f s), next)) sv serving
          (λ s next serves. serves.consistent)

    begun-IsConsistent :
        (id : MessageId) (repo : String) (sv : Server S T) (r : Result T)
        → IsServing conn sv
        → IsConsistent (begun store texts conn id repo sv r).1
    begun-IsConsistent id repo sv (ok value) serving =
        let opened : TxState T = record { tx = value; connection_id = conn; repo = repo } in
        let good : IsConsistent sv = serving.consistent in
        let there : (t : TxId)
            → lookup t (insert sv.next_tx_id opened sv.transactions)
              ≡ (if sv.next_tx_id == t then some opened else lookup t sv.transactions) =
          λ t. lookup-insert t sv.next_tx_id opened sv.transactions in
        record {
          agrees = good.agrees;
          occupied = good.occupied;
          once = good.once;
          fresh_connection = good.fresh_connection;
          fresh_transaction = λ t e.
              ground
                (arith, serving.room, good.fresh_transaction t, there t, ==_iff sv.next_tx_id t);
          owned = λ t state e. ground (arith, e, serving.present, good.owned t state, there t);
        }
    begun-IsConsistent id repo sv (err e) serving = serving.consistent
    begun-IsConsistent id repo sv out_of_fuel serving = serving.consistent

    when_owned-IsConsistent :
        (id : MessageId) (tx : TxId) (f : TxState T → Server S T → List ServerMessage × Server S T)
        (sv : Server S T)
        → IsServing conn sv
        → ((state : TxState T)
            → lookup tx sv.transactions ≡ some state
            → IsConsistent (f state sv).1)
        → IsConsistent (when_owned store texts conn id tx f sv (lookup tx sv.transactions)).1
    when_owned-IsConsistent id tx f sv serving each =
        elim (Option-cases (lookup tx sv.transactions)) [
          | inl gone ↦ rw gone serving.consistent
          | inr (state, there) ↦ elim (Bool-cases (state.connection_id == conn)) [
            | inl mine ↦ rw (there, mine) (each state there)
            | inr theirs ↦ rw (there, theirs) serving.consistent
          ]
        ]

    committed-IsConsistent :
        (id : MessageId) (tx : TxId) (state : TxState T) (sv : Server S T)
        (r : Result (Unit {0}) × T × S)
        → IsServing conn sv
        → lookup tx sv.transactions ≡ some state
        → IsConsistent (committed store texts id tx state sv r).1
    committed-IsConsistent id tx state sv (ok u, t, s) serving there =
        remove-IsConsistent tx (insert state.repo s sv.repos) sv serving.consistent
    committed-IsConsistent id tx state sv (err e, t, s) serving there =
        insert-IsConsistent tx state t (insert state.repo s sv.repos) sv serving.consistent there
    committed-IsConsistent id tx state sv (out_of_fuel, t, s) serving there =
        insert-IsConsistent tx state t (insert state.repo s sv.repos) sv serving.consistent there

    commit_in-IsConsistent :
        (id : MessageId) (tx : TxId) (state : TxState T) (sv : Server S T) (o : Option S)
        → IsServing conn sv
        → lookup tx sv.transactions ≡ some state
        → IsConsistent (commit_in store texts id tx state sv o).1
    commit_in-IsConsistent id tx state sv none serving there = serving.consistent
    commit_in-IsConsistent id tx state sv (some s) serving there =
        committed-IsConsistent id tx state sv (store.commit state.tx s) serving there

    handle_set_ref-IsConsistent :
        (id : MessageId) (repo name : String) (h : ContentHash) (sv : Server S T)
        → IsServing conn sv
        → IsConsistent (handle_set_ref store texts conn id repo name h sv).1
    unfolding handle_set_ref
    handle_set_ref-IsConsistent id repo name h sv serving =
        resolve_store-IsConsistent id repo _ sv serving (λ s next serves.
          wrote-IsConsistent id repo (store.set_ref name h s) _ next serves (λ u last final.
            broadcast-IsConsistent conn repo name (old_value store texts (store.get_ref s name))
              (some h) last final.consistent))

    handle_delete_ref-IsConsistent :
        (id : MessageId) (repo name : String) (sv : Server S T)
        → IsServing conn sv
        → IsConsistent (handle_delete_ref store texts conn id repo name sv).1
    unfolding handle_delete_ref
    handle_delete_ref-IsConsistent id repo name sv serving =
        resolve_store-IsConsistent id repo _ sv serving (λ s next serves.
          wrote-IsConsistent id repo (store.delete_ref name s) _ next serves (λ u last final.
            broadcast-IsConsistent conn repo name (old_value store texts (store.get_ref s name))
              none last final.consistent))

    handle_cas_ref-IsConsistent :
        (id : MessageId) (repo name : String) (expected : Option ContentHash) (h : ContentHash)
        (sv : Server S T)
        → IsServing conn sv
        → IsConsistent (handle_cas_ref store texts conn id repo name expected h sv).1
    unfolding handle_cas_ref
    handle_cas_ref-IsConsistent id repo name expected h sv serving =
        resolve_store-IsConsistent id repo _ sv serving (λ s next serves.
          wrote-IsConsistent id repo (store.cas_ref name expected h s) _ next serves
            (λ swapped last final.
              elim swapped
                as (λ b. IsConsistent (
                  if b
                  then broadcast_ref_updated conn repo name
                      (old_value store texts (store.get_ref s name)) (some h) last
                  else last)) [
                    | true ↦
                        broadcast-IsConsistent conn repo name
                          (old_value store texts (store.get_ref s name)) (some h) last
                          final.consistent
                    | false ↦ final.consistent
                  ]))

    serving_handle-IsConsistent :
        (m : ClientMessage) (sv : Server S T)
        → IsServing conn sv
        → IsConsistent (handle store texts conn m sv).1
    unfolding handle handle_subtree handle_begin_tx handle_tx_put handle_tx_commit
        handle_tx_rollback
    serving_handle-IsConsistent (ClientMessage.list_repositories id) sv serving = serving.consistent
    serving_handle-IsConsistent (ClientMessage.get id repo h) sv serving =
        with_store-IsConsistent id repo _ sv serving
    serving_handle-IsConsistent (ClientMessage.contains id repo h) sv serving =
        with_store-IsConsistent id repo _ sv serving
    serving_handle-IsConsistent (ClientMessage.get_by_inclusive_hash id repo h) sv serving =
        with_store-IsConsistent id repo _ sv serving
    serving_handle-IsConsistent (ClientMessage.subtree id repo root) sv serving =
        resolve_store-IsConsistent id repo _ sv serving (λ s next serves. serves.consistent)
    serving_handle-IsConsistent (ClientMessage.get_ref id repo name) sv serving =
        with_store-IsConsistent id repo _ sv serving
    serving_handle-IsConsistent (ClientMessage.set_ref id repo name h) sv serving =
        handle_set_ref-IsConsistent id repo name h sv serving
    serving_handle-IsConsistent (ClientMessage.delete_ref id repo name) sv serving =
        handle_delete_ref-IsConsistent id repo name sv serving
    serving_handle-IsConsistent (ClientMessage.list_refs id repo prefix) sv serving =
        with_store-IsConsistent id repo _ sv serving
    serving_handle-IsConsistent (ClientMessage.cas_ref id repo name expected h) sv serving =
        handle_cas_ref-IsConsistent id repo name expected h sv serving
    serving_handle-IsConsistent (ClientMessage.begin_transaction id repo) sv serving =
        resolve_store-IsConsistent id repo _ sv serving
          (λ s next serves. begun-IsConsistent id repo next (store.begin s) serves)
    serving_handle-IsConsistent (ClientMessage.tx_put id tx h o) sv serving =
        when_owned-IsConsistent id tx (put_in store texts id tx h o) sv serving (λ state there.
          insert-IsConsistent tx state (store.put h o state.tx).1 sv.repos sv serving.consistent
            there)
    serving_handle-IsConsistent (ClientMessage.tx_commit id tx) sv serving =
        when_owned-IsConsistent id tx (commit_at store texts id tx) sv serving (λ state there.
          commit_in-IsConsistent id tx state sv (lookup state.repo sv.repos) serving there)
    serving_handle-IsConsistent (ClientMessage.tx_rollback id tx) sv serving =
        when_owned-IsConsistent id tx (rolled_back store texts id tx) sv serving
          (λ state there. remove-IsConsistent tx sv.repos sv serving.consistent)

    -- A consistent server (the connections' repositories and the repositories' subscribers agree,
    -- each subscriber stands once, no set of subscribers is empty, numbers not given out are free,
    -- and every open transaction belongs to a connection that is there) is consistent after any
    -- message of a connection that is there, if a transaction number is left.
    pub handle-IsConsistent :
        (m : ClientMessage) (sv : Server S T)
        → IsConsistent sv
        → is_some (lookup conn sv.connections) ≡ true
        → sv.next_tx_id + 1 < 2 ^ 64
        → IsConsistent (handle store texts conn m sv).1
    handle-IsConsistent m sv good here room =
        serving_handle-IsConsistent m sv (record { consistent = good; present = here; room = room })
