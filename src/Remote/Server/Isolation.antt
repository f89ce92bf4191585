-- ===== src/Remote/Server/Isolation.antt =====
-- What one connection's messages do to another's transactions.
use clayers.Prelude.{
  ◌<◌, ◌≡◌, ◌≢◌, refl, ◌∙◌, inl, inr, String, Bool, true, false, Option, none, some, contains, ◌==◌,
  ==_iff, nat_eq, string_eq, if◌then◌else◌, arith, Bool-cases, Option-cases,
}
use clayers.Prelude.Dict.{lookup, insert, lookup-insert, lookup-remove}
use clayers.Error.{ContentHash, Result, ok, err, out_of_fuel}
use clayers.Remote.Protocol.{MessageId, TxId, ClientMessage, ServerMessage}
use clayers.Remote.Server.{
  Served, ConnectionId, TxState, Server, subscribe, note_repo, add_subscriber,
  broadcast_ref_updated,
}
use clayers.Remote.Server.Handlers.{
  Texts, Handled, resolve_store, with_store, handle_subtree, wrote, handle_set_ref,
  handle_delete_ref, handle_cas_ref, handle_begin_tx, begun, old_value, when_owned, put_in,
  commit_in, commit_at, committed, rolled_back, handle_tx_put, handle_tx_commit, handle_tx_rollback,
  handle,
}

-- The server's transactions without their connections and stores.
module _ {S T : Type 0} where
  subscribe-transactions :
      (conn : ConnectionId) (repo : String) (sv : Server S T)
      → ((subscribe conn repo sv).transactions ≡ sv.transactions)
        × ((subscribe conn repo sv).next_tx_id ≡ sv.next_tx_id)
  unfolding subscribe note_repo add_subscriber
  subscribe-transactions conn repo sv = elim (Option-cases (lookup conn sv.connections)) [
    | inl gone ↦ rw gone (refl, refl)
    | inr (state, known) ↦ elim (Bool-cases (contains state.subscribed_repos repo)) [
      | inl old ↦ rw (known, old) (refl, refl)
      | inr new ↦ rw (known, new) (refl, refl)
    ]
  ]

  module _ (store : Served S T) (texts : Texts) (conn : ConnectionId) where
    -- A transaction of another connection, as the server has it.
    abbrev IsForeign : TxId → TxState T → Server S T → Type 0
    IsForeign t state sv =
        (lookup t sv.transactions ≡ some state) × (state.connection_id ≢ conn) × (t < sv.next_tx_id)

    resolve_store-keeps :
        (id : MessageId) (repo : String) (f : S → Server S T → Handled store texts)
        (sv : Server S T) (t : TxId) (state : TxState T)
        → IsForeign t state sv
        → ((s : S) (next : Server S T)
            → IsForeign t state next
            → lookup t (f s next).1.transactions ≡ some state)
        → lookup t (resolve_store store texts conn id repo f sv).1.transactions ≡ some state
    unfolding resolve_store
    resolve_store-keeps id repo f sv t state (there, theirs, given) each =
        let same = subscribe-transactions conn repo sv in
        elim (Option-cases (lookup repo sv.repos)) [
          | inl gone ↦ rw gone there
          | inr (s, known) ↦ rw known (
              each s (subscribe conn repo sv)
                (ground (arith, same.0, there), theirs, ground (arith, same.1, given)))
        ]

    wrote-keeps :
        {A : Type 0} (id : MessageId) (repo : String) (written : Result A × S)
        (f : A → Server S T → Handled store texts) (sv : Server S T) (t : TxId) (state : TxState T)
        → IsForeign t state sv
        → ((a : A) (next : Server S T)
            → IsForeign t state next
            → lookup t (f a next).1.transactions ≡ some state)
        → lookup t (wrote store texts id repo written f sv).1.transactions ≡ some state
    wrote-keeps id repo (ok a, s) f sv t state foreign each =
        each a (record sv { repos = insert repo s sv.repos }) foreign
    wrote-keeps id repo (err e, s) f sv t state foreign each = foreign.0
    wrote-keeps id repo (out_of_fuel, s) f sv t state foreign each = foreign.0

    when_owned-keeps :
        (id : MessageId) (tx : TxId) (f : TxState T → Server S T → Handled store texts)
        (sv : Server S T) (t : TxId) (state : TxState T)
        → IsForeign t state sv
        → ((mine : TxState T) → t ≢ tx → lookup t (f mine sv).1.transactions ≡ some state)
        → lookup t
            (when_owned store texts conn id tx f sv (lookup tx sv.transactions)).1.transactions
          ≡ some state
    when_owned-keeps id tx f sv t state (there, theirs, given) each =
        elim (Option-cases (lookup tx sv.transactions)) [
          | inl gone ↦ rw gone there
          | inr (mine, known) ↦ elim (Bool-cases (mine.connection_id == conn)) [
            | inl owned ↦
                rw (known, owned)
                  (each mine (λ same.
                    ground
                      (arith, same, known, there, theirs, owned, ==_iff mine.connection_id conn)))
            | inr other ↦ rw (known, other) there
          ]
        ]

    with_store-keeps :
        (id : MessageId) (repo : String) (f : S → Result ServerMessage) (sv : Server S T) (t : TxId)
        (state : TxState T)
        → IsForeign t state sv
        → lookup t (with_store store texts conn id repo f sv).1.transactions ≡ some state
    unfolding with_store
    with_store-keeps id repo f sv t state foreign =
        resolve_store-keeps id repo _ sv t state foreign (λ s next still. still.0)

    begun-keeps :
        (id : MessageId) (repo : String) (sv : Server S T) (r : Result T) (t : TxId)
        (state : TxState T)
        → IsForeign t state sv
        → lookup t (begun store texts conn id repo sv r).1.transactions ≡ some state
    begun-keeps id repo sv (ok value) t state (there, theirs, given) = ground (
      arith,
      there,
      given,
      ==_iff sv.next_tx_id t,
      lookup-insert t sv.next_tx_id (record { tx = value; connection_id = conn; repo = repo })
          sv.transactions,
    )
    begun-keeps id repo sv (err e) t state foreign = foreign.0
    begun-keeps id repo sv out_of_fuel t state foreign = foreign.0

    commit_in-keeps :
        (id : MessageId) (tx : TxId) (mine : TxState T) (sv : Server S T) (o : Option S) (t : TxId)
        → t ≢ tx
        → lookup t (commit_in store texts id tx mine sv o).1.transactions ≡ lookup t sv.transactions
    commit_in-keeps id tx mine sv none t apart = refl
    commit_in-keeps id tx mine sv (some s) t apart = go (store.commit mine.tx s)
      where
        go :
            (r : Result (Unit {0}) × T × S)
            → lookup t (committed store texts id tx mine sv r).1.transactions
              ≡ lookup t sv.transactions
        go (ok u, v, s) = ground (arith, apart, lookup-remove t tx sv.transactions, ==_iff tx t)
        go (err e, v, s) =
            ground (
              arith,
              apart,
              lookup-insert t tx (record mine { tx = v }) sv.transactions,
              ==_iff tx t,
            )
        go (out_of_fuel, v, s) =
            ground (
              arith,
              apart,
              lookup-insert t tx (record mine { tx = v }) sv.transactions,
              ==_iff tx t,
            )

    -- No message of one connection changes, ends or removes an open transaction of another, if the
    -- transaction's number is below the next one to be given.
    pub handle-foreign_transaction :
        (m : ClientMessage) (sv : Server S T) (t : TxId) (state : TxState T)
        → lookup t sv.transactions ≡ some state
        → state.connection_id ≢ conn
        → t < sv.next_tx_id
        → lookup t (handle store texts conn m sv).1.transactions ≡ some state
    unfolding handle handle_subtree handle_set_ref handle_delete_ref handle_cas_ref handle_begin_tx
        handle_tx_put handle_tx_commit handle_tx_rollback broadcast_ref_updated
    handle-foreign_transaction m sv t state there theirs given = go m
      where
        foreign : IsForeign t state sv
        foreign = (there, theirs, given)

        go :
            (m : ClientMessage)
            → lookup t (handle store texts conn m sv).1.transactions ≡ some state
        go (ClientMessage.list_repositories id) = there
        go (ClientMessage.get id repo h) = with_store-keeps id repo _ sv t state foreign
        go (ClientMessage.contains id repo h) = with_store-keeps id repo _ sv t state foreign
        go (ClientMessage.get_by_inclusive_hash id repo h) =
            with_store-keeps id repo _ sv t state foreign
        go (ClientMessage.subtree id repo root) =
            resolve_store-keeps id repo _ sv t state foreign (λ s next still. still.0)
        go (ClientMessage.get_ref id repo name) = with_store-keeps id repo _ sv t state foreign
        go (ClientMessage.list_refs id repo prefix) = with_store-keeps id repo _ sv t state foreign
        go (ClientMessage.set_ref id repo name h) =
            resolve_store-keeps id repo _ sv t state foreign (λ s next still.
              wrote-keeps id repo (store.set_ref name h s) _ next t state still
                (λ u last kept. kept.0))
        go (ClientMessage.delete_ref id repo name) =
            resolve_store-keeps id repo _ sv t state foreign (λ s next still.
              wrote-keeps id repo (store.delete_ref name s) _ next t state still
                (λ u last kept. kept.0))
        go (ClientMessage.cas_ref id repo name expected h) =
            resolve_store-keeps id repo _ sv t state foreign (λ s next still.
              wrote-keeps id repo (store.cas_ref name expected h s) _ next t state still
                (λ swapped last kept. cas swapped last kept.0 (store.get_ref s name)))
          where
            cas :
                (swapped : Bool) (last : Server S T)
                → lookup t last.transactions ≡ some state
                → (old : Result (Option ContentHash))
                → lookup t
                    (if swapped
                      then broadcast_ref_updated conn repo name
                          (old_value store texts old)
                          (some h)
                          last
                      else last).transactions
                  ≡ some state
            cas true last kept old = kept
            cas false last kept old = kept
        go (ClientMessage.begin_transaction id repo) =
            resolve_store-keeps id repo _ sv t state foreign
              (λ s next still. begun-keeps id repo next (store.begin s) t state still)
        go (ClientMessage.tx_put id tx h o) =
            when_owned-keeps id tx (put_in store texts id tx h o) sv t state foreign (λ mine apart.
              ground (
                arith,
                apart,
                there,
                ==_iff tx t,
                lookup-insert t tx (record mine { tx = (store.put h o mine.tx).1 }) sv.transactions,
              ))
        go (ClientMessage.tx_commit id tx) =
            when_owned-keeps id tx (commit_at store texts id tx) sv t state foreign (λ mine apart.
              commit_in-keeps id tx mine sv (lookup mine.repo sv.repos) t apart ∙ there)
        go (ClientMessage.tx_rollback id tx) =
            when_owned-keeps id tx (rolled_back store texts id tx) sv t state foreign (λ mine apart.
              ground (arith, apart, there, ==_iff tx t, lookup-remove t tx sv.transactions))
