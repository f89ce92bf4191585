-- ===== src/Remote/Client/Transaction/Agreed.antt =====
-- A remote transaction against the one that the server holds for it.
use clayers.Prelude.{
  ◌≡◌, ◌≢◌, refl, ap, ◌∙◌, Bool, true, false, Option, none, some, List, ◌++◌, with_member, ◌==◌,
  ==_iff, ==_refl, nat_eq, string_eq, option_eq, arith,
}
use clayers.Prelude.Dict.{lookup, insert, lookup-insert, lookup-remove}
use clayers.Error.{ContentHash, Result, ok, err, out_of_fuel}
use clayers.Object.{Object}
use clayers.Remote.Protocol.{MessageId, TxId, ClientMessage, ServerMessage, reply_id}
use clayers.Remote.Server.{Served, ConnectionId, Server, TxState, next_u64}
use clayers.Remote.Server.Handlers.{
  Texts, Handled, reply, mapped, acknowledge, when_owned, put_in, commit_at, rolled_back, handle,
  handle_tx_put, handle_tx_commit, handle_tx_rollback,
}
use clayers.Remote.Client.{Client, Wire, receive_all, awaited, read, call, request, alloc_id}
use clayers.Remote.Client.Reader.{first_for}
use clayers.Remote.Client.Connected.{connected, are_notes, IsFresh, at_distance, call-connected}
use clayers.Remote.Client.Transaction.{
  RemoteTransaction, as_done, put, commit, rollback, after_commit, after_rollback,
}

abbrev pub is_ok : {A : Type 0} → Result A → Bool
is_ok (ok a) = true
is_ok (err e) = false
is_ok out_of_fuel = false

module _ {S T : Type 0} (store : Served S T) (texts : Texts) (conn : ConnectionId)
    (notes : List ServerMessage) where
  read-done :
      (id : MessageId) (r : Result (Unit {0}))
      → read as_done (
          awaited (
            first_for id
              (reply store texts id (mapped store texts (acknowledge store texts id) r))))
        ≡ at_distance texts r
  unfolding reply_id
  read-done id (ok tt) = ground (arith, ==_refl id)
  read-done id (err e) = ground (arith, ==_refl id)
  read-done id out_of_fuel = refl

  -- A request on a transaction that the connection owns.
  call-owned :
      (m : MessageId → ClientMessage) (f : TxState T → Server S T → Handled store texts)
      (r : Result (Unit {0})) (tx : TxId) (state : TxState T) (c : Client) (sv : Server S T)
      → are_notes notes ≡ true
      → IsFresh c
      → lookup tx sv.transactions ≡ some state
      → (state.connection_id == conn) ≡ true
      → handle store texts conn (m c.next_id) sv
        ≡ when_owned store texts conn c.next_id tx f sv (lookup tx sv.transactions)
      → (f state sv).0
        ≡ reply store texts c.next_id (mapped store texts (acknowledge store texts c.next_id) r)
      → ((call (connected store texts conn notes) m as_done c sv).0 ≡ at_distance texts r)
        × ((call (connected store texts conn notes) m as_done c sv).2 ≡ (f state sv).1)
  call-owned m f r tx state c sv quiet fresh there mine handled replied =
      let met = call-connected store texts conn notes m as_done c sv quiet fresh in
      let is : handle store texts conn (m c.next_id) sv ≡ f state sv =
        handled ∙ rw (there, mine) refl in
      (
        met.0
            ∙ ap (λ h. read as_done (awaited (first_for c.next_id h.0))) is
            ∙ ap (λ l. read as_done (awaited (first_for c.next_id l))) replied
            ∙ read-done c.next_id r,
        met.1 ∙ ap (λ h. h.1) is,
      )

  finished-commit :
      (r x : Result (Unit {0})) (t : RemoteTransaction)
      → r ≡ at_distance texts x
      → t.finished ≡ false
      → (after_commit r t).finished ≡ is_ok x
  finished-commit r (ok u) t e going = rw e refl
  finished-commit r (err x) t e going = rw e going
  finished-commit r out_of_fuel t e going = rw e going

  finished-rollback :
      (o : Option ServerMessage) (x : Result (Unit {0})) (t : RemoteTransaction)
      → read as_done (awaited o) ≡ at_distance texts x
      → x ≢ out_of_fuel
      → (after_rollback (awaited o) t).finished ≡ true
  finished-rollback (some m) x t e fine = refl
  finished-rollback none (ok u) t e fine = cc
  finished-rollback none (err y) t e fine = cc
  finished-rollback none out_of_fuel t e fine = absurd (fine refl)

  -- A remote transaction that goes on, owned by the connection and open on the server over a
  -- repository that it has: put, commit and rollback give what the server's transaction gives. A put
  -- changes that transaction as the store's put does, a commit writes to the store what its commit
  -- writes and finishes the remote transaction exactly when it succeeds, and a rollback removes the
  -- transaction and, if it returns, finishes the remote one, also when it fails.
  pub remote_transaction_lem :
      (t : RemoteTransaction) (state : TxState T) (h : ContentHash) (o : Object) (c : Client)
      (sv : Server S T) (s : S)
      → are_notes notes ≡ true
      → IsFresh c
      → t.finished ≡ false
      → lookup t.tx_id sv.transactions ≡ some state
      → state.connection_id ≡ conn
      → lookup state.repo sv.repos ≡ some s
      → let wire : Wire (Server S T) = connected store texts conn notes in
        (((put wire h o t c sv).0 ≡ at_distance texts (store.put h o state.tx).0)
          × (lookup t.tx_id (put wire h o t c sv).3.transactions
              ≡ some (record state { tx = (store.put h o state.tx).1 })))
        × (((commit wire t c sv).0 ≡ at_distance texts (store.commit state.tx s).0)
            × ((commit wire t c sv).3.repos
                ≡ insert state.repo (store.commit state.tx s).2 sv.repos)
            × ((commit wire t c sv).1.finished ≡ is_ok (store.commit state.tx s).0))
        × (((rollback wire t c sv).0 ≡ at_distance texts (store.rollback state.tx).0)
            × (lookup t.tx_id (rollback wire t c sv).3.transactions ≡ none)
            × ((store.rollback state.tx).0 ≢ out_of_fuel
                → (rollback wire t c sv).1.finished ≡ true))
  unfolding put commit rollback handle handle_tx_put handle_tx_commit handle_tx_rollback alloc_id
      request connected
  remote_transaction_lem t state h o c sv s quiet fresh going there mine served =
      (put_part, commit_part, rollback_part)
    where
      wire : Wire (Server S T)
      wire = connected store texts conn notes

      owned : (state.connection_id == conn) ≡ true
      owned = (==_iff state.connection_id conn).1 mine

      arrived : Client
      arrived =
          receive_all
            (notes ++ (handle store texts conn (ClientMessage.tx_rollback c.next_id t.tx_id) sv).0)
            (record c { next_id = next_u64 c.next_id; pending = with_member c.next_id c.pending })

      put_part :
          ((put wire h o t c sv).0 ≡ at_distance texts (store.put h o state.tx).0)
          × (lookup t.tx_id (put wire h o t c sv).3.transactions
              ≡ some (record state { tx = (store.put h o state.tx).1 }))
      put_part =
          let did =
            call-owned (λ id. ClientMessage.tx_put id t.tx_id h o)
              (put_in store texts c.next_id t.tx_id h o) (store.put h o state.tx).0 t.tx_id state c
              sv quiet fresh there owned refl refl in
          rw going (
            did.0,
            ap (λ n. lookup t.tx_id n.transactions) did.1
                ∙ ground (
                  arith,
                  ==_refl t.tx_id,
                  lookup-insert t.tx_id t.tx_id (record state { tx = (store.put h o state.tx).1 })
                      sv.transactions,
                ),
          )

      commit_part :
          ((commit wire t c sv).0 ≡ at_distance texts (store.commit state.tx s).0)
          × ((commit wire t c sv).3.repos ≡ insert state.repo (store.commit state.tx s).2 sv.repos)
          × ((commit wire t c sv).1.finished ≡ is_ok (store.commit state.tx s).0)
      commit_part =
          let did =
            call-owned (λ id. ClientMessage.tx_commit id t.tx_id)
              (commit_at store texts c.next_id t.tx_id) (store.commit state.tx s).0 t.tx_id state c
              sv quiet fresh there owned refl (rw served refl) in
          rw going (
            did.0,
            ap (λ n. n.repos) did.1 ∙ rw served refl,
            finished-commit _ (store.commit state.tx s).0 (record t { finished = false }) did.0
                refl,
          )

      rollback_part :
          ((rollback wire t c sv).0 ≡ at_distance texts (store.rollback state.tx).0)
          × (lookup t.tx_id (rollback wire t c sv).3.transactions ≡ none)
          × ((store.rollback state.tx).0 ≢ out_of_fuel → (rollback wire t c sv).1.finished ≡ true)
      rollback_part =
          let did =
            call-owned (λ id. ClientMessage.tx_rollback id t.tx_id)
              (rolled_back store texts c.next_id t.tx_id) (store.rollback state.tx).0 t.tx_id state
              c sv quiet fresh there owned refl refl in
          rw going (
            did.0,
            ap (λ n. lookup t.tx_id n.transactions) did.1
                ∙ ground (arith, ==_refl t.tx_id, lookup-remove t.tx_id t.tx_id sv.transactions),
            λ fine.
                finished-rollback (lookup c.next_id arrived.replies) (store.rollback state.tx).0
                  (record t { finished = false }) did.0 fine,
          )
