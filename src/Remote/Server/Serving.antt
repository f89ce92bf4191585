-- ===== src/Remote/Server/Serving.antt =====
-- A server that is about to handle a message.
use clayers.Prelude.{
  ◌+◌, ◌^◌, ◌<◌, ◌≡◌, inl, inr, String, true, some, ◌∷◌, contains, ==_iff, nat_eq, string_eq, arith,
  Bool-cases, Option-cases,
}
use clayers.Prelude.Dict.{Dict, lookup, insert, remove, lookup-insert, lookup-remove}
use clayers.Store.Lawful.{is_some}
use clayers.Remote.Protocol.{TxId}
use clayers.Remote.Server.{ConnectionId, TxState, Server, subscribe, note_repo, add_subscriber}
use clayers.Remote.Server.Consistent.{IsConsistent, subscribe-IsConsistent}

-- A consistent server that the connection is registered at, with a transaction number left to give.
pub record IsServing {S T : Type 0} (conn : ConnectionId) (sv : Server S T) : Type 0 where
  pub consistent : IsConsistent sv
  pub present : is_some (lookup conn sv.connections) ≡ true
  pub room : sv.next_tx_id + 1 < 2 ^ 64

module _ {S T : Type 0} (conn : ConnectionId) where
  pub subscribe-IsServing :
      (repo : String) (sv : Server S T)
      → IsServing conn sv
      → IsServing conn (subscribe conn repo sv)
  unfolding subscribe note_repo add_subscriber
  subscribe-IsServing repo sv serving = record {
    consistent = subscribe-IsConsistent conn repo sv serving.consistent;
    present = here;
    room = there;
  }
    where
      here : is_some (lookup conn (subscribe conn repo sv).connections) ≡ true
      here = elim (Option-cases (lookup conn sv.connections)) [
        | inl gone ↦ rw gone serving.present
        | inr (state, known) ↦ elim (Bool-cases (contains state.subscribed_repos repo)) [
          | inl old ↦ rw (known, old) serving.present
          | inr new ↦
              rw (known, new) ground
                (
                  arith,
                  ==_iff conn conn,
                  lookup-insert conn conn
                      (record state { subscribed_repos = repo ∷ state.subscribed_repos })
                      sv.connections,
                )
        ]
      ]

      there : (subscribe conn repo sv).next_tx_id + 1 < 2 ^ 64
      there = elim (Option-cases (lookup conn sv.connections)) [
        | inl gone ↦ rw gone serving.room
        | inr (state, known) ↦ elim (Bool-cases (contains state.subscribed_repos repo)) [
          | inl old ↦ rw (known, old) serving.room
          | inr new ↦ rw (known, new) serving.room
        ]
      ]

  -- A store replaced, and transactions that are no more than there were.
  pub repos-IsServing :
      (repos : Dict String S) (sv : Server S T)
      → IsServing conn sv
      → IsServing conn (record sv { repos = repos })
  repos-IsServing repos sv serving = record {
    consistent = record {
      agrees = serving.consistent.agrees;
      occupied = serving.consistent.occupied;
      once = serving.consistent.once;
      fresh_connection = serving.consistent.fresh_connection;
      fresh_transaction = serving.consistent.fresh_transaction;
      owned = serving.consistent.owned;
    };
    present = serving.present;
    room = serving.room;
  }

module _ {S T : Type 0} where
  -- Transactions replaced by others of the same numbers and owners.
  pub transactions-IsConsistent :
      (txns : Dict TxId (TxState T)) (repos : Dict String S) (sv : Server S T)
      → IsConsistent sv
      → ((t : TxId) (state : TxState T)
          → lookup t txns ≡ some state
          → (t < sv.next_tx_id) × (is_some (lookup state.connection_id sv.connections) ≡ true))
      → IsConsistent (record sv { transactions = txns; repos = repos })
  transactions-IsConsistent txns repos sv good each = record {
    agrees = good.agrees;
    occupied = good.occupied;
    once = good.once;
    fresh_connection = good.fresh_connection;
    fresh_transaction = λ t e. elim (Option-cases (lookup t txns)) [
      | inl gone ↦ ground (arith, e, gone)
      | inr (state, there) ↦ (each t state there).0
    ];
    owned = λ t state e. (each t state e).1;
  }

  pub insert-IsConsistent :
      (tx : TxId) (old : TxState T) (value : T) (repos : Dict String S) (sv : Server S T)
      → IsConsistent sv
      → lookup tx sv.transactions ≡ some old
      → IsConsistent (record sv {
        transactions = insert tx (record old { tx = value }) sv.transactions;
        repos = repos;
      })
  insert-IsConsistent tx old value repos sv good there =
      transactions-IsConsistent (insert tx (record old { tx = value }) sv.transactions) repos sv
        good
        (λ t state e. ground (
          arith,
          e,
          there,
          good.fresh_transaction t,
          good.fresh_transaction tx,
          good.owned t state,
          good.owned tx old,
          ==_iff tx t,
          lookup-insert t tx (record old { tx = value }) sv.transactions,
        ))

  pub remove-IsConsistent :
      (tx : TxId) (repos : Dict String S) (sv : Server S T)
      → IsConsistent sv
      → IsConsistent (record sv { transactions = remove tx sv.transactions; repos = repos })
  remove-IsConsistent tx repos sv good =
      transactions-IsConsistent (remove tx sv.transactions) repos sv good (λ t state e. ground (
        arith,
        e,
        good.fresh_transaction t,
        good.owned t state,
        lookup-remove t tx sv.transactions,
      ))
