-- ===== src/Remote/Server.antt =====
-- The server (crates/clayers-repo/src/store/remote/server.rs) over stores that are looked up by name,
-- as `StaticRepositories` does. A message is handled in one step; Remote/Server/Race has the steps of
-- a subscription apart.
pub mod Handlers
pub mod Subscriptions
pub mod Consistent
pub mod Serving
pub mod Sent
pub mod Invariant
pub mod Isolation
pub mod Notified
pub mod Replies
pub mod Race
pub mod Local
use clayers.Prelude.{
  ℕ, ◌+◌, ◌%◌, ◌^◌, String, ◌<>◌, Bool, true, false, not, ◌&&◌, Option, none, some, List, [], ◌∷◌,
  ◌++◌, contains, with_member, without, ◌==◌, nat_eq, string_eq, if◌then◌else◌,
}
use clayers.Prelude.Dict.{Dict, lookup, insert, remove, keys}
use clayers.Error.{ContentHash, Error, storage, Result, ok, err, out_of_fuel}
use clayers.Object.{Object}
use clayers.Store.{ObjectStream}
use clayers.Store.Lawful.{Backend}
use clayers.Remote.Protocol.{
  MessageId, TxId, ClientMessage, ServerMessage, repository_list, object_reply, contains_reply,
  object_with_hash, subtree_item, subtree_end, ref_reply, ref_set, ref_deleted, ref_list,
  cas_result, done, transaction_created, failed, ref_updated,
}

-- `Box<dyn Transaction>` and the rest of the store traits: a transaction is a value of its own, and
-- committing it writes to the store that it was begun on.
pub record Served (S T : Type 0) : Type 0 where
  pub backend : Backend S
  pub open backend use *
  pub get_by_inclusive_hash : S → ContentHash → Result (Option (ContentHash × Object))
  pub begin : S → Result T
  pub put : ContentHash → Object → T → Result (Unit {0}) × T
  pub commit : T → S → Result (Unit {0}) × T × S
  pub rollback : T → Result (Unit {0}) × T

abbrev pub ConnectionId : Type 0
ConnectionId = ℕ

-- `TxState`; the transaction's share of its store is the store's name.
pub record TxState (T : Type 0) : Type 0 where
  pub tx : T
  pub connection_id : ConnectionId
  pub repo : String

-- `ConnState`: what was sent on the channel, oldest first, and the repositories.
pub record ConnState : Type 0 where
  pub sent : List ServerMessage
  pub subscribed_repos : List String

pub record Server (S T : Type 0) : Type 0 where
  pub repos : Dict String S
  pub transactions : Dict TxId (TxState T)
  pub next_tx_id : ℕ
  pub connections : Dict ConnectionId ConnState
  pub subscribers : Dict String (List ConnectionId)
  pub next_conn_id : ℕ

-- `fetch_add(1)` on an `AtomicU64`.
abbrev pub next_u64 : ℕ → ℕ
next_u64 n = (n + 1) % 2 ^ 64

abbrev pub members : Option (List ConnectionId) → List ConnectionId
members none = []
members (some ids) = ids

abbrev pub is_empty : List ConnectionId → Bool
is_empty [] = true
is_empty (x ∷ xs) = false

-- One connection out of a repository's subscribers, and no empty set left behind.
abbrev pub unsubscribe_one :
    ConnectionId
    → String
    → Dict String (List ConnectionId)
    → Option (List ConnectionId)
    → Dict String (List ConnectionId)
unsubscribe_one conn repo subs none = subs
unsubscribe_one conn repo subs (some ids) =
    if is_empty (without conn ids) then remove repo subs else insert repo (without conn ids) subs

unfoldable pub unsubscribe :
    ConnectionId → List String → Dict String (List ConnectionId) → Dict String (List ConnectionId)
unsubscribe conn [] subs = subs
unsubscribe conn (repo ∷ repos) subs =
    unsubscribe conn repos (unsubscribe_one conn repo subs (lookup repo subs))

-- `ServerMessage` into a connection's channel; without the connection it is dropped.
abbrev pub send :
    ConnectionId
    → ServerMessage
    → Option ConnState
    → Dict ConnectionId ConnState
    → Dict ConnectionId ConnState
send id message none conns = conns
send id message (some state) conns =
    insert id (record state { sent = state.sent ++ message ∷ [] }) conns

-- To each subscriber but the origin.
unfoldable pub notify :
    ConnectionId
    → ServerMessage
    → List ConnectionId
    → Dict ConnectionId ConnState
    → Dict ConnectionId ConnState
notify origin message [] conns = conns
notify origin message (id ∷ ids) conns =
    notify origin message ids
      (if id == origin then conns else send id message (lookup id conns) conns)

-- The transactions of a connection, and those taken out: what rolling one back returns is dropped.
unfoldable pub owned_by : {T : Type 0} → ConnectionId → Dict TxId (TxState T) → List TxId
owned_by conn [] = []
owned_by conn ((id, state) ∷ txns) =
    let rest = owned_by conn txns in if state.connection_id == conn then id ∷ rest else rest

unfoldable pub roll_back_all :
    {T : Type 0} → List TxId → Dict TxId (TxState T) → Dict TxId (TxState T)
roll_back_all [] txns = txns
roll_back_all (id ∷ ids) txns = roll_back_all ids (remove id txns)

abbrev pub repos_of : Option ConnState → List String
repos_of none = []
repos_of (some state) = state.subscribed_repos

module _ {S T : Type 0} where
  -- `Server::new`
  abbrev pub new : Dict String S → Server S T
  new repos = record {
    repos = repos;
    transactions = [];
    next_tx_id = 1;
    connections = [];
    subscribers = [];
    next_conn_id = 1;
  }

  unfoldable pub register_connection : Server S T → ConnectionId × Server S T
  register_connection sv = (
    sv.next_conn_id,
    record sv {
      connections =
          insert sv.next_conn_id (record { sent = []; subscribed_repos = [] }) sv.connections;
      next_conn_id = next_u64 sv.next_conn_id;
    },
  )

  -- The first half of `subscribe`: whether the connection is there and did not have the repository.
  abbrev note_repo_in : ConnectionId → String → Server S T → Option ConnState → Bool × Server S T
  note_repo_in conn repo sv none = (false, sv)
  note_repo_in conn repo sv (some state) =
      if contains state.subscribed_repos repo then (false, sv) else (
        true,
        record sv {
          connections =
              insert conn (record state { subscribed_repos = repo ∷ state.subscribed_repos })
                sv.connections;
        },
      )

  unfoldable pub note_repo : ConnectionId → String → Server S T → Bool × Server S T
  note_repo conn repo sv = note_repo_in conn repo sv (lookup conn sv.connections)

  -- The second half.
  unfoldable pub add_subscriber : ConnectionId → String → Server S T → Server S T
  add_subscriber conn repo sv = record sv {
    subscribers =
        insert repo (with_member conn (members (lookup repo sv.subscribers))) sv.subscribers;
  }

  unfoldable pub subscribe : ConnectionId → String → Server S T → Server S T
  subscribe conn repo sv =
      let (inserted, noted) = note_repo conn repo sv in
      if inserted then add_subscriber conn repo noted else noted

  unfoldable pub broadcast_ref_updated :
      ConnectionId
      → String
      → String
      → Option ContentHash
      → Option ContentHash
      → Server S T
      → Server S T
  broadcast_ref_updated origin repo name old new sv = record sv {
    connections =
        notify origin (ref_updated repo name old new) (members (lookup repo sv.subscribers))
          sv.connections;
  }

  unfoldable pub disconnect : ConnectionId → Server S T → Server S T
  disconnect conn sv = record sv {
    connections = remove conn sv.connections;
    subscribers = unsubscribe conn (repos_of (lookup conn sv.connections)) sv.subscribers;
    transactions = roll_back_all (owned_by conn sv.transactions) sv.transactions;
  }
