-- ===== src/Remote/Server/Consistent.antt =====
-- What holds of a server between two messages.
use clayers.Prelude.{
  ℕ, ◌+◌, ◌^◌, ◌<◌, ◌≡◌, refl, sym, ap, ◌∙◌, ◌≢◌, inl, inr, String, true, false, Option, none, some,
  List, [], ◌∷◌, contains, distinct, distinct-with_member, with_member, contains-with_member, ◌==◌,
  ==_iff, nat_eq, string_eq, if◌then◌else◌, arith, Bool-cases, Option-cases,
}
use clayers.Prelude.Dict.{Dict, lookup, insert, remove, lookup-insert, lookup-remove}
use clayers.Error.{ContentHash}
use clayers.Store.Lawful.{is_some}
use clayers.Remote.Protocol.{ref_updated}
use clayers.Remote.Server.{
  ConnectionId, TxState, ConnState, Server, members, owned_by, repos_of, new, register_connection,
  note_repo, add_subscriber, subscribe, broadcast_ref_updated, disconnect,
}
use clayers.Remote.Server.Subscriptions.{
  notify-repos, with_member-occupied, lookup-roll_back_all, owned_by_lem, unsubscribe_lem,
  unsubscribe-occupied, unsubscribe-distinct,
}

-- A connection stands among a repository's subscribers exactly when the repository stands among the
-- connection's, and there once; no empty set of subscribers is kept; numbers that were not given out are free; and
-- every open transaction belongs to a connection that is there.
pub record IsConsistent {S T : Type 0} (sv : Server S T) : Type 0 where
  pub agrees :
      (c : ConnectionId) (repo : String)
      → contains (members (lookup repo sv.subscribers)) c
        ≡ contains (repos_of (lookup c sv.connections)) repo
  pub occupied : (repo : String) → lookup repo sv.subscribers ≢ some []
  pub once : (repo : String) → distinct (members (lookup repo sv.subscribers)) ≡ true
  pub fresh_connection :
      (c : ConnectionId) → is_some (lookup c sv.connections) ≡ true → c < sv.next_conn_id
  pub fresh_transaction : (t : ℕ) → is_some (lookup t sv.transactions) ≡ true → t < sv.next_tx_id
  pub owned :
      (t : ℕ) (state : TxState T)
      → lookup t sv.transactions ≡ some state
      → is_some (lookup state.connection_id sv.connections) ≡ true

module _ {S T : Type 0} where
  pub new-IsConsistent : (repos : Dict String S) → IsConsistent {T = T} (new repos)
  unfolding lookup
  new-IsConsistent repos = record {
    agrees = λ c repo. refl;
    occupied = λ repo. λ e. cc;
    once = λ repo. refl;
    fresh_connection = λ c e. cc;
    fresh_transaction = λ t e. cc;
    owned = λ t state e. cc;
  }

  pub broadcast-IsConsistent :
      (origin : ConnectionId) (repo name : String) (old new_value : Option ContentHash)
      (sv : Server S T)
      → IsConsistent sv
      → IsConsistent (broadcast_ref_updated origin repo name old new_value sv)
  unfolding broadcast_ref_updated
  broadcast-IsConsistent origin repo name old new_value sv ok =
      let ids = members (lookup repo sv.subscribers) in
      let kept = notify-repos origin (ref_updated repo name old new_value) ids sv.connections in
      record {
        agrees = λ c r. ok.agrees c r ∙ ap (λ l. contains l r) (sym (kept c).0);
        occupied = ok.occupied;
        once = ok.once;
        fresh_connection = λ c e. ok.fresh_connection c (sym (kept c).1 ∙ e);
        fresh_transaction = ok.fresh_transaction;
        owned = λ t state e. (kept state.connection_id).1 ∙ ok.owned t state e;
      }

  -- A connection and a repository entered on both sides.
  noted-IsConsistent :
      (conn : ConnectionId) (repo : String) (state : ConnState) (sv : Server S T)
      → lookup conn sv.connections ≡ some state
      → contains state.subscribed_repos repo ≡ false
      → IsConsistent sv
      → IsConsistent (record sv {
        connections =
            insert conn
              (record state { subscribed_repos = repo ∷ state.subscribed_repos })
              sv.connections;
        subscribers =
            insert repo (with_member conn (members (lookup repo sv.subscribers))) sv.subscribers;
      })
  noted-IsConsistent conn repo state sv there unknown ok =
      let noted : ConnState = record state { subscribed_repos = repo ∷ state.subscribed_repos } in
      let ids : List ConnectionId = members (lookup repo sv.subscribers) in
      let there_still : (c : ConnectionId)
          → lookup c (insert conn noted sv.connections)
            ≡ (if conn == c then some noted else lookup c sv.connections) =
        λ c. lookup-insert c conn noted sv.connections in
      record {
        agrees = λ c r. ground (
          arith,
          ok.agrees c r,
          there,
          unknown,
          there_still c,
          lookup-insert r repo (with_member conn ids) sv.subscribers,
          contains-with_member conn c ids,
          ==_iff conn c,
          ==_iff repo r,
        );
        occupied = λ r e. ground (
          arith,
          e,
          ok.occupied r,
          lookup-insert r repo (with_member conn ids) sv.subscribers,
          with_member-occupied conn ids,
        );
        once = λ r. ground (
          arith,
          ok.once r,
          lookup-insert r repo (with_member conn ids) sv.subscribers,
          distinct-with_member conn ids,
          ==_iff repo r,
        );
        fresh_connection =
            λ c e. ok.fresh_connection c (ground (arith, there, there_still c, ==_iff conn c));
        fresh_transaction = ok.fresh_transaction;
        owned = λ t st e. ground (
          arith,
          ok.owned t st e,
          there,
          there_still st.connection_id,
          ==_iff conn st.connection_id,
        );
      }

  pub subscribe-IsConsistent :
      (conn : ConnectionId) (repo : String) (sv : Server S T)
      → IsConsistent sv
      → IsConsistent (subscribe conn repo sv)
  unfolding subscribe note_repo add_subscriber
  subscribe-IsConsistent conn repo sv ok = elim (Option-cases (lookup conn sv.connections)) [
    | inl gone ↦ rw gone ok
    | inr (state, there) ↦ elim (Bool-cases (contains state.subscribed_repos repo)) [
      | inl known ↦ rw (there, known) ok
      | inr unknown ↦ rw (there, unknown) (noted-IsConsistent conn repo state sv there unknown ok)
    ]
  ]

  pub register-IsConsistent :
      (sv : Server S T)
      → IsConsistent sv
      → sv.next_conn_id + 1 < 2 ^ 64
      → IsConsistent (register_connection sv).1
  unfolding register_connection
  register-IsConsistent sv ok below =
      let opened : ConnState = record { sent = []; subscribed_repos = [] } in
      let there_still : (c : ConnectionId)
          → lookup c (insert sv.next_conn_id opened sv.connections)
            ≡ (if sv.next_conn_id == c then some opened else lookup c sv.connections) =
        λ c. lookup-insert c sv.next_conn_id opened sv.connections in
      record {
        agrees = λ c r. ground (
          arith,
          ok.agrees c r,
          there_still c,
          ok.fresh_connection c,
          ==_iff sv.next_conn_id c,
          Option-cases (lookup c sv.connections),
        );
        occupied = ok.occupied;
        once = ok.once;
        fresh_connection = λ c e.
            ground (arith, below, ok.fresh_connection c, there_still c, ==_iff sv.next_conn_id c);
        fresh_transaction = ok.fresh_transaction;
        owned = λ t st e. ground (arith, ok.owned t st e, there_still st.connection_id);
      }

  pub disconnect-IsConsistent :
      (conn : ConnectionId) (sv : Server S T) → IsConsistent sv → IsConsistent (disconnect conn sv)
  unfolding disconnect
  disconnect-IsConsistent conn sv ok =
      let gone : (c : ConnectionId)
          → lookup c (remove conn sv.connections)
            ≡ (if conn == c then none else lookup c sv.connections) =
        λ c. lookup-remove c conn sv.connections in
      record {
        agrees = λ c r. ground (
          arith,
          ok.agrees c r,
          gone c,
          ==_iff conn c,
          unsubscribe_lem conn c (repos_of (lookup conn sv.connections)) r sv.subscribers,
        );
        occupied =
            unsubscribe-occupied conn (repos_of (lookup conn sv.connections)) sv.subscribers
              ok.occupied;
        once =
            unsubscribe-distinct conn (repos_of (lookup conn sv.connections)) sv.subscribers
              ok.once;
        fresh_connection = λ c e. ground (arith, ok.fresh_connection c, gone c);
        fresh_transaction = λ t e. ground (
          arith,
          ok.fresh_transaction t,
          lookup-roll_back_all (owned_by conn sv.transactions) sv.transactions t,
        );
        owned = λ t st e. ground (
          arith,
          ok.owned t st,
          gone st.connection_id,
          ==_iff conn st.connection_id,
          ==_iff st.connection_id conn,
          owned_by_lem conn sv.transactions t st,
          lookup-roll_back_all (owned_by conn sv.transactions) sv.transactions t,
        );
      }

  pub repos-IsConsistent :
      (repos : Dict String S) (sv : Server S T)
      → IsConsistent sv
      → IsConsistent (record sv { repos = repos })
  repos-IsConsistent repos sv good = record {
    agrees = good.agrees;
    occupied = good.occupied;
    once = good.once;
    fresh_connection = good.fresh_connection;
    fresh_transaction = good.fresh_transaction;
    owned = good.owned;
  }
