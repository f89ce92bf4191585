-- ===== src/Remote/Server/Sent.antt =====
-- What is sent to a connection.
use clayers.Prelude.{
  ◌≡◌, ◌≢◌, refl, inl, inr, String, Bool, true, not, ◌&&◌, Option, none, some, List, [], ◌∷◌, ◌++◌,
  contains, distinct, ◌==◌, ==_iff, nat_eq, string_eq, if◌then◌else◌, arith, Bool-cases,
  Option-cases,
}
use clayers.Prelude.Dict.{Dict, lookup, insert, lookup-insert}
use clayers.Error.{ContentHash, Result, ok, err, out_of_fuel}
use clayers.Store.Lawful.{is_some}
use clayers.Remote.Protocol.{MessageId, ClientMessage, ServerMessage, ref_set, ref_updated}
use clayers.Remote.Server.{
  Served, ConnectionId, ConnState, Server, members, send, notify, repos_of, subscribe, note_repo,
  add_subscriber, broadcast_ref_updated,
}
use clayers.Remote.Server.Consistent.{IsConsistent, repos-IsConsistent, subscribe-IsConsistent}
use clayers.Remote.Server.Handlers.{Texts, resolve_store, wrote, old_value, handle_set_ref, handle}
use clayers.Remote.Server.Subscriptions.{send-repos}

-- What was sent to a connection.
abbrev pub sent_of : Option ConnState → List ServerMessage
sent_of none = []
sent_of (some state) = state.sent

pub send-sent :
    (id c : ConnectionId) (m : ServerMessage) (conns : Dict ConnectionId ConnState)
    → sent_of (lookup c (send id m (lookup id conns) conns)) ≡ (
        if id == c && is_some (lookup c conns)
        then sent_of (lookup c conns) ++ m ∷ []
        else sent_of (lookup c conns))
send-sent id c m conns = elim (Option-cases (lookup id conns)) [
  | inl gone ↦ rw gone ground (arith, gone, ==_iff id c)
  | inr (state, there) ↦ rw there ground (
    arith,
    there,
    lookup-insert c id (record state { sent = state.sent ++ m ∷ [] }) conns,
    ==_iff id c,
  )
]

pub notify-sent :
    (origin c : ConnectionId) (m : ServerMessage) (ids : List ConnectionId)
    (conns : Dict ConnectionId ConnState)
    → distinct ids ≡ true
    → sent_of (lookup c (notify origin m ids conns)) ≡ (
        if (contains ids c && not (c == origin)) && is_some (lookup c conns)
        then sent_of (lookup c conns) ++ m ∷ []
        else sent_of (lookup c conns))
unfolding notify
notify-sent origin c m [] conns d = refl
notify-sent origin c m (id ∷ ids) conns d = elim (Bool-cases (id == origin)) [
  | inl same ↦
      rw same ground
        (arith, same, d, notify-sent origin c m ids conns, ==_iff id c, ==_iff id origin)
  | inr other ↦ rw other ground (
    arith,
    other,
    d,
    ==_iff id c,
    ==_iff id origin,
    ==_iff c origin,
    notify-sent origin c m ids (send id m (lookup id conns) conns),
    send-sent id c m conns,
    send-repos id c m conns,
  )
]

-- The repository that a request names, if it works on one.
abbrev pub request_repo : ClientMessage → Option String
request_repo (ClientMessage.list_repositories id) = none
request_repo (ClientMessage.get id repo h) = some repo
request_repo (ClientMessage.contains id repo h) = some repo
request_repo (ClientMessage.get_by_inclusive_hash id repo h) = some repo
request_repo (ClientMessage.subtree id repo h) = some repo
request_repo (ClientMessage.get_ref id repo name) = some repo
request_repo (ClientMessage.delete_ref id repo name) = some repo
request_repo (ClientMessage.list_refs id repo prefix) = some repo
request_repo (ClientMessage.set_ref id repo name h) = some repo
request_repo (ClientMessage.cas_ref id repo name expected h) = some repo
request_repo (ClientMessage.begin_transaction id repo) = some repo
request_repo (ClientMessage.tx_put id tx h o) = none
request_repo (ClientMessage.tx_commit id tx) = none
request_repo (ClientMessage.tx_rollback id tx) = none

module _ {S T : Type 0} where
  abbrev pub sent_to : ConnectionId → Server S T → List ServerMessage
  sent_to c sv = sent_of (lookup c sv.connections)

  abbrev pub subscribed : ConnectionId → String → Server S T → Bool
  subscribed c repo sv = contains (repos_of (lookup c sv.connections)) repo

  pub broadcast-sent :
      (origin c : ConnectionId) (repo name : String) (old new : Option ContentHash)
      (sv : Server S T)
      → IsConsistent sv
      → sent_to c (broadcast_ref_updated origin repo name old new sv) ≡ (
          if not (c == origin) && subscribed c repo sv
          then sent_to c sv ++ ref_updated repo name old new ∷ []
          else sent_to c sv)
  unfolding broadcast_ref_updated
  broadcast-sent origin c repo name old new sv good =
      let ids : List ConnectionId = members (lookup repo sv.subscribers) in
      let told =
        notify-sent origin c (ref_updated repo name old new) ids sv.connections (good.once repo) in
      let agrees : contains ids c ≡ subscribed c repo sv = good.agrees c repo in
      ground (arith, told, agrees, Option-cases (lookup c sv.connections))

  pub subscribe-sent :
      (conn c : ConnectionId) (repo r : String) (sv : Server S T)
      → (sent_to c (subscribe conn repo sv) ≡ sent_to c sv)
        × (c ≢ conn → subscribed c r (subscribe conn repo sv) ≡ subscribed c r sv)
  unfolding subscribe note_repo add_subscriber
  subscribe-sent conn c repo r sv = elim (Option-cases (lookup conn sv.connections)) [
    | inl gone ↦ rw gone (refl, λ apart. refl)
    | inr (state, known) ↦ elim (Bool-cases (contains state.subscribed_repos repo)) [
      | inl old ↦ rw (known, old) (refl, λ apart. refl)
      | inr fresh ↦
          let there =
            lookup-insert c conn (record state { subscribed_repos = repo ∷ state.subscribed_repos })
              sv.connections in
          rw (known, fresh)
            (
              ground (arith, known, there, ==_iff conn c),
              λ apart. ground (arith, known, there, apart, ==_iff conn c),
            )
    ]
  ]

  module _ (store : Served S T) (texts : Texts) (conn c : ConnectionId) where
    -- On a consistent server that has the repository, setting a ref with success sends to each
    -- subscriber other than the sender exactly one notification, with the ref's value before and
    -- after, and nothing to anyone else.
    pub set_ref-told :
        (id : MessageId) (repo name : String) (h : ContentHash) (sv : Server S T) (s : S)
        → IsConsistent sv
        → lookup repo sv.repos ≡ some s
        → (store.set_ref name h s).0 ≡ ok tt
        → sent_to c (handle store texts conn (ClientMessage.set_ref id repo name h) sv).1 ≡ (
            if not (c == conn) && subscribed c repo sv
            then sent_to c sv
              ++ ref_updated repo name (old_value store texts (store.get_ref s name)) (some h) ∷ []
            else sent_to c sv)
    unfolding handle handle_set_ref resolve_store
    set_ref-told id repo name h sv s good there set = rw there (go (store.set_ref name h s) set)
      where
        next : Server S T
        next = subscribe conn repo sv

        old : Option ContentHash
        old = old_value store texts (store.get_ref s name)

        go :
            (written : Result (Unit {0}) × S)
            → written.0 ≡ ok tt
            → sent_to c
                (wrote store texts id repo written
                  (λ u sv. (ref_set id ∷ [], broadcast_ref_updated conn repo name old (some h) sv))
                  next).1
              ≡ (if not (c == conn) && subscribed c repo sv
                  then sent_to c sv ++ ref_updated repo name old (some h) ∷ []
                  else sent_to c sv)
        go (ok u, s) e =
            let after : Server S T = record next { repos = insert repo s next.repos } in
            let exact = broadcast-sent conn c repo name old (some h) after (
              repos-IsConsistent (insert repo s next.repos) next
                (subscribe-IsConsistent conn repo sv good)) in
            let same = subscribe-sent conn c repo repo sv in
            ground (arith, exact, same.0, same.1, ==_iff c conn)
        go (err x, s) e = cc
        go (out_of_fuel, s) e = cc
