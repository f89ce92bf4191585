-- ===== src/Remote/Server/Subscriptions.antt =====
-- What notifying and disconnecting do to connections, subscribers and transactions.
use clayers.Prelude.{
  ◌≡◌, refl, ap, ◌∙◌, ◌≢◌, inl, inr, String, true, false, not, ◌&&◌, none, some, List, [], ◌∷◌,
  ◌++◌, contains, distinct, distinct-without, with_member, without, contains-with_member,
  contains-without, ◌==◌, ==_iff, ==_refl, nat_eq, string_eq, if◌then◌else◌, arith, Bool-cases,
  Option-cases,
}
use clayers.Prelude.Dict.{Dict, lookup, remove, lookup-insert, lookup-remove}
use clayers.Store.Lawful.{is_some}
use clayers.Remote.Protocol.{TxId, ServerMessage}
use clayers.Remote.Server.{
  ConnectionId, TxState, ConnState, members, is_empty, unsubscribe, unsubscribe_one, send, notify,
  owned_by, roll_back_all, repos_of,
}

pub send-repos :
    (id c : ConnectionId) (m : ServerMessage) (conns : Dict ConnectionId ConnState)
    → (repos_of (lookup c (send id m (lookup id conns) conns)) ≡ repos_of (lookup c conns))
      × (is_some (lookup c (send id m (lookup id conns) conns)) ≡ is_some (lookup c conns))
send-repos id c m conns = elim (Option-cases (lookup id conns)) [
  | inl gone ↦ ground (arith, gone)
  | inr (state, there) ↦ ground (
    arith,
    there,
    lookup-insert c id (record state { sent = state.sent ++ m ∷ [] }) conns,
    ==_iff id c,
  )
]

-- Notifying changes neither who is there nor what they subscribed to.
pub notify-repos :
    (origin : ConnectionId) (m : ServerMessage) (ids : List ConnectionId)
    (conns : Dict ConnectionId ConnState) (c : ConnectionId)
    → (repos_of (lookup c (notify origin m ids conns)) ≡ repos_of (lookup c conns))
      × (is_some (lookup c (notify origin m ids conns)) ≡ is_some (lookup c conns))
unfolding notify
notify-repos origin m [] conns c = (refl, refl)
notify-repos origin m (id ∷ ids) conns c = elim (Bool-cases (id == origin)) [
  | inl same ↦ rw same (notify-repos origin m ids conns c)
  | inr other ↦
      let rest = notify-repos origin m ids (send id m (lookup id conns) conns) c in
      let one = send-repos id c m conns in rw other (rest.0 ∙ one.0, rest.1 ∙ one.1)
]

pub with_member-occupied : (c : ConnectionId) (ids : List ConnectionId) → with_member c ids ≢ []
with_member-occupied c ids e =
    ground (arith, ap (λ l. contains l c) e, contains-with_member c c ids, ==_refl c)

pub lookup-roll_back_all :
    {T : Type 0} (ids : List TxId) (txns : Dict TxId (TxState T)) (t : TxId)
    → lookup t (roll_back_all ids txns) ≡ (if contains ids t then none else lookup t txns)
unfolding roll_back_all
lookup-roll_back_all [] txns t = refl
lookup-roll_back_all (id ∷ ids) txns t =
    ground (arith, lookup-roll_back_all ids (remove id txns) t, lookup-remove t id txns)

-- What is left after a connection's transactions are gone belongs to others.
pub owned_by_lem :
    {T : Type 0} (conn : ConnectionId) (txns : Dict TxId (TxState T)) (t : TxId) (state : TxState T)
    → contains (owned_by conn txns) t ≡ false
    → lookup t txns ≡ some state
    → (state.connection_id == conn) ≡ false
unfolding owned_by lookup
owned_by_lem conn [] t state out there = cc
owned_by_lem conn ((id, first) ∷ txns) t state out there = elim (Bool-cases (id == t)) [
  | inl same ↦ ground (arith, same, out, there)
  | inr other ↦ ground (arith, other, out, there, owned_by_lem conn txns t state)
]

pub unsubscribe_one_lem :
    (conn c : ConnectionId) (repo r : String) (subs : Dict String (List ConnectionId))
    → contains (members (lookup r (unsubscribe_one conn repo subs (lookup repo subs)))) c
      ≡ (not ((conn == c) && (repo == r)) && contains (members (lookup r subs)) c)
unsubscribe_one_lem conn c repo r subs = elim (Option-cases (lookup repo subs)) [
  | inl gone ↦ rw gone ground (arith, gone, ==_iff repo r, ==_iff conn c)
  | inr (ids, there) ↦ elim (Bool-cases (is_empty (without conn ids))) [
    | inl empty ↦
        rw (there, empty) ground
          (
            arith,
            there,
            empty,
            lookup-remove r repo subs,
            contains-without conn c ids,
            ==_iff repo r,
            is_empty_lem (without conn ids) c,
          )
    | inr more ↦
        rw (there, more) ground
          (
            arith,
            there,
            lookup-insert r repo (without conn ids) subs,
            contains-without conn c ids,
            ==_iff repo r,
          )
  ]
]
  where
    is_empty_lem :
        (ids : List ConnectionId) (c : ConnectionId) → is_empty ids ≡ true → contains ids c ≡ false
    is_empty_lem [] c e = refl
    is_empty_lem (x ∷ ids) c e = cc

pub unsubscribe_lem :
    (conn c : ConnectionId) (repos : List String) (r : String)
    (subs : Dict String (List ConnectionId))
    → contains (members (lookup r (unsubscribe conn repos subs))) c
      ≡ (not ((conn == c) && contains repos r) && contains (members (lookup r subs)) c)
unfolding unsubscribe
unsubscribe_lem conn c [] r subs = ground arith
unsubscribe_lem conn c (repo ∷ repos) r subs = ground (
  arith,
  unsubscribe_lem conn c repos r (unsubscribe_one conn repo subs (lookup repo subs)),
  unsubscribe_one_lem conn c repo r subs,
)

pub unsubscribe-occupied :
    (conn : ConnectionId) (repos : List String) (subs : Dict String (List ConnectionId))
    → ((r : String) → lookup r subs ≢ some [])
    → (r : String) → lookup r (unsubscribe conn repos subs) ≢ some []
unfolding unsubscribe
unsubscribe-occupied conn [] subs full r = full r
unsubscribe-occupied conn (repo ∷ repos) subs full r =
    unsubscribe-occupied conn repos (unsubscribe_one conn repo subs (lookup repo subs)) one r
  where
    one : (r : String) → lookup r (unsubscribe_one conn repo subs (lookup repo subs)) ≢ some []
    one r = elim (Option-cases (lookup repo subs)) [
      | inl gone ↦ rw gone (full r)
      | inr (ids, there) ↦ elim (Bool-cases (is_empty (without conn ids))) [
        | inl empty ↦ rw (there, empty) ground (arith, full r, lookup-remove r repo subs)
        | inr more ↦
            rw (there, more) ground
              (arith, full r, lookup-insert r repo (without conn ids) subs, more)
      ]
    ]

pub unsubscribe-distinct :
    (conn : ConnectionId) (repos : List String) (subs : Dict String (List ConnectionId))
    → ((r : String) → distinct (members (lookup r subs)) ≡ true)
    → (r : String) → distinct (members (lookup r (unsubscribe conn repos subs))) ≡ true
unfolding unsubscribe
unsubscribe-distinct conn [] subs each r = each r
unsubscribe-distinct conn (repo ∷ repos) subs each r =
    unsubscribe-distinct conn repos (unsubscribe_one conn repo subs (lookup repo subs)) one r
  where
    one :
        (r : String)
        → distinct (members (lookup r (unsubscribe_one conn repo subs (lookup repo subs)))) ≡ true
    one r = elim (Option-cases (lookup repo subs)) [
      | inl gone ↦ rw gone (each r)
      | inr (ids, there) ↦ elim (Bool-cases (is_empty (without conn ids))) [
        | inl empty ↦ rw (there, empty) ground (arith, each r, lookup-remove r repo subs)
        | inr more ↦
            rw (there, more) ground
              (
                arith,
                each r,
                each repo,
                there,
                lookup-insert r repo (without conn ids) subs,
                distinct-without conn ids,
              )
      ]
    ]
