-- ===== src/Remote/Server/Notified.antt =====
-- Who is told of a reference's update.
use clayers.Prelude.{
  ◌≡◌, ◌≢◌, refl, sym, ap, ◌∙◌, ◌⊎◌, inl, inr, String, Bool, true, false, not, ◌&&◌, Option, none,
  some, List, [], ◌∷◌, ◌++◌, ◌==◌, ==_iff, nat_eq, string_eq, if◌then◌else◌, arith, Bool-cases,
  Option-cases,
}
use clayers.Prelude.Dict.{lookup, insert}
use clayers.Error.{ContentHash, Result, ok, err, out_of_fuel}
use clayers.Remote.Protocol.{MessageId, TxId, ClientMessage, ServerMessage, ref_updated}
use clayers.Remote.Server.{Served, ConnectionId, TxState, Server, subscribe, broadcast_ref_updated}
use clayers.Remote.Server.Consistent.{IsConsistent, repos-IsConsistent, subscribe-IsConsistent}
use clayers.Remote.Server.Handlers.{
  Texts, Handled, resolve_store, with_store, handle_subtree, wrote, old_value, handle_set_ref,
  handle_delete_ref, handle_cas_ref, handle_begin_tx, begun, when_owned, put_in, commit_in,
  commit_at, committed, rolled_back, handle_tx_put, handle_tx_commit, handle_tx_rollback, handle,
}
use clayers.Remote.Server.Sent.{sent_to, subscribed, broadcast-sent, subscribe-sent, request_repo}

module _ {S T : Type 0} where
  -- The one connection is left as it was, or told of a reference of the repository that it subscribed to.
  abbrev IsTold : ConnectionId → ConnectionId → String → List ServerMessage → Server S T → Type 0
  IsTold origin c repo now sv =
      (now ≡ sent_to c sv)
      ⊎ ((name : String) × (old : Option ContentHash) × (new : Option ContentHash) × (c ≢ origin)
          × (subscribed c repo sv ≡ true)
          × (now ≡ sent_to c sv ++ ref_updated repo name old new ∷ []))

  broadcast-IsTold :
      (origin c : ConnectionId) (repo name : String) (old new : Option ContentHash)
      (sv : Server S T)
      → IsConsistent sv
      → IsTold origin c repo (sent_to c (broadcast_ref_updated origin repo name old new sv)) sv
  broadcast-IsTold origin c repo name old new sv good =
      let exact = broadcast-sent origin c repo name old new sv good in
      elim (Bool-cases (not (c == origin) && subscribed c repo sv)) [
        | inl both ↦ inr (
          name,
          old,
          new,
          ground (arith, both, ==_iff c origin),
          ground (arith, both),
          ground (arith, exact, both),
        )
        | inr none_such ↦ inl (ground (arith, exact, none_such))
      ]

  subscribe-IsTold :
      (conn c : ConnectionId) (repo : String) (now : List ServerMessage) (sv : Server S T)
      → IsTold conn c repo now (subscribe conn repo sv)
      → IsTold conn c repo now sv
  subscribe-IsTold conn c repo now sv told =
      let same = subscribe-sent conn c repo repo sv in
      elim told [
        | inl quiet ↦ inl (quiet ∙ same.0)
        | inr (name, old, new, apart, there, e) ↦ inr (
          name,
          old,
          new,
          apart,
          sym (same.1 apart) ∙ there,
          e ∙ ap (λ l. l ++ ref_updated repo name old new ∷ []) same.0,
        )
      ]

  module _ (store : Served S T) (texts : Texts) (conn c : ConnectionId) where
    resolve_store-IsTold :
        (id : MessageId) (repo : String) (f : S → Server S T → Handled store texts)
        (sv : Server S T)
        → IsConsistent sv
        → ((s : S) (next : Server S T)
            → IsConsistent next
            → IsTold conn c repo (sent_to c (f s next).1) next)
        → IsTold conn c repo (sent_to c (resolve_store store texts conn id repo f sv).1) sv
    unfolding resolve_store
    resolve_store-IsTold id repo f sv good each = elim (Option-cases (lookup repo sv.repos)) [
      | inl gone ↦ rw gone (inl refl)
      | inr (s, known) ↦ rw known (
          subscribe-IsTold conn c repo _ sv
            (each s (subscribe conn repo sv) (subscribe-IsConsistent conn repo sv good)))
    ]

    wrote-IsTold :
        {A : Type 0} (id : MessageId) (repo : String) (written : Result A × S)
        (f : A → Server S T → Handled store texts) (sv : Server S T)
        → IsConsistent sv
        → ((a : A) (next : Server S T)
            → IsConsistent next
            → IsTold conn c repo (sent_to c (f a next).1) next)
        → IsTold conn c repo (sent_to c (wrote store texts id repo written f sv).1) sv
    wrote-IsTold id repo (ok a, s) f sv good each =
        each a (record sv { repos = insert repo s sv.repos })
          (repos-IsConsistent (insert repo s sv.repos) sv good)
    wrote-IsTold id repo (err e, s) f sv good each = inl refl
    wrote-IsTold id repo (out_of_fuel, s) f sv good each = inl refl

    with_store-IsTold :
        (id : MessageId) (repo : String) (f : S → Result ServerMessage) (sv : Server S T)
        → IsConsistent sv
        → IsTold conn c repo (sent_to c (with_store store texts conn id repo f sv).1) sv
    unfolding with_store
    with_store-IsTold id repo f sv good =
        resolve_store-IsTold id repo _ sv good (λ s next fine. inl refl)

    begun-sent :
        (id : MessageId) (repo : String) (sv : Server S T) (r : Result T)
        → sent_to c (begun store texts conn id repo sv r).1 ≡ sent_to c sv
    begun-sent id repo sv (ok value) = refl
    begun-sent id repo sv (err e) = refl
    begun-sent id repo sv out_of_fuel = refl

    when_owned-sent :
        (id : MessageId) (tx : TxId) (f : TxState T → Server S T → Handled store texts)
        (sv : Server S T)
        → ((mine : TxState T) → sent_to c (f mine sv).1 ≡ sent_to c sv)
        → sent_to c (when_owned store texts conn id tx f sv (lookup tx sv.transactions)).1
          ≡ sent_to c sv
    when_owned-sent id tx f sv each = elim (Option-cases (lookup tx sv.transactions)) [
      | inl gone ↦ rw gone refl
      | inr (mine, known) ↦ elim (Bool-cases (mine.connection_id == conn)) [
        | inl owned ↦ rw (known, owned) (each mine)
        | inr other ↦ rw (known, other) refl
      ]
    ]

    commit_in-sent :
        (id : MessageId) (tx : TxId) (mine : TxState T) (sv : Server S T) (o : Option S)
        → sent_to c (commit_in store texts id tx mine sv o).1 ≡ sent_to c sv
    commit_in-sent id tx mine sv none = refl
    commit_in-sent id tx mine sv (some s) = go (store.commit mine.tx s)
      where
        go :
            (r : Result (Unit {0}) × T × S)
            → sent_to c (committed store texts id tx mine sv r).1 ≡ sent_to c sv
        go (r, t, s) = refl

    -- What `m` tells the one connection, if anything: one update of the repository that it names.
    abbrev IsToldOf : ClientMessage → List ServerMessage → Server S T → Type 0
    IsToldOf m now sv =
        (now ≡ sent_to c sv)
        ⊎ ((repo : String) × (name : String) × (old : Option ContentHash) × (new : Option
              ContentHash)
            × (request_repo m ≡ some repo)
            × (c ≢ conn)
            × (subscribed c repo sv ≡ true)
            × (now ≡ sent_to c sv ++ ref_updated repo name old new ∷ []))

    -- On a consistent server, a message sends at most one notification to any one connection, and
    -- only to one that is not the sender and has subscribed to the repository that the message
    -- names; the notification is of that repository.
    pub handle-told :
        (m : ClientMessage) (sv : Server S T)
        → IsConsistent sv
        → IsToldOf m (sent_to c (handle store texts conn m sv).1) sv
    unfolding handle handle_subtree handle_set_ref handle_delete_ref handle_cas_ref handle_begin_tx
        handle_tx_put handle_tx_commit handle_tx_rollback
    handle-told m sv good = go m
      where
        named :
            (now : List ServerMessage) (m : ClientMessage) (repo : String)
            → request_repo m ≡ some repo
            → IsTold conn c repo now sv
            → IsToldOf m now sv
        named now m repo e told = elim told [
          | inl quiet ↦ inl quiet
          | inr (name, old, new, apart, there, same) ↦
              inr (repo, name, old, new, e, apart, there, same)
        ]

        go : (m : ClientMessage) → IsToldOf m (sent_to c (handle store texts conn m sv).1) sv
        go (ClientMessage.list_repositories id) = inl refl
        go (ClientMessage.get id repo h) =
            named _ (ClientMessage.get id repo h) repo refl (with_store-IsTold id repo _ sv good)
        go (ClientMessage.contains id repo h) =
            named _ (ClientMessage.contains id repo h) repo refl
              (with_store-IsTold id repo _ sv good)
        go (ClientMessage.get_by_inclusive_hash id repo h) =
            named _ (ClientMessage.get_by_inclusive_hash id repo h) repo refl
              (with_store-IsTold id repo _ sv good)
        go (ClientMessage.subtree id repo root) =
            named _ (ClientMessage.subtree id repo root) repo refl
              (resolve_store-IsTold id repo _ sv good (λ s next fine. inl refl))
        go (ClientMessage.get_ref id repo name) =
            named _ (ClientMessage.get_ref id repo name) repo refl
              (with_store-IsTold id repo _ sv good)
        go (ClientMessage.list_refs id repo prefix) =
            named _ (ClientMessage.list_refs id repo prefix) repo refl
              (with_store-IsTold id repo _ sv good)
        go (ClientMessage.set_ref id repo name h) =
            named _ (ClientMessage.set_ref id repo name h) repo refl (
              resolve_store-IsTold id repo _ sv good (λ s next fine.
                wrote-IsTold id repo (store.set_ref name h s) _ next fine (λ u last sound.
                  broadcast-IsTold conn c repo name (old_value store texts (store.get_ref s name))
                    (some h) last sound)))
        go (ClientMessage.delete_ref id repo name) =
            named _ (ClientMessage.delete_ref id repo name) repo refl (
              resolve_store-IsTold id repo _ sv good (λ s next fine.
                wrote-IsTold id repo (store.delete_ref name s) _ next fine (λ u last sound.
                  broadcast-IsTold conn c repo name (old_value store texts (store.get_ref s name))
                    none last sound)))
        go (ClientMessage.cas_ref id repo name expected h) =
            named _ (ClientMessage.cas_ref id repo name expected h) repo refl (
              resolve_store-IsTold id repo _ sv good (λ s next fine.
                wrote-IsTold id repo (store.cas_ref name expected h s) _ next fine
                  (λ swapped last sound.
                    swap swapped last sound (old_value store texts (store.get_ref s name)))))
          where
            swap :
                (swapped : Bool) (last : Server S T)
                → IsConsistent last
                → (old : Option ContentHash)
                → IsTold conn c repo
                    (sent_to c (
                      if swapped
                      then broadcast_ref_updated conn repo name old (some h) last
                      else last))
                    last
            swap true last sound old = broadcast-IsTold conn c repo name old (some h) last sound
            swap false last sound old = inl refl
        go (ClientMessage.begin_transaction id repo) =
            named _ (ClientMessage.begin_transaction id repo) repo refl (
              resolve_store-IsTold id repo _ sv good
                (λ s next fine. inl (begun-sent id repo next (store.begin s))))
        go (ClientMessage.tx_put id tx h o) =
            inl (when_owned-sent id tx (put_in store texts id tx h o) sv (λ mine. refl))
        go (ClientMessage.tx_commit id tx) = inl (
            when_owned-sent id tx (commit_at store texts id tx) sv
              (λ mine. commit_in-sent id tx mine sv (lookup mine.repo sv.repos)))
        go (ClientMessage.tx_rollback id tx) =
            inl (when_owned-sent id tx (rolled_back store texts id tx) sv (λ mine. refl))
