-- ===== src/Remote/Client/Agreement.antt =====
-- A remote store's operations against those of the store that is served.
use clayers.Prelude.{
  ◌≡◌, refl, ap, ◌∙◌, inl, inr, String, Bool, true, false, Option, some, List, [], ◌∷◌, contains,
  ==_iff, ==_refl, nat_eq, string_eq, option_eq, if◌then◌else◌, arith, Bool-cases, Option-cases,
}
use clayers.Prelude.Dict.{Dict, lookup, insert}
use clayers.Error.{ContentHash, storage, Result, ok, err, out_of_fuel}
use clayers.Remote.Protocol.{
  MessageId, ClientMessage, ServerMessage, reply_id, failed, object_reply, contains_reply,
  object_with_hash, ref_reply, ref_list, ref_set, ref_deleted, cas_result,
}
use clayers.Remote.Server.{
  Served, ConnectionId, Server, subscribe, note_repo, add_subscriber, broadcast_ref_updated,
}
use clayers.Remote.Server.Handlers.{
  Texts, Handled, reply, mapped, old_value, resolve_store, with_store, wrote, handle,
  handle_set_ref, handle_delete_ref, handle_cas_ref,
}
use clayers.Remote.Client.{
  Client, Wire, awaited, read, call, as_object, as_exists, as_pair, as_ref, as_refs, as_ref_set,
  as_ref_deleted, as_swapped, get, contains_object, get_by_inclusive_hash, get_ref, list_refs,
  set_ref, delete_ref, cas_ref,
}
use clayers.Remote.Client.Reader.{first_for}
use clayers.Remote.Client.Connected.{connected, are_notes, IsFresh, at_distance, call-connected}

subscribe-repos :
    {S T : Type 0} (conn : ConnectionId) (repo : String) (sv : Server S T)
    → (subscribe conn repo sv).repos ≡ sv.repos
unfolding subscribe note_repo add_subscriber
subscribe-repos conn repo sv = elim (Option-cases (lookup conn sv.connections)) [
  | inl gone ↦ rw gone refl
  | inr (state, known) ↦ elim (Bool-cases (contains state.subscribed_repos repo)) [
    | inl old ↦ rw (known, old) refl
    | inr fresh ↦ rw (known, fresh) refl
  ]
]

-- A call's result as the client sees it, and the stores that it leaves.
abbrev pub Agrees :
    {S T A : Type 0} → Texts → Result A × Client × Server S T → Result A → Dict String S → Type 0
Agrees texts did local repos = (did.0 ≡ at_distance texts local) × (did.2.repos ≡ repos)

module _ {S T : Type 0} (store : Served S T) (texts : Texts) (conn : ConnectionId)
    (notes : List ServerMessage) where
  abbrev IsRead :
      {A : Type 0} → MessageId → (A → ServerMessage) → (ServerMessage → Result A) → Type 0
  IsRead {A} id g f =
      ((a : A) → (reply_id (g a) ≡ some id) × (f (g a) ≡ ok a))
      × ((text : String) → f (failed id text) ≡ err (storage text))

  read-reply :
      {A : Type 0} (id : MessageId) (g : A → ServerMessage) (f : ServerMessage → Result A)
      (r : Result A)
      → IsRead id g f
      → read f (awaited (first_for id (reply store texts id (mapped store texts g r))))
        ≡ at_distance texts r
  unfolding reply_id
  read-reply id g f (ok a) (each, other) = ground (arith, each a, ==_iff (reply_id (g a)) (some id))
  read-reply id g f (err e) (each, other) = ground (arith, other (texts.describe e), ==_refl id)
  read-reply id g f out_of_fuel (each, other) = refl

  read-with_store :
      {A : Type 0} (m : MessageId → ClientMessage) (g : A → ServerMessage)
      (f : ServerMessage → Result A) (local : S → Result A) (c : Client) (sv : Server S T) (s : S)
      → are_notes notes ≡ true
      → IsFresh c
      → lookup c.repo sv.repos ≡ some s
      → handle store texts conn (m c.next_id) sv
        ≡ with_store store texts conn c.next_id c.repo (λ s. mapped store texts g (local s)) sv
      → IsRead c.next_id g f
      → ((call (connected store texts conn notes) m f c sv).0 ≡ at_distance texts (local s))
        × ((call (connected store texts conn notes) m f c sv).2.repos ≡ sv.repos)
  unfolding with_store resolve_store
  read-with_store m g f local c sv s quiet fresh there handled isread =
      let met = call-connected store texts conn notes m f c sv quiet fresh in
      let same : handle store texts conn (m c.next_id) sv ≡ (
        reply store texts c.next_id (mapped store texts g (local s)),
        subscribe conn c.repo sv,
      ) =
        handled ∙ rw there refl in
      (
        met.0
            ∙ ap (λ r. read f (awaited (first_for c.next_id r.0))) same
            ∙ read-reply c.next_id g f (local s) isread,
        ap (λ n. n.repos) met.1 ∙ ap (λ r. r.1.repos) same ∙ subscribe-repos conn c.repo sv,
      )

  reads-Agrees :
      (c : Client) (sv : Server S T) (s : S) (h : ContentHash) (name : String)
      → are_notes notes ≡ true
      → IsFresh c
      → lookup c.repo sv.repos ≡ some s
      → let wire : Wire (Server S T) = connected store texts conn notes in
        Agrees texts (get wire h c sv) (store.get s h) sv.repos
        × Agrees texts (contains_object wire h c sv) (store.contains s h) sv.repos
        × Agrees texts
            (get_by_inclusive_hash wire h c sv)
            (store.get_by_inclusive_hash s h)
            sv.repos
        × Agrees texts (get_ref wire name c sv) (store.get_ref s name) sv.repos
        × Agrees texts (list_refs wire name c sv) (store.list_refs s name) sv.repos
  unfolding get contains_object get_by_inclusive_hash get_ref list_refs handle reply_id
  reads-Agrees c sv s h name quiet fresh there = (
    read-with_store (λ id. ClientMessage.get id c.repo h) (object_reply c.next_id) as_object
        (λ s. store.get s h) c sv s quiet fresh there refl (λ a. (refl, refl), λ text. refl),
    read-with_store (λ id. ClientMessage.contains id c.repo h) (contains_reply c.next_id) as_exists
        (λ s. store.contains s h) c sv s quiet fresh there refl (λ a. (refl, refl), λ text. refl),
    read-with_store (λ id. ClientMessage.get_by_inclusive_hash id c.repo h)
        (object_with_hash c.next_id) as_pair (λ s. store.get_by_inclusive_hash s h) c sv s quiet
        fresh there refl (λ a. (refl, refl), λ text. refl),
    read-with_store (λ id. ClientMessage.get_ref id c.repo name) (ref_reply c.next_id) as_ref
        (λ s. store.get_ref s name) c sv s quiet fresh there refl (λ a. (refl, refl), λ text. refl),
    read-with_store (λ id. ClientMessage.list_refs id c.repo name) (ref_list c.next_id) as_refs
        (λ s. store.list_refs s name) c sv s quiet fresh there refl
        (λ a. (refl, refl), λ text. refl),
  )

  read-wrote :
      {A : Type 0} (id : MessageId) (repo : String) (g : A → ServerMessage)
      (f : ServerMessage → Result A) (written : Result A × S)
      (then_tell : A → Server S T → Server S T) (sv : Server S T)
      → IsRead id g f
      → ((a : A) (next : Server S T) → (then_tell a next).repos ≡ next.repos)
      → let done_so : Handled store texts =
          wrote store texts id repo written (λ a sv. (g a ∷ [], then_tell a sv)) sv in
        (read f (awaited (first_for id done_so.0)) ≡ at_distance texts written.0)
        × (done_so.1.repos ≡ insert repo written.1 sv.repos)
  unfolding reply_id
  read-wrote id repo g f (ok a, s) then_tell sv (each, other) same = (
    ground (arith, each a, ==_iff (reply_id (g a)) (some id)),
    same a (record sv { repos = insert repo s sv.repos }),
  )
  read-wrote id repo g f (err e, s) then_tell sv (each, other) same =
      (ground (arith, other (texts.describe e), ==_refl id), refl)
  read-wrote id repo g f (out_of_fuel, s) then_tell sv (each, other) same = (refl, refl)

  write-agrees :
      {A : Type 0} (m : MessageId → ClientMessage) (g : A → ServerMessage)
      (f : ServerMessage → Result A) (local : S → Result A × S)
      (then_tell : S → A → Server S T → Server S T) (c : Client) (sv : Server S T) (s : S)
      → are_notes notes ≡ true
      → IsFresh c
      → lookup c.repo sv.repos ≡ some s
      → handle store texts conn (m c.next_id) sv
        ≡ resolve_store store texts conn c.next_id c.repo
            (λ s.
              wrote store texts c.next_id c.repo (local s) (λ a sv. (g a ∷ [], then_tell s a sv)))
            sv
      → IsRead c.next_id g f
      → ((a : A) (next : Server S T) → (then_tell s a next).repos ≡ next.repos)
      → ((call (connected store texts conn notes) m f c sv).0 ≡ at_distance texts (local s).0)
        × ((call (connected store texts conn notes) m f c sv).2.repos
            ≡ insert c.repo (local s).1 sv.repos)
  unfolding resolve_store
  write-agrees m g f local then_tell c sv s quiet fresh there handled isread same =
      let met = call-connected store texts conn notes m f c sv quiet fresh in
      let next : Server S T = subscribe conn c.repo sv in
      let is : handle store texts conn (m c.next_id) sv
          ≡ wrote store texts c.next_id c.repo (local s) (λ a sv. (g a ∷ [], then_tell s a sv))
              next =
        handled ∙ rw there refl in
      let last = read-wrote c.next_id c.repo g f (local s) (then_tell s) next isread same in
      (
        met.0 ∙ ap (λ r. read f (awaited (first_for c.next_id r.0))) is ∙ last.0,
        ap (λ n. n.repos) met.1
            ∙ ap (λ r. r.1.repos) is
            ∙ last.1
            ∙ ap (insert c.repo (local s).1) (subscribe-repos conn c.repo sv),
      )

  writes-Agrees :
      (c : Client) (sv : Server S T) (s : S) (name : String) (expected : Option ContentHash)
      (h : ContentHash)
      → are_notes notes ≡ true
      → IsFresh c
      → lookup c.repo sv.repos ≡ some s
      → let wire : Wire (Server S T) = connected store texts conn notes in
        Agrees texts
          (set_ref wire name h c sv)
          (store.set_ref name h s).0
          (insert c.repo (store.set_ref name h s).1 sv.repos)
        × Agrees texts
            (delete_ref wire name c sv)
            (store.delete_ref name s).0
            (insert c.repo (store.delete_ref name s).1 sv.repos)
        × Agrees texts
            (cas_ref wire name expected h c sv)
            (store.cas_ref name expected h s).0
            (insert c.repo (store.cas_ref name expected h s).1 sv.repos)
  unfolding set_ref delete_ref cas_ref handle handle_set_ref handle_delete_ref handle_cas_ref
      broadcast_ref_updated reply_id
  writes-Agrees c sv s name expected h quiet fresh there = (
    write-agrees (λ id. ClientMessage.set_ref id c.repo name h) (λ u. ref_set c.next_id) as_ref_set
        (store.set_ref name h) _ c sv s quiet fresh there refl (λ u. (refl, refl), λ text. refl)
        (λ u next. refl),
    write-agrees (λ id. ClientMessage.delete_ref id c.repo name) (λ u. ref_deleted c.next_id)
        as_ref_deleted (store.delete_ref name) _ c sv s quiet fresh there refl
        (λ u. (refl, refl), λ text. refl) (λ u next. refl),
    write-agrees (λ id. ClientMessage.cas_ref id c.repo name expected h) (cas_result c.next_id)
        as_swapped (store.cas_ref name expected h) _ c sv s quiet fresh there refl
        (λ b. (refl, refl), λ text. refl) swapped,
  )
    where
      swapped :
          (b : Bool) (next : Server S T)
          → (if b
              then broadcast_ref_updated conn c.repo name
                  (old_value store texts (store.get_ref s name))
                  (some h)
                  next
              else next).repos
            ≡ next.repos
      swapped true next = refl
      swapped false next = refl

  -- Of a connected client whose next numbers are free, for a repository that the server has and
  -- behind any notifications: get, contains, get_by_inclusive_hash, get_ref, list_refs, set_ref,
  -- delete_ref and cas_ref each give what the served store's operation gives, an error as a storage
  -- error with its text; those that read change no store, and those that write leave that store as
  -- its operation leaves it and the others unchanged.
  pub remote_store_lem :
      (c : Client) (sv : Server S T) (s : S) (name : String) (expected : Option ContentHash)
      (h : ContentHash)
      → are_notes notes ≡ true
      → IsFresh c
      → lookup c.repo sv.repos ≡ some s
      → let wire : Wire (Server S T) = connected store texts conn notes in
        (Agrees texts (get wire h c sv) (store.get s h) sv.repos
          × Agrees texts (contains_object wire h c sv) (store.contains s h) sv.repos
          × Agrees texts
              (get_by_inclusive_hash wire h c sv)
              (store.get_by_inclusive_hash s h)
              sv.repos
          × Agrees texts (get_ref wire name c sv) (store.get_ref s name) sv.repos
          × Agrees texts (list_refs wire name c sv) (store.list_refs s name) sv.repos)
        × (Agrees texts
              (set_ref wire name h c sv)
              (store.set_ref name h s).0
              (insert c.repo (store.set_ref name h s).1 sv.repos)
            × Agrees texts
                (delete_ref wire name c sv)
                (store.delete_ref name s).0
                (insert c.repo (store.delete_ref name s).1 sv.repos)
            × Agrees texts
                (cas_ref wire name expected h c sv)
                (store.cas_ref name expected h s).0
                (insert c.repo (store.cas_ref name expected h s).1 sv.repos))
  remote_store_lem c sv s name expected h quiet fresh there = (
    reads-Agrees c sv s h name quiet fresh there,
    writes-Agrees c sv s name expected h quiet fresh there,
  )
