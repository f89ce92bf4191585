-- ===== src/Remote/Server/Replies.antt =====
-- What a request is answered with.
use clayers.Prelude.{
  ◌≡◌, ◌≢◌, refl, inl, inr, String, Bool, true, false, not, ◌&&◌, Option, none, some, List, [], ◌∷◌,
  ◌++◌, ◌==◌, ==_refl, nat_eq, string_eq, option_eq, arith, Bool-cases, Option-cases,
}
use clayers.Prelude.Dict.{lookup, insert}
use clayers.Error.{ContentHash, Result, ok, err, out_of_fuel}
use clayers.Object.{Object}
use clayers.Remote.Protocol.{
  MessageId, TxId, ClientMessage, request_id, ServerMessage, reply_id, subtree_item, subtree_end,
}
use clayers.Remote.Server.{Served, ConnectionId, TxState, Server, subscribe}
use clayers.Remote.Server.Handlers.{
  Texts, Handled, reply, mapped, acknowledge, items, resolve_store, with_store, handle_subtree,
  wrote, handle_set_ref, handle_delete_ref, handle_cas_ref, handle_begin_tx, begun, when_owned,
  put_in, commit_in, commit_at, committed, rolled_back, handle_tx_put, handle_tx_commit,
  handle_tx_rollback, handle,
}

-- A store whose calls all return.
pub record Returns {S T : Type 0} (store : Served S T) : Type 0 where
  pub get : (s : S) (h : ContentHash) → store.get s h ≢ out_of_fuel
  pub contains : (s : S) (h : ContentHash) → store.contains s h ≢ out_of_fuel
  pub by_inclusive_hash : (s : S) (h : ContentHash) → store.get_by_inclusive_hash s h ≢ out_of_fuel
  pub subtree : (s : S) (h : ContentHash) → (store.subtree s h).ending ≢ out_of_fuel
  pub get_ref : (s : S) (name : String) → store.get_ref s name ≢ out_of_fuel
  pub list_refs : (s : S) (prefix : String) → store.list_refs s prefix ≢ out_of_fuel
  pub set_ref : (name : String) (h : ContentHash) (s : S) → (store.set_ref name h s).0 ≢ out_of_fuel
  pub delete_ref : (name : String) (s : S) → (store.delete_ref name s).0 ≢ out_of_fuel
  pub cas_ref :
      (name : String) (old : Option ContentHash) (h : ContentHash) (s : S)
      → (store.cas_ref name old h s).0 ≢ out_of_fuel
  pub begin : (s : S) → store.begin s ≢ out_of_fuel
  pub put : (h : ContentHash) (o : Object) (t : T) → (store.put h o t).0 ≢ out_of_fuel
  pub commit : (t : T) (s : S) → (store.commit t s).0 ≢ out_of_fuel
  pub rollback : (t : T) → (store.rollback t).0 ≢ out_of_fuel

abbrev is_item : ServerMessage → Bool
is_item (subtree_item id h o) = true
is_item _ = false

abbrev pub is_subtree_request : ClientMessage → Bool
is_subtree_request (ClientMessage.subtree id repo h) = true
is_subtree_request _ = false

abbrev carries : MessageId → ServerMessage → Bool
carries id m = reply_id m == some id

-- Messages that all carry the request's number; the last is no item of a stream, and what comes before
-- it, for a stream only, is.
unfoldable pub answers : Bool → MessageId → List ServerMessage → Bool
answers stream id [] = false
answers stream id (m ∷ []) = carries id m && not (is_item m)
answers stream id (m ∷ n ∷ rest) =
    ((stream && carries id m) && is_item m) && answers stream id (n ∷ rest)

module _ {S T : Type 0} (store : Served S T) (texts : Texts) (conn : ConnectionId) where
  mapped-answers :
      {A : Type 0} (b : Bool) (id : MessageId) (g : A → ServerMessage) (r : Result A)
      → ((a : A) → answers b id (g a ∷ []) ≡ true)
      → r ≢ out_of_fuel
      → answers b id (reply store texts id (mapped store texts g r)) ≡ true
  unfolding answers reply_id
  mapped-answers b id g (ok a) each some_result = each a
  mapped-answers b id g (err e) each some_result = ground (arith, ==_refl id)
  mapped-answers b id g out_of_fuel each some_result = absurd (some_result refl)

  stream-answers :
      (id : MessageId) (found : List (ContentHash × Object)) (r : Result (Unit {0}))
      → r ≢ out_of_fuel
      → answers true id (
          items store texts id found
          ++ reply store texts id (mapped store texts (λ u. subtree_end id) r))
        ≡ true
  unfolding answers reply_id
  stream-answers id [] r fine =
      mapped-answers true id (λ u. subtree_end id) r (λ u. ground (arith, ==_refl id)) fine
  stream-answers id ((h, o) ∷ found) r fine =
      more
        (items store texts id found
          ++ reply store texts id (mapped store texts (λ u. subtree_end id) r))
        (stream-answers id found r fine)
    where
      more :
          (rest : List ServerMessage)
          → answers true id rest ≡ true
          → answers true id (subtree_item id h o ∷ rest) ≡ true
      more [] e = cc
      more (m ∷ rest) e = ground (arith, e, ==_refl id)

  resolve_store-answers :
      (b : Bool) (id : MessageId) (repo : String) (f : S → Server S T → Handled store texts)
      (sv : Server S T)
      → ((s : S) (next : Server S T) → answers b id (f s next).0 ≡ true)
      → answers b id (resolve_store store texts conn id repo f sv).0 ≡ true
  unfolding resolve_store answers reply_id
  resolve_store-answers b id repo f sv each = elim (Option-cases (lookup repo sv.repos)) [
    | inl gone ↦ rw gone ground (arith, ==_refl id)
    | inr (s, known) ↦ rw known (each s (subscribe conn repo sv))
  ]

  with_store-answers :
      {A : Type 0} (id : MessageId) (repo : String) (g : A → ServerMessage) (call : S → Result A)
      (sv : Server S T)
      → ((a : A) → answers false id (g a ∷ []) ≡ true)
      → ((s : S) → call s ≢ out_of_fuel)
      → answers false id
          (with_store store texts conn id repo (λ s. mapped store texts g (call s)) sv).0
        ≡ true
  unfolding with_store
  with_store-answers id repo g call sv each fine =
      resolve_store-answers false id repo _ sv
        (λ s next. mapped-answers false id g (call s) each (fine s))

  wrote-answers :
      {A : Type 0} (id : MessageId) (repo : String) (written : Result A × S)
      (f : A → Server S T → Handled store texts) (sv : Server S T)
      → written.0 ≢ out_of_fuel
      → ((a : A) (next : Server S T) → answers false id (f a next).0 ≡ true)
      → answers false id (wrote store texts id repo written f sv).0 ≡ true
  unfolding answers reply_id
  wrote-answers id repo (ok a, s) f sv fine each =
      each a (record sv { repos = insert repo s sv.repos })
  wrote-answers id repo (err e, s) f sv fine each = ground (arith, ==_refl id)
  wrote-answers id repo (out_of_fuel, s) f sv fine each = absurd (fine refl)

  begun-answers :
      (id : MessageId) (repo : String) (sv : Server S T) (r : Result T)
      → r ≢ out_of_fuel
      → answers false id (begun store texts conn id repo sv r).0 ≡ true
  unfolding answers reply_id
  begun-answers id repo sv (ok t) fine = ground (arith, ==_refl id)
  begun-answers id repo sv (err e) fine = ground (arith, ==_refl id)
  begun-answers id repo sv out_of_fuel fine = absurd (fine refl)

  when_owned-answers :
      (id : MessageId) (tx : TxId) (f : TxState T → Server S T → Handled store texts)
      (sv : Server S T)
      → ((mine : TxState T) → answers false id (f mine sv).0 ≡ true)
      → answers false id (when_owned store texts conn id tx f sv (lookup tx sv.transactions)).0
        ≡ true
  unfolding answers reply_id
  when_owned-answers id tx f sv each = elim (Option-cases (lookup tx sv.transactions)) [
    | inl gone ↦ rw gone ground (arith, ==_refl id)
    | inr (mine, known) ↦ elim (Bool-cases (mine.connection_id == conn)) [
      | inl owned ↦ rw (known, owned) (each mine)
      | inr other ↦ rw (known, other) ground (arith, ==_refl id)
    ]
  ]

  commit_in-answers :
      (id : MessageId) (tx : TxId) (mine : TxState T) (sv : Server S T) (o : Option S)
      → Returns store
      → answers false id (commit_in store texts id tx mine sv o).0 ≡ true
  unfolding answers reply_id
  commit_in-answers id tx mine sv none returns = ground (arith, ==_refl id)
  commit_in-answers id tx mine sv (some s) returns =
      go (store.commit mine.tx s) (returns.commit mine.tx s)
    where
      go :
          (r : Result (Unit {0}) × T × S)
          → r.0 ≢ out_of_fuel
          → answers false id (committed store texts id tx mine sv r).0 ≡ true
      go (r, t, s) fine =
          mapped-answers false id (acknowledge store texts id) r (λ u. ground (arith, ==_refl id))
            fine

  -- If the served store's calls all return, every message is answered: all replies carry its number,
  -- exactly the last one ends the answer, and only a subtree request gets more than one.
  pub handle-answers :
      (m : ClientMessage) (sv : Server S T)
      → Returns store
      → answers (is_subtree_request m) (request_id m) (handle store texts conn m sv).0 ≡ true
  unfolding handle handle_subtree handle_set_ref handle_delete_ref handle_cas_ref handle_begin_tx
      handle_tx_put handle_tx_commit handle_tx_rollback answers reply_id
  handle-answers (ClientMessage.list_repositories id) sv returns = ground (arith, ==_refl id)
  handle-answers (ClientMessage.get id repo h) sv returns =
      with_store-answers id repo _ (λ s. store.get s h) sv (λ a. ground (arith, ==_refl id))
        (λ s. returns.get s h)
  handle-answers (ClientMessage.contains id repo h) sv returns =
      with_store-answers id repo _ (λ s. store.contains s h) sv (λ a. ground (arith, ==_refl id))
        (λ s. returns.contains s h)
  handle-answers (ClientMessage.get_by_inclusive_hash id repo h) sv returns =
      with_store-answers id repo _ (λ s. store.get_by_inclusive_hash s h) sv
        (λ a. ground (arith, ==_refl id)) (λ s. returns.by_inclusive_hash s h)
  handle-answers (ClientMessage.subtree id repo root) sv returns =
      resolve_store-answers true id repo _ sv (λ s next.
        stream-answers id (store.subtree s root).items (store.subtree s root).ending
          (returns.subtree s root))
  handle-answers (ClientMessage.get_ref id repo name) sv returns =
      with_store-answers id repo _ (λ s. store.get_ref s name) sv (λ a. ground (arith, ==_refl id))
        (λ s. returns.get_ref s name)
  handle-answers (ClientMessage.list_refs id repo prefix) sv returns =
      with_store-answers id repo _ (λ s. store.list_refs s prefix) sv
        (λ a. ground (arith, ==_refl id)) (λ s. returns.list_refs s prefix)
  handle-answers (ClientMessage.set_ref id repo name h) sv returns =
      resolve_store-answers false id repo _ sv (λ s next.
        wrote-answers id repo (store.set_ref name h s) _ next (returns.set_ref name h s)
          (λ u last. ground (arith, ==_refl id)))
  handle-answers (ClientMessage.delete_ref id repo name) sv returns =
      resolve_store-answers false id repo _ sv (λ s next.
        wrote-answers id repo (store.delete_ref name s) _ next (returns.delete_ref name s)
          (λ u last. ground (arith, ==_refl id)))
  handle-answers (ClientMessage.cas_ref id repo name expected h) sv returns =
      resolve_store-answers false id repo _ sv (λ s next.
        wrote-answers id repo (store.cas_ref name expected h s) _ next
          (returns.cas_ref name expected h s) (λ swapped last. ground (arith, ==_refl id)))
  handle-answers (ClientMessage.begin_transaction id repo) sv returns =
      resolve_store-answers false id repo _ sv
        (λ s next. begun-answers id repo next (store.begin s) (returns.begin s))
  handle-answers (ClientMessage.tx_put id tx h o) sv returns =
      when_owned-answers id tx (put_in store texts id tx h o) sv (λ mine.
        mapped-answers false id (acknowledge store texts id) (store.put h o mine.tx).0
          (λ u. ground (arith, ==_refl id)) (returns.put h o mine.tx))
  handle-answers (ClientMessage.tx_commit id tx) sv returns =
      when_owned-answers id tx (commit_at store texts id tx) sv
        (λ mine. commit_in-answers id tx mine sv (lookup mine.repo sv.repos) returns)
  handle-answers (ClientMessage.tx_rollback id tx) sv returns =
      when_owned-answers id tx (rolled_back store texts id tx) sv (λ mine.
        mapped-answers false id (acknowledge store texts id) (store.rollback mine.tx).0
          (λ u. ground (arith, ==_refl id)) (returns.rollback mine.tx))
