-- ===== src/Remote/Client/Subtree.antt =====
-- `RemoteStore::subtree` (crates/clayers-repo/src/store/remote/client.rs), read to its end.
use clayers.Prelude.{
  ◌≡◌, refl, ap, ◌∙◌, Bool, true, not, none, some, List, [], ◌∷◌, ◌++◌, contains, with_member,
  contains-with_member, ==_iff, ==_refl, nat_eq, string_eq, option_eq, if◌then◌else◌, arith,
}
use clayers.Prelude.Dict.{lookup, insert, remove, lookup-insert}
use clayers.Error.{ContentHash, storage, Result, ok, err, out_of_fuel}
use clayers.Object.{Object}
use clayers.Store.{ObjectStream}
use clayers.Remote.Protocol.{
  MessageId, ClientMessage, ServerMessage, reply_id, subtree_item, subtree_end, failed,
}
use clayers.Remote.Server.{Served, ConnectionId, Server, next_u64}
use clayers.Remote.Server.Handlers.{
  Texts, reply, mapped, items, stream_messages, resolve_store, handle, handle_subtree,
}
use clayers.Remote.Client.{Client, Wire, alloc_id, in_channel, receive_all}
use clayers.Remote.Client.Streams.{stream_for, closed_for, receive_all-stream}
use clayers.Remote.Client.Connected.{connected, are_notes, IsFresh, at_distance}

-- What the consumer makes of the channel; on an open channel it waits for more, for ever.
abbrev pub consume : Bool → List ServerMessage → ObjectStream
consume is_open [] = record { items = []; ending = if is_open then out_of_fuel else ok tt }
consume is_open (subtree_item i h o ∷ ms) =
    let rest = consume is_open ms in record { items = (h, o) ∷ rest.items; ending = rest.ending }
consume is_open (failed i text ∷ ms) = record { items = []; ending = err (storage text) }
consume is_open (_ ∷ ms) = consume is_open ms

abbrev consumed :
    {N : Type 0} → MessageId → Client → Result (List ServerMessage) × N → ObjectStream × Client × N
consumed id c (ok ms, n) =
    let after = receive_all ms c in
    (
      consume (contains after.streams id) (in_channel (lookup id after.streamed)),
      record after { streamed = remove id after.streamed },
      n,
    )
consumed id c (err e, n) = (record { items = []; ending = err e }, c, n)
consumed id c (out_of_fuel, n) = (record { items = []; ending = out_of_fuel }, c, n)

unfoldable pub subtree :
    {N : Type 0} → Wire N → ContentHash → Client → N → ObjectStream × Client × N
subtree wire root c n =
    let (id, allocated) = alloc_id c in
    consumed id
      (record allocated {
        streams = with_member id allocated.streams;
        streamed = insert id [] allocated.streamed;
      })
      (wire.exchange (ClientMessage.subtree id c.repo root) n)

notes-stream :
    (id : MessageId) (notes ms : List ServerMessage)
    → are_notes notes ≡ true
    → (stream_for id (notes ++ ms) ≡ stream_for id ms)
      × (closed_for id (notes ++ ms) ≡ closed_for id ms)
notes-stream id [] ms quiet = (refl, refl)
notes-stream id (n ∷ notes) ms quiet =
    let rest = notes-stream id notes ms in
    ground (arith, quiet, rest, ==_iff (reply_id n) (some id), ==_iff (reply_id n) none)

module _ {S T : Type 0} (store : Served S T) (texts : Texts) (conn : ConnectionId)
    (notes : List ServerMessage) where
  -- Reading what a stream's channel gets of the server's messages gives the stream.
  consume-items :
      (id : MessageId) (found : List (ContentHash × Object)) (ending : Result (Unit {0}))
      → let ms : List ServerMessage =
          items store texts id found
          ++ reply store texts id (mapped store texts (λ u. subtree_end id) ending) in
        consume (not (closed_for id ms)) (stream_for id ms)
        ≡ record { items = found; ending = at_distance texts ending }
  unfolding reply_id
  consume-items id [] (ok tt) = ground (arith, ==_refl id)
  consume-items id [] (err e) = ground (arith, ==_refl id)
  consume-items id [] out_of_fuel = refl
  consume-items id ((h, o) ∷ found) ending =
      let rest = consume-items id found ending in
      rw (==_refl id) (ap (λ s. record { items = (h, o) ∷ s.items; ending = s.ending }) rest)

  -- Under the same conditions the remote subtree stream has the items of the served store's stream,
  -- in their order, and ends as that does, an error as a storage error with its text.
  pub remote_subtree_lem :
      (root : ContentHash) (c : Client) (sv : Server S T) (s : S)
      → are_notes notes ≡ true
      → IsFresh c
      → lookup c.repo sv.repos ≡ some s
      → (subtree (connected store texts conn notes) root c sv).0 ≡ record {
        items = (store.subtree s root).items;
        ending = at_distance texts (store.subtree s root).ending;
      }
  unfolding subtree connected alloc_id handle handle_subtree resolve_store
  remote_subtree_lem root c sv s quiet fresh there = rw there (go _ _ got.1 got.0)
    where
      waiting : Client
      waiting = record c {
        next_id = next_u64 c.next_id;
        streams = with_member c.next_id c.streams;
        streamed = insert c.next_id [] c.streamed;
      }

      ms : List ServerMessage
      ms = stream_messages store texts c.next_id (store.subtree s root)

      arrived : Client
      arrived = receive_all (notes ++ ms) waiting

      opened : in_channel (lookup c.next_id waiting.streamed) ≡ []
      opened = ground (arith, lookup-insert c.next_id c.next_id [] c.streamed, ==_refl c.next_id)

      got :
          (in_channel (lookup c.next_id arrived.streamed) ≡ stream_for c.next_id ms)
          × (contains arrived.streams c.next_id ≡ not (closed_for c.next_id ms))
      got =
          let read =
            receive_all-stream c.next_id (notes ++ ms) waiting
              (ground
                (arith, contains-with_member c.next_id c.next_id c.streams, ==_refl c.next_id))
              (fresh.pending c.next_id (ground arith)) in
          let heard = notes-stream c.next_id notes ms quiet in
          (
            read.0 ∙ ap (λ l. l ++ stream_for c.next_id (notes ++ ms)) opened ∙ heard.0,
            read.1 ∙ ap not heard.1,
          )

      go :
          (is_open : Bool) (channel : List ServerMessage)
          → is_open ≡ not (closed_for c.next_id ms)
          → channel ≡ stream_for c.next_id ms
          → consume is_open channel ≡ record {
            items = (store.subtree s root).items;
            ending = at_distance texts (store.subtree s root).ending;
          }
      go is_open channel p q =
          ap (λ b. consume b channel) p
          ∙ ap (consume (not (closed_for c.next_id ms))) q
          ∙ consume-items c.next_id (store.subtree s root).items (store.subtree s root).ending
