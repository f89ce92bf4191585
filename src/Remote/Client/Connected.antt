-- ===== src/Remote/Client/Connected.antt =====
-- A client that is connected to a server.
use clayers.Prelude.{
  ◌+◌, ◌^◌, ◌≤◌, ◌<◌, ◌≡◌, refl, ap, ◌∙◌, inl, inr, Bool, true, false, ◌&&◌, Option, none, some,
  List, [], ◌∷◌, ◌++◌, contains, with_member, contains-with_member, ◌==◌, ==_iff, ==_refl, nat_eq,
  option_eq, arith, Bool-cases,
}
use clayers.Prelude.Dict.{lookup, remove, lookup-remove}
use clayers.Error.{storage, Result, ok, err, out_of_fuel}
use clayers.Remote.Protocol.{
  MessageId, ClientMessage, ServerMessage, reply_id, failed, subtree_item, subtree_end,
}
use clayers.Remote.Server.{Served, ConnectionId, Server, next_u64}
use clayers.Remote.Server.Handlers.{Texts, handle}
use clayers.Remote.Client.{
  Client, Wire, awaited, alloc_id, request, read, call, dispatch, receive_all, numbered, dispatched,
  stream_message,
}
use clayers.Remote.Client.Reader.{first_for, receive_all-reply, settled, IsUnread}

-- The server's replies, behind notifications that were under way.
unfoldable pub connected :
    {S T : Type 0} → Served S T → Texts → ConnectionId → List ServerMessage → Wire (Server S T)
connected store texts conn notes = record {
  exchange =
      λ m sv. let (replies, after) = handle store texts conn m sv in (ok (notes ++ replies), after);
}

-- Messages that answer no request.
abbrev pub are_notes : List ServerMessage → Bool
are_notes [] = true
are_notes (m ∷ ms) = reply_id m == none && are_notes ms

-- The numbers from the next one on are free.
pub record IsFresh (c : Client) : Type 0 where
  pub pending : (id : MessageId) → c.next_id ≤ id → contains c.pending id ≡ false
  pub streams : (id : MessageId) → c.next_id ≤ id → contains c.streams id ≡ false
  pub replies : (id : MessageId) → c.next_id ≤ id → lookup id c.replies ≡ none

-- How an error looks to the client.
abbrev pub at_distance : {A : Type 0} → Texts → Result A → Result A
at_distance texts (ok a) = ok a
at_distance texts (err e) = err (storage (texts.describe e))
at_distance texts out_of_fuel = out_of_fuel

first_for-notes :
    (id : MessageId) (notes ms : List ServerMessage)
    → are_notes notes ≡ true
    → first_for id (notes ++ ms) ≡ first_for id ms
first_for-notes id [] ms quiet = refl
first_for-notes id (n ∷ notes) ms quiet = ground (
  arith,
  quiet,
  first_for-notes id notes ms,
  ==_iff (reply_id n) (some id),
  ==_iff (reply_id n) none,
)

stream_message-next_id :
    (id : MessageId) (m : ServerMessage) (c : Client) → (stream_message id m c).next_id ≡ c.next_id
stream_message-next_id id (failed i text) c = refl
stream_message-next_id id (subtree_item i h o) c = refl
stream_message-next_id id (subtree_end i) c = refl
stream_message-next_id id _ c = refl

numbered-next_id :
    (id : MessageId) (m : ServerMessage) (c : Client) → (numbered id m c).next_id ≡ c.next_id
numbered-next_id id m c = elim (Bool-cases (contains c.streams id)) [
  | inl streaming ↦ rw streaming (stream_message-next_id id m c)
  | inr other ↦ elim (Bool-cases (contains c.pending id)) [
    | inl waiting ↦ rw (other, waiting) refl
    | inr nobody ↦ rw (other, nobody) refl
  ]
]

receive_all-next_id :
    (ms : List ServerMessage) (c : Client) → (receive_all ms c).next_id ≡ c.next_id
unfolding receive_all dispatch
receive_all-next_id [] c = refl
receive_all-next_id (m ∷ ms) c = receive_all-next_id ms (dispatch m c) ∙ one (reply_id m)
  where
    one : (carried : Option MessageId) → (dispatched carried m c).next_id ≡ c.next_id
    one none = refl
    one (some id) = numbered-next_id id m c

-- The numbers that are free stay free while messages arrive for one that was just given out.
waiting-IsFresh :
    (ms : List ServerMessage) (c : Client)
    → IsFresh c
    → c.next_id + 1 < 2 ^ 64
    → let (id, allocated) = alloc_id c in
      let after =
        receive_all ms (record allocated { pending = with_member id allocated.pending }) in
      IsFresh (record after { replies = remove id after.replies })
unfolding alloc_id
waiting-IsFresh ms c fresh room = record {
  pending = λ id above. (still id (beyond id above)).pending ∙ free_pending id (beyond id above);
  streams = λ id above.
      (still id (beyond id above)).streams ∙ fresh.streams id (ground (arith, beyond id above));
  replies = λ id above. ground (
    arith,
    beyond id above,
    (still id (beyond id above)).replies,
    fresh.replies id,
    lookup-remove id c.next_id (receive_all ms waiting).replies,
    ==_iff c.next_id id,
  );
}
  where
    waiting : Client
    waiting = record c { next_id = next_u64 c.next_id; pending = with_member c.next_id c.pending }

    beyond : (id : MessageId) → (receive_all ms waiting).next_id ≤ id → c.next_id < id
    beyond id above = ground (arith, room, above, receive_all-next_id ms waiting)

    free_pending : (id : MessageId) → c.next_id < id → contains waiting.pending id ≡ false
    free_pending id above = ground (
      arith,
      above,
      fresh.pending id,
      contains-with_member c.next_id id c.pending,
      ==_iff c.next_id id,
    )

    still : (id : MessageId) → c.next_id < id → IsUnread id waiting (receive_all ms waiting)
    still id above =
        settled id ms waiting (free_pending id above) (fresh.streams id (ground (arith, above)))

module _ {S T : Type 0} (store : Served S T) (texts : Texts) (conn : ConnectionId)
    (notes : List ServerMessage) where
  -- A call gets the first message with its number among the server's replies.
  pub call-connected :
      {A : Type 0} (m : MessageId → ClientMessage) (f : ServerMessage → Result A) (c : Client)
      (sv : Server S T)
      → are_notes notes ≡ true
      → IsFresh c
      → let wire : Wire (Server S T) = connected store texts conn notes in
        let (replies, after) = handle store texts conn (m c.next_id) sv in
        ((call wire m f c sv).0 ≡ read f (awaited (first_for c.next_id replies)))
        × ((call wire m f c sv).2 ≡ after)
  unfolding connected request alloc_id
  call-connected m f c sv quiet fresh = (ap (λ o. read f (awaited o)) got, refl)
    where
      replies : List ServerMessage
      replies = (handle store texts conn (m c.next_id) sv).0

      waiting : Client
      waiting = record c { next_id = next_u64 c.next_id; pending = with_member c.next_id c.pending }

      got :
          lookup c.next_id (receive_all (notes ++ replies) waiting).replies
          ≡ first_for c.next_id replies
      got =
          receive_all-reply c.next_id (notes ++ replies) waiting
            (ground (arith, contains-with_member c.next_id c.next_id c.pending, ==_refl c.next_id))
            (fresh.streams c.next_id (ground arith)) (fresh.replies c.next_id (ground arith))
          ∙ first_for-notes c.next_id notes replies quiet

  pub call-IsFresh :
      {A : Type 0} (m : MessageId → ClientMessage) (f : ServerMessage → Result A) (c : Client)
      (sv : Server S T)
      → IsFresh c
      → c.next_id + 1 < 2 ^ 64
      → IsFresh (call (connected store texts conn notes) m f c sv).1
  unfolding connected request alloc_id
  call-IsFresh m f c sv fresh room =
      waiting-IsFresh (notes ++ (handle store texts conn (m c.next_id) sv).0) c fresh room
