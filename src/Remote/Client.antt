-- ===== src/Remote/Client.antt =====
-- `RemoteStore` and its reader (crates/clayers-repo/src/store/remote/client.rs). The channel of a
-- waiting request or of a stream is named by the number of its request.
pub mod Reader
pub mod Streams
pub mod Connected
pub mod Agreement
pub mod Subtree
pub mod Transaction
use clayers.Prelude.{
  ℕ, ◌+◌, String, Bool, true, false, Option, none, some, List, [], ◌∷◌, ◌++◌, contains, with_member,
  without, ◌==◌, nat_eq, string_eq, if◌then◌else◌,
}
use clayers.Prelude.Dict.{Dict, lookup, insert, remove}
use clayers.Error.{ContentHash, Error, storage, Result, ok, err, out_of_fuel}
use clayers.Object.{Object}
use clayers.Store.{ObjectStream}
use clayers.Remote.Protocol.{
  MessageId, TxId, ClientMessage, ServerMessage, reply_id, repository_list, object_reply,
  contains_reply, object_with_hash, subtree_item, subtree_end, ref_reply, ref_set, ref_deleted,
  ref_list, cas_result, done, transaction_created, failed, ref_updated,
}
use clayers.Remote.Server.{next_u64}

-- `pending` and `streams` have the numbers that wait; `replies` and `streamed` what was sent on their
-- channels and was not read.
pub record Client : Type 0 where
  pub repo : String
  pub next_id : ℕ
  pub pending : List MessageId
  pub replies : Dict MessageId ServerMessage
  pub streams : List MessageId
  pub streamed : Dict MessageId (List ServerMessage)
  pub notifications : List ServerMessage

-- `RemoteStore::new`
abbrev pub new : String → Client
new repo = record {
  repo = repo;
  next_id = 1;
  pending = [];
  replies = [];
  streams = [];
  streamed = [];
  notifications = [];
}

abbrev pub in_channel : Option (List ServerMessage) → List ServerMessage
in_channel none = []
in_channel (some sent) = sent

abbrev pub push_item : MessageId → ServerMessage → Client → Client
push_item id m c = record c {
  streamed = insert id (in_channel (lookup id c.streamed) ++ m ∷ []) c.streamed;
}

abbrev pub close_stream : MessageId → Client → Client
close_stream id c = record c { streams = without id c.streams }

-- A message of a subtree that is being read.
abbrev pub stream_message : MessageId → ServerMessage → Client → Client
stream_message id (subtree_end i) c = close_stream id c
stream_message id (subtree_item i h o) c = push_item id (subtree_item i h o) c
stream_message id (failed i text) c = push_item id (failed i text) (close_stream id c)
stream_message id _ c = c

-- A message with a number: to its stream, or to the request that waits for it, or nowhere.
abbrev pub numbered : MessageId → ServerMessage → Client → Client
numbered id m c =
    if contains c.streams id
    then stream_message id m c
    else if contains c.pending id
    then record c { pending = without id c.pending; replies = insert id m c.replies }
    else c

abbrev pub dispatched : Option MessageId → ServerMessage → Client → Client
dispatched none m c = record c { notifications = c.notifications ++ m ∷ [] }
dispatched (some id) m c = numbered id m c

-- One turn of the reader's loop.
unfoldable pub dispatch : ServerMessage → Client → Client
dispatch m c = dispatched (reply_id m) m c

-- The loop while the connection stands.
unfoldable pub receive_all : List ServerMessage → Client → Client
receive_all [] c = c
receive_all (m ∷ ms) c = receive_all ms (dispatch m c)

-- The reader's loop over what `recv` gives: the first error ends it, and who waits goes on waiting.
unfoldable pub read_loop : List (Result ServerMessage) → Client → Client
read_loop [] c = c
read_loop (ok m ∷ rs) c = read_loop rs (dispatch m c)
read_loop (err e ∷ rs) c = c
read_loop (out_of_fuel ∷ rs) c = c

-- `Transport`: a message sent, and all that arrives before the caller goes on.
pub record Wire (N : Type 0) : Type 0 where
  pub exchange : ClientMessage → N → Result (List ServerMessage) × N

-- `rx.await`: a request that no reply comes to waits for ever.
abbrev pub awaited : Option ServerMessage → Result ServerMessage
awaited none = out_of_fuel
awaited (some m) = ok m

unfoldable pub alloc_id : Client → MessageId × Client
alloc_id c = (c.next_id, record c { next_id = next_u64 c.next_id })

abbrev pub answered :
    {N : Type 0}
    → MessageId
    → Client
    → Result (List ServerMessage) × N
    → Result ServerMessage × Client × N
answered id c (ok ms, n) =
    let after = receive_all ms c in
    (awaited (lookup id after.replies), record after { replies = remove id after.replies }, n)
answered id c (err e, n) = (err e, c, n)
answered id c (out_of_fuel, n) = (out_of_fuel, c, n)

abbrev pub unexpected : Error
unexpected = storage "unexpected response"

-- What an operation makes of the reply.
abbrev pub read : {A : Type 0} → (ServerMessage → Result A) → Result ServerMessage → Result A
read f (ok m) = f m
read f (err e) = err e
read f out_of_fuel = out_of_fuel

abbrev pub as_repositories : ServerMessage → Result (List String)
as_repositories (repository_list i repos) = ok repos
as_repositories (failed i text) = err (storage text)
as_repositories _ = err unexpected

abbrev pub as_object : ServerMessage → Result (Option Object)
as_object (object_reply i o) = ok o
as_object (failed i text) = err (storage text)
as_object _ = err unexpected

abbrev pub as_exists : ServerMessage → Result Bool
as_exists (contains_reply i exists) = ok exists
as_exists (failed i text) = err (storage text)
as_exists _ = err unexpected

abbrev pub as_pair : ServerMessage → Result (Option (ContentHash × Object))
as_pair (object_with_hash i found) = ok found
as_pair (failed i text) = err (storage text)
as_pair _ = err unexpected

abbrev pub as_ref : ServerMessage → Result (Option ContentHash)
as_ref (ref_reply i h) = ok h
as_ref (failed i text) = err (storage text)
as_ref _ = err unexpected

abbrev pub as_ref_set : ServerMessage → Result (Unit {0})
as_ref_set (ref_set i) = ok tt
as_ref_set (failed i text) = err (storage text)
as_ref_set _ = err unexpected

abbrev pub as_ref_deleted : ServerMessage → Result (Unit {0})
as_ref_deleted (ref_deleted i) = ok tt
as_ref_deleted (failed i text) = err (storage text)
as_ref_deleted _ = err unexpected

abbrev pub as_refs : ServerMessage → Result (List (String × ContentHash))
as_refs (ref_list i refs) = ok refs
as_refs (failed i text) = err (storage text)
as_refs _ = err unexpected

abbrev pub as_swapped : ServerMessage → Result Bool
as_swapped (cas_result i swapped) = ok swapped
as_swapped (failed i text) = err (storage text)
as_swapped _ = err unexpected

module _ {N : Type 0} (wire : Wire N) where
  unfoldable pub request :
      ClientMessage → MessageId → Client → N → Result ServerMessage × Client × N
  request m id c n =
      answered id (record c { pending = with_member id c.pending }) (wire.exchange m n)

  abbrev pub call :
      {A : Type 0}
      → (MessageId → ClientMessage)
      → (ServerMessage → Result A)
      → Client
      → N
      → Result A × Client × N
  call m f c n =
      let (id, allocated) = alloc_id c in
      let (r, after, last) = request (m id) id allocated n in (read f r, after, last)

  unfoldable pub list_repositories : Client → N → Result (List String) × Client × N
  list_repositories = call ClientMessage.list_repositories as_repositories

  unfoldable pub get : ContentHash → Client → N → Result (Option Object) × Client × N
  get h c = call (λ id. ClientMessage.get id c.repo h) as_object c

  unfoldable pub contains_object : ContentHash → Client → N → Result Bool × Client × N
  contains_object h c = call (λ id. ClientMessage.contains id c.repo h) as_exists c

  unfoldable pub get_by_inclusive_hash :
      ContentHash → Client → N → Result (Option (ContentHash × Object)) × Client × N
  get_by_inclusive_hash h c = call (λ id. ClientMessage.get_by_inclusive_hash id c.repo h) as_pair c

  unfoldable pub get_ref : String → Client → N → Result (Option ContentHash) × Client × N
  get_ref name c = call (λ id. ClientMessage.get_ref id c.repo name) as_ref c

  unfoldable pub set_ref : String → ContentHash → Client → N → Result (Unit {0}) × Client × N
  set_ref name h c = call (λ id. ClientMessage.set_ref id c.repo name h) as_ref_set c

  unfoldable pub delete_ref : String → Client → N → Result (Unit {0}) × Client × N
  delete_ref name c = call (λ id. ClientMessage.delete_ref id c.repo name) as_ref_deleted c

  unfoldable pub list_refs : String → Client → N → Result (List (String × ContentHash)) × Client × N
  list_refs prefix c = call (λ id. ClientMessage.list_refs id c.repo prefix) as_refs c

  unfoldable pub cas_ref :
      String → Option ContentHash → ContentHash → Client → N → Result Bool × Client × N
  cas_ref name expected h c =
      call (λ id. ClientMessage.cas_ref id c.repo name expected h) as_swapped c
