-- ===== src/Remote/Protocol.antt =====
-- The messages between a remote store and its server (crates/clayers-repo/src/store/remote/mod.rs).
use clayers.Prelude.{ℕ, String, Bool, true, false, Option, none, some, List}
use clayers.Error.{ContentHash}
use clayers.Object.{Object}

abbrev pub MessageId : Type 0
MessageId = ℕ

-- `TxId(u64)`
abbrev pub TxId : Type 0
TxId = ℕ

pub data ClientMessage : Type 0 where
  list_repositories : MessageId → ClientMessage
  get contains get_by_inclusive_hash subtree : MessageId → String → ContentHash → ClientMessage
  get_ref delete_ref list_refs : MessageId → String → String → ClientMessage
  set_ref : MessageId → String → String → ContentHash → ClientMessage
  cas_ref : MessageId → String → String → Option ContentHash → ContentHash → ClientMessage
  begin_transaction : MessageId → String → ClientMessage
  tx_put : MessageId → TxId → ContentHash → Object → ClientMessage
  tx_commit tx_rollback : MessageId → TxId → ClientMessage

-- The identifier that each request carries.
abbrev pub request_id : ClientMessage → MessageId
request_id (ClientMessage.list_repositories id) = id
request_id (ClientMessage.get id repo h) = id
request_id (ClientMessage.contains id repo h) = id
request_id (ClientMessage.get_by_inclusive_hash id repo h) = id
request_id (ClientMessage.subtree id repo h) = id
request_id (ClientMessage.get_ref id repo name) = id
request_id (ClientMessage.delete_ref id repo name) = id
request_id (ClientMessage.list_refs id repo prefix) = id
request_id (ClientMessage.set_ref id repo name h) = id
request_id (ClientMessage.cas_ref id repo name expected h) = id
request_id (ClientMessage.begin_transaction id repo) = id
request_id (ClientMessage.tx_put id tx h o) = id
request_id (ClientMessage.tx_commit id tx) = id
request_id (ClientMessage.tx_rollback id tx) = id

pub data ServerMessage : Type 0 where
  repository_list : MessageId → List String → ServerMessage
  object_reply : MessageId → Option Object → ServerMessage
  contains_reply : MessageId → Bool → ServerMessage
  object_with_hash : MessageId → Option (ContentHash × Object) → ServerMessage
  subtree_item : MessageId → ContentHash → Object → ServerMessage
  subtree_end : MessageId → ServerMessage
  ref_reply : MessageId → Option ContentHash → ServerMessage
  ref_set ref_deleted : MessageId → ServerMessage
  ref_list : MessageId → List (String × ContentHash) → ServerMessage
  cas_result : MessageId → Bool → ServerMessage
  done : MessageId → ServerMessage
  transaction_created : MessageId → TxId → ServerMessage
  failed : MessageId → String → ServerMessage
  -- The one message that answers no request.
  ref_updated : String → String → Option ContentHash → Option ContentHash → ServerMessage

-- `ServerMessage::id`
unfoldable pub reply_id : ServerMessage → Option MessageId
reply_id (repository_list id repos) = some id
reply_id (object_reply id o) = some id
reply_id (contains_reply id exists) = some id
reply_id (object_with_hash id result) = some id
reply_id (subtree_item id h o) = some id
reply_id (subtree_end id) = some id
reply_id (ref_reply id h) = some id
reply_id (ref_set id) = some id
reply_id (ref_deleted id) = some id
reply_id (ref_list id refs) = some id
reply_id (cas_result id swapped) = some id
reply_id (done id) = some id
reply_id (transaction_created id tx) = some id
reply_id (failed id message) = some id
reply_id (ref_updated repo name old new) = none

-- `is_subtree_stream`
unfoldable pub is_subtree_stream : ServerMessage → Bool
is_subtree_stream (subtree_item id h o) = true
is_subtree_stream (subtree_end id) = true
is_subtree_stream _ = false
