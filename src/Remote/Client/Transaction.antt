-- ===== src/Remote/Client/Transaction.antt =====
-- `RemoteTransaction` (crates/clayers-repo/src/store/remote/client.rs).
pub mod Agreed
use clayers.Prelude.{String, Bool, true, false, List, if◌then◌else◌}
use clayers.Error.{ContentHash, Error, storage, Result, ok, err, out_of_fuel}
use clayers.Object.{Object}
use clayers.Remote.Protocol.{
  TxId, MessageId, ClientMessage, ServerMessage, done, failed, transaction_created,
}
use clayers.Remote.Client.{Client, Wire, alloc_id, unexpected, call, read, request, receive_all}

pub record RemoteTransaction : Type 0 where
  pub tx_id : TxId
  pub finished : Bool

abbrev pub as_transaction : ServerMessage → Result RemoteTransaction
as_transaction (transaction_created i tx) = ok (record { tx_id = tx; finished = false })
as_transaction (failed i text) = err (storage text)
as_transaction _ = err unexpected

abbrev pub as_done : ServerMessage → Result (Unit {0})
as_done (done i) = ok tt
as_done (failed i text) = err (storage text)
as_done _ = err unexpected

abbrev pub consumed_already : Error
consumed_already = storage "transaction already consumed"

-- Only a commit that succeeded ends the transaction.
abbrev pub after_commit : Result (Unit {0}) → RemoteTransaction → RemoteTransaction
after_commit (ok u) t = record t { finished = true }
after_commit (err e) t = t
after_commit out_of_fuel t = t

-- A request that was not sent, `?` returning before it is marked, leaves the transaction as it was.
abbrev pub after_rollback : Result ServerMessage → RemoteTransaction → RemoteTransaction
after_rollback (ok m) t = record t { finished = true }
after_rollback (err e) t = t
after_rollback out_of_fuel t = t

module _ {N : Type 0} (wire : Wire N) where
  unfoldable pub begin : Client → N → Result RemoteTransaction × Client × N
  begin c = call wire (λ id. ClientMessage.begin_transaction id c.repo) as_transaction c

  unfoldable pub put :
      ContentHash
      → Object
      → RemoteTransaction
      → Client
      → N
      → Result (Unit {0}) × RemoteTransaction × Client × N
  put h o t c n =
      if t.finished
      then (err consumed_already, t, c, n)
      else let (r, after, last) =
          call wire (λ id. ClientMessage.tx_put id t.tx_id h o) as_done c n in
        (r, t, after, last)

  unfoldable pub commit :
      RemoteTransaction → Client → N → Result (Unit {0}) × RemoteTransaction × Client × N
  commit t c n =
      if t.finished
      then (err consumed_already, t, c, n)
      else let (r, after, last) =
          call wire (λ id. ClientMessage.tx_commit id t.tx_id) as_done c n in
        (r, after_commit r t, after, last)

  unfoldable pub rollback :
      RemoteTransaction → Client → N → Result (Unit {0}) × RemoteTransaction × Client × N
  rollback t c n =
      if t.finished
      then (err consumed_already, t, c, n)
      else let (id, allocated) = alloc_id c in
        let (r, after, last) = request wire (ClientMessage.tx_rollback id t.tx_id) id allocated n in
        (read as_done r, after_rollback r t, after, last)

  -- `RemoteTransaction` dropped: a rollback that nobody waits for.
  abbrev unawaited : Client → Result (List ServerMessage) × N → Client × N
  unawaited c (ok ms, n) = (receive_all ms c, n)
  unawaited c (err e, n) = (c, n)
  unawaited c (out_of_fuel, n) = (c, n)

  unfoldable pub drop : RemoteTransaction → Client → N → Client × N
  drop t c n =
      if t.finished
      then (c, n)
      else let (id, allocated) = alloc_id c in
        unawaited allocated (wire.exchange (ClientMessage.tx_rollback id t.tx_id) n)
