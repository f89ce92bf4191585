-- ===== src/Store/Memory.antt =====
-- The in-memory store and its transactions (crates/clayers-repo/src/store/memory.rs). The locks are
-- held for the whole of each operation, so each is one step on the shared state; only
-- `get_by_inclusive_hash`, which reads, takes two of them in turn.
pub mod Transactions
pub mod Lifecycle
pub mod Refs
pub mod Backend
use clayers.Prelude.{
  String, Bool, true, false, Option, none, some, List, [], ◌∷◌, ◌++◌, ◌==◌, nat_eq, string_eq,
  option_eq, if◌then◌else◌, starts_with,
}
use clayers.Prelude.Dict.{Dict, lookup, insert, remove}
use clayers.Error.{ContentHash, Error, storage, Result, ok, err, out_of_fuel}
use clayers.Object.{Object, element}
use clayers.Store.Lawful.{is_some}
use clayers.Action.{Action, pure, ◌>>=◌, ◌>>◌}

-- `MemoryStoreInner`
pub record MemoryStore : Type 0 where
  pub objects : Dict ContentHash Object
  pub refs : Dict String ContentHash
  pub inclusive_index : Dict ContentHash ContentHash

-- `MemoryStore::new`
abbrev pub empty : MemoryStore
empty = record { objects = []; refs = []; inclusive_index = [] }

unfoldable pub get : MemoryStore → ContentHash → Result (Option Object)
get s h = ok (lookup h s.objects)

-- `contains_key`
unfoldable pub contains : MemoryStore → ContentHash → Result Bool
contains s h = ok (is_some (lookup h s.objects))

-- The identity hash with the object, where the index and the objects have both.
abbrev with_hash : ContentHash → Option Object → Option (ContentHash × Object)
with_hash h none = none
with_hash h (some o) = some (h, o)

abbrev object_at : MemoryStore → Option ContentHash → Result (Option (ContentHash × Object))
object_at s none = ok none
object_at s (some identity) = ok (with_hash identity (lookup identity s.objects))

unfoldable pub get_by_inclusive_hash :
    MemoryStore → ContentHash → Result (Option (ContentHash × Object))
get_by_inclusive_hash s h = object_at s (lookup h s.inclusive_index)

unfoldable pub get_ref : MemoryStore → String → Result (Option ContentHash)
get_ref s name = ok (lookup name s.refs)

unfoldable pub set_ref : String → ContentHash → MemoryStore → Result (Unit {0}) × MemoryStore
set_ref name h s = (ok tt, record s { refs = insert name h s.refs })

unfoldable pub delete_ref : String → MemoryStore → Result (Unit {0}) × MemoryStore
delete_ref name s = (ok tt, record s { refs = remove name s.refs })

abbrev pub with_prefix : String → Dict String ContentHash → List (String × ContentHash)
with_prefix prefix [] = []
with_prefix prefix ((k, v) ∷ d) =
    let rest = with_prefix prefix d in if starts_with k prefix then (k, v) ∷ rest else rest

unfoldable pub list_refs : MemoryStore → String → Result (List (String × ContentHash))
list_refs s prefix = ok (with_prefix prefix s.refs)

unfoldable pub cas_ref :
    String → Option ContentHash → ContentHash → MemoryStore → Result Bool × MemoryStore
cas_ref name expected h s =
    if lookup name s.refs == expected
    then (ok true, record s { refs = insert name h s.refs })
    else (ok false, s)

pub record PendingEntry : Type 0 where
  pub hash : ContentHash
  pub object : Object
  pub inclusive_hash : Option ContentHash

-- `MemoryTransaction`, with the store that it shares passed beside it.
pub record MemoryTransaction : Type 0 where
  pub pending : List PendingEntry
  pub consumed : Bool

-- `transaction()`
abbrev pub begin : MemoryTransaction
begin = record { pending = []; consumed = false }

abbrev pub already_consumed : Error
already_consumed = storage "transaction already consumed"

abbrev pub inclusive_of : Object → Option ContentHash
inclusive_of (element e) = some e.inclusive_hash
inclusive_of _ = none

unfoldable pub put :
    ContentHash → Object → MemoryTransaction → Result (Unit {0}) × MemoryTransaction
put h o tx = if tx.consumed then (err already_consumed, tx) else (
  ok tt,
  record tx {
    pending = tx.pending ++ record { hash = h; object = o; inclusive_hash = inclusive_of o } ∷ [];
  },
)

abbrev index_entry : PendingEntry → Dict ContentHash ContentHash → Dict ContentHash ContentHash
index_entry p index = elim p.inclusive_hash [ none ↦ index | some i ↦ insert i p.hash index ]

-- The loop over `pending.drain(..)`.
unfoldable pub flush : List PendingEntry → MemoryStore → MemoryStore
flush [] s = s
flush (p ∷ ps) s = flush ps (record s {
  objects = insert p.hash p.object s.objects;
  inclusive_index = index_entry p s.inclusive_index;
})

unfoldable pub commit :
    MemoryTransaction → MemoryStore → Result (Unit {0}) × MemoryTransaction × MemoryStore
commit tx s =
    if tx.consumed
    then (err already_consumed, tx, s)
    else (ok tt, record { pending = []; consumed = true }, flush tx.pending s)

unfoldable pub rollback : MemoryTransaction → Result (Unit {0}) × MemoryTransaction
rollback tx =
    if tx.consumed
    then (err already_consumed, tx)
    else (ok tt, record { pending = []; consumed = true })

-- `put` for each pair, stopping at the first error.
unfoldable pub put_each : List (ContentHash × Object) → Action MemoryTransaction (Unit {0})
put_each [] = pure tt
put_each ((h, o) ∷ ps) = put h o >> put_each ps

abbrev committed :
    Result (Unit {0}) → MemoryTransaction → MemoryStore → Result (Unit {0}) × MemoryStore
committed (ok u) tx s = let (r, tx', s') = commit tx s in (r, s')
committed (err e) tx s = (err e, s)
committed out_of_fuel tx s = (out_of_fuel, s)

-- A transaction from its beginning to its commit, as the clients write.
unfoldable pub write_batch : List (ContentHash × Object) → Action MemoryStore (Unit {0})
unfolding commit
write_batch ps s = let (r, tx) = put_each ps begin in committed r tx s
