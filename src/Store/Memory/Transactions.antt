-- ===== src/Store/Memory/Transactions.antt =====
-- What the in-memory transactions promise (the contract of `Transaction` in
-- crates/clayers-repo/src/store/mod.rs).
use clayers.Prelude.{
  ◌≡◌, refl, ◌∙◌, ap, ◌≢◌, false, none, some, List, [], ◌∷◌, ◌++◌, arith, nat_eq, Option-cases,
}
use mathlib.Core.List.{append_assoc, append-nil}
use clayers.Prelude.Dict.{lookup, lookup-insert}
use clayers.Error.{ContentHash, ok}
use clayers.Object.{Object}
use clayers.Store.Lawful.{after_puts}
use clayers.Store.Memory
use clayers.Store.Memory.{
  MemoryStore, MemoryTransaction, PendingEntry, begin, already_consumed, inclusive_of, flush,
  put_each, write_batch,
}

abbrev pub entry_of : ContentHash → Object → PendingEntry
entry_of h o = record { hash = h; object = o; inclusive_hash = inclusive_of o }

abbrev pub entries_of : List (ContentHash × Object) → List PendingEntry
entries_of [] = []
entries_of ((h, o) ∷ ps) = entry_of h o ∷ entries_of ps

put_each-open :
    (ps : List (ContentHash × Object)) (acc : List PendingEntry)
    → put_each ps (record { pending = acc; consumed = false })
      ≡ (ok tt, record { pending = acc ++ entries_of ps; consumed = false })
unfolding put_each Memory.put
put_each-open [] acc = rw append-nil
put_each-open ((h, o) ∷ ps) acc =
    put_each-open ps (acc ++ entry_of h o ∷ [])
    ∙ rw (append_assoc acc (entry_of h o ∷ []) (entries_of ps))

-- A transaction from beginning to commit succeeds, and has the effect of its puts in their order.
pub write_batch_lem :
    (ps : List (ContentHash × Object)) (s : MemoryStore)
    → write_batch ps s ≡ (ok tt, flush (entries_of ps) s)
unfolding write_batch
write_batch_lem ps s = rw (put_each-open ps [])

lookup-flush :
    (ps : List (ContentHash × Object)) (s : MemoryStore) (h : ContentHash)
    → lookup h (flush (entries_of ps) s).objects ≡ after_puts h ps (lookup h s.objects)
unfolding flush
lookup-flush [] s h = refl
lookup-flush ((k, o) ∷ ps) s h = lookup-flush ps _ h ∙ rw lookup-insert

-- After a batch each hash has the object of its last put, and the others what they had before.
pub get-write_batch :
    (ps : List (ContentHash × Object)) (s : MemoryStore) (h : ContentHash)
    → Memory.get (write_batch ps s).1 h ≡ ok (after_puts h ps (lookup h s.objects))
unfolding Memory.get
get-write_batch ps s h = rw (write_batch_lem ps s) (ap ok (lookup-flush ps s h))

refs-flush : (es : List PendingEntry) (s : MemoryStore) → (flush es s).refs ≡ s.refs
unfolding flush
refs-flush [] s = refl
refs-flush (e ∷ es) s = refs-flush es _

-- A batch leaves the refs alone.
pub refs-write_batch :
    (ps : List (ContentHash × Object)) (s : MemoryStore) → (write_batch ps s).1.refs ≡ s.refs
refs-write_batch ps s = rw (write_batch_lem ps s) (refs-flush (entries_of ps) s)

-- The secondary index never dangles: the identity hash that it gives has an object.
pub record IsIndexed (s : MemoryStore) : Type 0 where
  pub at : (i h : ContentHash) → lookup i s.inclusive_index ≡ some h → lookup h s.objects ≢ none

flush-IsIndexed : (es : List PendingEntry) (s : MemoryStore) → IsIndexed s → IsIndexed (flush es s)
unfolding flush
flush-IsIndexed [] s inv = inv
flush-IsIndexed (e ∷ es) s inv = flush-IsIndexed es _ (record {
  at = λ i h found. ground (
    arith,
    found,
    inv.at i h,
    lookup-insert i (get_hash e) e.hash s.inclusive_index,
    lookup-insert h e.hash e.object s.objects,
    Option-cases e.inclusive_hash,
  );
})
  where
    get_hash : PendingEntry → ContentHash
    get_hash p = elim p.inclusive_hash [ none ↦ 0 | some i ↦ i ]

-- If every hash that the inclusive index names has an object, the same holds after a batch of puts
-- is committed.
pub write_batch-IsIndexed :
    (ps : List (ContentHash × Object)) (s : MemoryStore)
    → IsIndexed s
    → IsIndexed (write_batch ps s).1
write_batch-IsIndexed ps s ok_s = rw write_batch_lem (flush-IsIndexed (entries_of ps) s ok_s)
