-- ===== src/Store/Memory/Lifecycle.antt =====
-- The life of one in-memory transaction: calls in any order, against the contract of `Transaction`
-- (crates/clayers-repo/src/store/mod.rs).
use clayers.Prelude.{◌≡◌, refl, sym, ap, true, false, List, [], ◌∷◌, ◌++◌, arith}
use clayers.Error.{ContentHash, Result, ok, err}
use clayers.Object.{Object}
use clayers.Store.Memory
use clayers.Store.Memory.{
  MemoryStore, MemoryTransaction, PendingEntry, begin, already_consumed, flush, write_batch,
}
use clayers.Store.Memory.Transactions.{entries_of, write_batch_lem}

-- A call on the transaction.
pub data Call : Type 0 where
  put : ContentHash → Object → Call
  commit rollback : Call

abbrev pub Session : Type 0
Session = List (Result (Unit {0})) × MemoryTransaction × MemoryStore

abbrev replied : Result (Unit {0}) → Session → Session
replied r (rs, tx, s) = (r ∷ rs, tx, s)

-- The calls in their order: the replies, the transaction and the store that they leave.
pub run : List Call → MemoryTransaction → MemoryStore → Session
run [] tx s = ([], tx, s)
run (put h o ∷ calls) tx s = let (r, tx') = Memory.put h o tx in replied r (run calls tx' s)
run (commit ∷ calls) tx s = let (r, tx', s') = Memory.commit tx s in replied r (run calls tx' s')
run (rollback ∷ calls) tx s = let (r, tx') = Memory.rollback tx in replied r (run calls tx' s)

abbrev pub all_refused : List Call → List (Result (Unit {0}))
all_refused [] = []
all_refused (c ∷ calls) = err already_consumed ∷ all_refused calls

-- The contract's replies: success up to the first commit or rollback, and then refusals.
abbrev pub replies : List Call → List (Result (Unit {0}))
replies [] = []
replies (put h o ∷ calls) = ok tt ∷ replies calls
replies (commit ∷ calls) = ok tt ∷ all_refused calls
replies (rollback ∷ calls) = ok tt ∷ all_refused calls

-- The contract's store: the batch of the puts before the first commit, if no rollback came first.
abbrev pub outcome : List (ContentHash × Object) → List Call → MemoryStore → MemoryStore
outcome staged [] s = s
outcome staged (put h o ∷ calls) s = outcome (staged ++ (h, o) ∷ []) calls s
outcome staged (commit ∷ calls) s = (write_batch staged s).1
outcome staged (rollback ∷ calls) s = s

abbrev used_up : MemoryTransaction
used_up = record { pending = []; consumed = true }

run-used_up :
    (calls : List Call) (s : MemoryStore) → run calls used_up s ≡ (all_refused calls, used_up, s)
unfolding run Memory.put Memory.commit Memory.rollback
run-used_up [] s = refl
run-used_up (put h o ∷ calls) s = rw (run-used_up calls s)
run-used_up (commit ∷ calls) s = rw (run-used_up calls s)
run-used_up (rollback ∷ calls) s = rw (run-used_up calls s)

entries_of-append :
    (ps qs : List (ContentHash × Object)) → entries_of (ps ++ qs) ≡ entries_of ps ++ entries_of qs
entries_of-append [] qs = refl
entries_of-append ((h, o) ∷ ps) qs = rw (entries_of-append ps qs)

run-open :
    (calls : List Call) (staged : List (ContentHash × Object)) (s : MemoryStore)
    → ((run calls (record { pending = entries_of staged; consumed = false }) s).0 ≡ replies calls)
      × ((run calls (record { pending = entries_of staged; consumed = false }) s).2
          ≡ outcome staged calls s)
unfolding run Memory.put Memory.commit Memory.rollback
run-open [] staged s = (refl, refl)
run-open (put h o ∷ calls) staged s =
    let (r, t) = run-open calls (staged ++ (h, o) ∷ []) s in
    let e = entries_of-append staged ((h, o) ∷ []) in ground (arith, r, t, e)
run-open (commit ∷ calls) staged s =
    rw (run-used_up calls) (refl, sym (ap (λ p. p.1) (write_batch_lem staged s)))
run-open (rollback ∷ calls) staged s = rw (run-used_up calls s) (refl, refl)

-- Whatever calls of `put`, `commit` and `rollback` are made on a new in-memory transaction, in
-- whatever order: each succeeds up to and including the first commit or rollback and is refused
-- after it, and the store is what the puts before a first commit make of it, or as it was if a
-- rollback came first or no commit at all.
pub run-begin :
    (calls : List Call) (s : MemoryStore)
    → ((run calls begin s).0 ≡ replies calls) × ((run calls begin s).2 ≡ outcome [] calls s)
run-begin calls s = run-open calls [] s
