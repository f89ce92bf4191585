-- ===== src/Remote/Server/Local.antt =====
-- The in-memory store served (crates/clayers-repo/src/store/memory.rs).
use clayers.Prelude.{arith, refl}
use clayers.Error.{ok}
use clayers.Store.Memory
use clayers.Store.Memory.{MemoryStore, MemoryTransaction}
use clayers.Store.Memory.Backend.{memory, subtree}
use clayers.Store.Subtree.Ends.{subtree_walk_ends}
use clayers.Remote.Server.{Served}
use clayers.Remote.Server.Replies.{Returns}

abbrev pub served : Served MemoryStore MemoryTransaction
served = record {
  backend = memory;
  get_by_inclusive_hash = Memory.get_by_inclusive_hash;
  begin = λ s. ok Memory.begin;
  put = Memory.put;
  commit = Memory.commit;
  rollback = Memory.rollback;
}

pub served-Returns : Returns served
unfolding Memory.get Memory.contains Memory.get_by_inclusive_hash Memory.get_ref Memory.list_refs
    Memory.set_ref Memory.delete_ref Memory.cas_ref Memory.put Memory.commit Memory.rollback subtree
served-Returns = record {
  get = λ s h e. cc;
  contains = λ s h e. cc;
  by_inclusive_hash = λ s h. ground arith;
  subtree = λ s h. subtree_walk_ends (Memory.get s) s.objects (λ k. refl) h;
  get_ref = λ s name e. cc;
  list_refs = λ s prefix e. cc;
  set_ref = λ name h s e. cc;
  delete_ref = λ name s e. cc;
  cas_ref = λ name old h s. ground arith;
  begin = λ s e. cc;
  put = λ h o t. ground arith;
  commit = λ t s. ground arith;
  rollback = λ t. ground arith;
}
