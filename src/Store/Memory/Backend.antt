-- ===== src/Store/Memory/Backend.antt =====
-- The in-memory store meets the laws that its clients rely on.
use clayers.Prelude.{refl, ◌≢◌, string_eq, nat_eq, arith}
use clayers.Prelude.Dict.{lookup}
use clayers.Error.{ContentHash, out_of_fuel}
use clayers.Store.{ObjectStream}
use clayers.Store.Lawful.{Backend, IsLawful}
use clayers.Store.Subtree.{subtree_walk, try_collect_stream}
use clayers.Store.Subtree.Ends.{walk_fuel, subtree_walk_ends}
use clayers.Store.Subtree.Exact.{collect_exact}
use clayers.Store.Memory
use clayers.Store.Memory.{MemoryStore}
use clayers.Store.Memory.Transactions.{get-write_batch, refs-write_batch}
use clayers.Store.Memory.Refs.{get_ref-set_ref}

-- `subtree`: the default walk over `get`.
unfoldable pub subtree : MemoryStore → ContentHash → ObjectStream
subtree s root = subtree_walk (Memory.get s) (walk_fuel s.objects) root

abbrev pub memory : Backend MemoryStore
memory = record {
  objects = record {
    get = Memory.get;
    contains = Memory.contains;
    subtree = subtree;
    write_batch = Memory.write_batch;
  };
  refs = record {
    get_ref = Memory.get_ref;
    set_ref = Memory.set_ref;
    delete_ref = Memory.delete_ref;
    list_refs = Memory.list_refs;
    cas_ref = Memory.cas_ref;
  };
}

-- Collecting a subtree of the in-memory store comes to an end.
pub subtree_ends :
    (s : MemoryStore) (root : ContentHash) → try_collect_stream (subtree s root) ≢ out_of_fuel
unfolding subtree try_collect_stream Memory.get
subtree_ends s root = ground (arith, subtree_walk_ends (Memory.get s) s.objects (λ h. refl) root)

-- The in-memory store meets the laws that its clients rely on: how a batch acts on objects and
-- leaves refs alone, `contains` against `get`, what collecting a subtree gives, and how setting a
-- ref acts on refs and leaves objects alone.
pub memory-IsLawful : IsLawful memory
unfolding Memory.get Memory.contains Memory.get_ref Memory.set_ref subtree
memory-IsLawful = record {
  get-write_batch = λ ps s h old done e. ground (arith, get-write_batch ps s h, e);
  get_ref-write_batch = λ ps s name. rw refs-write_batch;
  contains-get = λ s h o e. ground (arith, e);
  get_of_contains = λ s h present e. (lookup h s.objects, refl);
  collect-subtree =
      λ s root map h o e. collect_exact (Memory.get s) (walk_fuel s.objects) root map h o e;
  get-set_ref = λ s name v h. refl;
  get_ref-set_ref = λ s name other v e. get_ref-set_ref s name other v;
}
