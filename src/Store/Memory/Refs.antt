-- ===== src/Store/Memory/Refs.antt =====
-- The named pointers of the in-memory store.
use clayers.Prelude.{
  String, ◌≡◌, ◌≢◌, ◌↔◌, true, false, Option, none, some, arith, ◌==◌, ==_iff, nat_eq, string_eq,
  option_eq, if◌then◌else◌,
}
use clayers.Prelude.Dict.{lookup, lookup-insert, lookup-remove}
use clayers.Error.{ContentHash, ok}
use clayers.Store.Memory.{MemoryStore, get_ref, set_ref, delete_ref, cas_ref}

-- After a set the ref has the new value, and every other ref its old one.
pub get_ref-set_ref :
    (s : MemoryStore) (name other : String) (h : ContentHash)
    → get_ref (set_ref name h s).1 other ≡ (if name == other then ok (some h) else get_ref s other)
unfolding get_ref set_ref
get_ref-set_ref s name other h = rw (lookup-insert other name h s.refs) (ground arith)

pub get_ref-delete_ref :
    (s : MemoryStore) (name other : String)
    → get_ref (delete_ref name s).1 other ≡ (if name == other then ok none else get_ref s other)
unfolding get_ref delete_ref
get_ref-delete_ref s name other = rw (lookup-remove other name s.refs) (ground arith)

-- A compare-and-swap succeeds exactly when the ref had the expected value; when it succeeds it acts
-- as `set_ref`; and when the value was another it fails and changes nothing.
pub cas_ref_atomic :
    (s : MemoryStore) (name : String) (expected : Option ContentHash) (h : ContentHash)
    → (((cas_ref name expected h s).0 ≡ ok true) ↔ (get_ref s name ≡ ok expected))
      × (((cas_ref name expected h s).0 ≡ ok true)
          → (cas_ref name expected h s).1 ≡ (set_ref name h s).1)
      × (get_ref s name ≢ ok expected
          → ((cas_ref name expected h s).0 ≡ ok false) × ((cas_ref name expected h s).1 ≡ s))
unfolding cas_ref get_ref set_ref
cas_ref_atomic s name expected h =
    let same = ==_iff (lookup name s.refs) expected in
    (
      (λ e. ground (arith, same), λ e. ground (arith, same)),
      λ e. ground (arith, same),
      λ e. (ground (arith, same), ground (arith, same)),
    )
