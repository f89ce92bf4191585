-- ===== src/Store/Lawful.antt =====
-- What the clients of a store rely on: the laws that relate its operations. A backend keeps objects
-- and refs in one state, as the stores of crates/clayers-repo/src/store do.
use clayers.Prelude.{
  String, ◌≡◌, ◌↔◌, true, false, Bool, Option, none, some, List, [], ◌∷◌, ◌==◌, nat_eq, string_eq,
  if◌then◌else◌,
}
use clayers.Prelude.Dict.{Dict, lookup}
use clayers.Error.{ContentHash, ok}
use clayers.Object.{Object, links}
use clayers.Store.{ObjectStore, RefStore, fetch}
use clayers.Store.Subtree.{try_collect_stream}
use clayers.Store.Subtree.Reach.{Reach}

-- The object of the last pair with this hash, or else `old`.
abbrev pub after_puts : ContentHash → List (ContentHash × Object) → Option Object → Option Object
after_puts h [] old = old
after_puts h ((k, o) ∷ ps) old = after_puts h ps (if k == h then some o else old)

abbrev pub is_some {ℓ} : {A : Type ℓ} → Option A → Bool
is_some none = false
is_some (some a) = true

pub record Backend (S : Type 0) : Type 0 where
  pub objects : ObjectStore S
  pub open objects use *
  pub refs : RefStore S
  pub open refs use *

pub record IsLawful {S : Type 0} (b : Backend S) : Type 0 where
  pub get-write_batch :
      (ps : List (ContentHash × Object)) (s : S) (h : ContentHash) (old : Option Object)
      → (b.write_batch ps s).0 ≡ ok tt
      → b.get s h ≡ ok old
      → b.get (b.write_batch ps s).1 h ≡ ok (after_puts h ps old)
  pub get_ref-write_batch :
      (ps : List (ContentHash × Object)) (s : S) (name : String)
      → b.get_ref (b.write_batch ps s).1 name ≡ b.get_ref s name
  pub contains-get :
      (s : S) (h : ContentHash) (o : Option Object)
      → b.get s h ≡ ok o
      → b.contains s h ≡ ok (is_some o)
  pub get_of_contains :
      (s : S) (h : ContentHash) (present : Bool)
      → b.contains s h ≡ ok present
      → (o : Option Object) × (b.get s h ≡ ok o)
  pub collect-subtree :
      (s : S) (root : ContentHash) (map : Dict ContentHash Object) (h : ContentHash) (o : Object)
      → try_collect_stream (b.subtree s root) ≡ ok map
      → (lookup h map ≡ some o) ↔ (Reach links (b.get s) root h × (fetch (b.get s) h ≡ ok o))
  pub get-set_ref :
      (s : S) (name : String) (v : ContentHash) (h : ContentHash)
      → b.get (b.set_ref name v s).1 h ≡ b.get s h
  pub get_ref-set_ref :
      (s : S) (name other : String) (v : ContentHash)
      → (b.set_ref name v s).0 ≡ ok tt
      → b.get_ref (b.set_ref name v s).1 other
        ≡ (if name == other then ok (some v) else b.get_ref s other)
