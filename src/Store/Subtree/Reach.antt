-- ===== src/Store/Subtree/Reach.antt =====
-- What a root leads to, by the links `next` of the objects that are there.
use clayers.Prelude.{◌≡◌, true, Option, List, contains, nat_eq}
use clayers.Error.{ContentHash, Result, ok}
use clayers.Object.{Object}
use clayers.Store.{fetch}

module _ (next : Object → List ContentHash) (get : ContentHash → Result (Option Object)) where
  pub data Reach (root : ContentHash) : ContentHash → Type 0 where
    here : Reach root root
    step :
        {u v : ContentHash} (o : Object)
        → Reach root u
        → fetch get u ≡ ok o
        → contains (next o) v ≡ true
        → Reach root v
