-- ===== src/Sync/Transfer.antt =====
-- `transfer_objects`: what a transfer copies, and what it leaves alone.
use clayers.Prelude.{
  ℕ, ◌≡◌, refl, ap, ◌∙◌, ◌↔◌, ◌⊎◌, inl, inr, String, Bool, true, false, Option, none, some, List,
  [], ◌∷◌, arith, contains, distinct, nat_eq, ==_iff, Option-cases, if◌then◌else◌,
}
use clayers.Prelude.Dict.{Dict, keys, lookup}
use clayers.Error.{ContentHash, Result, ok, err, out_of_fuel}
use clayers.Object.{Object, links}
use clayers.Action.{Action, continue, lift, reading, ◌>>=◌, >>=-eq-ok}
use clayers.Store.{fetch}
use clayers.Store.Lawful.{Backend, IsLawful, after_puts, is_some}
use clayers.Store.Subtree.{try_collect_stream}
use clayers.Store.Subtree.Reach.{Reach}
use clayers.Store.Subtree.Exact.{collect-distinct}
use clayers.Sync.{missing_from, write_missing, transfer_objects}

module _ {S : Type 0} (b : Backend S) where
  missing_from-cons :
      (s : S) (h : ContentHash) (o : Object) (objects missing : List (ContentHash × Object))
      → missing_from b s ((h, o) ∷ objects) ≡ ok missing
      → (present : Bool) × (rest : List (ContentHash × Object)) × (b.contains s h ≡ ok present)
        × (missing_from b s objects ≡ ok rest)
        × (missing ≡ (if present then rest else (h, o) ∷ rest))
  unfolding missing_from
  missing_from-cons s h o objects missing e =
      go (b.contains s h) (missing_from b s objects) refl refl
    where
      go :
          (c : Result Bool) (r : Result (List (ContentHash × Object)))
          → b.contains s h ≡ c
          → missing_from b s objects ≡ r
          → (present : Bool) × (rest : List (ContentHash × Object)) × (b.contains s h ≡ ok present)
            × (missing_from b s objects ≡ ok rest)
            × (missing ≡ (if present then rest else (h, o) ∷ rest))
      go (ok present) (ok rest) p q = (present, rest, p, q, ground (arith, p, q))
      go (ok present) (err x) p q = ground (arith, p, q)
      go (ok present) out_of_fuel p q = ground (arith, p, q)
      go (err x) r p q = ground (arith, p, q)
      go out_of_fuel r p q = ground (arith, p, q)

module _ {S : Type 0} (b : Backend S) (law : IsLawful b) where
  -- A hash that is not among the objects is not among the missing ones.
  after_puts-other :
      (s : S) (objects missing : List (ContentHash × Object)) (h : ContentHash)
      (old : Option Object)
      → missing_from b s objects ≡ ok missing
      → contains (keys objects) h ≡ false
      → after_puts h missing old ≡ old
  unfolding missing_from
  after_puts-other s [] missing h old e n = let same : missing ≡ [] = ground (arith, e) in rw same
  after_puts-other s ((k, o) ∷ objects) missing h old e n =
      let (present, rest, c, r, same) = missing_from-cons b s k o objects missing e in
      rw same (ground (arith, after_puts-other s objects rest h old r))

  after_puts-missing :
      (s : S) (objects missing : List (ContentHash × Object)) (h : ContentHash)
      (old : Option Object)
      → missing_from b s objects ≡ ok missing
      → distinct (keys objects) ≡ true
      → b.get s h ≡ ok old
      → after_puts h missing old ≡ (if is_some old then old else lookup h objects)
  unfolding missing_from lookup
  after_puts-missing s [] missing h none e d g =
      let same : missing ≡ [] = ground (arith, e) in rw same
  after_puts-missing s [] missing h (some x) e d g =
      let same : missing ≡ [] = ground (arith, e) in rw same
  after_puts-missing s ((k, o) ∷ objects) missing h old e d g =
      let (present, rest, c, r, same) = missing_from-cons b s k o objects missing e in
      let there = law.contains-get s h old g in
      rw same (
        ground (
          arith,
          c,
          there,
          ==_iff k h,
          after_puts-missing s objects rest h old r,
          after_puts-other s objects rest h old r,
          after_puts-other s objects rest h (some o) r,
        ))

  get-write_missing :
      (s : S) (missing : List (ContentHash × Object)) (n : ℕ) (h : ContentHash)
      (old : Option Object)
      → (write_missing b missing s).0 ≡ ok n
      → b.get s h ≡ ok old
      → b.get (write_missing b missing s).1 h ≡ ok (after_puts h missing old)
  unfolding write_missing
  get-write_missing s [] n h old e g = g
  get-write_missing s (p ∷ missing) n h old e g =
      let (u, done, rest, state) = >>=-eq-ok (b.write_batch (p ∷ missing)) _ s e in
      rw state (law.get-write_batch (p ∷ missing) s h old done g)

  -- Whatever comes of it, a transfer leaves the destination's refs alone.
  get_ref-write_missing :
      (s : S) (missing : List (ContentHash × Object)) (name : String)
      → b.get_ref (write_missing b missing s).1 name ≡ b.get_ref s name
  unfolding write_missing
  get_ref-write_missing s [] name = refl
  get_ref-write_missing s (p ∷ missing) name = go (b.write_batch (p ∷ missing) s).0 refl
    where
      go :
          (r : Result (Unit {0}))
          → (b.write_batch (p ∷ missing) s).0 ≡ r
          → b.get_ref (write_missing b (p ∷ missing) s).1 name ≡ b.get_ref s name
      go (ok u) e = rw (e, write_missing) (law.get_ref-write_batch (p ∷ missing) s name)
      go (err x) e = rw (e, write_missing) (law.get_ref-write_batch (p ∷ missing) s name)
      go out_of_fuel e = rw (e, write_missing) (law.get_ref-write_batch (p ∷ missing) s name)

module _ {R S : Type 0} (src : Backend R) (from : R) (b : Backend S) (src_law : IsLawful src)
    (law : IsLawful b) where
  abbrev transfer : ContentHash → Action S ℕ
  transfer = transfer_objects src from b

  pub get_ref-transfer :
      (root : ContentHash) (s : S) (name : String)
      → b.get_ref (transfer root s).1 name ≡ b.get_ref s name
  unfolding transfer_objects
  get_ref-transfer root s name = collected (try_collect_stream (src.subtree from root))
    where
      wrote :
          (r : Result (List (ContentHash × Object)))
          → b.get_ref (continue r (λ missing. write_missing b missing) s).1 name ≡ b.get_ref s name
      wrote (ok missing) = get_ref-write_missing b law s missing name
      wrote (err x) = refl
      wrote out_of_fuel = refl

      collected :
          (r : Result (Dict ContentHash Object))
          → b.get_ref
              (continue r
                (λ objects.
                  (λ t. (missing_from b t objects, t)) >>= λ missing. write_missing b missing)
                s).1
              name
            ≡ b.get_ref s name
      collected (ok objects) = wrote (missing_from b s objects)
      collected (err x) = refl
      collected out_of_fuel = refl

  -- What a transfer that succeeded went through.
  transferred :
      (root : ContentHash) (s : S) (n : ℕ)
      → (transfer root s).0 ≡ ok n
      → (objects : Dict ContentHash Object) × (missing : List (ContentHash × Object))
        × (try_collect_stream (src.subtree from root) ≡ ok objects)
        × (missing_from b s objects ≡ ok missing)
        × ((write_missing b missing s).0 ≡ ok n)
        × ((transfer root s).1 ≡ (write_missing b missing s).1)
  unfolding transfer_objects
  transferred root s n e =
      let (objects, c, e', state) =
        >>=-eq-ok (lift (try_collect_stream (src.subtree from root))) _ s e in
      let (missing, m, w, state') =
        >>=-eq-ok (reading (λ t. missing_from b t objects)) (λ missing. write_missing b missing) s
          e' in
      (objects, missing, c, m, w, state ∙ state')

  -- A transfer keeps what the destination had; of the rest it has afterwards exactly what lies below
  -- the root in the source.
  pub get-transfer :
      (root : ContentHash) (s : S) (n : ℕ) (h : ContentHash) (o : Object)
      → (transfer root s).0 ≡ ok n
      → (old : Option Object) → b.get s h ≡ ok old
      → (b.get (transfer root s).1 h ≡ ok (some o)) ↔ (
          (old ≡ some o)
          ⊎ (old ≡ none) × Reach links (src.get from) root h × (fetch (src.get from) h ≡ ok o))
  get-transfer root s n h o e old g =
      let (objects, missing, c, m, w, state) = transferred root s n e in
      let after = get-write_missing b law s missing n h old w g in
      let puts =
        after_puts-missing b law s objects missing h old m (collect-distinct _ objects c) g in
      let below = src_law.collect-subtree from root objects h o c in
      let now = ap (λ t. b.get t h) state ∙ after ∙ ap ok puts in
      elim (Option-cases old) [
        | inl gone ↦ (
          λ e'. inr (
            gone,
            (below.0 (ground (arith, now, gone, e'))).0,
            (below.0 (ground (arith, now, gone, e'))).1,
          ),
          λ p. elim p [
            | inl there ↦ cc
            | inr (q, r, f) ↦ let found = below.1 (r, f) in ground (arith, now, gone, found)
          ],
        )
        | inr (x, there) ↦ (
          λ e'. inl (ground (arith, now, there, e')),
          λ p. elim p [ inl same ↦ ground (arith, now, there, same) | inr (q, r, f) ↦ cc ],
        )
      ]
