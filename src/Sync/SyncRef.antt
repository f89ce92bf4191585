-- ===== src/Sync/SyncRef.antt =====
-- `sync_ref`: what an update does to the destination's refs and objects, and what it needs.
use clayers.Prelude.{
  ℕ, ◌≡◌, refl, sym, ap, ◌∙◌, ◌≢◌, ◌↔◌, ◌⊎◌, inl, inr, String, ◌<>◌, Bool, true, false, Option,
  none, some, arith, nat_eq, string_eq, ◌==◌, ==_iff, Bool-cases, if◌then◌else◌,
}
use clayers.Error.{ContentHash, ref, Result, ok, err, out_of_fuel, ok_or}
use clayers.Object.{Object, links}
use clayers.Action.{Action, continue, lift, reading, pure, ◌>>=◌, >>=-eq-ok}
use clayers.Store.{fetch}
use clayers.Store.Lawful.{Backend, IsLawful}
use clayers.Store.Subtree.Reach.{Reach}
use clayers.Sync.{RefConflict, transfer_objects, decide, finish, update_ref, sync_ref}
use clayers.Sync.Transfer.{get_ref-transfer, get-transfer}

module _ {R S : Type 0} (src : Backend R) (from : R) (b : Backend S) where
  abbrev transfer : ContentHash → Action S ℕ
  transfer = transfer_objects src from b

  -- How a ref came to be updated from `s` to `t`: the objects were copied, the ref was new or the
  -- policy agreed, and the ref was set.
  pub record Updated (name : String) (policy : RefConflict S) (s t : S) : Type 0 where
    pub value : ContentHash
    pub copied : ℕ
    pub source : src.get_ref from name ≡ ok (some value)
    pub copy : (transfer value s).0 ≡ ok copied
    pub agreed :
        (b.get_ref s name ≡ ok none)
        ⊎ ((old : ContentHash) × (b.get_ref s name ≡ ok (some old))
            × (old ≢ value)
            × (policy (transfer value s).1 name value old ≡ ok true))
    pub wrote : (b.set_ref name value (transfer value s).1).0 ≡ ok tt
    pub state : t ≡ (b.set_ref name value (transfer value s).1).1

  finish-true :
      (name : String) (v : ContentHash) (proceed : Bool) (s : S)
      → (finish src from b name v proceed s).0 ≡ ok true
      → (proceed ≡ true)
        × ((b.set_ref name v s).0 ≡ ok tt)
        × ((finish src from b name v proceed s).1 ≡ (b.set_ref name v s).1)
  unfolding finish
  finish-true name v true s e =
      let (u, w, r, st) = >>=-eq-ok (b.set_ref name v) (λ _. pure true) s e in (refl, w, st)
  finish-true name v false s e = cc

  -- A decision to proceed.
  record Decided (name : String) (policy : RefConflict S) (v : ContentHash)
      (dst : Option ContentHash) (s t : S) : Type 0 where
    copied : ℕ
    copy : (transfer v s).0 ≡ ok copied
    state : t ≡ (transfer v s).1
    agreed :
        (dst ≡ none)
        ⊎ ((old : ContentHash) × (dst ≡ some old)
            × (old ≢ v)
            × (policy (transfer v s).1 name v old ≡ ok true))

  decide-Decided :
      (name : String) (policy : RefConflict S) (v : ContentHash) (dst : Option ContentHash) (s : S)
      → (decide src from b name policy v dst s).0 ≡ ok true
      → Decided name policy v dst s (decide src from b name policy v dst s).1
  unfolding decide
  decide-Decided name policy v none s e =
      let (n, c, r, st) = >>=-eq-ok (transfer v) (λ _. pure true) s e in
      record { copied = n; copy = c; state = st; agreed = inl refl }
  decide-Decided name policy v (some old) s e = elim (Bool-cases (old == v)) [
    | inl same ↦ absurd (ground arith)
    | inr differ ↦
        let (n, c, r, st) =
          >>=-eq-ok (transfer v) (λ _. reading (λ t. policy t name v old)) s (rw differ at e) in
        rw differ (record {
          copied = n;
          copy = c;
          state = st;
          agreed = inr (old, refl, (λ p. ground (arith, ==_iff old v, p)), r);
        })
  ]

  update_ref-Updated :
      (name : String) (policy : RefConflict S) (v : ContentHash) (s : S)
      → src.get_ref from name ≡ ok (some v)
      → (update_ref src from b name policy v s).0 ≡ ok true
      → Updated name policy s (update_ref src from b name policy v s).1
  unfolding update_ref
  update_ref-Updated name policy v s g e =
      let (dst, d, e₁, st₁) = >>=-eq-ok (reading (λ t. b.get_ref t name)) _ s e in
      let (proceed, p, e₂, st₂) =
        >>=-eq-ok (decide src from b name policy v dst) (finish src from b name v) s e₁ in
      let (yes', w, st₃) = finish-true name v proceed _ e₂ in
      let decided = decide-Decided name policy v dst s (p ∙ ap ok yes') in
      let same = decided.state in
      record {
        value = v;
        copied = decided.copied;
        source = g;
        copy = decided.copy;
        agreed = elim decided.agreed [
          | inl gone ↦ inl (d ∙ ap ok gone)
          | inr (old, there, differ, agreed) ↦ inr (old, d ∙ ap ok there, differ, agreed)
        ];
        wrote = ap (λ t. (b.set_ref name v t).0) (sym same) ∙ w;
        state = st₁ ∙ st₂ ∙ st₃ ∙ ap (λ t. (b.set_ref name v t).1) same;
      }

  -- A successful update went through the source's value, the copy, the policy and the write.
  pub sync_ref-Updated :
      (name : String) (policy : RefConflict S) (s : S)
      → (sync_ref src from b name policy s).0 ≡ ok true
      → Updated name policy s (sync_ref src from b name policy s).1
  unfolding sync_ref
  sync_ref-Updated name policy s = found (src.get_ref from name) refl
    where
      hash :
          (o : Option ContentHash)
          → src.get_ref from name ≡ ok o
          → (continue
              (ok_or (ref ("source ref not found: " <> name)) o)
              (update_ref src from b name policy)
              s).0
            ≡ ok true
          → Updated name policy s
              (continue
                (ok_or (ref ("source ref not found: " <> name)) o)
                (update_ref src from b name policy)
                s).1
      hash none g e = cc
      hash (some v) g e = update_ref-Updated name policy v s g e

      found :
          (r : Result (Option ContentHash))
          → src.get_ref from name ≡ r
          → (continue r
              (λ o.
                lift (ok_or (ref ("source ref not found: " <> name)) o)
                >>= update_ref src from b name policy)
              s).0
            ≡ ok true
          → Updated name policy s
              (continue r
                (λ o.
                  lift (ok_or (ref ("source ref not found: " <> name)) o)
                  >>= update_ref src from b name policy)
                s).1
      found (ok o) g e = hash o g e
      found (err x) g e = cc
      found out_of_fuel g e = cc

  module _ (src_law : IsLawful src) (law : IsLawful b) where
    -- Between stores that meet the laws: if `sync_ref` says that it updated the ref, the
    -- destination's ref now has what the source's has, and every other ref has its old value.
    pub get_ref-sync_ref :
        (name : String) (policy : RefConflict S) (s : S) (other : String)
        → (sync_ref src from b name policy s).0 ≡ ok true
        → b.get_ref (sync_ref src from b name policy s).1 other
          ≡ (if name == other then src.get_ref from name else b.get_ref s other)
    get_ref-sync_ref name policy s other e =
        let u = sync_ref-Updated name policy s e in
        let t = (transfer u.value s).1 in
        let kept = get_ref-transfer src from b src_law law u.value s other in
        let set = law.get_ref-set_ref t name other u.value u.wrote in
        let source = u.source in rw (u.state, set) (ground (arith, source, kept))

    -- Between stores that meet the laws: if `sync_ref` updated a ref whose value at the source is
    -- `v`, then after it the destination has an object at a hash exactly when it had that object
    -- before, or had none there and the hash is reachable from `v` in the source, which has the
    -- object.
    pub get-sync_ref :
        (name : String) (policy : RefConflict S) (s : S) (v h : ContentHash) (o : Object)
        → (sync_ref src from b name policy s).0 ≡ ok true
        → src.get_ref from name ≡ ok (some v)
        → (old : Option Object) → b.get s h ≡ ok old
        → (b.get (sync_ref src from b name policy s).1 h ≡ ok (some o)) ↔ (
            (old ≡ some o)
            ⊎ (old ≡ none) × Reach links (src.get from) v h × (fetch (src.get from) h ≡ ok o))
    get-sync_ref name policy s v h o e source old g =
        let u = sync_ref-Updated name policy s e in
        let same : u.value ≡ v = let s' = u.source in ground (arith, source, s') in
        let t = (transfer u.value s).1 in
        rw (u.state, law.get-set_ref t name u.value h, ← same)
          (get-transfer src from b src_law law u.value s u.copied h o u.copy old g)

    finish-false :
        (name : String) (v : ContentHash) (proceed : Bool) (s : S)
        → (finish src from b name v proceed s).0 ≡ ok false
        → (proceed ≡ false) × ((finish src from b name v proceed s).1 ≡ s)
    unfolding finish
    finish-false name v false s e = (refl, refl)
    finish-false name v true s e =
        let (u, w, r, st) = >>=-eq-ok (b.set_ref name v) (λ _. pure true) s e in cc

    get_ref-decide :
        (name : String) (policy : RefConflict S) (v : ContentHash) (dst : Option ContentHash)
        (s : S) (other : String) (proceed : Bool)
        → (decide src from b name policy v dst s).0 ≡ ok proceed
        → b.get_ref (decide src from b name policy v dst s).1 other ≡ b.get_ref s other
    unfolding decide
    get_ref-decide name policy v none s other proceed e =
        let (n, c, r, st) = >>=-eq-ok (transfer v) (λ _. pure true) s e in
        rw st (get_ref-transfer src from b src_law law v s other)
    get_ref-decide name policy v (some old) s other proceed e = elim (Bool-cases (old == v)) [
      | inl same ↦ rw same
      | inr differ ↦
          let (n, c, r, st) =
            >>=-eq-ok (transfer v) (λ _. reading (λ t. policy t name v old)) s (rw differ at e) in
          rw (differ, st) (get_ref-transfer src from b src_law law v s other)
    ]

    get_ref-update_ref-false :
        (name : String) (policy : RefConflict S) (v : ContentHash) (s : S) (other : String)
        → (update_ref src from b name policy v s).0 ≡ ok false
        → b.get_ref (update_ref src from b name policy v s).1 other ≡ b.get_ref s other
    unfolding update_ref
    get_ref-update_ref-false name policy v s other e =
        let (dst, d, e₁, st₁) = >>=-eq-ok (reading (λ t. b.get_ref t name)) _ s e in
        let (proceed, p, e₂, st₂) =
          >>=-eq-ok (decide src from b name policy v dst) (finish src from b name v) s e₁ in
        let (refused, st₃) = finish-false name v proceed _ e₂ in
        rw (st₁ ∙ st₂ ∙ st₃) (get_ref-decide name policy v dst s other proceed p)

    -- Between stores that meet the laws: if `sync_ref` says that it updated nothing, every ref of
    -- the destination is as it was.
    pub get_ref-sync_ref-false :
        (name : String) (policy : RefConflict S) (s : S) (other : String)
        → (sync_ref src from b name policy s).0 ≡ ok false
        → b.get_ref (sync_ref src from b name policy s).1 other ≡ b.get_ref s other
    unfolding sync_ref
    get_ref-sync_ref-false name policy s other e = found (src.get_ref from name) e
      where
        hash :
            (o : Option ContentHash)
            → (continue
                (ok_or (ref ("source ref not found: " <> name)) o)
                (update_ref src from b name policy)
                s).0
              ≡ ok false
            → b.get_ref
                (continue
                  (ok_or (ref ("source ref not found: " <> name)) o)
                  (update_ref src from b name policy)
                  s).1
                other
              ≡ b.get_ref s other
        hash none k = refl
        hash (some v) k = get_ref-update_ref-false name policy v s other k

        found :
            (r : Result (Option ContentHash))
            → (continue r
                (λ o.
                  lift (ok_or (ref ("source ref not found: " <> name)) o)
                  >>= update_ref src from b name policy)
                s).0
              ≡ ok false
            → b.get_ref
                (continue r
                  (λ o.
                    lift (ok_or (ref ("source ref not found: " <> name)) o)
                    >>= update_ref src from b name policy)
                  s).1
                other
              ≡ b.get_ref s other
        found (ok o) k = hash o k
        found (err x) k = refl
        found out_of_fuel k = refl
