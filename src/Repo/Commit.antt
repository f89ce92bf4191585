-- ===== src/Repo/Commit.antt =====
-- What recording a commit does to the refs and the objects.
use clayers.Prelude.{
  ℕ, ◌≡◌, ap, ◌∙◌, String, ◌||◌, Option, some, [], ◌∷◌, ◌==◌, nat_eq, string_eq, if◌then◌else◌,
  arith,
}
use clayers.Error.{ContentHash, Result, ok}
use clayers.Object.{Object, commit, Author, CommitObject}
use clayers.Action.{pure, reading, lift, >>=-eq-ok}
use clayers.Store.Lawful.{Backend, IsLawful}
use clayers.Refs
use clayers.Refs.{branch_ref, head}
use clayers.Repo.{parents, store_object, record_commit, commit_tree}

module _ {S : Type 0} (b : Backend S) (hash_object : Object → Result ContentHash) where
  -- A stored object: its hash, the write, and the state after it.
  record Stored (o : Object) (s : S) (h : ContentHash) (t : S) : Type 0 where
    hashed : hash_object o ≡ ok h
    wrote : (b.write_batch ((h, o) ∷ []) s).0 ≡ ok tt
    state : t ≡ (b.write_batch ((h, o) ∷ []) s).1

  store_object-Stored :
      (o : Object) (s : S) (h : ContentHash)
      → (store_object b hash_object o s).0 ≡ ok h
      → Stored o s h (store_object b hash_object o s).1
  unfolding store_object
  store_object-Stored o s h e =
      let (k, q, e₁, st₁) = >>=-eq-ok (lift (hash_object o)) _ s e in
      let (u, w, e₂, st₂) = >>=-eq-ok (b.write_batch ((k, o) ∷ [])) _ s e₁ in
      let same : k ≡ h = cc in rw (← same) (record { hashed = q; wrote = w; state = st₁ ∙ st₂ })

  -- What a recorded commit leaves: its object, and its hash in the branch and in HEAD.
  pub record IsRecorded (branch : String) (c : CommitObject) (s : S) (h : ContentHash) (t : S)
      : Type 0 where
    pub hashed : hash_object (commit c) ≡ ok h
    pub refs :
        (other : String)
        → b.get_ref t other
          ≡ (if head == other || branch_ref branch == other then ok (some h) else b.get_ref s other)
    pub objects :
        (k : ContentHash) (old : Option Object)
        → b.get s k ≡ ok old
        → b.get t k ≡ ok (if h == k then some (commit c) else old)

  pub record_commit-IsRecorded :
      IsLawful b
      → (branch : String) (c : CommitObject) (s : S) (h : ContentHash)
      → (record_commit b hash_object branch c s).0 ≡ ok h
      → IsRecorded branch c s h (record_commit b hash_object branch c s).1
  unfolding record_commit Refs.set_head
  record_commit-IsRecorded law branch c s h e =
      let (k, p, e₁, st₁) = >>=-eq-ok (store_object b hash_object (commit c)) _ s e in
      let stored = store_object-Stored (commit c) s k p in
      let mid = (store_object b hash_object (commit c) s).1 in
      let (u, w, e₂, st₂) = >>=-eq-ok (b.set_ref (branch_ref branch) k) _ mid e₁ in
      let after = (b.set_ref (branch_ref branch) k mid).1 in
      let (v, x, e₃, st₃) = >>=-eq-ok (b.set_ref head k) (λ _. pure k) after e₂ in
      let same : k ≡ h = cc in
      let final = st₁ ∙ st₂ ∙ st₃ in
      rw (← same) (record {
        hashed = stored.hashed;
        refs = λ other.
            let one = law.get_ref-set_ref after head other k x in
            let two = law.get_ref-set_ref mid (branch_ref branch) other k w in
            let zero' =
              ap (λ t. b.get_ref t other) stored.state
              ∙ law.get_ref-write_batch ((k, commit c) ∷ []) s other in
            ap (λ t. b.get_ref t other) final ∙ ground (arith, one, two, zero');
        objects = λ j old g.
            let put = law.get-write_batch ((k, commit c) ∷ []) s j old stored.wrote g in
            ap (λ t. b.get t j) final
            ∙ law.get-set_ref after head k j
            ∙ law.get-set_ref mid (branch_ref branch) k j
            ∙ ap (λ t. b.get t j) stored.state
            ∙ put;
      })

  -- Over a lawful store, if `commit` gives a hash: it is that of the commit of the given tree,
  -- author, message and time whose parent is the branch's old tip, or which has none; the branch and
  -- HEAD have it, and the other refs are as they were; and the store has the commit at it and the
  -- old object at every other hash.
  pub commit_tree-IsRecorded :
      IsLawful b
      → (branch : String) (root : ContentHash) (author : Author) (message : String) (now : ℕ)
        (s : S) (tip : Option ContentHash) (h : ContentHash)
      → b.get_ref s (branch_ref branch) ≡ ok tip
      → (commit_tree b hash_object branch root author message now s).0 ≡ ok h
      → IsRecorded branch
          (record {
            tree = root;
            parents = parents tip;
            author = author;
            timestamp = now;
            message = message;
          })
          s
          h
          (commit_tree b hash_object branch root author message now s).1
  unfolding commit_tree Refs.get_branch
  commit_tree-IsRecorded law branch root author message now s tip h before e =
      let (found, p, e₁, st₁) = >>=-eq-ok (reading (λ t. b.get_ref t (branch_ref branch))) _ s e in
      let same : found ≡ tip = ground (arith, p, before) in
      rw (st₁, ← same)
        (record_commit-IsRecorded law branch
          (record {
            tree = root;
            parents = parents found;
            author = author;
            timestamp = now;
            message = message;
          })
          s h e₁)
