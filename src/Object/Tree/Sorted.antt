-- ===== src/Object/Tree/Sorted.antt =====
-- A new tree is sorted by path, answers lookups as the list that it was made of, and does not
-- depend on the order of that list.
use mathlib.Core.List.{Permᴰ}
use clayers.Prelude.{
  String, ◌≡◌, refl, sym, ◌∙◌, ap, ◌≢◌, true, some, List, [], ◌∷◌, arith, contains, distinct, ◌==◌,
  ==_iff, string_eq, if◌then◌else◌, inl, inr, Bool-cases,
}
use clayers.Prelude.PathOrder.{path_le, path_le_refl, path_le_total, path_le_antisym, path_le_trans}
use clayers.Object.{TreeEntry, paths_of}
use clayers.Object.Tree.{insert_entry, sort_entries, new, find_entry, get}

-- Each entry's path is at most those of all later entries.
abbrev pub BelowAll : String → List TreeEntry → Type 0
BelowAll p [] = Unit
BelowAll p (e ∷ es) = (path_le p e.path ≡ true) × BelowAll p es

abbrev pub IsSorted : List TreeEntry → Type 0
IsSorted [] = Unit
IsSorted (e ∷ es) = BelowAll e.path es × IsSorted es

BelowAll-trans :
    (p q : String) (es : List TreeEntry) → path_le p q ≡ true → BelowAll q es → BelowAll p es
BelowAll-trans p q [] h b = tt
BelowAll-trans p q (e ∷ es) h b = (path_le_trans p q e.path h b.0, BelowAll-trans p q es h b.1)

BelowAll-insert_entry :
    (p : String) (e : TreeEntry) (es : List TreeEntry)
    → path_le p e.path ≡ true
    → BelowAll p es
    → BelowAll p (insert_entry e es)
unfolding insert_entry
BelowAll-insert_entry p e [] h b = (h, tt)
BelowAll-insert_entry p e (f ∷ es) h b = elim (Bool-cases (path_le e.path f.path)) [
  | inl le ↦ rw le (h, b)
  | inr gt ↦ rw gt (b.0, BelowAll-insert_entry p e es h b.1)
]

insert_entry-IsSorted :
    (e : TreeEntry) (es : List TreeEntry) → IsSorted es → IsSorted (insert_entry e es)
unfolding insert_entry
insert_entry-IsSorted e [] s = (tt, tt)
insert_entry-IsSorted e (f ∷ es) s = elim (Bool-cases (path_le e.path f.path)) [
  | inl le ↦ rw le ((le, BelowAll-trans e.path f.path es le s.0), s)
  | inr gt ↦ rw gt (
    BelowAll-insert_entry f.path e es (path_le_total e.path f.path gt) s.0,
    insert_entry-IsSorted e es s.1,
  )
]

sort_entries-IsSorted : (es : List TreeEntry) → IsSorted (sort_entries es)
unfolding sort_entries
sort_entries-IsSorted [] = tt
sort_entries-IsSorted (e ∷ es) =
    insert_entry-IsSorted e (sort_entries es) (sort_entries-IsSorted es)

-- The entries of a tree that `TreeObject::new` makes are sorted by path.
pub new-IsSorted : (es : List TreeEntry) → IsSorted (new es).entries
unfolding new
new-IsSorted es = sort_entries-IsSorted es

find_entry-insert_entry :
    (p : String) (e : TreeEntry) (es : List TreeEntry)
    → find_entry p (insert_entry e es) ≡ find_entry p (e ∷ es)
unfolding insert_entry find_entry
find_entry-insert_entry p e [] = refl
find_entry-insert_entry p e (f ∷ es) =
    ground (arith, find_entry-insert_entry p e es, ==_iff e.path p, ==_iff f.path p, path_le_refl p)

find_entry-sort_entries :
    (p : String) (es : List TreeEntry) → find_entry p (sort_entries es) ≡ find_entry p es
unfolding sort_entries find_entry
find_entry-sort_entries p [] = refl
find_entry-sort_entries p (e ∷ es) =
    find_entry-insert_entry p e (sort_entries es)
    ∙ (unfold find_entry in
        ap (λ r. if e.path == p then some e else r) (find_entry-sort_entries p es))

-- A lookup in a new tree gives the first entry of the list that has the path.
pub get-new : (es : List TreeEntry) (p : String) → get (new es) p ≡ find_entry p es
unfolding get new
get-new es p = find_entry-sort_entries p es

insert_entry_comm :
    (e f : TreeEntry) (es : List TreeEntry)
    → e.path ≢ f.path
    → insert_entry e (insert_entry f es) ≡ insert_entry f (insert_entry e es)
unfolding insert_entry
insert_entry_comm e f [] h =
    ground (arith, path_le_total e.path f.path, path_le_antisym e.path f.path)
insert_entry_comm e f (g ∷ es) h = ground (
  arith,
  insert_entry_comm e f es,
  path_le_total e.path f.path,
  path_le_antisym e.path f.path,
  path_le_total e.path g.path,
  path_le_total f.path g.path,
  path_le_trans e.path f.path g.path,
  path_le_trans f.path e.path g.path,
  path_le_trans e.path g.path f.path,
  path_le_trans f.path g.path e.path,
)

contains-perm :
    {es fs : List TreeEntry} (p : String)
    → Permᴰ es fs
    → contains (paths_of es) p ≡ contains (paths_of fs) p
contains-perm p Permᴰ.nil = refl
contains-perm p (Permᴰ.cons e h) = ground (arith, contains-perm p h, e)
contains-perm p (Permᴰ.swap e f) = ground (arith, e, f)
contains-perm p (Permᴰ.trans h k) = contains-perm p h ∙ contains-perm p k

distinct-perm :
    {es fs : List TreeEntry} → Permᴰ es fs → distinct (paths_of es) ≡ distinct (paths_of fs)
distinct-perm Permᴰ.nil = refl
distinct-perm (Permᴰ.cons {a} e h) = ground (arith, contains-perm a.path h, distinct-perm h, e)
distinct-perm (Permᴰ.swap {a} {b} {l = l} e f) =
    ground (arith, e, f, ==_iff a.path b.path, ==_iff b.path a.path)
distinct-perm (Permᴰ.trans h k) = distinct-perm h ∙ distinct-perm k

sort_entries-perm :
    {es fs : List TreeEntry}
    → Permᴰ es fs
    → distinct (paths_of es) ≡ true
    → sort_entries es ≡ sort_entries fs
unfolding sort_entries
sort_entries-perm Permᴰ.nil d = refl
sort_entries-perm (Permᴰ.cons e h) d = ground (arith, sort_entries-perm h, e)
sort_entries-perm (Permᴰ.swap {a} {b} {l = l} e f) d =
    ground (arith, e, f, insert_entry_comm a b (sort_entries l), ==_iff b.path a.path)
sort_entries-perm (Permᴰ.trans h k) d =
    sort_entries-perm h d ∙ sort_entries-perm k (sym (distinct-perm h) ∙ d)

-- Two lists with the same entries in any order, in which no path stands twice, make the same tree.
pub new-perm :
    {es fs : List TreeEntry} → Permᴰ es fs → distinct (paths_of es) ≡ true → new es ≡ new fs
unfolding new
new-perm h d = ap (λ es. record { entries = es }) (sort_entries-perm h d)
