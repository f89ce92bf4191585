-- ===== src/Examples/Data.antt =====
-- A small history: three commits in a row and one that merges, over one tree with one document.
use clayers.Prelude.{String, none, List, [], ◌∷◌}
use clayers.Prelude.Dict.{Dict}
use clayers.Error.{ContentHash, ok}
use clayers.Object.{
  Object, text, element, document, tree, commit, CommitObject, Author, ElementObject, TreeObject,
  Attribute,
}
use clayers.Action.{pure}
use clayers.Store.Memory.{MemoryStore}
use clayers.Merge.Trees.{Documents, Sides}

abbrev pub author : Author
author = record { name = "Ada"; email = "ada@example.org" }

abbrev pub commit_with : List ContentHash → CommitObject
commit_with parents = record {
  tree = 4;
  parents = parents;
  author = author;
  timestamp = 0;
  message = "change";
}

abbrev pub body : ElementObject
body = record {
  local_name = "body";
  namespace_uri = none;
  namespace_prefix = none;
  extra_namespaces = [];
  attributes = [];
  children = 1 ∷ [];
  inclusive_hash = 102;
}

abbrev pub one_file : TreeObject
one_file = record { entries = record { path = "a.xml"; document = 3 } ∷ [] }

abbrev pub content : Dict ContentHash Object
content =
    (1, text (record { content = "hello" }))
    ∷ (2, element body)
    ∷ (3, document (record { root = 2; prologue = [] }))
    ∷ (4, tree one_file)
    ∷ (5, commit (commit_with []))
    ∷ (6, commit (commit_with (5 ∷ [])))
    ∷ []

abbrev pub newer : Dict ContentHash Object
newer = (8, commit (commit_with (5 ∷ 7 ∷ []))) ∷ (7, commit (commit_with (6 ∷ []))) ∷ content

-- The source of a synchronisation is ahead of its destination.
abbrev pub origin : MemoryStore
origin = record {
  objects = newer;
  refs = ("refs/heads/main", 7) ∷ [];
  inclusive_index = (102, 2) ∷ [];
}

abbrev pub clone : MemoryStore
clone = record {
  objects = content;
  refs = ("refs/heads/main", 6) ∷ [];
  inclusive_index = (102, 2) ∷ [];
}

abbrev pub attribute : String → String → Attribute
attribute name value = record {
  local_name = name;
  namespace_uri = none;
  namespace_prefix = none;
  value = value;
}

-- Documents that are never converted: the merge below has no divergence.
abbrev pub documents : Documents MemoryStore
documents = record {
  export_xml = λ s h. ok "<a/>";
  import_xml = λ xml. pure 90;
  generate_divergence_xml = λ path h xml sides. "<repo:divergence/>";
  hash_tree = λ t. ok 91;
  short_hash = λ hs. "0123456789abcdef";
  iterate = λ ps. ps;
}

abbrev pub sides : Sides
sides = record {
  ours_ref = "refs/heads/main";
  theirs_ref = "refs/heads/feature";
  ours_commit = 6;
  theirs_commit = 7;
  ancestor_commit = 5;
}
