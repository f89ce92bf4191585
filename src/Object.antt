-- ===== src/Object.antt =====
-- The object model of the Merkle DAG (crates/clayers-repo/src/object.rs), and the links that the
-- walks over it follow.
pub mod Tree
use clayers.Prelude.{ℕ, String, Option, List, [], ◌∷◌, map}
use clayers.Error.{ContentHash}

pub record Attribute : Type 0 where
  pub local_name : String
  pub namespace_uri : Option String
  pub namespace_prefix : Option String
  pub value : String

pub record Author : Type 0 where
  pub name : String
  pub email : String

pub record ElementObject : Type 0 where
  pub local_name : String
  pub namespace_uri : Option String
  pub namespace_prefix : Option String
  pub extra_namespaces : List (String × String)
  pub attributes : List Attribute
  pub children : List ContentHash
  pub inclusive_hash : ContentHash

pub record TextObject : Type 0 where
  pub content : String

pub record CommentObject : Type 0 where
  pub content : String

pub record PiObject : Type 0 where
  pub target : String
  pub content : Option String

pub record DocumentObject : Type 0 where
  pub root : ContentHash
  pub prologue : List ContentHash

pub record TreeEntry : Type 0 where
  pub path : String
  pub document : ContentHash

pub record TreeObject : Type 0 where
  pub entries : List TreeEntry

-- A timestamp is the number of seconds that the clock gave.
pub record CommitObject : Type 0 where
  pub tree : ContentHash
  pub parents : List ContentHash
  pub author : Author
  pub timestamp : ℕ
  pub message : String

pub record TagObject : Type 0 where
  pub target : ContentHash
  pub name : String
  pub tagger : Author
  pub timestamp : ℕ
  pub message : String

pub data Object : Type 0 where
  element : ElementObject → Object
  text : TextObject → Object
  comment : CommentObject → Object
  pi : PiObject → Object
  document : DocumentObject → Object
  tree : TreeObject → Object
  commit : CommitObject → Object
  tag : TagObject → Object

abbrev pub documents : List TreeEntry → List ContentHash
documents [] = []
documents (e ∷ es) = e.document ∷ documents es

abbrev pub paths_of : List TreeEntry → List String
paths_of [] = []
paths_of (e ∷ es) = e.path ∷ paths_of es

-- What `subtree_walk` pushes for an object, in the order in which it is pushed.
abbrev pub links : Object → List ContentHash
links (element e) = e.children
links (text t) = []
links (comment c) = []
links (pi p) = []
links (document d) = d.root ∷ d.prologue
links (tree t) = documents t.entries
links (commit c) = c.tree ∷ c.parents
links (tag t) = t.target ∷ []
