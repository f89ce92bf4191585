-- ===== src/Refs.antt =====
-- Ref paths and HEAD (crates/clayers-repo/src/refs.rs), over the refs of any store.
use Prim.Native.String.{len, slice}
use clayers.Prelude.{String, ◌<>◌, Option, List, [], ◌∷◌, starts_with, if◌then◌else◌}
use clayers.Error.{ContentHash, Result, ok, ◌>>=◌}
use clayers.Store.{RefStore}

abbrev pub heads_prefix : String
heads_prefix = "refs/heads/"

abbrev pub tags_prefix : String
tags_prefix = "refs/tags/"

abbrev pub head : String
head = "HEAD"

unfoldable pub branch_ref : String → String
branch_ref name = heads_prefix <> name

unfoldable pub tag_ref : String → String
tag_ref name = tags_prefix <> name

-- `strip_prefix(prefix).unwrap_or(&full)`
abbrev pub stripped : String → String → String
stripped prefix full = if starts_with full prefix then slice full (len prefix) (len full) else full

abbrev pub strip_all : String → List (String × ContentHash) → List (String × ContentHash)
strip_all prefix [] = []
strip_all prefix ((full, h) ∷ refs) = (stripped prefix full, h) ∷ strip_all prefix refs

module _ {S : Type 0} (refs : RefStore S) where
  unfoldable pub resolve_head : S → Result (Option ContentHash)
  resolve_head s = refs.get_ref s head

  unfoldable pub set_head : ContentHash → S → Result (Unit {0}) × S
  set_head h = refs.set_ref head h

  unfoldable pub get_branch : S → String → Result (Option ContentHash)
  get_branch s name = refs.get_ref s (branch_ref name)

  unfoldable pub list_branches : S → Result (List (String × ContentHash))
  list_branches s = refs.list_refs s heads_prefix >>= λ found. ok (strip_all heads_prefix found)

  unfoldable pub list_tags : S → Result (List (String × ContentHash))
  list_tags s = refs.list_refs s tags_prefix >>= λ found. ok (strip_all tags_prefix found)
