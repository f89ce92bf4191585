-- ===== src/Store.antt =====
-- The storage traits (crates/clayers-repo/src/store/mod.rs) as records of operations on a state.
-- A call that writes gives the state back beside its result, also when it fails.
pub mod Memory
pub mod Subtree
pub mod Lawful
use clayers.Prelude.{String, Bool, Option, List}
use clayers.Error.{ContentHash, Error, Result, ok, err, ◌>>=◌, ok_or, not_found}
use clayers.Object.{Object}

-- A `BoxStream<Result<(ContentHash, Object)>>`: the items in their order, and how it ended.
pub record ObjectStream : Type 0 where
  pub items : List (ContentHash × Object)
  pub ending : Result (Unit {0})

-- `ObjectStore`; `write_batch` is `transaction()`, `put` of each pair and `commit()`.
pub record ObjectStore (S : Type 0) : Type 0 where
  pub get : S → ContentHash → Result (Option Object)
  pub contains : S → ContentHash → Result Bool
  pub subtree : S → ContentHash → ObjectStream
  pub write_batch : List (ContentHash × Object) → S → Result (Unit {0}) × S

-- `RefStore`
pub record RefStore (S : Type 0) : Type 0 where
  pub get_ref : S → String → Result (Option ContentHash)
  pub set_ref : String → ContentHash → S → Result (Unit {0}) × S
  pub delete_ref : String → S → Result (Unit {0}) × S
  pub list_refs : S → String → Result (List (String × ContentHash))
  pub cas_ref : String → Option ContentHash → ContentHash → S → Result Bool × S

-- `get(&hash).await?.ok_or(Error::NotFound(hash))?`
unfoldable pub fetch : (ContentHash → Result (Option Object)) → ContentHash → Result Object
fetch get h = get h >>= λ o. ok_or (not_found h) o
