-- ===== src/Dict.antt =====
-- Python's `dict` with string keys and `set` of strings, as the engines use them: insertion order
-- is kept, an assignment to a key that is there keeps its place.
mod Defs
mod Laws
mod Sets
pub use Defs.{Dict}
unfoldable pub use Defs.{get, put, remove, has, keys}
pub use Laws.*
unfoldable pub use Sets.{contains, add, discard, count}
pub use Sets.{
  contains-add, contains-discard, length-add-le, length-discard-le, count-append, count-discard,
  set_laws,
}
