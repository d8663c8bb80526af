-- ===== src/JsMap.antt =====
-- JavaScript's `Map`, which the services keep their state in: entries in the order of insertion.
-- `set` on a key that is there writes in place; a new key goes to the end.
mod Defs
mod Laws
mod Values
unfoldable pub use Defs.*
pub use Laws.*
pub use Values.*
