-- ===== src/Treemap.antt =====
-- The ordered map of common/treemap.h and common/treemap.c: a left-leaning red-black tree.
-- A pointer to a subtree is a value of `Tree`, NULL is `leaf`, and a function that changes *node
-- returns the new subtree. A read through NULL is the fault `none`. A node is identified by its key,
-- so the pointer tm->first is the key of its node. cmp_fn is the argument `cmp`.
pub mod Defs
pub mod Ops
pub mod Order
pub mod Entries
pub mod Shape
pub mod Insert
pub mod Shrink
pub mod DeleteMin
pub mod Rightward
pub mod Delete
pub mod Recolor
pub mod Erase
mod Examples
unfoldable pub use Defs.*
unfoldable pub use Ops.*
