-- ===== src/Walk.antt =====
-- walk-nodes.c: the walkers over one kind of node each. They print what stands between the parts of
-- the node, and leave the parts to the tree walker of the plugin.
pub mod Lists
pub mod Types
pub mod Decls
pub mod Stmts
pub mod Jumps
pub mod Exprs
pub mod Gimple
