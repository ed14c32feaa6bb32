-- ===== src/Cache.antt =====
-- cache-nodes.c and cache-nodes.h: the numbering of tree nodes in the order in which they are first
-- met, by a table from nodes to indices and a linked queue of the nodes. A node is its address, and 0
-- is NULL. The table is GCC's pointer map (or splay tree), which is a parameter. The entries of the
-- queue belong to one structure, so the cells of the heap that hold them are kept in it.
pub mod Chain
pub mod Numbering
pub mod Pmap
pub mod Sptree
pub mod Tests
use ahaggar.Base.{
  ℕ, zero, suc, ◌+◌, ◌%◌, ◌≡◌, Bool, true, false, Option, none, some, List, [], ◌∷◌, Run, ok, fault,
  ◌>>=◌, ◌==◌, if◌then◌else◌, from_option, u32_mod, ◌||◌, not,
}

-- What the code relies on of `pointer_map_*` and `splay_tree_*`: an entry is found under the key that
-- it was last inserted under. `any_value` tells whether a value in the table passes a test, as the
-- one that was inserted last does if it passes at all.
pub record TableOps : Type 1 where
  pub Table : Type 0
  pub create : Table
  pub lookup : Table → ℕ → Option ℕ
  pub insert : Table → ℕ → ℕ → Table
  pub lookup-create : (k : ℕ) → lookup create k ≡ none
  pub lookup-insert :
      (t : Table) (k v j : ℕ) → lookup (insert t k v) j ≡ (if j == k then some v else lookup t j)
  pub any_value : Table → (ℕ → Bool) → Bool
  pub any-create : (f : ℕ → Bool) → any_value create f ≡ false
  pub any-insert :
      (t : Table) (k v : ℕ) (f : ℕ → Bool)
      → (f v || any_value (insert t k v) f) ≡ any_value (insert t k v) f

-- `struct pmap_queue` and `struct sp_tree_queue`
pub record Entry : Type 0 where
  pub node : ℕ
  pub next : ℕ

abbrev pub entry : ℕ → ℕ → Entry
entry t n = record { node = t; next = n }

-- The fields `queue` and `queue_end`, with the cells; `fresh` is what `xmalloc` gives next.
pub record Queue : Type 0 where
  pub queue : ℕ
  pub queue_end : ℕ
  pub cells : ℕ → Option Entry
  pub fresh : ℕ

abbrev pub update : (ℕ → Option Entry) → ℕ → Option Entry → ℕ → Option Entry
update cells a c b = if b == a then c else cells b

unfoldable pub empty_queue : Queue
empty_queue = record { queue = 0; queue_end = 0; cells = λ _. none; fresh = 1 }

-- A fresh entry behind the last one, as `__pmap_nodes_insert` and `__sptree_nodes_insert` link it.
unfoldable pub enqueue : Queue → ℕ → Run Queue
enqueue q t =
    let a = q.fresh in
    let made = update q.cells a (some (entry t 0)) in
    if q.queue_end == 0
    then ok (record { queue = a; queue_end = a; cells = made; fresh = a + 1 })
    else (do
      e ← from_option (made q.queue_end)
      let linked = update made q.queue_end (some (record e { next = a }))
      ok (record q { queue_end = a; cells = linked; fresh = a + 1 }))

-- The loop of `pmap_nodes_finish` and `sptree_nodes_finish`, with fuel. To free an entry that is not
-- live, and to read one, is a fault; so is a loop that outlives its fuel.
unfoldable pub free_entries : ℕ → ℕ → (ℕ → Option Entry) → Run (ℕ → Option Entry)
free_entries zero p cells = fault
free_entries (suc k) p cells = elim (p == 0) [
  | true ↦ ok cells
  | false ↦ do e ← from_option (cells p); free_entries k e.next (update cells p none)
]

module _ (ops : TableOps) where
  open ops use {Table, create, lookup, insert, any_value}

  -- `struct pmap_nodes`
  pub record PmapNodes : Type 0 where
    pub index : ℕ
    pub entries : Queue
    pub pmap : Table

  unfoldable pub pmap_nodes_init : PmapNodes
  pmap_nodes_init = record { index = 0; entries = empty_queue; pmap = create }

  -- What is left of a structure in memory: the entries that are live, the table unless it was
  -- destroyed, and whether the block of the structure itself is live.
  pub record Left : Type 0 where
    pub cells : ℕ → Option Entry
    pub pmap : Option Table
    pub live : Bool

  -- `pointer_map_destroy`
  pub pointer_map_destroy : Left → Run Left
  pointer_map_destroy left = elim left.pmap [
    | none ↦ fault
    | some t ↦ ok (record left { pmap = none })
  ]

  -- `free(pn)`
  pub free_nodes : Left → Run Left
  free_nodes left = if left.live then ok (record left { live = false }) else fault

  pub pmap_nodes_finish : ℕ → PmapNodes → Run Left
  pmap_nodes_finish fuel pn = do
    cells ← free_entries fuel pn.entries.queue pn.entries.cells
    left ← pointer_map_destroy (record { cells = cells; pmap = some pn.pmap; live = true })
    free_nodes left

  -- `__pmap_nodes_insert`; `index` is an `unsigned int`.
  unfoldable pub pmap_nodes_add : PmapNodes → ℕ → Run (ℕ × PmapNodes)
  pmap_nodes_add pn t = do
    let index = (pn.index + 1) % u32_mod
    q ← enqueue pn.entries t
    ok (index, record { index = index; entries = q; pmap = insert pn.pmap t index })

  unfoldable pub pmap_nodes_insert : PmapNodes → ℕ → Run (ℕ × PmapNodes)
  pmap_nodes_insert pn t = if t == 0 then ok (0, pn) else elim (lookup pn.pmap t) [
    | some index ↦ ok (index % u32_mod, pn)
    | none ↦ pmap_nodes_add pn t
  ]

  pub pmap_nodes_contains : PmapNodes → ℕ → Option ℕ
  pmap_nodes_contains pn t = lookup pn.pmap t

  pub pmap_nodes_index_by_key : PmapNodes → ℕ → ℕ
  pmap_nodes_index_by_key pn t =
      if t == 0 then 0 else elim (lookup pn.pmap t) [ some index ↦ index % u32_mod | none ↦ 0 ]

  -- The entry that `*idx` is set to, and the node in it.
  pub advanced : PmapNodes → ℕ → Run ℕ
  advanced pn idx =
      if idx == 0
      then ok pn.entries.queue
      else (do e ← from_option (pn.entries.cells idx); ok e.next)

  pub pmap_nodes_next_node : PmapNodes → ℕ → Run (ℕ × ℕ)
  pmap_nodes_next_node pn idx = do
    i ← advanced pn idx
    if i == 0 then ok (0, i) else (do e ← from_option (pn.entries.cells i); ok (e.node, i))

  -- `struct sp_tree_nodes`; an entry's `node` is the splay tree's node, which its key stands for.
  pub record SpTreeNodes : Type 0 where
    pub index : ℕ
    pub root : ℕ
    pub entries : Queue
    pub nodes : Table

  unfoldable pub sptree_nodes_init : SpTreeNodes
  sptree_nodes_init = record { index = 0; root = 0; entries = empty_queue; nodes = create }

  -- `splay_tree_delete` calls `free`, which `splay_tree_new` was given for the values, on every value
  -- of the tree. The values are indices: to free one that is not 0 is a fault.
  unfoldable pub sptree_nodes_finish : ℕ → SpTreeNodes → Run (ℕ → Option Entry)
  sptree_nodes_finish fuel sp = do
    left ← free_entries fuel sp.entries.queue sp.entries.cells
    if any_value sp.nodes (λ v. not (v == 0)) then fault else ok left

  unfoldable pub sptree_nodes_set_root : SpTreeNodes → ℕ → SpTreeNodes
  sptree_nodes_set_root sp t = record sp { root = t }

  pub sptree_nodes_is_root : SpTreeNodes → ℕ → Bool
  sptree_nodes_is_root sp t = sp.root == t

  -- `__sptree_nodes_insert`
  pub sptree_nodes_add : SpTreeNodes → ℕ → Run (ℕ × SpTreeNodes)
  sptree_nodes_add sp t = do
    let index = (sp.index + 1) % u32_mod
    q ← enqueue sp.entries t
    ok (index, record sp { index = index; entries = q; nodes = insert sp.nodes t index })

  pub sptree_nodes_insert : SpTreeNodes → ℕ → Run (ℕ × SpTreeNodes)
  sptree_nodes_insert sp t = if t == 0 then ok (0, sp) else elim (lookup sp.nodes t) [
    | some index ↦ ok (index % u32_mod, sp)
    | none ↦ sptree_nodes_add sp t
  ]

  pub sptree_nodes_contains : SpTreeNodes → ℕ → Option ℕ
  sptree_nodes_contains sp t = lookup sp.nodes t

  pub sptree_nodes_index_by_key : SpTreeNodes → ℕ → ℕ
  sptree_nodes_index_by_key sp t =
      if t == 0 then 0 else elim (lookup sp.nodes t) [ some index ↦ index % u32_mod | none ↦ 0 ]
