-- ===== src/Cache/Sptree.antt =====
-- The functions of cache-nodes.c on `struct sp_tree_nodes`, against the numbering.
use ahaggar.Base.{
  ℕ, ◌+◌, ◌%◌, ◌<◌, ◌≡◌, refl, ◌∙◌, ap, sym, Option, none, some, List, [], ◌∷◌, ◌++◌, ok, fault,
  ◌==◌, if◌then◌else◌, arith, length, u32_mod, inl, inr, Bool-cases, Option-cases, length-map,
}
use ahaggar.Cache.{
  TableOps, Entry, SpTreeNodes, sptree_nodes_init, sptree_nodes_finish, sptree_nodes_add,
  sptree_nodes_insert, sptree_nodes_set_root, sptree_nodes_is_root,
}
use ahaggar.Cache.Chain.{owns, free_entries_lem}
use ahaggar.Cache.Numbering.{
  position, with_node, index_in, position_bounds, Numbers, Numbers-nil, Numbers-add, position-new,
  is_not_empty,
}

module _ (ops : TableOps) where
  abbrev pub IsSptree : SpTreeNodes ops → List ℕ → Type 0
  IsSptree sp xs = Numbers ops sp.index sp.entries sp.nodes xs

  pub sptree_nodes_init-IsSptree : IsSptree (sptree_nodes_init ops) []
  unfolding sptree_nodes_init
  sptree_nodes_init-IsSptree = Numbers-nil ops

  -- A new structure has no nodes; setting its root makes that node the root and changes no number.
  pub sptree_nodes_set_root_lem :
      (sp : SpTreeNodes ops) (xs : List ℕ) (t u : ℕ)
      → IsSptree sp xs
      → IsSptree (sptree_nodes_init ops) []
        × IsSptree (sptree_nodes_set_root ops sp t) xs
        × (sptree_nodes_is_root ops (sptree_nodes_set_root ops sp t) u ≡ (t == u))
  unfolding sptree_nodes_init sptree_nodes_set_root sptree_nodes_is_root
  sptree_nodes_set_root_lem sp xs t u v = (Numbers-nil ops, v, refl)

  -- sptree_nodes_insert returns the position of the node, keeps the root, and keeps the structure
  -- a numbering.
  pub sptree_nodes_insert_lem :
      (sp : SpTreeNodes ops) (xs : List ℕ) (t : ℕ)
      → IsSptree sp xs
      → length xs + 1 < u32_mod
      → (r : SpTreeNodes ops) × (sptree_nodes_insert ops sp t ≡ ok (index_in (with_node xs t) t, r))
        × IsSptree r (with_node xs t)
        × (r.root ≡ sp.root)
  unfolding sptree_nodes_insert sptree_nodes_add
  sptree_nodes_insert_lem sp xs t v bound = elim (Bool-cases (t == 0)) [
    | inl null ↦ rw null (sp, refl, v, refl)
    | inr some_node ↦ elim (Option-cases (position 0 xs t)) [
      | inr (k, there) ↦
          let small : k % u32_mod ≡ k = omega (arith, position_bounds 0 xs t k there, v) in
          rw (some_node, v.found t, there) (sp, rw (there, small), v, refl)
      | inl absent ↦
          let (q, linked, is) =
            Numbers-add ops xs t v absent (λ z. ground arith) (omega (arith, v.counted)) in
          let small : (sp.index + 1) % u32_mod ≡ sp.index + 1 = omega (arith, v.counted) in
          let last : position 0 (xs ++ t ∷ []) t ≡ some (sp.index + 1) =
            position-new xs t absent ∙ ap (λ n. some (n + 1)) (sym v.counted) in
          let table = ops.insert sp.nodes t (sp.index + 1) in
          rw (some_node, v.found t, absent)
            (
              record sp { index = sp.index + 1; entries = q; nodes = table },
              rw (sptree_nodes_add, linked, small, last),
              is,
              refl,
            )
    ]
  ]

  -- `sptree_nodes_finish` returns only where no node was ever inserted; where one was, it frees an
  -- index as if it were an address, which is a fault.
  pub sptree_nodes_finish_lem :
      (sp : SpTreeNodes ops) (xs : List ℕ) (k : ℕ)
      → (v : IsSptree sp xs) → length xs < k
      → (left : ℕ → Option Entry) × (sptree_nodes_finish ops k sp
          ≡ (if is_not_empty xs then fault else ok left))
        × ((b : ℕ) → left b ≡ (if owns v.cells b then none else sp.entries.cells b))
  unfolding sptree_nodes_finish
  sptree_nodes_finish_lem sp xs k v h =
      let len : length v.cells ≡ length xs =
        sym (length-map (λ (c : ℕ × ℕ). c.1) v.cells) ∙ ap length v.nodes in
      let (left, freed, is) =
        free_entries_lem k sp.entries.cells 0 v.cells v.queued.links (omega arith) in
      (left, rw (v.queued.first, freed, v.values), is)

  -- A structure that was made and given a root is freed, where nothing was inserted.
  pub sptree_nodes_finish-sptree_nodes_init :
      (t k : ℕ)
      → 0 < k
      → (left : ℕ → Option Entry) × (sptree_nodes_finish ops k
            (sptree_nodes_set_root ops (sptree_nodes_init ops) t)
          ≡ ok left)
  sptree_nodes_finish-sptree_nodes_init t k some_fuel =
      let (fresh, empty, root) =
        sptree_nodes_set_root_lem (sptree_nodes_init ops) [] t t sptree_nodes_init-IsSptree in
      let (left, returns, more) =
        sptree_nodes_finish_lem (sptree_nodes_set_root ops (sptree_nodes_init ops) t) [] k empty
          some_fuel in
      (left, returns)
