-- ===== src/Cache/Pmap.antt =====
-- The functions of cache-nodes.c on `struct pmap_nodes`, against the numbering.
use ahaggar.Base.{
  ℕ, zero, suc, ◌+◌, ◌%◌, ◌<◌, ◌≡◌, refl, ◌∙◌, ap, sym, true, false, Option, none, some, List, [],
  ◌∷◌, ◌++◌, map, Run, ok, fault, ◌>>=◌, ◌==◌, if◌then◌else◌, arith, length, u32_mod, inl, inr,
  Bool-cases, Option-cases, ne→==, length-map, subst,
}
use ahaggar.Cache.{
  TableOps, Entry, PmapNodes, pmap_nodes_init, Left, pointer_map_destroy, free_nodes, free_entries,
  pmap_nodes_finish, pmap_nodes_add, pmap_nodes_insert, pmap_nodes_index_by_key, advanced,
  pmap_nodes_next_node,
}
use ahaggar.Cache.Chain.{Cells, Links, first_of, owns, free_entries_lem}
use ahaggar.Cache.Numbering.{
  position, with_node, index_in, position_bounds, NonZero, Numbers, Numbers-nil, Numbers-add,
  position-new, numbering, length-with_node,
}

module _ (ops : TableOps) where
  abbrev pub IsPmap : PmapNodes ops → List ℕ → Type 0
  IsPmap pn xs = Numbers ops pn.index pn.entries pn.pmap xs

  pub pmap_nodes_init_lem : IsPmap (pmap_nodes_init ops) []
  unfolding pmap_nodes_init
  pmap_nodes_init_lem = Numbers-nil ops

  -- A node's index is its position, 0 for NULL and for a node that was never inserted.
  pub pmap_nodes_index_by_key_lem :
      (pn : PmapNodes ops) (xs : List ℕ) (t : ℕ)
      → IsPmap pn xs
      → pmap_nodes_index_by_key ops pn t ≡ index_in xs t
  unfolding pmap_nodes_index_by_key
  pmap_nodes_index_by_key_lem pn xs t v = elim (Option-cases (position 0 xs t)) [
    | inl absent ↦ rw (v.found t, absent)
    | inr (k, there) ↦
        let small : k % u32_mod ≡ k = omega (arith, position_bounds 0 xs t k there, v) in
        rw (v.found t, there, small)
  ]

  -- pmap_nodes_insert returns the position of the node and keeps the structure a numbering:
  -- unchanged for NULL and for a node that is there, with the node at the end for a new one.
  pub pmap_nodes_insert_lem :
      (pn : PmapNodes ops) (xs : List ℕ) (t : ℕ)
      → IsPmap pn xs
      → length xs + 1 < u32_mod
      → (r : PmapNodes ops) × (pmap_nodes_insert ops pn t ≡ ok (index_in (with_node xs t) t, r))
        × IsPmap r (with_node xs t)
  unfolding pmap_nodes_insert pmap_nodes_add
  pmap_nodes_insert_lem pn xs t v bound = elim (Bool-cases (t == 0)) [
    | inl null ↦ rw null (pn, refl, v)
    | inr some_node ↦ elim (Option-cases (position 0 xs t)) [
      | inr (k, there) ↦
          let small : k % u32_mod ≡ k = omega (arith, position_bounds 0 xs t k there, v) in
          rw (some_node, v.found t, there) (pn, rw (there, small), v)
      | inl absent ↦
          let (q, linked, is) =
            Numbers-add ops xs t v absent (λ z. ground arith) (omega (arith, v.counted)) in
          let small : (pn.index + 1) % u32_mod ≡ pn.index + 1 = omega (arith, v.counted) in
          let last : position 0 (xs ++ t ∷ []) t ≡ some (pn.index + 1) =
            position-new xs t absent ∙ ap (λ n. some (n + 1)) (sym v.counted) in
          rw (some_node, v.found t, absent)
            (
              record {
                index = pn.index + 1;
                entries = q;
                pmap = ops.insert pn.pmap t (pn.index + 1);
              },
              rw (pmap_nodes_add, linked, small, last),
              is,
            )
    ]
  ]

  -- One insertion after the other.
  pub insert_nodes : List ℕ → PmapNodes ops → Run (PmapNodes ops)
  insert_nodes [] pn = ok pn
  insert_nodes (t ∷ ts) pn = do (_, r) ← pmap_nodes_insert ops pn t; insert_nodes ts r

  insert_nodes-IsPmap :
      (ts : List ℕ) (pn : PmapNodes ops) (xs : List ℕ)
      → IsPmap pn xs
      → length xs + length ts < u32_mod
      → (r : PmapNodes ops) × (insert_nodes ts pn ≡ ok r) × IsPmap r (numbering xs ts)
  unfolding insert_nodes
  insert_nodes-IsPmap [] pn xs v bound = (pn, refl, v)
  insert_nodes-IsPmap (t ∷ ts) pn xs v bound =
      let (q, one, w) = pmap_nodes_insert_lem pn xs t v (omega arith) in
      let (r, rest, is) =
        insert_nodes-IsPmap ts q (with_node xs t) w (omega (arith, length-with_node xs t)) in
      (r, rw one rest, is)

  -- From a fresh pmap_nodes any insertions, fewer than 2^32, return; the structure then stands for
  -- the distinct non-NULL nodes in the order of first insertion, and pmap_nodes_index_by_key gives
  -- each its place there, and 0 to every other node.
  pub insert_nodes_lem :
      (ts : List ℕ)
      → length ts < u32_mod
      → (r : PmapNodes ops) × (insert_nodes ts (pmap_nodes_init ops) ≡ ok r)
        × IsPmap r (numbering [] ts)
        × ((t : ℕ) → pmap_nodes_index_by_key ops r t ≡ index_in (numbering [] ts) t)
  insert_nodes_lem ts bound =
      let (r, done, is) =
        insert_nodes-IsPmap ts (pmap_nodes_init ops) [] pmap_nodes_init_lem (omega arith) in
      (r, done, is, λ t. pmap_nodes_index_by_key_lem r (numbering [] ts) t is)

  -- The nodes that calls of `pmap_nodes_next_node` give from the entry `idx` on, until NULL.
  pub visit : ℕ → PmapNodes ops → ℕ → Run (List ℕ)
  visit zero pn idx = fault
  visit (suc k) pn idx = do
    (t, i) ← pmap_nodes_next_node ops pn idx
    elim (t == 0) [ true ↦ ok [] | false ↦ do ts ← visit k pn i; ok (t ∷ ts) ]

  -- The rest of the queue behind an entry.
  visit-cells :
      (pn : PmapNodes ops) (k idx lo : ℕ) (cs : Cells)
      → advanced ops pn idx ≡ ok (first_of cs)
      → Links pn.entries.cells lo cs
      → NonZero (map (λ (c : ℕ × ℕ). c.1) cs)
      → length cs < k
      → visit k pn idx ≡ ok (map (λ (c : ℕ × ℕ). c.1) cs)
  unfolding visit
  visit-cells pn zero idx lo cs at l nz h = absurd (omega arith)
  visit-cells pn (suc k) idx lo [] at l nz h =
      let step : pmap_nodes_next_node ops pn idx ≡ ok (0, 0) =
        unfold pmap_nodes_next_node in rw at in
      rw step
  visit-cells pn (suc k) idx lo ((a, t) ∷ cs) at (up, here, l) (some_node, nz) h =
      let not_null = ne→== a 0 (omega arith) in
      let node = ne→== t 0 some_node in
      let next : advanced ops pn a ≡ ok (first_of cs) = unfold advanced in rw (not_null, here) in
      let step : pmap_nodes_next_node ops pn idx ≡ ok (t, a) =
        unfold pmap_nodes_next_node in rw (at, not_null, here) in
      rw (step, ◌>>=◌, node, visit-cells pn k a a cs next l nz (omega arith))

  -- Calls of `pmap_nodes_next_node` from NULL on give the nodes in the order of their indices, and
  -- then NULL.
  pub visit_lem :
      (pn : PmapNodes ops) (xs : List ℕ) (k : ℕ)
      → IsPmap pn xs
      → length xs < k
      → visit k pn 0 ≡ ok xs
  visit_lem pn xs k v h =
      let len : length v.cells ≡ length xs =
        sym (length-map (λ (c : ℕ × ℕ). c.1) v.cells) ∙ ap length v.nodes in
      visit-cells pn k 0 0 v.cells (unfold advanced in ap ok v.queued.first) v.queued.links
        (subst NonZero (sym v.nodes) v.not_null) (omega arith)
      ∙ ap ok v.nodes

  -- What pmap_nodes_finish leaves: the table is destroyed, the structure is freed, and each entry of
  -- the queue, and no other.
  abbrev pub IsFreed : (pn : PmapNodes ops) (xs : List ℕ) → IsPmap pn xs → Left ops → Type 0
  IsFreed pn xs v left =
      ((b : ℕ) → left.cells b ≡ (if owns v.cells b then none else pn.entries.cells b))
      × (left.pmap ≡ none)
      × (left.live ≡ false)

  -- pmap_nodes_finish ends, reads no freed entry, and frees each entry of the queue once and no other
  -- entry; it destroys the table and frees the structure.
  pub pmap_nodes_finish_lem :
      (pn : PmapNodes ops) (xs : List ℕ) (k : ℕ)
      → (v : IsPmap pn xs) → length xs < k
      → (left : Left ops) × (pmap_nodes_finish ops k pn ≡ ok left) × IsFreed pn xs v left
  unfolding pmap_nodes_finish pointer_map_destroy free_nodes
  pmap_nodes_finish_lem pn xs k v h =
      let len : length v.cells ≡ length xs =
        sym (length-map (λ (c : ℕ × ℕ). c.1) v.cells) ∙ ap length v.nodes in
      let (cells, freed, is) =
        free_entries_lem k pn.entries.cells 0 v.cells v.queued.links (omega arith) in
      (
        record { cells = cells; pmap = none; live = false },
        rw (v.queued.first, freed),
        (is, refl, refl),
      )

  -- Where pmap_nodes_finish returns, the loop has freed the entries, and the table is destroyed and
  -- the structure freed.
  abbrev pub Ended : ℕ → PmapNodes ops → Left ops → Type 0
  Ended k pn left =
      (free_entries k pn.entries.queue pn.entries.cells ≡ ok left.cells)
      × (left.pmap ≡ none)
      × (left.live ≡ false)

  free_nodes-Ended :
      (k : ℕ) (pn : PmapNodes ops) (left : Left ops) (r : Run (ℕ → Option Entry))
      → free_entries k pn.entries.queue pn.entries.cells ≡ r
      → (r >>= λ cells.
          pointer_map_destroy ops (record { cells = cells; pmap = some pn.pmap; live = true })
          >>= free_nodes ops)
        ≡ ok left
      → Ended k pn left
  unfolding pointer_map_destroy free_nodes
  free_nodes-Ended k pn left fault e run = absurd cc
  free_nodes-Ended k pn left (ok cells) e run =
      let same : record { cells = cells; pmap = none; live = false } ≡ left = cc in
      subst (Ended k pn) same (e, refl, refl)

  pub pmap_nodes_finish-Ended :
      (k : ℕ) (pn : PmapNodes ops) (left : Left ops)
      → pmap_nodes_finish ops k pn ≡ ok left
      → Ended k pn left
  unfolding pmap_nodes_finish
  pmap_nodes_finish-Ended k pn left run = free_nodes-Ended k pn left _ refl run
