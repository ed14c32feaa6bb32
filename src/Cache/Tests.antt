-- ===== src/Cache/Tests.antt =====
-- Nodes numbered with an association list as the table, and the theorems at them.
use ahaggar.Base.{
  ℕ, ◌≡◌, refl, Bool, false, Option, none, some, List, [], ◌∷◌, ok, ◌==◌, if◌then◌else◌, ◌||◌,
  arith,
}
use ahaggar.Cache.{
  TableOps, PmapNodes, Left, pmap_nodes_init, pmap_nodes_finish, pmap_nodes_insert,
  pmap_nodes_index_by_key, SpTreeNodes, sptree_nodes_init, sptree_nodes_insert,
}
use ahaggar.Cache.Numbering.{with_node, index_in, numbering, Numbers-nil}
use ahaggar.Cache.Pmap.{
  IsPmap, insert_nodes, insert_nodes_lem, pmap_nodes_insert_lem, visit, visit_lem,
  pmap_nodes_finish_lem, IsFreed,
}
use ahaggar.Cache.Sptree.{IsSptree, sptree_nodes_insert_lem}

abbrev pub Pairs : Type 0
Pairs = List (ℕ × ℕ)

unfoldable pub lookup_pair : Pairs → ℕ → Option ℕ
lookup_pair [] j = none
lookup_pair ((k, v) ∷ t) j = if j == k then some v else lookup_pair t j

unfoldable pub any_pair : Pairs → (ℕ → Bool) → Bool
any_pair [] f = false
any_pair ((k, v) ∷ t) f = f v || any_pair t f

pub any_pair-insert :
    (t : Pairs) (k v : ℕ) (f : ℕ → Bool)
    → (f v || any_pair ((k, v) ∷ t) f) ≡ any_pair ((k, v) ∷ t) f
unfolding any_pair
any_pair-insert t k v f = ground arith

pub lookup_pair-insert :
    (t : Pairs) (k v j : ℕ)
    → lookup_pair ((k, v) ∷ t) j ≡ (if j == k then some v else lookup_pair t j)
unfolding lookup_pair
lookup_pair-insert t k v j = refl

pub lookup_pair-nil : (k : ℕ) → lookup_pair [] k ≡ none
unfolding lookup_pair
lookup_pair-nil k = refl

pub any_pair-nil : (f : ℕ → Bool) → any_pair [] f ≡ false
unfolding any_pair
any_pair-nil f = refl

abbrev pub pairs : TableOps
pairs = record {
  Table = Pairs;
  create = [];
  lookup = lookup_pair;
  insert = λ t k v. (k, v) ∷ t;
  lookup-create = lookup_pair-nil;
  lookup-insert = lookup_pair-insert;
  any_value = any_pair;
  any-create = any_pair-nil;
  any-insert = any_pair-insert;
}

-- 7 twice, and NULL.
abbrev nodes : List ℕ
nodes = 7 ∷ 5 ∷ 7 ∷ 0 ∷ 9 ∷ []

nodes_numbering : numbering [] nodes ≡ 7 ∷ 5 ∷ 9 ∷ []
nodes_numbering = refl

insert_nodes_lem_example :
    (r : PmapNodes pairs) × (insert_nodes pairs nodes (pmap_nodes_init pairs) ≡ ok r)
    × IsPmap pairs r (numbering [] nodes)
    × ((t : ℕ) → pmap_nodes_index_by_key pairs r t ≡ index_in (numbering [] nodes) t)
insert_nodes_lem_example = insert_nodes_lem pairs nodes (omega arith)

built :
    (r : PmapNodes pairs) × (insert_nodes pairs nodes (pmap_nodes_init pairs) ≡ ok r)
    × IsPmap pairs r (numbering [] nodes)
    × ((t : ℕ) → pmap_nodes_index_by_key pairs r t ≡ index_in (numbering [] nodes) t)
built = insert_nodes_lem pairs nodes (omega arith)

abbrev made : PmapNodes pairs
made = built.0

made-IsPmap : IsPmap pairs made (7 ∷ 5 ∷ 9 ∷ [])
made-IsPmap = built.2

pmap_nodes_insert_lem_example :
    (r : PmapNodes pairs) × (pmap_nodes_insert pairs made 5
      ≡ ok (index_in (with_node (7 ∷ 5 ∷ 9 ∷ []) 5) 5, r))
    × IsPmap pairs r (with_node (7 ∷ 5 ∷ 9 ∷ []) 5)
pmap_nodes_insert_lem_example =
    pmap_nodes_insert_lem pairs made (7 ∷ 5 ∷ 9 ∷ []) 5 made-IsPmap (omega arith)

visit_lem_example : visit pairs 4 made 0 ≡ ok (7 ∷ 5 ∷ 9 ∷ [])
visit_lem_example = visit_lem pairs made (7 ∷ 5 ∷ 9 ∷ []) 4 made-IsPmap (omega arith)

pmap_nodes_finish_lem_example :
    (left : Left pairs) × (pmap_nodes_finish pairs 4 made ≡ ok left)
    × IsFreed pairs made (7 ∷ 5 ∷ 9 ∷ []) made-IsPmap left
pmap_nodes_finish_lem_example =
    pmap_nodes_finish_lem pairs made (7 ∷ 5 ∷ 9 ∷ []) 4 made-IsPmap (omega arith)

abbrev start : SpTreeNodes pairs
start = sptree_nodes_init pairs

start-IsSptree : IsSptree pairs start []
unfolding sptree_nodes_init
start-IsSptree = Numbers-nil pairs

grown_one :
    (r : SpTreeNodes pairs) × (sptree_nodes_insert pairs start 8
      ≡ ok (index_in (with_node [] 8) 8, r))
    × IsSptree pairs r (with_node [] 8)
    × (r.root ≡ start.root)
grown_one = sptree_nodes_insert_lem pairs start [] 8 start-IsSptree (omega arith)

abbrev one_node : SpTreeNodes pairs
one_node = grown_one.0
