-- ===== src/Cache/Numbering.antt =====
-- What cache-nodes.c promises: each node that is not NULL has the position at which it was first
-- inserted, from 1 on, and the queue has the nodes in that order.
use ahaggar.Base.{
  ℕ, ◌+◌, ◌≤◌, ◌<◌, ◌≡◌, refl, ◌≢◌, ◌⊎◌, ◌∙◌, ap, Bool, true, false, Option, none, some, List, [],
  ◌∷◌, ◌++◌, map, ok, ◌==◌, if◌then◌else◌, arith, length, u32_mod, not, inl, inr, Option-cases,
  ==_self, length-append,
}
use ahaggar.Cache.{TableOps, Queue, enqueue, empty_queue}
use ahaggar.Cache.Chain.{Cells, IsQueue, empty_queue-IsQueue, enqueue-IsQueue}

-- The position of a node behind the first `n`.
abbrev pub position : ℕ → List ℕ → ℕ → Option ℕ
position n [] t = none
position n (x ∷ xs) t = if t == x then some (n + 1) else position (n + 1) xs t

-- The nodes once `t` was inserted.
abbrev pub with_node : List ℕ → ℕ → List ℕ
with_node xs t = if t == 0 then xs else elim (position 0 xs t) [ some k ↦ xs | none ↦ xs ++ t ∷ [] ]

-- The index that a node has, 0 where it has none.
abbrev pub index_in : List ℕ → ℕ → ℕ
index_in xs t = if t == 0 then 0 else elim (position 0 xs t) [ some k ↦ k | none ↦ 0 ]

pub position-append :
    (n : ℕ) (xs : List ℕ) (u t : ℕ)
    → position n xs u ≡ none
    → position n (xs ++ u ∷ []) t ≡ (if t == u then some (n + length xs + 1) else position n xs t)
position-append n [] u t h = ground arith
position-append n (x ∷ xs) u t h = ground (arith, position-append (n + 1) xs u t)

pub position_bounds :
    (n : ℕ) (xs : List ℕ) (t k : ℕ) → position n xs t ≡ some k → (n < k) × (k ≤ n + length xs)
position_bounds n [] t k h = cc
position_bounds n (x ∷ xs) t k h = ground (arith, position_bounds (n + 1) xs t k)

-- The same position is that of the same node.
pub position-injective :
    (n : ℕ) (xs : List ℕ) (t u k : ℕ) → position n xs t ≡ some k → position n xs u ≡ some k → t ≡ u
position-injective n [] t u k p q = cc
position-injective n (x ∷ xs) t u k p q = ground (
  arith,
  position-injective (n + 1) xs t u k,
  position_bounds (n + 1) xs t k,
  position_bounds (n + 1) xs u k,
)

-- No NULL.
abbrev pub NonZero : List ℕ → Type 0
NonZero [] = Unit
NonZero (x ∷ xs) = (x ≢ 0) × NonZero xs

NonZero-append : (xs : List ℕ) (t : ℕ) → NonZero xs → t ≢ 0 → NonZero (xs ++ t ∷ [])
NonZero-append [] t v h = (h, tt)
NonZero-append (x ∷ xs) t (n, v) h = (n, NonZero-append xs t v h)

-- The nodes of a sequence of insertions.
abbrev pub numbering : List ℕ → List ℕ → List ℕ
numbering xs [] = xs
numbering xs (t ∷ ts) = numbering (with_node xs t) ts

pub length-with_node : (xs : List ℕ) (t : ℕ) → length (with_node xs t) ≤ length xs + 1
length-with_node xs t = ground (arith, length-append xs (t ∷ []))

-- The position of a node that was put at the end.
pub position-new :
    (xs : List ℕ) (t : ℕ)
    → position 0 xs t ≡ none
    → position 0 (xs ++ t ∷ []) t ≡ some (length xs + 1)
position-new xs t absent =
    let n : 0 + length xs + 1 ≡ length xs + 1 = omega arith in
    rw (position-append 0 xs t t absent, ==_self t, n)

-- A node that was inserted has a number.
pub index_in-with_node :
    (xs : List ℕ) (t : ℕ) → (t == 0) ≡ false → (index_in (with_node xs t) t == 0) ≡ false
index_in-with_node xs t e = elim (Option-cases (position 0 xs t)) [
  | inl absent ↦ ground (arith, position-new xs t absent)
  | inr (k, there) ↦ ground (arith, position_bounds 0 xs t k there)
]

abbrev pub is_not_empty : List ℕ → Bool
is_not_empty [] = false
is_not_empty (x ∷ xs) = true

is_not_empty-append : (xs : List ℕ) (t : ℕ) → is_not_empty (xs ++ t ∷ []) ≡ true
is_not_empty-append [] t = refl
is_not_empty-append (x ∷ xs) t = refl

-- Two nodes with one index are one, unless neither has an index.
pub index_in-injective :
    (xs : List ℕ) (t u : ℕ) → index_in xs t ≡ index_in xs u → (t ≡ u) ⊎ (index_in xs t ≡ 0)
index_in-injective xs t u e = elim (Option-cases (position 0 xs t)) [
  | inl absent ↦ inr (ground arith)
  | inr (k, there) ↦ elim (Option-cases (position 0 xs u)) [
    | inl absent ↦ inr (ground arith)
    | inr (j, here) ↦ ground (
      arith,
      position_bounds 0 xs t k there,
      position_bounds 0 xs u j here,
      position-injective 0 xs t u k,
    )
  ]
]

module _ (ops : TableOps) where
  open ops use {
    Table, create, lookup, insert, lookup-create, lookup-insert, any_value, any-create, any-insert,
  }

  -- The counter, the queue and the table that stand for the nodes `xs`.
  pub record Numbers (index : ℕ) (q : Queue) (table : Table) (xs : List ℕ) : Type 0 where
    pub cells : Cells
    pub queued : IsQueue q cells
    pub nodes : map (λ (c : ℕ × ℕ). c.1) cells ≡ xs
    pub counted : index ≡ length xs
    pub not_null : NonZero xs
    pub small : index < u32_mod
    pub values : any_value table (λ v. not (v == 0)) ≡ is_not_empty xs
    pub found : (t : ℕ) → lookup table t ≡ position 0 xs t

  pub Numbers-nil : Numbers 0 empty_queue create []
  Numbers-nil = record {
    cells = [];
    queued = empty_queue-IsQueue;
    nodes = refl;
    counted = refl;
    not_null = tt;
    small = omega arith;
    values = any-create (λ v. not (v == 0));
    found = lookup-create;
  }

  map-snoc :
      (cs : Cells) (a t : ℕ)
      → map (λ (c : ℕ × ℕ). c.1) (cs ++ (a, t) ∷ []) ≡ map (λ (c : ℕ × ℕ). c.1) cs ++ t ∷ []
  map-snoc [] a t = refl
  map-snoc (c ∷ cs) a t = ap (◌∷◌ (c.1)) (map-snoc cs a t)

  -- A node that is not in the table gets the next index and the end of the queue.
  pub Numbers-add :
      {index : ℕ} {q : Queue} {table : Table} (xs : List ℕ) (t : ℕ)
      → Numbers index q table xs
      → position 0 xs t ≡ none
      → t ≢ 0
      → index + 1 < u32_mod
      → (r : Queue) × (enqueue q t ≡ ok r)
        × Numbers (index + 1) r (insert table t (index + 1)) (xs ++ t ∷ [])
  Numbers-add {index} {q} {table} xs t v fresh some_node bound =
      let (r, linked, is) = enqueue-IsQueue q v.cells t v.queued in
      (
        r,
        linked,
        record {
          cells = v.cells ++ (q.fresh, t) ∷ [];
          queued = is;
          nodes = map-snoc v.cells q.fresh t ∙ ap (λ l. l ++ t ∷ []) v.nodes;
          counted = omega (arith, v.counted, length-append xs (t ∷ []));
          not_null = NonZero-append xs t v.not_null some_node;
          small = bound;
          values =
              ground (
                arith,
                any-insert table t (index + 1) (λ v. not (v == 0)),
                is_not_empty-append xs t,
              );
          found = λ u. ground (
            arith,
            v.counted,
            lookup-insert table t (index + 1) u,
            v.found u,
            position-append 0 xs t u fresh,
          );
        },
      )
