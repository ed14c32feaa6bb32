-- ===== src/Cache/Chain.antt =====
-- The linked queue of cache-nodes.c as a list of the nodes in it.
use ahaggar.Base.{
  ℕ, zero, suc, ◌+◌, ◌≤◌, ◌<◌, ◌≡◌, refl, sym, Bool, true, false, Option, none, some, List, [], ◌∷◌,
  ◌++◌, ok, ◌==◌, if◌then◌else◌, arith, length, ==_self, ne→==,
}
use ahaggar.Cache.{Entry, entry, Queue, update, empty_queue, enqueue, free_entries}

-- Address and node of each entry.
abbrev pub Cells : Type 0
Cells = List (ℕ × ℕ)

abbrev pub first_of : Cells → ℕ
first_of [] = 0
first_of ((a, t) ∷ xs) = a

-- The last address, or `lo` where there is none.
abbrev pub last_of : ℕ → Cells → ℕ
last_of lo [] = lo
last_of lo ((a, t) ∷ xs) = last_of a xs

-- Each entry links to the one after it, and the addresses ascend from `lo`.
abbrev pub Links : (ℕ → Option Entry) → ℕ → Cells → Type 0
Links cells lo [] = Unit
Links cells lo ((a, t) ∷ xs) =
    (lo < a) × (cells a ≡ some (entry t (first_of xs))) × Links cells a xs

pub record IsQueue (q : Queue) (xs : Cells) : Type 0 where
  pub first : q.queue ≡ first_of xs
  pub last : q.queue_end ≡ last_of 0 xs
  pub links : Links q.cells 0 xs
  pub unused : last_of 0 xs < q.fresh

pub empty_queue-IsQueue : IsQueue empty_queue []
unfolding empty_queue
empty_queue-IsQueue = record { first = refl; last = refl; links = tt; unused = omega arith }

le-last_of :
    (cells : ℕ → Option Entry) (lo : ℕ) (xs : Cells) → Links cells lo xs → lo ≤ last_of lo xs
le-last_of cells lo [] l = omega arith
le-last_of cells lo ((a, t) ∷ xs) (up, here, l) = omega (arith, le-last_of cells a xs l)

-- The last entry ends the queue.
abbrev pub last_node : ℕ → Cells → ℕ
last_node t [] = t
last_node t ((a, s) ∷ xs) = last_node s xs

last-cell :
    (cells : ℕ → Option Entry) (lo a t : ℕ) (xs : Cells)
    → Links cells lo ((a, t) ∷ xs)
    → cells (last_of a xs) ≡ some (entry (last_node t xs) 0)
last-cell cells lo a t [] (up, here, l) = here
last-cell cells lo a t ((b, s) ∷ xs) (up, here, l) = last-cell cells a b s xs l

-- The cells of a queue that got the entry `f` for `u`.
abbrev grown : (ℕ → Option Entry) → ℕ → ℕ → ℕ → ℕ → ℕ → Option Entry
grown cells f u last t = update (update cells f (some (entry u 0))) last (some (entry t f))

Links-grown :
    (cells : ℕ → Option Entry) (lo a t f u : ℕ) (xs : Cells)
    → Links cells lo ((a, t) ∷ xs)
    → last_of a xs < f
    → Links (grown cells f u (last_of a xs) (last_node t xs)) lo (((a, t) ∷ xs) ++ (f, u) ∷ [])
Links-grown cells lo a t f u [] (up, here, l) room =
    let new : (f == a) ≡ false = ground arith in
    (up, rw (==_self a), (room, rw (new, ==_self f), tt))
Links-grown cells lo a t f u ((b, s) ∷ xs) (up, here, l) room =
    let higher = le-last_of cells b xs l.2 in
    let not_last = ne→== a (last_of b xs) (omega (arith, higher, l.0)) in
    let not_new = ne→== a f (omega (arith, higher, l.0)) in
    (up, rw (not_last, not_new) here, Links-grown cells a b s f u xs l room)

last_of-append : (lo f u : ℕ) (xs : Cells) → last_of lo (xs ++ (f, u) ∷ []) ≡ f
last_of-append lo f u [] = refl
last_of-append lo f u ((a, t) ∷ xs) = last_of-append a f u xs

-- `enqueue` puts the node at the end.
pub enqueue-IsQueue :
    (q : Queue) (xs : Cells) (u : ℕ)
    → IsQueue q xs
    → (r : Queue) × (enqueue q u ≡ ok r) × IsQueue r (xs ++ (q.fresh, u) ∷ [])
unfolding enqueue
enqueue-IsQueue q [] u v =
    let none_yet : (q.queue_end == 0) ≡ true = ground (arith, v.last) in
    (
      record {
        queue = q.fresh;
        queue_end = q.fresh;
        cells = update q.cells q.fresh (some (entry u 0));
        fresh = q.fresh + 1;
      },
      rw none_yet,
      record {
        first = refl;
        last = refl;
        links = (v.unused, ground arith, tt);
        unused = omega arith;
      },
    )
enqueue-IsQueue q ((a, t) ∷ xs) u v =
    let last = last_of a xs in
    let above = le-last_of q.cells a xs v.links.2 in
    let some_last : (last == 0) ≡ false = ground (arith, v.links.0) in
    let old : (last == q.fresh) ≡ false = ground (arith, v.unused) in
    let cells = grown q.cells q.fresh u last (last_node t xs) in
    (
      record q { queue_end = q.fresh; cells = cells; fresh = q.fresh + 1 },
      rw (v.last, some_last, old, last-cell q.cells 0 a t xs v.links),
      record {
        first = v.first;
        last = sym (last_of-append a q.fresh u xs);
        links = Links-grown q.cells 0 a t q.fresh u xs v.links v.unused;
        unused = omega (arith, last_of-append a q.fresh u xs);
      },
    )

-- Whether an address is one of the queue's.
abbrev pub owns : Cells → ℕ → Bool
owns [] b = false
owns ((a, t) ∷ xs) b = if b == a then true else owns xs b

Links-freed :
    (cells : ℕ → Option Entry) (lo b : ℕ) (xs : Cells)
    → Links cells lo xs
    → b ≤ lo
    → Links (update cells b none) lo xs
Links-freed cells lo b [] l low = tt
Links-freed cells lo b ((a, t) ∷ xs) (up, here, l) low =
    (up, ground arith, Links-freed cells a b xs l (omega arith))

-- The loop frees each entry once, and nothing else.
pub free_entries_lem :
    (k : ℕ) (cells : ℕ → Option Entry) (lo : ℕ) (xs : Cells)
    → Links cells lo xs
    → length xs < k
    → (left : ℕ → Option Entry) × (free_entries k (first_of xs) cells ≡ ok left)
      × ((b : ℕ) → left b ≡ (if owns xs b then none else cells b))
unfolding free_entries
free_entries_lem zero cells lo xs l h = absurd (omega arith)
free_entries_lem (suc k) cells lo [] l h = (cells, refl, λ b. refl)
free_entries_lem (suc k) cells lo ((a, t) ∷ xs) (up, here, l) h =
    let not_null = ne→== a 0 (omega arith) in
    let (left, freed, is) =
      free_entries_lem k (update cells a none) a xs (Links-freed cells a a xs l (omega arith))
        (omega arith) in
    (left, rw (free_entries, not_null, here) freed, λ b. ground (arith, is b))
