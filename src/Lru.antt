-- ===== src/Lru.antt =====
-- lru.h: the class LRU<T>, at the one type it is used with, the block ids of a multibuffer.
-- `std::list` is a list of nodes, each with an identity: `insert` makes a new one, and an iterator
-- into the list is the identity of the node that it points to. `pos_` maps a value to an iterator.
-- A failed DCHECK, or an erase through an iterator that points to no node, is `none`.
pub mod Nodes
pub mod Laws
pub mod Refine
pub mod Pigeons
mod Tests
use chromium_media_lib.Prelude.{
  ℕ, suc, Bool, true, Option, some, none, List, [], ◌∷◌, not, ◌==◌, if◌then◌else◌, ◌>>=◌, is_some,
  length,
}
use chromium_media_lib.Prelude.Maps.{lookup, put, remove}
use chromium_media_lib.Prelude.Maps

pub record Node : Type 0 where
  pub id : ℕ
  pub value : ℕ

pub record Lru : Type 0 where
  -- `lru_`: most recently used first.
  pub nodes : List Node
  -- `pos_`
  pub pos : List (ℕ × ℕ)
  -- The identity of the next node that is allocated.
  pub next_id : ℕ

unfoldable pub empty_lru : Lru
empty_lru = record { nodes = []; pos = []; next_id = 0 }

-- `lru_.erase(it)`
unfoldable pub erase_node : ℕ → List Node → Option (List Node)
erase_node n [] = none
erase_node n (x ∷ xs) =
    let rest = (erase_node n xs >>= λ ys. some (x ∷ ys)) in if n == x.id then some xs else rest

-- `lru_.back()` and `lru_.pop_back()`
unfoldable pub split_back : List Node → Option (Node × List Node)
split_back [] = none
split_back (x ∷ xs) = elim (split_back xs) [ none ↦ some (x, []) | some (y, ys) ↦ some (y, x ∷ ys) ]

unfoldable pub contains : Lru → ℕ → Bool
contains l x = is_some (lookup x l.pos)

unfoldable pub size : Lru → ℕ
size l = length l.pos

unfoldable pub is_empty : Lru → Bool
is_empty l = length l.nodes == 0

-- `lru_.push_front(x); pos_[x] = lru_.begin();`
pub push_front : Lru → ℕ → Lru
push_front l x = record {
  nodes = record { id = l.next_id; value = x } ∷ l.nodes;
  pos = put x l.next_id l.pos;
  next_id = suc l.next_id;
}

unfoldable pub insert : Lru → ℕ → Option Lru
unfolding push_front
insert l x = if contains l x then none else some (push_front l x)

unfoldable pub erase : Lru → ℕ → Option Lru
erase l x = do
  it ← lookup x l.pos
  ns ← erase_node it l.nodes
  some (record l { nodes = ns; pos = remove x l.pos })

unfoldable pub use_value : Lru → ℕ → Option Lru
use_value l x = if contains l x then (erase l x >>= λ l'. insert l' x) else insert l x

unfoldable pub pop : Lru → Option (ℕ × Lru)
pop l = do
  (back, ns) ← split_back l.nodes
  some (back.value, record l { nodes = ns; pos = remove back.value l.pos })

unfoldable pub peek : Lru → Option ℕ
peek l = split_back l.nodes >>= λ r. some (r.0).value
