-- ===== src/Lru/Nodes.antt =====
-- lru.h: the list of nodes and the map of positions stay in step, and hold a list of distinct
-- values, the most recently used first.
use chromium_media_lib.Prelude.{
  ℕ, suc, ◌≤◌, ◌<◌, ◌≡◌, refl, ap, ◌∙◌, inl, inr, Bool, true, false, Option, some, none, List, [],
  ◌∷◌, ◌++◌, ◌==◌, if◌then◌else◌, is_some, length, arith, Option-cases,
}
use chromium_media_lib.Prelude.Maps.{
  lookup, remove, From, lookup-put, lookup-remove, put-From, remove-From, length-put, length-remove,
}
use chromium_media_lib.Lru.{
  Node, Lru, empty_lru, erase_node, split_back, contains, size, push_front, erase,
}

-- The abstract view: the values, most recently used first.
abbrev pub values_of : List Node → List ℕ
values_of [] = []
values_of (x ∷ xs) = x.value ∷ values_of xs

abbrev pub values : Lru → List ℕ
values l = values_of l.nodes

-- The node of a value.
unfoldable pub node_of : ℕ → List Node → Option ℕ
node_of v [] = none
node_of v (x ∷ xs) = if v == x.value then some x.id else node_of v xs

-- Identities fall along the list, and stay under the bound; no value stands twice.
abbrev pub Fresh : ℕ → List Node → Type 0
Fresh n [] = Unit
Fresh n (x ∷ xs) = (x.id < n) × (node_of x.value xs ≡ none) × Fresh x.id xs

pub record IsValid (l : Lru) : Type 0 where
  pub fresh : Fresh l.next_id l.nodes
  pub keyed : From 0 l.pos
  -- `pos_` holds the node of each value, and no other key.
  pub agree : (v : ℕ) → lookup v l.pos ≡ node_of v l.nodes
  pub sized : length l.pos ≡ length l.nodes

-- A list without its first occurrence of a value.
unfoldable pub without : ℕ → List ℕ → List ℕ
without v [] = []
without v (x ∷ xs) = if v == x then xs else x ∷ without v xs

Fresh-mono : {m n : ℕ} (xs : List Node) → m ≤ n → Fresh m xs → Fresh n xs
Fresh-mono [] h f = tt
Fresh-mono (x ∷ xs) h f = (omega arith, f.1, f.2)

pub empty_lru-IsValid : IsValid empty_lru
unfolding empty_lru lookup node_of
empty_lru-IsValid = record { fresh = tt; keyed = tt; agree = λ v. refl; sized = refl }

-- The nodes without the node of a value.
pub drop_node : ℕ → List Node → List Node
drop_node v [] = []
drop_node v (x ∷ xs) = if v == x.value then xs else x ∷ drop_node v xs

node_of-lt : (v i n : ℕ) (xs : List Node) → Fresh n xs → node_of v xs ≡ some i → i < n
unfolding node_of
node_of-lt v i n [] f h = cc
node_of-lt v i n (x ∷ xs) f h = ground (arith, node_of-lt v i x.id xs f.2)

erase_node-drop_node :
    (v i n : ℕ) (xs : List Node)
    → Fresh n xs
    → node_of v xs ≡ some i
    → erase_node i xs ≡ some (drop_node v xs)
unfolding node_of erase_node drop_node
erase_node-drop_node v i n [] f h = cc
erase_node-drop_node v i n (x ∷ xs) f h =
    ground (arith, node_of-lt v i x.id xs f.2, erase_node-drop_node v i x.id xs f.2)

node_of-drop_node :
    (v w n : ℕ) (xs : List Node)
    → Fresh n xs
    → node_of w (drop_node v xs) ≡ (if w == v then none else node_of w xs)
unfolding node_of drop_node
node_of-drop_node v w n [] f = ground arith
node_of-drop_node v w n (x ∷ xs) f = ground (arith, node_of-drop_node v w x.id xs f.2)

drop_node-Fresh : (v n : ℕ) (xs : List Node) → Fresh n xs → Fresh n (drop_node v xs)
unfolding drop_node
drop_node-Fresh v n [] f = tt
drop_node-Fresh v n (x ∷ xs) f = ground (
  arith,
  drop_node-Fresh v x.id xs f.2,
  node_of-drop_node v x.value x.id xs f.2,
  Fresh-mono {m = x.id} {n = n} xs,
)

pub values_of-drop_node :
    (v : ℕ) (xs : List Node) → values_of (drop_node v xs) ≡ without v (values_of xs)
unfolding drop_node without
values_of-drop_node v [] = refl
values_of-drop_node v (x ∷ xs) = ground (arith, values_of-drop_node v xs)

length-drop_node :
    (v i : ℕ) (xs : List Node) → node_of v xs ≡ some i → suc (length (drop_node v xs)) ≡ length xs
unfolding node_of drop_node
length-drop_node v i [] h = cc
length-drop_node v i (x ∷ xs) h = ground (arith, length-drop_node v i xs)

pub length-values_of : (xs : List Node) → length (values_of xs) ≡ length xs
length-values_of [] = refl
length-values_of (x ∷ xs) = ap suc (length-values_of xs)

pub split_back-none : (xs : List Node) → split_back xs ≡ none → xs ≡ []
unfolding split_back
split_back-none [] h = refl
split_back-none (x ∷ xs) h = ground arith

-- The last node, and what is in front of it.
pub split_back-drop_node :
    (n : ℕ) (xs : List Node) (y : Node) (ys : List Node)
    → Fresh n xs
    → split_back xs ≡ some (y, ys)
    → (ys ≡ drop_node y.value xs)
      × (values_of xs ≡ values_of ys ++ y.value ∷ [])
      × (node_of y.value xs ≡ some y.id)
unfolding split_back drop_node node_of
split_back-drop_node n [] y ys f h = cc
split_back-drop_node n (x ∷ xs) y ys f h = elim (Option-cases (split_back xs)) [
  | inl e ↦ ground (arith, split_back-none xs)
  | inr ((z, zs), e) ↦ ground (arith, split_back-drop_node x.id xs z zs f.2)
]

-- A list without a value that it holds is valid, with the map updated.
unfoldable pub dropped : Lru → ℕ → Lru
dropped l v = record l { nodes = drop_node v l.nodes; pos = remove v l.pos }

pub dropped-IsValid :
    (l : Lru) (v i : ℕ) → IsValid l → node_of v l.nodes ≡ some i → IsValid (dropped l v)
unfolding dropped
dropped-IsValid l v i h e = record {
  fresh = drop_node-Fresh v l.next_id l.nodes h.fresh;
  keyed = remove-From v 0 l.pos h.keyed;
  agree = λ w. ground (
    arith,
    h.agree w,
    lookup-remove v w 0 l.pos h.keyed,
    node_of-drop_node v w l.next_id l.nodes h.fresh,
  );
  sized =
      omega
        (arith, length-remove v i l.pos (h.agree v ∙ e), length-drop_node v i l.nodes e, h.sized);
}

pub push_front-IsValid :
    (l : Lru) (v : ℕ) → IsValid l → contains l v ≡ false → IsValid (push_front l v)
unfolding push_front contains node_of
push_front-IsValid l v h e = record {
  fresh = (omega arith, ground (arith, h.agree v), h.fresh);
  keyed = put-From v l.next_id 0 l.pos h.keyed (omega arith);
  agree = λ w. ground (arith, h.agree w, lookup-put v l.next_id w l.pos);
  sized = ground (arith, h.sized, length-put v l.next_id l.pos);
}

-- The value is in the list.
unfoldable pub member : ℕ → List ℕ → Bool
member v [] = false
member v (x ∷ xs) = if v == x then true else member v xs

pub is_some-node_of : (v : ℕ) (xs : List Node) → is_some (node_of v xs) ≡ member v (values_of xs)
unfolding node_of member
is_some-node_of v [] = refl
is_some-node_of v (x ∷ xs) = ground (arith, is_some-node_of v xs)

pub contains-node_of :
    (l : Lru) (v : ℕ) → IsValid l → contains l v ≡ true → (i : ℕ) × (node_of v l.nodes ≡ some i)
unfolding contains
contains-node_of l v h e = elim (Option-cases (node_of v l.nodes)) [
  | inl n ↦ absurd (ground (arith, h.agree v))
  | inr (i, n) ↦ (i, n)
]

pub erase-dropped :
    (l : Lru) (v i : ℕ) → IsValid l → node_of v l.nodes ≡ some i → erase l v ≡ some (dropped l v)
unfolding erase dropped
erase-dropped l v i h e = rw (h.agree v, e, erase_node-drop_node v i l.next_id l.nodes h.fresh e)

-- `Contains` looks in the map, and answers for the list.
pub contains-member : (l : Lru) (v : ℕ) → IsValid l → contains l v ≡ member v (values l)
unfolding contains
contains-member l v h = rw (h.agree v) (is_some-node_of v l.nodes)

-- `Size` counts the map, and answers for the list.
pub size-length : (l : Lru) → IsValid l → size l ≡ length (values l)
unfolding size
size-length l h = omega (arith, h.sized, length-values_of l.nodes)

pub contains-push_front :
    (l : Lru) (v w : ℕ) → contains (push_front l v) w ≡ (if w == v then true else contains l w)
unfolding contains push_front
contains-push_front l v w = ground (arith, lookup-put v l.next_id w l.pos)

pub contains-dropped :
    (l : Lru) (v w : ℕ)
    → IsValid l
    → contains (dropped l v) w ≡ (if w == v then false else contains l w)
unfolding contains dropped
contains-dropped l v w h = ground (arith, lookup-remove v w 0 l.pos h.keyed)
