-- ===== src/Lru/Laws.antt =====
-- lru.h: the operations are those of a list of distinct values, the most recently used first.
use chromium_media_lib.Prelude.{
  ℕ, suc, ◌≡◌, refl, sym, ap, ◌∙◌, inl, inr, true, false, some, List, [], ◌∷◌, ◌++◌, ◌==◌,
  if◌then◌else◌, length, arith, Bool-cases, Option-cases,
}
use chromium_media_lib.Lru.{
  Node, Lru, split_back, contains, size, push_front, insert, erase, use_value, pop,
}
use chromium_media_lib.Lru.Nodes.{
  values_of, values, Fresh, IsValid, without, member, contains-member, size-length,
  push_front-IsValid, contains-node_of, erase-dropped, dropped-IsValid, values_of-drop_node,
  contains-push_front, contains-dropped, split_back-none, split_back-drop_node, is_some-node_of,
  dropped,
}

-- The values after an insertion.
abbrev pub Gains : ℕ → Lru → Lru → Type 0
Gains v l l' = (w : ℕ) → contains l' w ≡ (if w == v then true else contains l w)

-- Insert of a value that is not in a valid queue: no DCHECK fails, the queue stays valid, the value
-- is put in front of the others, and it is the one that Contains finds in addition.
pub insert_lem :
    (l : Lru) (v : ℕ)
    → IsValid l
    → contains l v ≡ false
    → (l' : Lru) × (insert l v ≡ some l') × IsValid l' × (values l' ≡ v ∷ values l) × Gains v l l'
unfolding insert push_front
insert_lem l v h e =
    (push_front l v, rw e, push_front-IsValid l v h e, refl, contains-push_front l v)

-- Remove of a value that is in a valid queue: no iterator dangles, the queue stays valid, and its
-- values are those from before without this one, in their order.
pub erase_lem :
    (l : Lru) (v : ℕ)
    → IsValid l
    → contains l v ≡ true
    → (l' : Lru) × (erase l v ≡ some l') × IsValid l' × (values l' ≡ without v (values l))
unfolding dropped
erase_lem l v h e =
    let (i, n) = contains-node_of l v h e in
    (dropped l v, erase-dropped l v i h n, dropped-IsValid l v i h n, values_of-drop_node v l.nodes)

without-absent : (v : ℕ) (xs : List ℕ) → member v xs ≡ false → without v xs ≡ xs
unfolding member without
without-absent v [] h = refl
without-absent v (x ∷ xs) h = ground (arith, without-absent v xs)

insert-push_front : (l : Lru) (v : ℕ) → contains l v ≡ false → insert l v ≡ some (push_front l v)
unfolding insert
insert-push_front l v e = rw e

values-push_front-dropped :
    (l : Lru) (v : ℕ) → values (push_front (dropped l v) v) ≡ v ∷ without v (values l)
unfolding push_front dropped
values-push_front-dropped l v = ap (◌∷◌ v) (values_of-drop_node v l.nodes)

-- Use of a value, in a valid queue or not yet in it: no DCHECK fails, the queue stays valid, the
-- value is in front, the others follow in their order, and Contains finds these values.
pub use_value_lem :
    (l : Lru) (v : ℕ)
    → IsValid l
    → (l' : Lru) × (use_value l v ≡ some l')
      × IsValid l'
      × (values l' ≡ v ∷ without v (values l))
      × Gains v l l'
unfolding use_value
use_value_lem l v h = elim (Bool-cases (contains l v)) [
  | inl e ↦
      let (i, n) = contains-node_of l v h e in
      let c : contains (dropped l v) v ≡ false = ground (arith, contains-dropped l v v h) in
      (
        push_front (dropped l v) v,
        rw (e, erase-dropped l v i h n) (insert-push_front (dropped l v) v c),
        push_front-IsValid (dropped l v) v (dropped-IsValid l v i h n) c,
        values-push_front-dropped l v,
        λ w. ground (arith, contains-push_front (dropped l v) v w, contains-dropped l v w h),
      )
  | inr e ↦
      let (l', i, w, x, g) = insert_lem l v h e in
      let absent = without-absent v (values l) (sym (contains-member l v h) ∙ e) in
      (l', rw e i, w, x ∙ ap (◌∷◌ v) (sym absent), g)
]

snoc-injective : (xs ys : List ℕ) (x y : ℕ) → xs ++ x ∷ [] ≡ ys ++ y ∷ [] → (xs ≡ ys) × (x ≡ y)
snoc-injective [] [] x y e = ground arith
snoc-injective [] (b ∷ []) x y e = ground arith
snoc-injective [] (b ∷ c ∷ ys) x y e = ground arith
snoc-injective (a ∷ []) [] x y e = ground arith
snoc-injective (a ∷ c ∷ xs) [] x y e = ground arith
snoc-injective (a ∷ xs) (b ∷ ys) x y e = ground (arith, snoc-injective xs ys x y)

values_of-ne-nil : (xs : List ℕ) (x : ℕ) → [] ≡ xs ++ x ∷ [] → ⊥
values_of-ne-nil [] x e = cc
values_of-ne-nil (y ∷ xs) x e = cc

-- Pop of a valid queue that ends with a value: it gives that value, the queue stays valid, the
-- others stay in their order, and Contains finds this value no more.
pub pop_lem :
    (l : Lru) (xs : List ℕ) (x : ℕ)
    → IsValid l
    → values l ≡ xs ++ x ∷ []
    → (l' : Lru) × (pop l ≡ some (x, l'))
      × IsValid l'
      × (values l' ≡ xs)
      × ((w : ℕ) → contains l' w ≡ (if w == x then false else contains l w))
unfolding pop dropped
pop_lem l xs x h e = elim (Option-cases (split_back l.nodes)) [
  | inl n ↦ absurd (values_of-ne-nil xs x (sym (ap values_of (split_back-none l.nodes n)) ∙ e))
  | inr ((y, ys), n) ↦
      let (d, a, o) = split_back-drop_node l.next_id l.nodes y ys h.fresh n in
      let (same, last) = snoc-injective (values_of ys) xs y.value x (sym a ∙ e) in
      (
        dropped l y.value,
        rw (n, d, last),
        dropped-IsValid l y.value y.id h o,
        ap values_of (sym d) ∙ same,
        λ w. rw (← last) (contains-dropped l y.value w h),
      )
]

-- No value stands twice.
abbrev pub Distinct : List ℕ → Type 0
Distinct [] = Unit
Distinct (x ∷ xs) = (member x xs ≡ false) × Distinct xs

values_of-Distinct : (n : ℕ) (xs : List Node) → Fresh n xs → Distinct (values_of xs)
values_of-Distinct n [] f = tt
values_of-Distinct n (x ∷ xs) f =
    (ground (arith, is_some-node_of x.value xs), values_of-Distinct x.id xs f.2)

pub values-Distinct : (l : Lru) → IsValid l → Distinct (values l)
values-Distinct l h = values_of-Distinct l.next_id l.nodes h.fresh

length-without :
    (v : ℕ) (xs : List ℕ) → member v xs ≡ true → suc (length (without v xs)) ≡ length xs
unfolding member without
length-without v [] h = cc
length-without v (x ∷ xs) h = ground (arith, length-without v xs)

-- Use of a value that is there changes the order only.
pub size-use_value :
    (l l' : Lru) (v : ℕ)
    → IsValid l
    → IsValid l'
    → contains l v ≡ true
    → values l' ≡ v ∷ without v (values l)
    → size l' ≡ size l
size-use_value l l' v h h' c e = omega (
  arith,
  size-length l h,
  size-length l' h',
  ap length e,
  length-without v (values l) (sym (contains-member l v h) ∙ c),
)
