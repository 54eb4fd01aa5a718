-- ===== src/MultiBuffer/Purge.antt =====
-- ResourceMultiBuffer::PurgeIfNecessary: its loop ends, and what it evicts.
use mathlib.Core.List.{append_assoc}
use chromium_media_lib.Prelude.{
  ℕ, zero, suc, ◌+◌, ◌≤◌, ◌≡◌, ◌≢◌, refl, ap, sym, subst, inl, inr, ◌⊎◌, ◌∙◌, true, false, Option,
  some, none, List, [], ◌∷◌, ◌++◌, length, length-append, All, arith, ltb, ==_refl, not-ltb,
  is_some, Bool-cases, Option-cases,
}
use chromium_media_lib.Prelude.Int.{pos_part}
use chromium_media_lib.Prelude.Maps.{lookup, remove, From, lookup-remove, remove-From, All-remove}
use chromium_media_lib.Lru.{Lru, contains, size, pop, insert}
use chromium_media_lib.Lru.Nodes.{IsValid, values, member, contains-member, size-length}
use chromium_media_lib.Lru.Laws.{pop_lem, insert_lem, values-Distinct, Distinct}
use chromium_media_lib.Lru.Pigeons.{
  InRange, length-le-range, append-Distinct, snoc-cases, middle-ne-last, member-last,
}
use chromium_media_lib.MultiBuffer.{
  Entry, MultiBuffer, block_size, is_pinned, purge_step, purge, purge_if_necessary, max_cache_size,
}
use chromium_media_lib.MultiBuffer.Seek.{Bounded}

-- The cache and the LRU hold the same blocks, and the pinned range is short.
pub record IsSound {Byte : Type 0} (b : MultiBuffer Byte) : Type 0 where
  pub valid : IsValid b.lru
  pub keyed : From 0 b.cache
  pub same : (id : ℕ) → contains b.lru id ≡ is_some (lookup id b.cache)
  pub bounded : All (Bounded (block_size b)) b.cache
  pub narrow : pos_part b.pinned_last ≤ b.pinned_first + 55

-- A block is as before, or it is gone, was not pinned, and is not `x`.
abbrev pub Purged : {Byte : Type 0} → ℕ → MultiBuffer Byte → List (ℕ × Entry Byte) → Type 0
Purged x b m =
    (id : ℕ)
    → (lookup id m ≡ lookup id b.cache)
      ⊎ ((lookup id m ≡ none) × (is_pinned b id ≡ false) × (id ≢ x))

module _ {Byte : Type 0} where
  abbrev pub with_blocks : MultiBuffer Byte → List (ℕ × Entry Byte) → Lru → MultiBuffer Byte
  with_blocks b m l = record b { cache = m; lru = l }

  is_pinned-InRange :
      (b : MultiBuffer Byte) (id : ℕ)
      → pos_part b.pinned_last ≤ b.pinned_first + 55
      → is_pinned b id ≡ true
      → InRange b.pinned_first 56 id
  unfolding is_pinned
  is_pinned-InRange b id h p = ground arith

  All-pinned-InRange :
      (b : MultiBuffer Byte) (ids : List ℕ)
      → pos_part b.pinned_last ≤ b.pinned_first + 55
      → All (λ id. is_pinned b id ≡ true) ids
      → All (InRange b.pinned_first 56) ids
  All-pinned-InRange b [] h a = tt
  All-pinned-InRange b (id ∷ ids) h a =
      (is_pinned-InRange b id h a.0, All-pinned-InRange b ids h a.1)

  -- Distinct pinned blocks are few.
  pinned_few :
      (b : MultiBuffer Byte) (rot rest : List ℕ)
      → IsSound b
      → values b.lru ≡ rot ++ rest
      → All (λ id. is_pinned b id ≡ true) rot
      → length rot ≤ 56
  pinned_few b rot rest h e a =
      length-le-range 56 b.pinned_first rot
        (append-Distinct rot rest (subst Distinct e (values-Distinct b.lru h.valid)))
        (All-pinned-InRange b rot h.narrow a)

  round_rotates :
      (b : MultiBuffer Byte) (y : ℕ) (l l' : Lru)
      → pop b.lru ≡ some (y, l)
      → is_pinned b y ≡ true
      → insert l y ≡ some l'
      → purge_step b ≡ some (with_blocks b b.cache l')
  unfolding purge_step
  round_rotates b y l l' popped p inserted = rw (popped, p, inserted)

  round_evicts :
      (b : MultiBuffer Byte) (y : ℕ) (l : Lru) (e : Entry Byte)
      → pop b.lru ≡ some (y, l)
      → is_pinned b y ≡ false
      → lookup y b.cache ≡ some e
      → purge_step b ≡ some (with_blocks b (remove y b.cache) l)
  unfolding purge_step
  round_evicts b y l e popped p there = rw (popped, p, there)

  cached_entry :
      (b : MultiBuffer Byte) (front : List ℕ) (y : ℕ)
      → IsSound b
      → values b.lru ≡ front ++ y ∷ []
      → (e : Entry Byte) × (lookup y b.cache ≡ some e)
  cached_entry b front y h e = elim (Option-cases (lookup y b.cache)) [
    | inl n ↦ absurd (
        ground (
          arith,
          h.same y,
          contains-member b.lru y h.valid ∙ ap (member y) e ∙ member-last y front,
        ))
    | inr found ↦ found
  ]

  -- One round that rotates a pinned block.
  purge_step_pinned :
      (b : MultiBuffer Byte) (front : List ℕ) (y : ℕ)
      → IsSound b
      → values b.lru ≡ front ++ y ∷ []
      → is_pinned b y ≡ true
      → (l : Lru) × (purge_step b ≡ some (with_blocks b b.cache l))
        × (values l ≡ y ∷ front)
        × IsSound (with_blocks b b.cache l)
  purge_step_pinned b front y h e p =
      let (l, popped, valid, vs, gone) = pop_lem b.lru front y h.valid e in
      let out : contains l y ≡ false = gone y ∙ rw (==_refl y) in
      let (l', inserted, valid', vs', back) = insert_lem l y valid out in
      let (_, there) = cached_entry b front y h e in
      (
        l',
        round_rotates b y l l' popped p inserted,
        vs' ∙ ap (◌∷◌ y) vs,
        record {
          valid = valid';
          keyed = h.keyed;
          same = λ id. ground (arith, back id, gone id, h.same id);
          bounded = h.bounded;
          narrow = h.narrow;
        },
      )

  -- One round that evicts.
  purge_step_evicts :
      (b : MultiBuffer Byte) (front : List ℕ) (y : ℕ)
      → IsSound b
      → values b.lru ≡ front ++ y ∷ []
      → is_pinned b y ≡ false
      → (l : Lru) × (purge_step b ≡ some (with_blocks b (remove y b.cache) l))
        × (values l ≡ front)
        × IsSound (with_blocks b (remove y b.cache) l)
  purge_step_evicts b front y h e p =
      let (l, popped, valid, vs, gone) = pop_lem b.lru front y h.valid e in
      let (x, there) = cached_entry b front y h e in
      (
        l,
        round_evicts b y l x popped p there,
        vs,
        record {
          valid = valid;
          keyed = remove-From y 0 b.cache h.keyed;
          same = λ id. ground (arith, gone id, h.same id, lookup-remove y id 0 b.cache h.keyed);
          bounded = All-remove (Bounded (block_size b)) y b.cache h.bounded;
          narrow = h.narrow;
        },
      )

  -- What a run of the loop gives: it ends without a fault, the blocks are few enough, and only
  -- blocks that are neither pinned nor `x` are gone.
  abbrev pub Outcome : ℕ → MultiBuffer Byte → Option (MultiBuffer Byte) → Type 0
  Outcome x b r =
      (m : List (ℕ × Entry Byte)) × (l : Lru) × (r ≡ some (with_blocks b m l))
      × IsSound (with_blocks b m l)
      × (size l ≤ max_cache_size)
      × Purged x b m

  purge_stops :
      (fuel x : ℕ) (b : MultiBuffer Byte)
      → IsSound b
      → size b.lru ≤ max_cache_size
      → Outcome x b (purge fuel b)
  unfolding purge
  purge_stops zero x b h small =
      let no_more = not-ltb max_cache_size (size b.lru) small in
      (b.cache, b.lru, rw (no_more, purge), h, small, λ id. inl refl)
  purge_stops (suc fuel) x b h small =
      let no_more = not-ltb max_cache_size (size b.lru) small in
      (b.cache, b.lru, rw (no_more, purge), h, small, λ id. inl refl)

  purge_goes_on :
      (fuel : ℕ) (b c : MultiBuffer Byte)
      → ltb max_cache_size (size b.lru) ≡ true
      → purge_step b ≡ some c
      → purge (suc fuel) b ≡ purge fuel c
  unfolding purge
  purge_goes_on fuel b c big e = ground arith

  -- When only `x` is left to look at, all the others are pinned, so they are few.
  last_small :
      (b : MultiBuffer Byte) (rot : List ℕ) (x : ℕ)
      → IsSound b
      → values b.lru ≡ rot ++ x ∷ []
      → All (λ id. is_pinned b id ≡ true) rot
      → size b.lru ≤ max_cache_size
  last_small b rot x h e a = omega (
    arith,
    size-length b.lru h.valid,
    ap length e,
    length-append rot (x ∷ []),
    pinned_few b rot (x ∷ []) h e a,
  )

  -- What was gone before is gone after.
  Purged-remove :
      (b : MultiBuffer Byte) (x y : ℕ) (l : Lru) (m : List (ℕ × Entry Byte))
      → IsSound b
      → is_pinned b y ≡ false
      → x ≢ y
      → Purged x (with_blocks b (remove y b.cache) l) m
      → Purged x b m
  unfolding is_pinned
  Purged-remove b x y l m h p ne q id = ground (arith, q id, lookup-remove y id 0 b.cache h.keyed)

  -- The loop: `rot` was rotated to the front, `rest` is still to be looked at, and `x`, the block
  -- that the caller has just inserted, is reached last, when the loop has ended.
  purge-Outcome :
      (fuel : ℕ) (rot rest : List ℕ) (x : ℕ) (b : MultiBuffer Byte)
      → IsSound b
      → values b.lru ≡ rot ++ x ∷ rest
      → All (λ id. is_pinned b id ≡ true) rot
      → length rest ≤ fuel
      → Outcome x b (purge fuel b)
  unfolding is_pinned
  purge-Outcome zero rot [] x b h e a f = purge_stops zero x b h (last_small b rot x h e a)
  purge-Outcome zero rot (y ∷ rest) x b h e a f = absurd (omega arith)
  purge-Outcome (suc fuel) rot rest x b h e a f =
      elim (Bool-cases (ltb max_cache_size (size b.lru))) [
        | inr small ↦ purge_stops (suc fuel) x b h (ground arith)
        | inl big ↦ elim (snoc-cases rest) [
          | inl empty ↦
              absurd (ground (arith, last_small b rot x h (e ∙ ap (λ r. rot ++ x ∷ r) empty) a))
          | inr (ys, y, r) ↦
              let e' : values b.lru ≡ rot ++ x ∷ (ys ++ y ∷ []) = e ∙ ap (λ q. rot ++ x ∷ q) r in
              let vs : values b.lru ≡ (rot ++ x ∷ ys) ++ y ∷ [] =
                e' ∙ sym (append_assoc rot (x ∷ ys) (y ∷ [])) in
              let shorter : length ys ≤ fuel =
                omega (arith, ap length r, length-append ys (y ∷ [])) in
              elim (Bool-cases (is_pinned b y)) [
                | inl p ↦
                    let (l, st, front, sound) = purge_step_pinned b (rot ++ x ∷ ys) y h vs p in
                    subst (Outcome x b) (sym (purge_goes_on fuel b _ big st)) (
                      purge-Outcome fuel (y ∷ rot) ys x (with_blocks b b.cache l) sound front (p, a)
                        shorter)
                | inr p ↦
                    let (l, st, front, sound) = purge_step_evicts b (rot ++ x ∷ ys) y h vs p in
                    let c = with_blocks b (remove y b.cache) l in
                    let ne =
                      middle-ne-last x y rot ys
                        (subst Distinct e' (values-Distinct b.lru h.valid)) in
                    let (m, l', run, sound', small, q) =
                      purge-Outcome fuel rot ys x c sound front a shorter in
                    (
                      m,
                      l',
                      purge_goes_on fuel b c big st ∙ run,
                      sound',
                      small,
                      Purged-remove b x y l m h p ne q,
                    )
              ]
        ]
      ]

-- From a sound state, in which the block `x` was used last, PurgeIfNecessary ends, with no failed DCHECK. At most
-- `max_cache_size` blocks are left, the cache and the LRU still agree, and each block is as before
-- or was evicted; an evicted block is neither pinned nor `x`.
pub purge_if_necessary-Outcome :
    {Byte : Type 0} (b : MultiBuffer Byte) (x : ℕ) (rest : List ℕ)
    → IsSound b
    → values b.lru ≡ x ∷ rest
    → Outcome x b (purge_if_necessary b)
unfolding purge_if_necessary
purge_if_necessary-Outcome b x rest h e =
    purge-Outcome (size b.lru) [] rest x b h e tt
      (omega (arith, size-length b.lru h.valid, ap length e))
