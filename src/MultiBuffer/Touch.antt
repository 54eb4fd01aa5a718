-- ===== src/MultiBuffer/Touch.antt =====
-- The lookup of a block in ResourceMultiBuffer::OnWrite, which makes the block if it is missing.
use chromium_media_lib.Prelude.{
  ℕ, ◌≤◌, ◌≡◌, refl, sym, ap, inl, inr, ◌⊎◌, ◌∙◌, true, false, Option, some, none, List, arith,
  ◌==◌, if◌then◌else◌, Option-cases,
}
use chromium_media_lib.Prelude.Maps.{lookup, put, lookup-put, put-From, All-put}
use chromium_media_lib.Lru.{Lru, contains, size}
use chromium_media_lib.Lru.Nodes.{IsValid, values}
use chromium_media_lib.Lru.Laws.{insert_lem, use_value_lem, size-use_value}
use chromium_media_lib.MultiBuffer.{
  Entry, MultiBuffer, block_size, is_pinned, max_cache_size, new_entry, touch_entry,
}
use chromium_media_lib.MultiBuffer.Seek.{Bounded}
use chromium_media_lib.MultiBuffer.Purge.{IsSound, Purged, with_blocks, purge_if_necessary-Outcome}

module _ {Byte : Type 0} (fresh : ℕ → Byte) where
  -- The entry of a block, or a new one.
  abbrev pub or_new : Option (Entry Byte) → Entry Byte
  or_new none = new_entry fresh
  or_new (some e) = e

  abbrev pub entry_of : List (ℕ × Entry Byte) → ℕ → Entry Byte
  entry_of m id = or_new (lookup id m)

  -- The block `id` is there; another block is as before, or was evicted and is not pinned.
  abbrev pub Touched : ℕ → MultiBuffer Byte → List (ℕ × Entry Byte) → Type 0
  Touched id b m =
      (lookup id m ≡ some (entry_of b.cache id))
      × ((j : ℕ)
          → (j ≡ id)
            ⊎ (lookup j m ≡ lookup j b.cache)
            ⊎ ((lookup j m ≡ none) × (is_pinned b j ≡ false)))

  abbrev pub TouchOutcome : ℕ → MultiBuffer Byte → Option (MultiBuffer Byte) → Type 0
  TouchOutcome id b r =
      (m : List (ℕ × Entry Byte)) × (l : Lru) × (r ≡ some (with_blocks b m l))
      × IsSound (with_blocks b m l)
      × (size l ≤ max_cache_size)
      × Touched id b m

  touch_found :
      (id : ℕ) (b : MultiBuffer Byte) (e : Entry Byte)
      → IsSound b
      → size b.lru ≤ max_cache_size
      → lookup id b.cache ≡ some e
      → TouchOutcome id b (touch_entry fresh id b)
  unfolding touch_entry
  touch_found id b e h small there =
      let (l, used, valid, vs, gains) = use_value_lem b.lru id h.valid in
      let c : contains b.lru id ≡ true = h.same id ∙ rw there in
      (
        b.cache,
        l,
        rw (there, touch_entry, used),
        record {
          valid = valid;
          keyed = h.keyed;
          same = λ j. ground (arith, gains j, h.same j);
          bounded = h.bounded;
          narrow = h.narrow;
        },
        omega (arith, size-use_value b.lru l id h.valid valid c vs),
        (there ∙ ap (λ o. some (or_new o)) (sym there), λ j. inr (inl refl)),
      )

  pub inserted-IsSound :
      (id : ℕ) (b : MultiBuffer Byte) (l : Lru)
      → IsSound b
      → IsValid l
      → ((w : ℕ) → contains l w ≡ (if w == id then true else contains b.lru w))
      → IsSound (with_blocks b (put id (new_entry fresh) b.cache) l)
  inserted-IsSound id b l h valid gains = record {
    valid = valid;
    keyed = put-From id (new_entry fresh) 0 b.cache h.keyed (omega arith);
    same = λ j. ground (arith, gains j, h.same j, lookup-put id (new_entry fresh) j b.cache);
    bounded = All-put (Bounded (block_size b)) id (new_entry fresh) b.cache (omega arith) h.bounded;
    narrow = h.narrow;
  }

  inserted-Touched :
      (id : ℕ) (b : MultiBuffer Byte) (l : Lru) (m : List (ℕ × Entry Byte))
      → lookup id b.cache ≡ none
      → Purged id (with_blocks b (put id (new_entry fresh) b.cache) l) m
      → Touched id b m
  unfolding is_pinned
  inserted-Touched id b l m missing q =
      let new : lookup id m ≡ some (new_entry fresh) =
        ground (arith, q id, lookup-put id (new_entry fresh) id b.cache) in
      (
        new ∙ ap (λ o. some (or_new o)) (sym missing),
        λ j. ground (arith, q j, lookup-put id (new_entry fresh) j b.cache),
      )

  touch_missing :
      (id : ℕ) (b : MultiBuffer Byte)
      → IsSound b
      → lookup id b.cache ≡ none
      → TouchOutcome id b (touch_entry fresh id b)
  unfolding touch_entry
  touch_missing id b h missing =
      let absent : contains b.lru id ≡ false = h.same id ∙ rw missing in
      let (l, inserted, valid, vs, gains) = insert_lem b.lru id h.valid absent in
      let c = with_blocks b (put id (new_entry fresh) b.cache) l in
      let (m, l', run, sound, small, q) =
        purge_if_necessary-Outcome c id (values b.lru) (inserted-IsSound id b l h valid gains) vs in
      (
        m,
        l',
        rw (missing, touch_entry, inserted) run,
        sound,
        small,
        inserted-Touched id b l m missing q,
      )

  pub touch_entry-TouchOutcome :
      (id : ℕ) (b : MultiBuffer Byte)
      → IsSound b
      → size b.lru ≤ max_cache_size
      → TouchOutcome id b (touch_entry fresh id b)
  touch_entry-TouchOutcome id b h small = elim (Option-cases (lookup id b.cache)) [
    | inl missing ↦ touch_missing id b h missing
    | inr (e, there) ↦ touch_found id b e h small there
  ]
