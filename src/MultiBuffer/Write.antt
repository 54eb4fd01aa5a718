-- ===== src/MultiBuffer/Write.antt =====
-- ResourceMultiBuffer::OnWrite, one round of its loop: the bytes land in the block that the stream
-- has reached.
use mathlib.Core.Option
use chromium_media_lib.Prelude.{
  ℕ, ◌+◌, ◌-◌, ◌*◌, ◌/◌, ◌%◌, ◌≤◌, ◌<◌, ◌≡◌, refl, sym, ap, subst, inl, inr, ◌⊎◌, ◌∙◌, false,
  Option, some, none, List, [], ◌∷◌, All, arith, ltb, ==_refl, Bool-cases, Option-cases,
}
use chromium_media_lib.Prelude.Maps.{
  lookup, modify, From, lookup-modify, is_some-lookup-modify, modify-From, All-modify, All-lookup,
  All-of_lookup,
}
use chromium_media_lib.Lru.{Lru, size}
use chromium_media_lib.MultiBuffer.{
  Entry, MultiBuffer, block_size, write_pos, is_pinned, max_cache_size, blit, fill_entry, chunk,
  write_step,
}
use chromium_media_lib.MultiBuffer.Blocks.{Faithful, Holds}
use chromium_media_lib.MultiBuffer.Fill.{block_size-pos}
use chromium_media_lib.MultiBuffer.Offsets.{within_block, next_block}
use chromium_media_lib.MultiBuffer.Seek.{Bounded}
use chromium_media_lib.MultiBuffer.Purge.{IsSound, with_blocks}
use chromium_media_lib.MultiBuffer.Touch.{or_new, entry_of, Touched, touch_entry-TouchOutcome}

module _ {Byte : Type 0} where
  -- How much of a block is there.
  abbrev pub size_of : Option (Entry Byte) → ℕ
  size_of none = 0
  size_of (some e) = e.data_size

  -- The state between two writes: the cache agrees with the resource, and the block that the stream
  -- is in is filled up to where the stream is.
  pub record IsFed (resource : ℕ → Byte) (b : MultiBuffer Byte) : Type 0 where
    pub sound : IsSound b
    pub small : size b.lru ≤ max_cache_size
    pub holds : Holds resource b
    pub writing : write_pos b % block_size b ≤ size_of (lookup (write_pos b / block_size b) b.cache)

  blit_before :
      (f : ℕ → Byte) (start : ℕ) (source : ℕ → Byte) (n i : ℕ)
      → i < start
      → blit f start source n i ≡ f i
  unfolding blit
  blit_before f start source n i h = ground arith

  blit_inside :
      (f : ℕ → Byte) (start : ℕ) (source : ℕ → Byte) (n i : ℕ)
      → start ≤ i
      → i < start + n
      → blit f start source n i ≡ source (i - start)
  unfolding blit
  blit_inside f start source n i low high = ground arith

  fill_entry-Faithful :
      (resource : ℕ → Byte) (block id begin : ℕ) (source : ℕ → Byte) (n : ℕ) (e : Entry Byte)
      → Faithful resource block (id, e)
      → begin ≤ e.data_size
      → begin + n ≤ block
      → ((i : ℕ) → i < n → source i ≡ resource (id * block + begin + i))
      → Faithful resource block (id, fill_entry begin source n e)
  unfolding fill_entry
  fill_entry-Faithful resource block id begin source n e f low fits h = (
    fits,
    λ i less. elim (Bool-cases (ltb i begin)) [
      | inl before ↦
          let k : i < begin = ground arith in
          blit_before e.bytes begin source n i k ∙ f.1 i (omega arith)
      | inr from ↦
          let k : begin ≤ i = ground arith in
          blit_inside e.bytes begin source n i k less
          ∙ h (i - begin) (omega arith)
          ∙ ap resource (omega arith)
    ],
  )

  Faithful-Bounded :
      (resource : ℕ → Byte) (block : ℕ) (m : List (ℕ × Entry Byte))
      → All (Faithful resource block) m
      → All (Bounded block) m
  Faithful-Bounded resource block [] a = tt
  Faithful-Bounded resource block (e ∷ m) a = (a.0.0, Faithful-Bounded resource block m a.1)

  -- After `n` more bytes, with other blocks.
  abbrev pub advanced : MultiBuffer Byte → List (ℕ × Entry Byte) → Lru → ℕ → MultiBuffer Byte
  advanced b m l n = record b { cache = m; lru = l; write_offset = b.write_offset + n }

pair_eq : {A B : Type 0} {a a' : A} {b b' : B} → a ≡ a' → b ≡ b' → ◌≡◌ {A = A × B} (a, b) (a', b')
pair_eq p q = λ i. (p i, q i)

module _ {Byte : Type 0} (fresh : ℕ → Byte) (resource : ℕ → Byte) where
  or_new_size : (o : Option (Entry Byte)) → (or_new fresh o).data_size ≡ size_of o
  or_new_size none = refl
  or_new_size (some e) = refl

  or_new-Faithful :
      (b : MultiBuffer Byte) (id : ℕ)
      → Holds resource b
      → Faithful resource (block_size b) (id, entry_of fresh b.cache id)
  or_new-Faithful b id a = elim (Option-cases (lookup id b.cache)) [
    | inl n ↦
        subst (λ o. Faithful resource (block_size b) (id, or_new fresh o)) (sym n)
          (omega arith, λ i h. absurd (omega arith))
    | inr (e, s) ↦
        subst (λ o. Faithful resource (block_size b) (id, or_new fresh o)) (sym s)
          (All-lookup (Faithful resource (block_size b)) id e b.cache a s)
  ]

  Touched-Holds :
      (b : MultiBuffer Byte) (id : ℕ) (m : List (ℕ × Entry Byte))
      → From 0 m
      → Holds resource b
      → Touched fresh id b m
      → All (Faithful resource (block_size b)) m
  Touched-Holds b id m keyed a t =
      All-of_lookup (Faithful resource (block_size b)) 0 m keyed λ k v e. elim (t.1 k) [
        | inl same ↦
            let v_is : entry_of fresh b.cache id ≡ v =
              ap (or_new fresh) (sym t.0 ∙ subst (λ j. lookup j m ≡ some v) same e) in
            subst (λ w. Faithful resource (block_size b) w) (pair_eq (sym same) v_is)
              (or_new-Faithful b id a)
        | inr (inl before) ↦
            All-lookup (Faithful resource (block_size b)) k v b.cache a (sym before ∙ e)
        | inr (inr (gone, _)) ↦ absurd (cc)
      ]

  -- The block that a round of the loop writes to, when it is done.
  abbrev pub Filled : ℕ → MultiBuffer Byte → List (ℕ × Entry Byte) → ℕ → Type 0
  Filled id b m n =
      (size_of (lookup id m) ≡ write_pos b % block_size b + n)
      × ((j : ℕ)
          → (j ≡ id)
            ⊎ (lookup j m ≡ lookup j b.cache)
            ⊎ ((lookup j m ≡ none) × (is_pinned b j ≡ false)))

  module _ (id : ℕ) (read_data : ℕ → Byte) (num_bytes : ℕ) (b : MultiBuffer Byte)
      (fed : IsFed resource b) (here : id ≡ write_pos b / block_size b)
      (arrives : (i : ℕ) → i < num_bytes → read_data i ≡ resource (write_pos b + i)) where
    abbrev count : ℕ
    count = chunk b num_bytes

    abbrev begin : ℕ
    begin = write_pos b % block_size b

    abbrev after : List (ℕ × Entry Byte) → List (ℕ × Entry Byte)
    after m = modify id (fill_entry begin read_data count) m

    begin-count : begin + count ≤ block_size b
    begin-count = omega (arith, block_size-pos b)

    present-size :
        (m : List (ℕ × Entry Byte)) (v : Entry Byte)
        → Touched fresh id b m
        → lookup id m ≡ some v
        → v.data_size ≡ size_of (lookup (write_pos b / block_size b) b.cache)
    present-size m v t e =
        ap (λ (o : Option (Entry Byte)). (or_new fresh o).data_size) (sym e ∙ t.0)
        ∙ or_new_size (lookup id b.cache)
        ∙ ap (λ k. size_of (lookup k b.cache)) here

    after-Holds :
        (m : List (ℕ × Entry Byte))
        → From 0 m
        → Touched fresh id b m
        → All (Faithful resource (block_size b)) (after m)
    after-Holds m keyed t =
        All-modify (Faithful resource (block_size b)) id (fill_entry begin read_data count) m
          (λ v e f.
            fill_entry-Faithful resource (block_size b) id begin read_data count v f
              (rw (present-size m v t e) fed.writing) begin-count
              (λ i less. arrives i (omega arith) ∙ ap resource (rw here (omega arith))))
          (Touched-Holds b id m keyed fed.holds t)

    after-Filled : (m : List (ℕ × Entry Byte)) → Touched fresh id b m → Filled id b (after m) count
    unfolding fill_entry
    after-Filled m t =
        let stored = lookup-modify id (fill_entry begin read_data count) id m in
        let now : lookup id (after m)
            ≡ Option.map (fill_entry begin read_data count) (lookup id m) =
          stored ∙ rw (==_refl id) in
        let whole = now ∙ ap (Option.map (fill_entry begin read_data count)) t.0 in
        (
          ap size_of whole,
          λ j. ground (arith, t.1 j, lookup-modify id (fill_entry begin read_data count) j m),
        )

    after-IsSound :
        (m : List (ℕ × Entry Byte)) (l : Lru)
        → IsSound (with_blocks b m l)
        → Touched fresh id b m
        → IsSound (advanced b (after m) l count)
    after-IsSound m l h t = record {
      valid = h.valid;
      keyed = modify-From id (fill_entry begin read_data count) 0 m h.keyed;
      same = λ j. h.same j ∙ sym (is_some-lookup-modify id (fill_entry begin read_data count) j m);
      bounded = Faithful-Bounded resource (block_size b) (after m) (after-Holds m h.keyed t);
      narrow = h.narrow;
    }

    reached :
        (m : List (ℕ × Entry Byte))
        → Filled id b m count
        → (write_pos b + count) % block_size b
          ≤ size_of (lookup ((write_pos b + count) / block_size b) m)
    reached m f = elim (Bool-cases (ltb (begin + count) (block_size b))) [
      | inl more ↦
          let (same_block, offset) =
            within_block (block_size b) (write_pos b) count (block_size-pos b) (ground arith) in
          rw (same_block, offset) (omega (arith, f.0, ap (λ k. size_of (lookup k m)) here))
      | inr full ↦
          let (_, zero_offset) =
            next_block (block_size b) (write_pos b) count (block_size-pos b)
              (ground (arith, begin-count)) in
          omega (arith, zero_offset)
    ]

    after-writing :
        (m : List (ℕ × Entry Byte)) (l : Lru)
        → Filled id b m count
        → write_pos (advanced b m l count) % block_size b
          ≤ size_of (lookup (write_pos (advanced b m l count) / block_size b) m)
    after-writing m l f =
        let same : write_pos b + count ≡ write_pos (advanced b m l count) = omega arith in
        subst (λ p. p % block_size b ≤ size_of (lookup (p / block_size b) m)) same (reached m f)

    -- One round keeps the state fit for the next write, `count` bytes further, and writes to no
    -- block but its own.
    pub write_step_lem :
        (m : List (ℕ × Entry Byte)) × (l : Lru) × (write_step fresh id read_data num_bytes b
          ≡ some (count, advanced b m l count))
        × IsFed resource (advanced b m l count)
        × Filled id b m count
    unfolding write_step
    write_step_lem =
        let (m, l, touched, sound, small, t) =
          touch_entry-TouchOutcome fresh id b fed.sound fed.small in
        let f = after-Filled m t in
        (
          after m,
          l,
          rw touched,
          record {
            sound = after-IsSound m l sound t;
            small = small;
            holds = after-Holds m sound.keyed t;
            writing = after-writing (after m) l f;
          },
          f,
        )
