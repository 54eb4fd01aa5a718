-- ===== src/MultiBuffer/Stream.antt =====
-- ResourceMultiBuffer::OnWrite: the loop takes all the bytes of a response, ends, and keeps every
-- block that is pinned.
use chromium_media_lib.Prelude.{
  ℕ, zero, suc, ◌+◌, ◌-◌, ◌/◌, ◌%◌, ◌≤◌, ◌<◌, ◌≡◌, refl, sym, ap, subst, inl, inr, ◌⊎◌, ◌∙◌, true,
  false, Option, some, List, arith, ltb, leb, ltb→lt, lt→ltb, ◌==◌, Bool-cases, Option-cases,
}
use chromium_media_lib.Prelude.Int.{ℤ}
use chromium_media_lib.Prelude.Maps.{lookup}
use chromium_media_lib.Lru.{Lru}
use chromium_media_lib.MultiBuffer.{
  Entry, MultiBuffer, Response, block_size, write_pos, is_pinned, chunk, write_step, write_loop,
  on_write, note_length, to_block_id,
}
use chromium_media_lib.MultiBuffer.Blocks.{is_cached}
use chromium_media_lib.MultiBuffer.Fill.{block_size-pos}
use chromium_media_lib.MultiBuffer.Offsets.{within_block, next_block}
use chromium_media_lib.MultiBuffer.Write.{IsFed, size_of, advanced, write_step_lem}

-- A call has one result.
pub same_state :
    {Byte : Type 0} (b c : MultiBuffer Byte) (m n : ℕ) (o : Option (MultiBuffer Byte × ℕ))
    → o ≡ some (b, m)
    → o ≡ some (c, n)
    → b ≡ c
same_state b c m n o e h = cc

module _ {Byte : Type 0} where
  abbrev pub at_offset : MultiBuffer Byte → List (ℕ × Entry Byte) → Lru → ℕ → MultiBuffer Byte
  at_offset b m l w = record b { cache = m; lru = l; write_offset = w }

module _ {Byte : Type 0} (fresh : ℕ → Byte) (resource : ℕ → Byte) where
  -- The loop took all the bytes; pinned blocks before `id` are as they were, and of the pinned
  -- blocks that the stream went through, all that it brought is there.
  abbrev pub Taken : ℕ → ℕ → MultiBuffer Byte → Option (MultiBuffer Byte) → Type 0
  Taken id num_bytes b r =
      (m : List (ℕ × Entry Byte)) × (l : Lru) × (w : ℕ) × (r ≡ some (at_offset b m l w))
      × (w ≡ b.write_offset + num_bytes)
      × IsFed resource (at_offset b m l w)
      × ((j : ℕ) → j < id → is_pinned b j ≡ true → lookup j m ≡ lookup j b.cache)
      × ((p : ℕ)
          → write_pos b ≤ p
          → p < write_pos b + num_bytes
          → is_pinned b (p / block_size b) ≡ true
          → p % block_size b < size_of (lookup (p / block_size b) m))

  nothing_left :
      (id num_bytes : ℕ) (b : MultiBuffer Byte)
      → IsFed resource b
      → num_bytes ≡ 0
      → Taken id num_bytes b (some b)
  nothing_left id num_bytes b fed e = (
    b.cache,
    b.lru,
    b.write_offset,
    refl,
    omega arith,
    fed,
    λ j h p. refl,
    λ p low high. absurd (omega arith),
  )

  loop_ends :
      (fuel id : ℕ) (read_data : ℕ → Byte) (num_bytes : ℕ) (b : MultiBuffer Byte)
      → num_bytes ≡ 0
      → write_loop fresh fuel id read_data num_bytes b ≡ some b
  unfolding write_loop
  loop_ends zero id read_data num_bytes b e = ground arith
  loop_ends (suc fuel) id read_data num_bytes b e = ground arith

  loop_goes_on :
      (fuel id : ℕ) (read_data : ℕ → Byte) (num_bytes n : ℕ) (b c : MultiBuffer Byte)
      → (num_bytes == 0) ≡ false
      → write_step fresh id read_data num_bytes b ≡ some (n, c)
      → write_loop fresh (suc fuel) id read_data num_bytes b
        ≡ write_loop fresh fuel (id + 1) (λ i. read_data (n + i)) (num_bytes - n) c
  unfolding write_loop
  loop_goes_on fuel id read_data num_bytes n b c more e = rw (more, e, write_loop)

  -- Where the bytes do not end in a block, the next ones start the next block.
  next_id :
      (b : MultiBuffer Byte) (num_bytes id : ℕ)
      → id ≡ write_pos b / block_size b
      → (num_bytes - chunk b num_bytes ≡ 0)
        ⊎ (id + 1 ≡ (b.write_start_pos + (b.write_offset + chunk b num_bytes)) / block_size b)
  next_id b num_bytes id at =
      elim (Bool-cases (leb num_bytes (block_size b - write_pos b % block_size b))) [
        | inl all_fit ↦ inl (ground arith)
        | inr more ↦
            let (next, _) =
              next_block (block_size b) (write_pos b) (chunk b num_bytes) (block_size-pos b)
                (ground (arith, block_size-pos b)) in
            let assoc : write_pos b + chunk b num_bytes
                ≡ b.write_start_pos + (b.write_offset + chunk b num_bytes) =
              omega arith in
            inr (omega (arith, next, ap (λ q. q / block_size b) assoc))
      ]

  shorter :
      (b : MultiBuffer Byte) (num_bytes fuel : ℕ)
      → (num_bytes == 0) ≡ false
      → num_bytes ≤ suc fuel
      → num_bytes - chunk b num_bytes ≤ fuel
  shorter b num_bytes fuel more enough = ground (arith, block_size-pos b)

  -- The bytes of one round lie in one block.
  block_of :
      (b : MultiBuffer Byte) (num_bytes p : ℕ)
      → write_pos b ≤ p
      → p < write_pos b + chunk b num_bytes
      → (p / block_size b ≡ write_pos b / block_size b)
        × (p % block_size b ≡ write_pos b % block_size b + (p - write_pos b))
  block_of b num_bytes p low high =
      let split : write_pos b + (p - write_pos b) ≡ p = omega arith in
      subst
        (λ q.
          (q / block_size b ≡ write_pos b / block_size b)
          × (q % block_size b ≡ write_pos b % block_size b + (p - write_pos b)))
        split
        (within_block (block_size b) (write_pos b) (p - write_pos b) (block_size-pos b)
          (omega (arith, block_size-pos b)))

  pub write_loop-Taken :
      (fuel id : ℕ) (read_data : ℕ → Byte) (num_bytes : ℕ) (b : MultiBuffer Byte)
      → IsFed resource b
      → (num_bytes ≡ 0) ⊎ (id ≡ write_pos b / block_size b)
      → ((i : ℕ) → i < num_bytes → read_data i ≡ resource (write_pos b + i))
      → num_bytes ≤ fuel
      → Taken id num_bytes b (write_loop fresh fuel id read_data num_bytes b)
  unfolding is_pinned
  write_loop-Taken zero id read_data num_bytes b fed here arrives enough =
      subst (Taken id num_bytes b) (sym (loop_ends zero id read_data num_bytes b (omega arith)))
        (nothing_left id num_bytes b fed (omega arith))
  write_loop-Taken (suc fuel) id read_data num_bytes b fed here arrives enough =
      elim (Bool-cases (num_bytes == 0)) [
        | inl e ↦
            subst (Taken id num_bytes b)
              (sym (loop_ends (suc fuel) id read_data num_bytes b (ground arith)))
              (nothing_left id num_bytes b fed (ground arith))
        | inr more ↦
            let at : id ≡ write_pos b / block_size b = ground arith in
            let n = chunk b num_bytes in
            let (m, l, step, fed', filled) =
              write_step_lem fresh resource id read_data num_bytes b fed at arrives in
            let c = advanced b m l n in
            let (m', l', w, run, offset, fed'', kept, brought) =
              write_loop-Taken fuel (id + 1) (λ i. read_data (n + i)) (num_bytes - n) c fed'
                (next_id b num_bytes id at)
                (λ i h. arrives (n + i) (omega arith) ∙ ap resource (omega arith))
                (shorter b num_bytes fuel more enough) in
            (
              m',
              l',
              w,
              loop_goes_on fuel id read_data num_bytes n b c more step ∙ run,
              omega arith,
              fed'',
              λ j h p. ground (arith, kept j (omega arith) p, filled.1 j),
              λ p low high pin. elim (Bool-cases (ltb p (write_pos b + n))) [
                | inl now ↦
                    let (same, offset_in) = block_of b num_bytes p low (ground arith) in
                    let still =
                      ap size_of (kept (p / block_size b) (omega (arith, same, at)) pin) in
                    let filled_to = ap (λ k. size_of (lookup k m)) (same ∙ sym at) ∙ filled.0 in
                    omega (arith, still, filled_to, offset_in, ltb→lt _ _ now)
                | inr later ↦ brought p (ground arith) (ground arith) pin
              ],
            )
      ]

  note_length_keeps :
      (r : Response) (b : MultiBuffer Byte)
      → note_length r b ≡ record b { total_bytes = (note_length r b).total_bytes }
  unfolding note_length
  note_length_keeps r b = ground arith

  total_bytes-IsFed :
      (b : MultiBuffer Byte) (t : ℤ)
      → IsFed resource b
      → IsFed resource (record b { total_bytes = t })
  total_bytes-IsFed b t fed = record {
    sound = record {
      valid = fed.sound.valid;
      keyed = fed.sound.keyed;
      same = fed.sound.same;
      bounded = fed.sound.bounded;
      narrow = fed.sound.narrow;
    };
    small = fed.small;
    holds = fed.holds;
    writing = fed.writing;
  }

  is_cached_of_size :
      (b : MultiBuffer Byte) (p : ℕ)
      → p % block_size b < size_of (lookup (p / block_size b) b.cache)
      → is_cached b p ≡ true
  unfolding is_cached
  is_cached_of_size b p h = elim (Option-cases (lookup (p / block_size b) b.cache)) [
    | inl n ↦ absurd (omega (arith, ap size_of n))
    | inr (e, s) ↦ rw (s, is_cached) (lt→ltb _ _ (omega (arith, ap size_of s)))
  ]

  on_write_runs :
      (r : Response) (read_data : ℕ → Byte) (num_bytes f : ℕ) (b n c : MultiBuffer Byte)
      → b.fetcher ≡ some f
      → r.code / 100 ≡ 2
      → note_length r b ≡ n
      → write_loop fresh num_bytes (to_block_id n (write_pos n)) read_data num_bytes n ≡ some c
      → on_write fresh r read_data num_bytes b ≡ some (c, num_bytes)
  unfolding on_write
  on_write_runs r read_data num_bytes f b n c e ok noted run = rw (noted, run, ok, e)

  module _ (r : Response) (read_data : ℕ → Byte) (num_bytes f : ℕ) (b : MultiBuffer Byte)
      (fed : IsFed resource b) (fetching : b.fetcher ≡ some f) (ok : r.code / 100 ≡ 2)
      (arrives : (i : ℕ) → i < num_bytes → read_data i ≡ resource (write_pos b + i)) where
    noted : MultiBuffer Byte
    noted = record b { total_bytes = (note_length r b).total_bytes }

    on_write-Taken :
        (m : List (ℕ × Entry Byte)) × (l : Lru) × (w : ℕ) × (on_write fresh r read_data num_bytes b
          ≡ some (at_offset noted m l w, num_bytes))
        × (w ≡ b.write_offset + num_bytes)
        × IsFed resource (at_offset noted m l w)
        × ((p : ℕ)
            → write_pos b ≤ p
            → p < write_pos b + num_bytes
            → is_pinned b (p / block_size b) ≡ true
            → p % block_size b < size_of (lookup (p / block_size b) m))
    unfolding noted to_block_id is_pinned
    on_write-Taken =
        let (m, l, w, run, offset, fed', _, brought) =
          write_loop-Taken num_bytes (to_block_id noted (write_pos noted)) read_data num_bytes noted
            (total_bytes-IsFed b _ fed) (inr refl) arrives (omega arith) in
        (
          m,
          l,
          w,
          on_write_runs r read_data num_bytes f b noted (at_offset noted m l w) fetching ok
              (note_length_keeps r b) run,
          offset,
          fed',
          brought,
        )

    -- OnWrite on a successful response, while the cache agrees with the resource and the bytes that
    -- arrive are those of the resource from the stream's position on: it takes all the bytes, with
    -- no failed DCHECK and no loop that runs on, and the cache agrees with the resource afterwards,
    -- holds at most `max_cache_size` blocks and is ready for the next bytes.
    pub on_write-IsFed :
        (c : MultiBuffer Byte) × (on_write fresh r read_data num_bytes b ≡ some (c, num_bytes))
        × IsFed resource c
        × (write_pos c ≡ write_pos b + num_bytes)
        × (c.write_start_pos ≡ b.write_start_pos)
        × (c.fetcher ≡ b.fetcher)
    unfolding noted
    on_write-IsFed =
        let (m, l, w, run, offset, fed', _) = on_write-Taken in
        (at_offset noted m l w, run, fed', omega arith, refl, refl)

    -- OnWrite on a successful response, while the cache agrees with the resource and the bytes that
    -- arrive are those of the resource from the stream's position on: each byte that it took is in
    -- the cache afterwards, if its block is pinned.
    pub on_write-is_cached :
        (p : ℕ)
        → write_pos b ≤ p
        → p < write_pos b + num_bytes
        → is_pinned b (p / block_size b) ≡ true
        → (c : MultiBuffer Byte) × (on_write fresh r read_data num_bytes b ≡ some (c, num_bytes))
          × (is_cached c p ≡ true)
    unfolding noted
    on_write-is_cached p low high pin =
        let (m, l, w, run, offset, fed', brought) = on_write-Taken in
        let c = at_offset noted m l w in (c, run, is_cached_of_size c p (brought p low high pin))
