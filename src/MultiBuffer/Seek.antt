-- ===== src/MultiBuffer/Seek.antt =====
-- ResourceMultiBuffer::CheckCacheMiss and Seek: when the stream is restarted, and that the position
-- sought can then be reached.
use chromium_media_lib.Prelude.{
  ℕ, ◌+◌, ◌-◌, ◌*◌, ◌/◌, ◌≤◌, ◌<◌, ◌≡◌, refl, inl, inr, ◌⊎◌, ◌∙◌, Bool, true, false, ◌&&◌, not,
  List, [], ◌∷◌, All, arith, ltb, Bool-cases, Option-cases, subst, sym,
}
use chromium_media_lib.Prelude.Int.{pos}
use chromium_media_lib.Prelude.Maps.{lookup, From}
use chromium_media_lib.MultiBuffer.{
  Entry, MultiBuffer, block_size, write_pos, at_or_below, check_cache_miss, must_restart, seek,
  to_block_id, adjust_pinned_range, restart_from, create_fetcher_from, max_wait_for_reader_offset,
}
use chromium_media_lib.MultiBuffer.Blocks.{
  is_cached, at_or_below-All, at_or_below_present, at_or_below_absent,
}
use chromium_media_lib.MultiBuffer.Fill.{block_size-pos, block_start, block_end}

-- No entry is longer than a block.
abbrev pub Bounded : {Byte : Type 0} → ℕ → ℕ × Entry Byte → Type 0
Bounded block e = e.1.data_size ≤ block

module _ {Byte : Type 0} (b : MultiBuffer Byte) (position : ℕ) where
  miss_nothing :
      at_or_below (position / block_size b) b.cache ≡ []
      → check_cache_miss b position ≡ ltb position (write_pos b)
  unfolding check_cache_miss
  miss_nothing e = rw (e, check_cache_miss)

  miss_found :
      (e : ℕ × Entry Byte) (r : List (ℕ × Entry Byte))
      → at_or_below (position / block_size b) b.cache ≡ e ∷ r
      → check_cache_miss b position
        ≡ (not (ltb position (e.0 * block_size b + e.1.data_size)) && ltb position (write_pos b))
  unfolding check_cache_miss
  miss_found e r h = rw (h, check_cache_miss)

  -- Over a map of blocks in the order of their ids, none longer than a block: CheckCacheMiss at a
  -- nonnegative position is true exactly if the position is behind the stream and its byte is not
  -- in the cache.
  pub check_cache_miss-is_cached :
      From 0 b.cache
      → All (Bounded (block_size b)) b.cache
      → check_cache_miss b position ≡ (not (is_cached b position) && ltb position (write_pos b))
  unfolding is_cached
  check_cache_miss-is_cached keyed bounded =
      let id = position / block_size b in
      elim (Option-cases (lookup id b.cache)) [
        | inl none_there ↦ elim (at_or_below_absent id 0 b.cache keyed none_there) [
          | inl nothing ↦ rw (miss_nothing nothing) (rw (none_there, is_cached))
          | inr (e, r, found, less, above) ↦
              let good = at_or_below-All (Bounded (block_size b)) id b.cache bounded in
              let whole : Bounded (block_size b) e = (rw found at good).0 in
              let far = block_end (block_size b) e.0 e.1.data_size position less whole in
              rw (miss_found e r found) (ground arith)
        ]
        | inr (e, there) ↦
            let (r, found, above) = at_or_below_present id 0 e b.cache keyed there in
            let start = block_start (block_size b) id position (omega arith) in
            rw (miss_found (id, e) r found) (ground arith)
      ]

-- What Seek leaves alone, and the range that it pins.
pub seek-keeps :
    {Byte : Type 0} (on_io : Bool) (b : MultiBuffer Byte) (position : ℕ)
    → let c = seek on_io (pos position) b in
      (c.cache ≡ b.cache)
      × (c.lru ≡ b.lru)
      × (c.block_size_shift ≡ b.block_size_shift)
      × (c.pinned_first ≡ position / block_size b - 5)
      × (c.pinned_last ≡ pos (position / block_size b + 50))
unfolding seek restart_from create_fetcher_from adjust_pinned_range to_block_id
seek-keeps on_io b position = ground arith

block_before :
    (block position : ℕ)
    → 0 < block
    → ((position / block - 1) * block ≤ position)
      × (position ≤ (position / block - 1) * block + 2 * block)
block_before block position h = grind arith

-- The position can be served: its byte is cached, or the stream has yet to bring it and is not
-- further from it than the reader is willing to wait.
abbrev pub WithinReach : {Byte : Type 0} → ℕ → MultiBuffer Byte → Type 0
WithinReach position c =
    (is_cached c position ≡ true)
    ⊎ ((write_pos c ≤ position) × (position ≤ write_pos c + max_wait_for_reader_offset))

restart-WithinReach :
    {Byte : Type 0} (on_io : Bool) (b : MultiBuffer Byte) (position : ℕ)
    → 2 * block_size b ≤ max_wait_for_reader_offset
    → WithinReach position (restart_from on_io ((position / block_size b - 1) * block_size b) b)
unfolding restart_from create_fetcher_from is_cached
restart-WithinReach on_io b position small =
    let below = block_before (block_size b) position (block_size-pos b) in
    inr (ground (arith, below), ground (arith, below))

module _ {Byte : Type 0} (on_io : Bool) (b : MultiBuffer Byte) (position : ℕ) where
  pinned : MultiBuffer Byte
  pinned = adjust_pinned_range (to_block_id b position) b

  must_restart-pinned : must_restart pinned position ≡ must_restart b position
  unfolding must_restart pinned adjust_pinned_range check_cache_miss
  must_restart-pinned = refl

  seek-restart :
      must_restart b position ≡ true
      → seek on_io (pos position) b
        ≡ restart_from on_io ((position / block_size b - 1) * block_size b) pinned
  unfolding seek pinned to_block_id
  seek-restart r = rw (must_restart-pinned ∙ r)

  seek-stay : must_restart b position ≡ false → seek on_io (pos position) b ≡ pinned
  unfolding seek pinned
  seek-stay r = rw (must_restart-pinned ∙ r)

  pinned-WithinReach :
      From 0 b.cache
      → All (Bounded (block_size b)) b.cache
      → must_restart b position ≡ false
      → WithinReach position pinned
  unfolding must_restart pinned is_cached adjust_pinned_range
  pinned-WithinReach keyed bounded r =
      let missing = check_cache_miss-is_cached b position keyed bounded in
      elim (Bool-cases (is_cached b position)) [
        | inl c ↦ inl c
        | inr c ↦ inr (ground (arith, missing), ground arith)
      ]

  -- Over a map of blocks in the order of their ids, none longer than a block, and if two blocks are no longer than the wait for the reader: after Seek to a
  -- nonnegative position, from either thread, the byte there is cached, or the stream has yet to
  -- bring it and is no further from it than that wait.
  pub seek-WithinReach :
      From 0 b.cache
      → All (Bounded (block_size b)) b.cache
      → 2 * block_size b ≤ max_wait_for_reader_offset
      → WithinReach position (seek on_io (pos position) b)
  unfolding pinned adjust_pinned_range
  seek-WithinReach keyed bounded small = elim (Bool-cases (must_restart b position)) [
    | inl r ↦
        subst (WithinReach position) (sym (seek-restart r))
          (restart-WithinReach on_io pinned position small)
    | inr r ↦ subst (WithinReach position) (sym (seek-stay r)) (pinned-WithinReach keyed bounded r)
  ]

  -- Over a map of blocks in the order of their ids, none longer than a block, Seek to a position that is cached, not behind the start of the stream and no
  -- more than the wait in front of where the stream is, makes no request: it only moves the pinned
  -- range.
  seek-no_restart :
      From 0 b.cache
      → All (Bounded (block_size b)) b.cache
      → is_cached b position ≡ true
      → b.write_start_pos ≤ position
      → position ≤ write_pos b + max_wait_for_reader_offset
      → seek on_io (pos position) b ≡ adjust_pinned_range (to_block_id b position) b
  unfolding must_restart pinned
  seek-no_restart keyed bounded c low high =
      seek-stay (ground (arith, check_cache_miss-is_cached b position keyed bounded))
