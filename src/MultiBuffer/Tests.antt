-- ===== src/MultiBuffer/Tests.antt =====
-- Examples: a cache of blocks of four bytes, of which the first three are there, in front of the
-- resource whose bytes are their positions.
use chromium_media_lib.Prelude.{ℕ, ◌+◌, ◌≡◌, refl, arith, false, true, some, none, [], ◌∷◌}
use chromium_media_lib.Prelude.Int.{pos, negsuc}
use chromium_media_lib.Prelude.Maps.{lookup, put, modify}
use chromium_media_lib.Lru.{insert, empty_lru, contains, size}
use chromium_media_lib.Lru.Nodes.{node_of}
use chromium_media_lib.MultiBuffer.{
  MultiBuffer, Response, fill, run_posted, new_multibuffer, slice, seek, write_pos, on_write,
  is_pinned, to_block_id, write_loop, write_step, touch_entry, note_length, purge, fill_entry,
  purge_if_necessary, start, create_fetcher_from,
}
use chromium_media_lib.MultiBuffer.Blocks.{Holds, is_cached}
use chromium_media_lib.MultiBuffer.Longest.{cached_run, fill-cached_run}
use chromium_media_lib.MultiBuffer.Seek.{WithinReach, seek-WithinReach}
use chromium_media_lib.MultiBuffer.Purge.{IsSound, Outcome, purge_if_necessary-Outcome}
use chromium_media_lib.MultiBuffer.Crowded.{crowd, down, crowd_lem}
use chromium_media_lib.MultiBuffer.Write.{IsFed}
use chromium_media_lib.MultiBuffer.Stream.{on_write-IsFed, on_write-is_cached}
use chromium_media_lib.MultiBuffer.Stale.{restart_position, on_write-stale}
use chromium_media_lib.MultiBuffer.Run.{
  Reachable, at_first, after, started, wrote, sought, fetched, Reachable-IsFed, Reachable-fill,
}

abbrev positions : ℕ → ℕ
positions i = i

abbrev zeros : ℕ → ℕ
zeros i = 0

abbrev three_bytes : MultiBuffer ℕ
three_bytes = record {
  block_size_shift = 2;
  write_start_pos = 0;
  write_offset = 3;
  total_bytes = negsuc 0;
  fetcher = some 0;
  posted = [];
  cache = (0, record { bytes = positions; data_size = 3 }) ∷ [];
  lru = record { nodes = record { id = 0; value = 0 } ∷ []; pos = (0, 0) ∷ []; next_id = 1 };
  pinned_first = 0;
  pinned_last = pos 50;
}

three_bytes-Holds : Holds positions three_bytes
three_bytes-Holds = ((omega arith, λ i h. omega arith), tt)

three_bytes-IsSound : IsSound three_bytes
unfolding lookup node_of contains
three_bytes-IsSound = record {
  valid = record {
    fresh = (omega arith, refl, tt);
    keyed = (omega arith, tt);
    agree = λ v. ground arith;
    sized = refl;
  };
  keyed = (omega arith, tt);
  same = λ id. ground arith;
  bounded = (omega arith, tt);
  narrow = omega arith;
}

three_bytes-IsFed : IsFed positions three_bytes
unfolding lookup size
three_bytes-IsFed = record {
  sound = three_bytes-IsSound;
  small = omega arith;
  holds = three_bytes-Holds;
  writing = omega arith;
}

-- A full block and half of the next one.
abbrev block_and_half : MultiBuffer ℕ
block_and_half = record three_bytes {
  write_offset = 6;
  cache =
      (0, record { bytes = positions; data_size = 4 })
      ∷ (1, record { bytes = λ i. 4 + i; data_size = 2 })
      ∷ [];
}

fill-cached_run_example : fill block_and_half (pos 1) 9 ≡ (pos 5, 1 ∷ 2 ∷ 3 ∷ 4 ∷ 5 ∷ [])
unfolding cached_run is_cached lookup slice
fill-cached_run_example =
    fill-cached_run positions block_and_half 1 9 (omega arith, (omega arith, tt))
      ((omega arith, λ i h. omega arith), ((omega arith, λ i h. omega arith), tt))

seek-WithinReach_example : WithinReach 700000 (seek false (pos 700000) three_bytes)
seek-WithinReach_example =
    seek-WithinReach false three_bytes 700000 (omega arith, tt) (omega arith, tt) (omega arith)

-- 1001 blocks, one more than PurgeIfNecessary leaves.
purge_if_necessary-Outcome_example : Outcome 1000 (crowd 1001) (purge_if_necessary (crowd 1001))
unfolding down
purge_if_necessary-Outcome_example =
    purge_if_necessary-Outcome (crowd 1001) 1000 (down 1000) (crowd_lem 1001).0 (crowd_lem 1001).1

abbrev partial_response : Response
partial_response = record { code = 206; content_range = some (pos 10); content_length = pos 10 }

-- Six bytes from the position 3 on, which end in the block 2.
abbrev six_bytes : ℕ → ℕ
six_bytes i = 3 + i

on_write-IsFed_example :
    (c : MultiBuffer ℕ) × (on_write zeros partial_response six_bytes 6 three_bytes ≡ some (c, 6))
    × IsFed positions c
    × (write_pos c ≡ write_pos three_bytes + 6)
    × (c.write_start_pos ≡ 0)
    × (c.fetcher ≡ some 0)
on_write-IsFed_example =
    on_write-IsFed zeros positions partial_response six_bytes 6 0 three_bytes three_bytes-IsFed refl
      refl (λ i h. omega arith)

on_write-is_cached_example :
    (c : MultiBuffer ℕ) × (on_write zeros partial_response six_bytes 6 three_bytes ≡ some (c, 6))
    × (is_cached c 8 ≡ true)
unfolding is_pinned
on_write-is_cached_example =
    on_write-is_cached zeros positions partial_response six_bytes 6 0 three_bytes three_bytes-IsFed
      refl refl (λ i h. omega arith) 8 (omega arith) (omega arith) refl

-- A new cache after Seek from another thread, whose request has been posted and run.
abbrev sought_cache : MultiBuffer ℕ
sought_cache = run_posted (seek false (pos 700000) (new_multibuffer 2))

sought_cache-Reachable : Reachable zeros positions 2 sought_cache
sought_cache-Reachable =
    after (seek false (pos 700000) (new_multibuffer 2)) sought_cache
      (after (new_multibuffer 2) (seek false (pos 700000) (new_multibuffer 2)) at_first
        (sought (new_multibuffer 2) false (pos 700000)))
      (fetched (seek false (pos 700000) (new_multibuffer 2)))

Reachable-IsFed_example : IsFed positions sought_cache
Reachable-IsFed_example = Reachable-IsFed zeros positions 2 sought_cache sought_cache-Reachable

abbrev started_cache : MultiBuffer ℕ
started_cache = record {
  block_size_shift = 2;
  write_start_pos = 0;
  write_offset = 0;
  total_bytes = negsuc 0;
  fetcher = some 0;
  posted = [];
  cache = [];
  lru = empty_lru;
  pinned_first = 0;
  pinned_last = pos 0;
}

on_write-stale_example :
    (c : MultiBuffer ℕ) × (on_write zeros partial_response positions 6
        (seek false (pos 700000) started_cache)
      ≡ some (c, 6))
    × (fill c (pos (restart_position started_cache 700000)) 1 ≡ (pos 1, 0 ∷ []))
unfolding start new_multibuffer create_fetcher_from
on_write-stale_example =
    on_write-stale zeros positions 2 700000 6 partial_response started_cache refl (omega arith)
      (omega arith) refl

-- The cache after the first six bytes of a stream from the start on.
abbrev written_cache : MultiBuffer ℕ
written_cache = elim (on_write zeros partial_response positions 6 started_cache) [
  | none ↦ started_cache
  | some (c, _) ↦ c
]

written_cache-Reachable : Reachable zeros positions 2 written_cache
unfolding start new_multibuffer create_fetcher_from on_write write_loop write_step touch_entry
    note_length lookup insert contains empty_lru purge_if_necessary purge size put modify
    to_block_id
written_cache-Reachable =
    after started_cache written_cache
      (after (new_multibuffer 2) started_cache at_first
        (started (new_multibuffer 2) started_cache true refl))
      (wrote started_cache written_cache partial_response positions 6 0 6 refl refl
        (λ i h. omega arith) refl)

Reachable-fill_example : fill written_cache (pos 1) 9 ≡ (pos 5, 1 ∷ 2 ∷ 3 ∷ 4 ∷ 5 ∷ [])
unfolding on_write write_loop write_step touch_entry note_length lookup insert contains empty_lru
    purge_if_necessary purge size put modify to_block_id is_cached cached_run slice fill_entry
Reachable-fill_example = Reachable-fill zeros positions 2 written_cache 1 9 written_cache-Reachable
