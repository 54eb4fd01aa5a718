-- ===== src/MultiBuffer.antt =====
-- resource_multibuffer.h and resource_multibuffer.cc: the block cache in front of the network.
-- Positions, ids and counts that the program keeps nonnegative are natural numbers; an `int` that a
-- caller passes is an integer. `1 << block_size_shift_` is `2 ^ block_size_shift`, `>>` and `<<` are
-- `/` and `*` by it, and the mask by it minus 1 is `%`. What `media::DataBuffer` holds before it is
-- written is the parameter `fresh`. A failed DCHECK or a null pointer is `none`.
pub mod Blocks
pub mod Fill
pub mod Rounds
pub mod Longest
pub mod Seek
pub mod Purge
pub mod Offsets
pub mod Touch
pub mod Write
pub mod Stream
pub mod Run
pub mod Progress
pub mod Stale
mod Crowded
mod Tests
use chromium_media_lib.Prelude.{
  ℕ, zero, suc, ◌+◌, ◌-◌, ◌*◌, ◌/◌, ◌%◌, ◌^◌, min, Bool, true, false, ◌&&◌, ◌||◌, not, Option, some,
  none, List, [], ◌∷◌, ◌++◌, ◌==◌, ltb, leb, if◌then◌else◌, ◌>>=◌, length,
}
use chromium_media_lib.Prelude.Int.{ℤ, pos, negsuc, sub_ℕ, leb_ℤ}
use chromium_media_lib.Prelude.Maps.{lookup, put, remove, modify}
use chromium_media_lib.Lru.{Lru, empty_lru}
use chromium_media_lib.Lru

-- A cached block: `media::DataBuffer`.
pub record Entry (Byte : Type 0) : Type 0 where
  pub bytes : ℕ → Byte
  pub data_size : ℕ

pub record MultiBuffer (Byte : Type 0) : Type 0 where
  pub block_size_shift : ℕ
  pub write_start_pos : ℕ
  pub write_offset : ℕ
  pub total_bytes : ℤ
  -- `fetcher_`: the first byte that it asked the server for.
  pub fetcher : Option ℕ
  -- The calls of CreateFetcherFrom that wait in the io thread's queue.
  pub posted : List ℕ
  pub cache : List (ℕ × Entry Byte)
  pub lru : Lru
  pub pinned_first : ℕ
  pub pinned_last : ℤ

-- What the current fetcher says of its response: the HTTP code, the instance length of a
-- Content-Range header if that could be read, and the content length.
pub record Response : Type 0 where
  pub code : ℕ
  pub content_range : Option ℤ
  pub content_length : ℤ

abbrev pub http_partial_content : ℕ
http_partial_content = 206

abbrev pub max_look_ahead_index : ℕ
max_look_ahead_index = 5

abbrev pub max_look_behind_index : ℕ
max_look_behind_index = 50

abbrev pub max_wait_for_reader_offset : ℕ
max_wait_for_reader_offset = 512 * 1024

abbrev pub max_cache_size : ℕ
max_cache_size = 1000

-- `net::ERR_IO_PENDING`
abbrev pub err_io_pending : ℤ
err_io_pending = negsuc 0

-- `n` bytes of a store from `start` on.
unfoldable pub slice : {Byte : Type 0} → (ℕ → Byte) → ℕ → ℕ → List Byte
slice f start zero = []
slice f start (suc n) = f start ∷ slice f (suc start) n

-- A store after `memcpy(store + start, source, n)`.
unfoldable pub blit : {Byte : Type 0} → (ℕ → Byte) → ℕ → (ℕ → Byte) → ℕ → ℕ → Byte
blit f start source n i = if leb start i && ltb i (start + n) then source (i - start) else f i

-- The map from the last key that is at most `id` on: `upper_bound(id)`, one step back. Empty if
-- `upper_bound(id)` is `begin()`.
unfoldable pub at_or_below : {V : Type 0} → ℕ → List (ℕ × V) → List (ℕ × V)
at_or_below id [] = []
at_or_below id (e ∷ m) = elim (at_or_below id m) [
  | [] ↦ if ltb id e.0 then [] else e ∷ m
  | x ∷ r ↦ if ltb id e.0 then [] else x ∷ r
]

module _ {Byte : Type 0} where
  abbrev pub block_size : MultiBuffer Byte → ℕ
  block_size b = 2 ^ b.block_size_shift

  -- Where the next byte from the network goes.
  abbrev pub write_pos : MultiBuffer Byte → ℕ
  write_pos b = b.write_start_pos + b.write_offset

  unfoldable pub to_block_id : MultiBuffer Byte → ℕ → ℕ
  to_block_id b position = position / block_size b

  -- The state that the constructor makes.
  unfoldable pub new_multibuffer : ℕ → MultiBuffer Byte
  new_multibuffer shift = record {
    block_size_shift = shift;
    write_start_pos = 0;
    write_offset = 0;
    total_bytes = negsuc 0;
    fetcher = none;
    posted = [];
    cache = [];
    lru = empty_lru;
    pinned_first = 0;
    pinned_last = pos 0;
  }

  -- On the io thread the fetcher is replaced; elsewhere the call is posted there.
  unfoldable pub create_fetcher_from : Bool → ℕ → MultiBuffer Byte → MultiBuffer Byte
  create_fetcher_from on_io position b =
      if on_io
      then record b { fetcher = some position }
      else record b { posted = b.posted ++ position ∷ [] }

  -- The io thread runs the oldest posted call.
  unfoldable pub run_posted : MultiBuffer Byte → MultiBuffer Byte
  run_posted b = elim b.posted [
    | [] ↦ b
    | position ∷ rest ↦ create_fetcher_from true position (record b { posted = rest })
  ]

  unfoldable pub start : Bool → MultiBuffer Byte → Option (MultiBuffer Byte)
  start on_io b = elim b.fetcher [
    | some _ ↦ none
    | none ↦ some (create_fetcher_from on_io 0 (record b { write_start_pos = 0; write_offset = 0 }))
  ]

  unfoldable pub get_size : MultiBuffer Byte → ℤ
  get_size b = elim b.fetcher [ none ↦ negsuc 0 | some _ ↦ b.total_bytes ]

  -- CheckCacheMiss at a nonnegative position.
  unfoldable pub check_cache_miss : MultiBuffer Byte → ℕ → Bool
  check_cache_miss b position = elim (at_or_below (position / block_size b) b.cache) [
    | [] ↦ ltb position (write_pos b)
    | e ∷ _ ↦ not (ltb position (e.0 * block_size b + e.1.data_size)) && ltb position (write_pos b)
  ]

  unfoldable pub adjust_pinned_range : ℕ → MultiBuffer Byte → MultiBuffer Byte
  adjust_pinned_range id b = record b {
    pinned_first = id - max_look_ahead_index;
    pinned_last = pos (id + max_look_behind_index);
  }

  -- The same for the id -(n + 1).
  unfoldable pub adjust_pinned_range_negative : ℕ → MultiBuffer Byte → MultiBuffer Byte
  adjust_pinned_range_negative n b = record b {
    pinned_first = 0;
    pinned_last = sub_ℕ max_look_behind_index (n + 1);
  }

  restart_from : Bool → ℕ → MultiBuffer Byte → MultiBuffer Byte
  restart_from on_io position b =
      create_fetcher_from on_io position (record b { write_start_pos = position; write_offset = 0 })

  -- The condition of the `if` in Seek.
  unfoldable pub must_restart : MultiBuffer Byte → ℕ → Bool
  must_restart b position =
      ltb position b.write_start_pos
      || ltb (write_pos b + max_wait_for_reader_offset) position
      || check_cache_miss b position

  unfoldable pub seek : Bool → ℤ → MultiBuffer Byte → MultiBuffer Byte
  unfolding restart_from
  seek on_io (pos position) b =
      let id = to_block_id b position in
      let pinned = adjust_pinned_range id b in
      if must_restart pinned position
      then restart_from on_io ((id - 1) * block_size b) pinned
      else pinned
  seek on_io (negsuc n) b = restart_from on_io 0 (adjust_pinned_range_negative (n / block_size b) b)

  -- The `while` loop of Fill, over the rest of the map.
  unfoldable pub fill_loop : ℕ → ℕ → ℕ → ℕ → List (ℕ × Entry Byte) → List Byte
  fill_loop block index position size [] = []
  fill_loop block index position size ((k, e) ∷ rest) =
      let begin = position - k * block in
      let remain = min (e.data_size - begin) size in
      let more = fill_loop block (index + 1) (position + remain) (size - remain) rest in
      if ltb 0 size && leb position (k * block + e.data_size) && (index == k)
      then slice e.bytes begin remain ++ (if e.data_size == block then more else [])
      else []

  -- What Fill writes to `data`.
  unfoldable pub fill_bytes : MultiBuffer Byte → ℕ → ℕ → List Byte
  fill_bytes b position size = elim (at_or_below (to_block_id b position) b.cache) [
    | [] ↦ []
    | e ∷ rest ↦ fill_loop (block_size b) e.0 position size (e ∷ rest)
  ]

  -- The result of Fill, and the bytes that it wrote.
  unfoldable pub fill : MultiBuffer Byte → ℤ → ℕ → ℤ × List Byte
  fill b (pos position) size =
      let out = fill_bytes b position size in
      (if ltb 0 (length out) then pos (length out) else err_io_pending, out)
  fill b (negsuc n) size = (err_io_pending, [])

  unfoldable pub is_pinned : MultiBuffer Byte → ℕ → Bool
  is_pinned b id = leb b.pinned_first id && leb_ℤ (pos id) b.pinned_last

  -- One round of the loop of PurgeIfNecessary.
  unfoldable pub purge_step : MultiBuffer Byte → Option (MultiBuffer Byte)
  purge_step b = do
    (id, rest) ← Lru.pop b.lru
    if is_pinned b id
        then (Lru.insert rest id >>= λ l. some (record b { lru = l }))
        else (lookup id b.cache >>= λ _. some (record b { lru = rest; cache = remove id b.cache }))

  unfoldable pub purge : ℕ → MultiBuffer Byte → Option (MultiBuffer Byte)
  purge zero b = if ltb max_cache_size (Lru.size b.lru) then none else some b
  purge (suc fuel) b = elim (ltb max_cache_size (Lru.size b.lru)) [
    | true ↦ purge_step b >>= purge fuel
    | false ↦ some b
  ]

  -- The rounds are at most as many as the blocks.
  unfoldable pub purge_if_necessary : MultiBuffer Byte → Option (MultiBuffer Byte)
  purge_if_necessary b = purge (Lru.size b.lru) b

  -- `remain_size` in OnWrite.
  abbrev pub chunk : MultiBuffer Byte → ℕ → ℕ
  chunk b num_bytes = min (block_size b - write_pos b % block_size b) num_bytes

  -- The memcpy and set_data_size of OnWrite, on one entry.
  unfoldable pub fill_entry : ℕ → (ℕ → Byte) → ℕ → Entry Byte → Entry Byte
  fill_entry begin source n e = record {
    bytes = blit e.bytes begin source n;
    data_size = begin + n;
  }

  -- The first lines of OnWrite.
  unfoldable pub note_length : Response → MultiBuffer Byte → MultiBuffer Byte
  note_length r b =
      if r.code == http_partial_content
      then elim r.content_range [ none ↦ b | some n ↦ record b { total_bytes = n } ]
      else record b { total_bytes = r.content_length }

  module _ (fresh : ℕ → Byte) where
    abbrev pub new_entry : Entry Byte
    new_entry = record { bytes = fresh; data_size = 0 }

    -- The entry of a block, found or made, is the most recently used.
    unfoldable pub touch_entry : ℕ → MultiBuffer Byte → Option (MultiBuffer Byte)
    touch_entry id b = elim (lookup id b.cache) [
      | none ↦ Lru.insert b.lru id >>= λ l.
          purge_if_necessary (record b { cache = put id new_entry b.cache; lru = l })
      | some _ ↦ Lru.use_value b.lru id >>= λ l. some (record b { lru = l })
    ]

    -- One round of the loop of OnWrite: `remain_size`, and the new state.
    unfoldable pub write_step :
        ℕ → (ℕ → Byte) → ℕ → MultiBuffer Byte → Option (ℕ × MultiBuffer Byte)
    write_step id read_data num_bytes b = do
      c ← touch_entry id b
      let n = chunk c num_bytes
      some (
        n,
        record c {
          cache = modify id (fill_entry (write_pos c % block_size c) read_data n) c.cache;
          write_offset = c.write_offset + n;
        },
      )

    unfoldable pub write_loop :
        ℕ → ℕ → (ℕ → Byte) → ℕ → MultiBuffer Byte → Option (MultiBuffer Byte)
    write_loop zero id read_data num_bytes b = if num_bytes == 0 then some b else none
    write_loop (suc fuel) id read_data num_bytes b = elim (num_bytes == 0) [
      | true ↦ some b
      | false ↦ write_step id read_data num_bytes b >>= λ r.
          write_loop fuel (id + 1) (λ i. read_data (r.0 + i)) (num_bytes - r.0) r.1
    ]

    -- OnWrite: the new state, and the number of bytes that it says it took.
    unfoldable pub on_write :
        Response → (ℕ → Byte) → ℕ → MultiBuffer Byte → Option (MultiBuffer Byte × ℕ)
    on_write r read_data num_bytes b = do
      _ ← b.fetcher
      c ←
          if r.code / 100 == 2
          then (let noted = note_length r b in
              write_loop num_bytes (to_block_id noted (write_pos noted)) read_data num_bytes noted)
          else some b
      some (c, num_bytes)
