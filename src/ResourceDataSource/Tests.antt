-- ===== src/ResourceDataSource/Tests.antt =====
-- Examples: reads of the resource whose bytes are their positions, whose first three are cached.
use chromium_media_lib.Prelude.{
  ℕ, ◌+◌, ◌^◌, ◌≡◌, refl, arith, true, false, Option, some, none, [], ◌∷◌,
}
use chromium_media_lib.Prelude.Int.{pos, negsuc}
use chromium_media_lib.Prelude.Maps.{lookup, put, modify}
use chromium_media_lib.Lru.{empty_lru, insert, contains, size}
use chromium_media_lib.MultiBuffer.{
  MultiBuffer, Response, new_multibuffer, start, create_fetcher_from, seek, adjust_pinned_range,
  to_block_id, run_posted, must_restart, check_cache_miss, at_or_below, on_write, write_loop,
  write_step, touch_entry, note_length, purge_if_necessary, purge,
}
use chromium_media_lib.MultiBuffer.Run.{Reachable, Reachable-IsFed, at_first, after, started}
use chromium_media_lib.ResourceDataSource.Progress.{
  read_over_network, IsAnswered, read_over_network-IsAnswered,
}
use chromium_media_lib.MultiBuffer.Blocks.{Holds}
use chromium_media_lib.ReadOperation.{ReadOperation}
use chromium_media_lib.ResourceDataSource.{
  ResourceDataSource, new_source, initialize, read, read_task, writer_write, stop, destroy_source,
}
use chromium_media_lib.ResourceDataSource.Session
use chromium_media_lib.ResourceDataSource.Stopped.{at_once, after as later_after, Later-stop}
use chromium_media_lib.ResourceDataSource.Reads.{Served, read_task-cached_run, read_task-wraps}

abbrev positions : ℕ → ℕ
positions i = i

abbrev three_bytes : MultiBuffer ℕ
three_bytes = record {
  block_size_shift = 15;
  write_start_pos = 0;
  write_offset = 3;
  total_bytes = negsuc 0;
  fetcher = some 0;
  posted = [];
  cache = (0, record { bytes = positions; data_size = 3 }) ∷ [];
  lru = record { nodes = record { id = 0; value = 0 } ∷ []; pos = (0, 0) ∷ []; next_id = 1 };
  pinned_first = 0;
  pinned_last = pos 50;
}

three_bytes-Holds : Holds positions three_bytes
three_bytes-Holds = ((omega arith, λ i h. omega arith), tt)

abbrev read_at : ℕ → ReadOperation
read_at p = record { position = pos p; size = 2; callback = 0 }

abbrev reading : ℕ → ResourceDataSource ℕ
reading p = record {
  stop_signal_received = false;
  total_bytes = pos 0;
  init_cb = false;
  multibuffer = three_bytes;
  read_op = some (read_at p);
  tasks = [];
  answers = [];
}

read_task-cached_run_example : Served positions true 1 (read_at 1) (reading 1)
read_task-cached_run_example =
    read_task-cached_run positions true (reading 1) (read_at 1) 1 refl refl (omega arith)
      (omega arith, tt) three_bytes-Holds refl (omega arith)

read_task-wraps_example : Served positions true 1 (read_at (1 + 2 ^ 32)) (reading (1 + 2 ^ 32))
read_task-wraps_example =
    read_task-wraps positions true (reading (1 + 2 ^ 32)) (read_at (1 + 2 ^ 32)) 1 refl refl
      (omega arith) (omega arith, tt) three_bytes-Holds refl (omega arith)

-- A source whose cache has been started and is empty yet.
abbrev started_buffer : MultiBuffer ℕ
started_buffer = record {
  block_size_shift = 15;
  write_start_pos = 0;
  write_offset = 0;
  total_bytes = negsuc 0;
  fetcher = some 0;
  posted = [];
  cache = [];
  lru = empty_lru;
  pinned_first = 0;
  pinned_last = pos 0;
}

started_buffer-Reachable : Reachable (λ _. 0) positions 15 started_buffer
unfolding new_multibuffer start create_fetcher_from empty_lru
started_buffer-Reachable =
    after (new_multibuffer 15) started_buffer at_first
      (started (new_multibuffer 15) started_buffer true refl)

abbrev reading_first : ResourceDataSource ℕ
reading_first = record (reading 1) { multibuffer = started_buffer }

abbrev success : Response
success = record { code = 200; content_range = none; content_length = pos 3 }

read_over_network-IsAnswered_example :
    (u : ResourceDataSource ℕ) × (read_over_network
        (λ _. 0)
        positions
        true
        success
        positions
        3
        reading_first
      ≡ some u)
    × IsAnswered positions 1 (read_at 1) reading_first u
unfolding seek adjust_pinned_range to_block_id run_posted must_restart check_cache_miss at_or_below
read_over_network-IsAnswered_example =
    read_over_network-IsAnswered (λ _. 0) positions true success positions 3 reading_first
      (read_at 1) 1 0 refl refl (omega arith) refl (omega arith)
      (Reachable-IsFed (λ _. 0) positions 15 started_buffer started_buffer-Reachable) refl
      (omega arith) refl (λ i h. omega arith) (omega arith)

abbrev or_new : Option (ResourceDataSource ℕ) → ResourceDataSource ℕ
or_new none = new_source
or_new (some s) = s

-- A session: Initialize, Read, the first bytes from the network, ReadTask.
abbrev initialized_source : ResourceDataSource ℕ
initialized_source = or_new (initialize true new_source)

abbrev asked_source : ResourceDataSource ℕ
asked_source = or_new (read (read_at 1) initialized_source)

abbrev first_write : ResourceDataSource ℕ × ℕ
first_write = elim (writer_write (λ _. 0) success positions 3 asked_source) [
  | none ↦ (new_source, 0)
  | some x ↦ x
]

abbrev answered_source : ResourceDataSource ℕ
answered_source = or_new (read_task true first_write.0)

asked_source-Reachable : Session.Reachable (λ _. 0) positions (read_at 1 ∷ []) asked_source
unfolding initialize start new_source new_multibuffer read
asked_source-Reachable =
    Session.asked [] initialized_source asked_source (read_at 1)
      (Session.after [] new_source initialized_source Session.at_first
        (Session.initialized new_source initialized_source true refl))
      refl

answered_source-Reachable : Session.Reachable (λ _. 0) positions (read_at 1 ∷ []) answered_source
unfolding initialize start new_source new_multibuffer create_fetcher_from read writer_write
    read_task on_write write_loop write_step touch_entry note_length lookup insert contains
    empty_lru purge_if_necessary purge size put modify to_block_id
answered_source-Reachable =
    Session.after (read_at 1 ∷ []) first_write.0 answered_source
      (Session.after (read_at 1 ∷ []) asked_source first_write.0 asked_source-Reachable (
        Session.wrote asked_source first_write success positions 3 0 refl refl (λ i h. omega arith)
          refl))
      (Session.task_run first_write.0 answered_source true refl)

Reachable-IsAnswered_example :
    Session.IsAnswered (λ _. 0) positions (read_at 1 ∷ []) answered_source
Reachable-IsAnswered_example =
    Session.Reachable-IsAnswered (λ _. 0) positions (read_at 1 ∷ []) answered_source
      answered_source-Reachable

Later-stop_example :
    ((stop asked_source).read_op ≡ some (read_at 1))
    × ((stop asked_source).answers ≡ asked_source.answers)
    × (read (read_at 2) (stop asked_source) ≡ none)
    × (destroy_source (stop asked_source) ≡ false)
unfolding initialize start new_source new_multibuffer read read_task stop
Later-stop_example =
    Later-stop (λ _. 0) positions asked_source (stop asked_source) (read_at 1) (read_at 2) refl
      (later_after (stop asked_source) (stop asked_source) at_once
        (Session.task_run (stop asked_source) (stop asked_source) true refl))
