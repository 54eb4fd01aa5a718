-- ===== src/ResourceDataSource.antt =====
-- resource_data_source.h and resource_data_source.cc: reads from the network, through the block
-- cache. The tasks that the source posts to the render thread are kept in the state, as are the
-- callbacks that were run. A failed DCHECK is `none`.
mod Tests
pub mod Reads
pub mod Progress
pub mod Answers
pub mod Session
pub mod Stopped
use chromium_media_lib.Prelude.{
  ℕ, Bool, true, false, ◌||◌, not, Option, some, none, List, [], ◌∷◌, ◌++◌, ltb, ◌==◌,
  if◌then◌else◌, ◌>>=◌, is_some,
}
use chromium_media_lib.Prelude.Int.{ℤ, pos, negsuc, pos_part, eqb_ℤ}
use chromium_media_lib.MultiBuffer.{
  MultiBuffer, Response, run_posted, on_write, new_multibuffer, start, seek, fill, get_size,
  err_io_pending,
}
use chromium_media_lib.ReadOperation.{ReadOperation, Answer, run, read_error, to_int}

-- 1 << 15 is 32 kB.
abbrev pub block_size_shift : ℕ
block_size_shift = 15

pub data Task : Type 0 where
  -- ReadTask, at once or after a second.
  read_now read_later : Task
  -- The callback of Initialize, with its argument.
  init_done : Bool → Task

pub record ResourceDataSource (Byte : Type 0) : Type 0 where
  pub stop_signal_received : Bool
  pub total_bytes : ℤ
  -- Whether `init_cb_` is set.
  pub init_cb : Bool
  pub multibuffer : MultiBuffer Byte
  pub read_op : Option ReadOperation
  -- The render thread's queue, oldest first.
  pub tasks : List Task
  -- The read callbacks that were run, the last one first.
  pub answers : List (Answer Byte)

module _ {Byte : Type 0} where
  unfoldable pub new_source : ResourceDataSource Byte
  new_source = record {
    stop_signal_received = false;
    total_bytes = pos 0;
    init_cb = false;
    multibuffer = new_multibuffer block_size_shift;
    read_op = none;
    tasks = [];
    answers = [];
  }

  abbrev pub post : Task → ResourceDataSource Byte → ResourceDataSource Byte
  post t s = record s { tasks = s.tasks ++ t ∷ [] }

  -- `on_io` says whether the caller runs on the io thread.
  unfoldable pub initialize : Bool → ResourceDataSource Byte → Option (ResourceDataSource Byte)
  initialize on_io s =
      start on_io s.multibuffer >>= λ b. some (record s { init_cb = true; multibuffer = b })

  unfoldable pub stop : ResourceDataSource Byte → ResourceDataSource Byte
  stop s = record s { stop_signal_received = true }

  unfoldable pub abort : ResourceDataSource Byte → ResourceDataSource Byte
  abort s = record s { stop_signal_received = true }

  unfoldable pub read : ReadOperation → ResourceDataSource Byte → Option (ResourceDataSource Byte)
  read op s = elim s.read_op [
    | some _ ↦ none
    | none ↦
        if s.stop_signal_received
        then some (record s { answers = run op read_error [] ∷ s.answers })
        else some (post read_now (record s { read_op = some op }))
  ]

  -- Whether the size is known, and the size that is stored.
  unfoldable pub get_source_size : ResourceDataSource Byte → Bool × ℤ × ResourceDataSource Byte
  get_source_size s =
      let n = get_size s.multibuffer in
      let known = not (eqb_ℤ n (negsuc 0)) in
      (known, if known then n else pos 0, record s { total_bytes = n })

  unfoldable pub is_streaming : ResourceDataSource Byte → Bool
  is_streaming s = false

  -- The end of ReadTask, after Seek and Fill.
  unfoldable pub finish_read :
      ReadOperation → ℤ × List Byte → ResourceDataSource Byte → ResourceDataSource Byte
  finish_read op (bytes_read, bytes) s =
      if ltb 0 (pos_part bytes_read)
      then record s { read_op = none; answers = run op bytes_read bytes ∷ s.answers }
      else if eqb_ℤ bytes_read err_io_pending
      then post read_later s
      else record s { read_op = none; answers = run op read_error [] ∷ s.answers }

  unfoldable pub read_task : Bool → ResourceDataSource Byte → Option (ResourceDataSource Byte)
  read_task on_io s = elim s.read_op [
    | none ↦ some s
    | some op ↦
        if s.stop_signal_received
        then some s
        else if op.size == 0
        then none
        else (let position = to_int op.position in
            let b = seek on_io position s.multibuffer in
            some (finish_read op (fill b position op.size) (record s { multibuffer = b })))
  ]

  -- DidInitialize: the callback is posted once, with success.
  unfoldable pub did_initialize : ResourceDataSource Byte → ResourceDataSource Byte
  did_initialize s = if s.init_cb then post (init_done true) (record s { init_cb = false }) else s

  unfoldable pub on_update_state : ResourceDataSource Byte → ResourceDataSource Byte
  on_update_state s = post read_now s

  -- The destructor, with that of a read that is pending: whether no DCHECK fails.
  unfoldable pub destroy_source : ResourceDataSource Byte → Bool
  destroy_source s = not (is_some s.read_op)

  -- The io thread runs the oldest posted call of the cache.
  unfoldable pub fetch : ResourceDataSource Byte → ResourceDataSource Byte
  fetch s = record s { multibuffer = run_posted s.multibuffer }

  -- The writer that the fetcher has: Initialize, Write and Finish.
  unfoldable pub writer_initialize : ResourceDataSource Byte → ResourceDataSource Byte
  unfolding did_initialize
  writer_initialize s = did_initialize s

  -- `fresh` is what a new block holds.
  unfoldable pub writer_write :
      (ℕ → Byte)
      → Response
      → (ℕ → Byte)
      → ℕ
      → ResourceDataSource Byte
      → Option (ResourceDataSource Byte × ℕ)
  writer_write fresh r read_data num_bytes s =
      on_write fresh r read_data num_bytes s.multibuffer >>= λ x.
      some (record s { multibuffer = x.0 }, x.1)

  unfoldable pub writer_finish : ResourceDataSource Byte → ResourceDataSource Byte
  unfolding on_update_state
  writer_finish s = on_update_state s
