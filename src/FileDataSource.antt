-- ===== src/FileDataSource.antt =====
-- file_data_source.h and file_data_source.cc: reads from a mapped file. The tasks that the source
-- posts to the render thread are kept in the state, as are the callbacks that were run. A failed
-- DCHECK, or a copy from before the start of the mapping, is `none`.
pub mod Reads
mod Tests
use chromium_media_lib.Prelude.{
  ℕ, ◌+◌, ◌-◌, min, Bool, true, false, ◌||◌, not, Option, some, none, List, [], ◌∷◌, ◌++◌, ltb,
  ◌==◌, if◌then◌else◌, is_some,
}
use chromium_media_lib.Prelude.Int.{ℤ, pos, negsuc, eqb_ℤ}
use chromium_media_lib.MultiBuffer.{slice}
use chromium_media_lib.ReadOperation.{ReadOperation, Answer, run, read_error}

pub data Task : Type 0 where
  read_task_due : Task
  -- The callback of Initialize, with its argument.
  init_done : Bool → Task

-- `mapped_file_` once it is valid: its bytes.
pub record FileDataSource (Byte : Type 0) : Type 0 where
  pub mapped_file : Option (ℕ → Byte)
  pub total_bytes : ℤ
  pub stop_signal_received : Bool
  pub read_op : Option ReadOperation
  pub tasks : List Task
  pub answers : List (Answer Byte)

module _ {Byte : Type 0} where
  unfoldable pub new_source : FileDataSource Byte
  new_source = record {
    mapped_file = none;
    total_bytes = negsuc 0;
    stop_signal_received = false;
    read_op = none;
    tasks = [];
    answers = [];
  }

  abbrev pub post : Task → FileDataSource Byte → FileDataSource Byte
  post t s = record s { tasks = s.tasks ++ t ∷ [] }

  -- `opened` is what mapping the file gives: its bytes and their number.
  unfoldable pub initialize : Option ((ℕ → Byte) × ℕ) → FileDataSource Byte → FileDataSource Byte
  initialize none s = post (init_done false) s
  initialize (some (bytes, n)) s =
      post (init_done true) (record s { mapped_file = some bytes; total_bytes = pos n })

  unfoldable pub stop : FileDataSource Byte → FileDataSource Byte
  stop s = record s { stop_signal_received = true }

  unfoldable pub abort : FileDataSource Byte → FileDataSource Byte
  abort s = record s { stop_signal_received = true }

  unfoldable pub read : ReadOperation → FileDataSource Byte → Option (FileDataSource Byte)
  read op s = elim s.read_op [
    | some _ ↦ none
    | none ↦
        if s.stop_signal_received
        then some (record s { answers = run op read_error [] ∷ s.answers })
        else some (post read_task_due (record s { read_op = some op }))
  ]

  unfoldable pub get_source_size : FileDataSource Byte → Bool × ℤ
  get_source_size s =
      if not (eqb_ℤ s.total_bytes (negsuc 0)) then (true, s.total_bytes) else (false, pos 0)

  unfoldable pub is_streaming : FileDataSource Byte → Bool
  is_streaming s = false

  -- ReadOperation::Run on the current operation, which is released first.
  abbrev pub answer : ReadOperation → ℤ → List Byte → FileDataSource Byte → FileDataSource Byte
  answer op result bytes s = record s { read_op = none; answers = run op result bytes ∷ s.answers }

  -- The part of ReadTask that reads a valid mapping of `total` bytes.
  unfoldable pub read_mapped :
      ReadOperation → (ℕ → Byte) → ℤ → ℤ → FileDataSource Byte → Option (FileDataSource Byte)
  read_mapped op bytes (pos total) (pos position) s =
      let n = min (total - position) op.size in
      if ltb position total
      then some (answer op (pos n) (slice bytes position n) s)
      else some (answer op read_error [] s)
  -- A file of -1 bytes is not mapped, and a copy from a negative position is out of the mapping.
  read_mapped op bytes (pos total) (negsuc position) s = none
  read_mapped op bytes (negsuc total) position s = none

  unfoldable pub read_task : FileDataSource Byte → Option (FileDataSource Byte)
  read_task s = elim s.read_op [
    | none ↦ some s
    | some op ↦
        if s.stop_signal_received
        then some s
        else if op.size == 0
        then none
        else elim s.mapped_file [
          | none ↦ some (answer op read_error [] s)
          | some bytes ↦ read_mapped op bytes s.total_bytes op.position s
        ]
  ]
