-- ===== src/FileDataSource/Reads.antt =====
-- FileDataSource: what a read of a file is answered with.
use chromium_media_lib.Prelude.{
  ℕ, ◌-◌, ◌<◌, ◌≡◌, min, inl, inr, false, some, none, [], ◌∷◌, ◌++◌, arith, ltb, ◌>>=◌,
  if◌then◌else◌, Option-cases,
}
use chromium_media_lib.Prelude.Int.{pos}
use chromium_media_lib.MultiBuffer.{slice}
use chromium_media_lib.ReadOperation.{ReadOperation, run, read_error}
use chromium_media_lib.FileDataSource.{
  FileDataSource, initialize, read, read_task, read_mapped, stop, abort, answer, post,
  read_task_due,
}

module _ {Byte : Type 0} where
  -- A source that has mapped a file of `total` bytes and is not stopped, asked for a read of at
  -- least one byte while no other is under way: the read and its task answer the callback once, and
  -- leave no read under way. The answer is the bytes of the file from the position on, as many as
  -- were asked for or as are left, and the read error at or past the end of the file.
  pub read-read_task :
      (s : FileDataSource Byte) (op : ReadOperation) (bytes : ℕ → Byte) (total position : ℕ)
      → s.mapped_file ≡ some bytes
      → s.total_bytes ≡ pos total
      → s.stop_signal_received ≡ false
      → s.read_op ≡ none
      → 0 < op.size
      → op.position ≡ pos position
      → (read op s >>= read_task)
        ≡ some (record s {
          tasks = s.tasks ++ read_task_due ∷ [];
          read_op = none;
          answers =
              (if ltb position total
                then run op
                    (pos (min (total - position) op.size))
                    (slice bytes position (min (total - position) op.size))
                else run op read_error [])
              ∷ s.answers;
        })
  unfolding read read_task read_mapped
  read-read_task s op bytes total position mapped size running idle h at = ground arith

  -- A source whose file could not be mapped, not stopped, answers a read of at least one byte, asked
  -- for while no other is under way, with the read error.
  initialize-read_task :
      (s : FileDataSource Byte) (op : ReadOperation)
      → s.mapped_file ≡ none
      → s.stop_signal_received ≡ false
      → s.read_op ≡ none
      → 0 < op.size
      → (read op (initialize none s) >>= read_task)
        ≡ some (answer op read_error [] (post read_task_due (initialize none s)))
  unfolding read read_task initialize
  initialize-read_task s op unmapped running idle h = ground arith

  -- After Stop or Abort a read under way is never answered: its task changes nothing.
  pub read_task-abort :
      (s : FileDataSource Byte)
      → (read_task (stop s) ≡ some (stop s)) × (read_task (abort s) ≡ some (abort s))
  unfolding read_task stop abort
  read_task-abort s = elim (Option-cases s.read_op) [
    | inl n ↦ ground arith
    | inr (op, h) ↦ ground arith
  ]
