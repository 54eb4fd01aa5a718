-- ===== src/FileDataSource/Tests.antt =====
-- Examples: reads of a file of ten bytes, which are their positions.
use chromium_media_lib.Prelude.{ℕ, ◌≡◌, refl, arith, false, none, some, [], ◌∷◌, ◌>>=◌}
use chromium_media_lib.Prelude.Int.{pos}
use chromium_media_lib.MultiBuffer.{slice}
use chromium_media_lib.ReadOperation.{ReadOperation, run}
use chromium_media_lib.FileDataSource.{FileDataSource, read, read_task, read_task_due}
use chromium_media_lib.FileDataSource.Reads.{read-read_task}

abbrev positions : ℕ → ℕ
positions i = i

abbrev ten_bytes : FileDataSource ℕ
ten_bytes = record {
  mapped_file = some positions;
  total_bytes = pos 10;
  stop_signal_received = false;
  read_op = none;
  tasks = [];
  answers = [];
}

abbrev last_bytes : ReadOperation
last_bytes = record { position = pos 8; size = 4; callback = 0 }

read-read_task_example :
    (read last_bytes ten_bytes >>= read_task)
    ≡ some (record ten_bytes {
      tasks = read_task_due ∷ [];
      answers = run last_bytes (pos 2) (8 ∷ 9 ∷ []) ∷ [];
    })
unfolding slice
read-read_task_example =
    read-read_task ten_bytes last_bytes positions 10 8 refl refl refl refl (omega arith) refl
