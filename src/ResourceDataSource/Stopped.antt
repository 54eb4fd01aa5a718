-- ===== src/ResourceDataSource/Stopped.antt =====
-- A read that is pending when the source is stopped.
use chromium_media_lib.Prelude.{
  ℕ, ◌≡◌, refl, inl, inr, true, false, some, none, List, arith, Option-cases,
}
use chromium_media_lib.MultiBuffer.{on_write, start}
use chromium_media_lib.ReadOperation.{ReadOperation, Answer}
use chromium_media_lib.ResourceDataSource.{
  ResourceDataSource, initialize, stop, abort, read, get_source_size, read_task, did_initialize,
  on_update_state, fetch, writer_initialize, writer_write, writer_finish, destroy_source,
}
use chromium_media_lib.ResourceDataSource.Session.{
  Step, initialized, was_stopped, was_aborted, size_asked, task_taken, task_run, fetched,
  response_began, wrote, response_ended,
}

module _ {Byte : Type 0} (fresh : ℕ → Byte) (resource : ℕ → Byte) where
  -- The states that a source comes to, reads included.
  pub data Later (s : ResourceDataSource Byte) : ResourceDataSource Byte → Type 0 where
    at_once : Later s s
    after : (t u : ResourceDataSource Byte) → Later s t → Step fresh resource t u → Later s u
    asked :
        (t u : ResourceDataSource Byte) (op : ReadOperation)
        → Later s t
        → read op t ≡ some u
        → Later s u

  -- Stopped, with a pending read and these answers.
  abbrev pub IsStuck : ReadOperation → List (Answer Byte) → ResourceDataSource Byte → Type 0
  IsStuck op answers s =
      (s.stop_signal_received ≡ true) × (s.read_op ≡ some op) × (s.answers ≡ answers)

  step-IsStuck :
      (op : ReadOperation) (answers : List (Answer Byte)) (s t : ResourceDataSource Byte)
      → Step fresh resource s t
      → IsStuck op answers s
      → IsStuck op answers t
  unfolding initialize stop abort get_source_size read_task fetch writer_initialize did_initialize
      writer_write writer_finish on_update_state
  step-IsStuck op answers _ _ (initialized s t on_io e) h =
      elim (Option-cases (start on_io s.multibuffer)) [
        | inl nothing ↦ absurd (ground arith)
        | inr (b, run) ↦ ground arith
      ]
  step-IsStuck op answers _ _ (was_stopped s) h = (refl, h.1, h.2)
  step-IsStuck op answers _ _ (was_aborted s) h = (refl, h.1, h.2)
  step-IsStuck op answers _ _ (size_asked s) h = h
  step-IsStuck op answers _ _ (task_taken s tasks) h = h
  step-IsStuck op answers _ _ (task_run s t on_io e) h = ground arith
  step-IsStuck op answers _ _ (fetched s) h = h
  step-IsStuck op answers _ _ (response_began s) h = ground arith
  step-IsStuck op answers _ _ (wrote s x r read_data num_bytes f fetching ok arrives e) h =
      elim (Option-cases (on_write fresh r read_data num_bytes s.multibuffer)) [
        | inl nothing ↦ absurd (ground arith)
        | inr (y, run) ↦ ground arith
      ]
  step-IsStuck op answers _ _ (response_ended s) h = h

  Later-IsStuck :
      (op : ReadOperation) (answers : List (Answer Byte)) (s t : ResourceDataSource Byte)
      → Later s t
      → IsStuck op answers s
      → IsStuck op answers t
  unfolding read
  Later-IsStuck op answers s _ at_once h = h
  Later-IsStuck op answers s _ (after t u l step) h =
      step-IsStuck op answers t u step (Later-IsStuck op answers s t l h)
  Later-IsStuck op answers s _ (asked t u other l e) h =
      let stuck = Later-IsStuck op answers s t l h in absurd (ground arith)

  -- A read that is pending when Stop is called stays pending for ever: whatever happens afterwards,
  -- with responses of success that bring the bytes of the resource, no callback is run, a further read fails a DCHECK, and so does the destruction of the
  -- source.
  pub Later-stop :
      (s t : ResourceDataSource Byte) (op other : ReadOperation)
      → s.read_op ≡ some op
      → Later (stop s) t
      → (t.read_op ≡ some op)
        × (t.answers ≡ s.answers)
        × (read other t ≡ none)
        × (destroy_source t ≡ false)
  unfolding stop read destroy_source
  Later-stop s t op other pending l =
      let (stopped, still, same) = Later-IsStuck op s.answers (stop s) t l (refl, pending, refl) in
      (still, same, ground arith, ground arith)
