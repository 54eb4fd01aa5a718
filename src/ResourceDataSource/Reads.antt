-- ===== src/ResourceDataSource/Reads.antt =====
-- ResourceDataSource::ReadTask over the block cache: what a read is answered with, and when.
use chromium_media_lib.Prelude.{
  zero, suc, ℕ, ◌+◌, ◌^◌, ◌<◌, ◌≡◌, refl, ap, inl, inr, ◌∙◌, Bool, true, false, some, none, List,
  ◌∷◌, arith, ltb, if◌then◌else◌, Option-cases,
}
use chromium_media_lib.Prelude.Int.{pos}
use chromium_media_lib.Prelude.Maps.{From}
use chromium_media_lib.MultiBuffer.{MultiBuffer, seek, fill, slice, err_io_pending}
use chromium_media_lib.MultiBuffer.Blocks.{Holds, is_cached}
use chromium_media_lib.MultiBuffer.Longest.{cached_run, fill-cached_run}
use chromium_media_lib.MultiBuffer.Seek.{seek-keeps}
use chromium_media_lib.ReadOperation.{ReadOperation, run, to_int, to_int-pos, to_int-wraps}
use chromium_media_lib.ResourceDataSource.{
  ResourceDataSource, read_later, post, read_task, finish_read, stop, abort,
}

module _ {Byte : Type 0} where
  -- The state after a read that was answered with `bytes`, or is to be tried again.
  abbrev pub answered :
      ReadOperation → ℕ → List Byte → ResourceDataSource Byte → ResourceDataSource Byte
  answered op n bytes s = record s { read_op = none; answers = run op (pos n) bytes ∷ s.answers }

  read_task_steps :
      (on_io : Bool) (s : ResourceDataSource Byte) (op : ReadOperation) (n : ℕ)
      → s.read_op ≡ some op
      → s.stop_signal_received ≡ false
      → 0 < op.size
      → to_int op.position ≡ pos n
      → read_task on_io s
        ≡ some (
            finish_read op
              (fill (seek on_io (pos n) s.multibuffer) (pos n) op.size)
              (record s { multibuffer = seek on_io (pos n) s.multibuffer }))
  unfolding read_task
  read_task_steps on_io s op n e go h at = ground arith

  read_task_idle :
      (on_io : Bool) (s : ResourceDataSource Byte)
      → s.stop_signal_received ≡ true
      → read_task on_io s ≡ some s
  unfolding read_task
  read_task_idle on_io s e = elim (Option-cases s.read_op) [
    | inl n ↦ ground arith
    | inr (op, h) ↦ ground arith
  ]

  -- Once Stop or Abort has run, ReadTask does nothing: no callback is run and nothing is posted.
  read_task-stop :
      (on_io : Bool) (s : ResourceDataSource Byte)
      → (read_task on_io (stop s) ≡ some (stop s)) × (read_task on_io (abort s) ≡ some (abort s))
  unfolding stop abort
  read_task-stop on_io s = (
    read_task_idle on_io (record s { stop_signal_received = true }) refl,
    read_task_idle on_io (record s { stop_signal_received = true }) refl,
  )

  -- The state after Seek.
  abbrev pub sought : Bool → ℕ → ResourceDataSource Byte → ResourceDataSource Byte
  sought on_io p s = record s { multibuffer = seek on_io (pos p) s.multibuffer }

  -- What ReadTask does for a read that is taken to be at `p`: the answer with what is cached from `p`
  -- on without a break, and another try later if that is nothing.
  abbrev pub Served : (ℕ → Byte) → Bool → ℕ → ReadOperation → ResourceDataSource Byte → Type 0
  Served resource on_io p op s =
      let n = cached_run s.multibuffer p op.size in
      read_task on_io s
      ≡ some (
          if ltb 0 n
          then answered op n (slice resource p n) (sought on_io p s)
          else post read_later (sought on_io p s))

  pub finish_read-answered :
      (op : ReadOperation) (n : ℕ) (c : Bool) (bytes : List Byte) (s : ResourceDataSource Byte)
      → ltb 0 n ≡ c
      → finish_read op (if c then pos n else err_io_pending, bytes) s
        ≡ (if c then answered op n bytes s else post read_later s)
  unfolding finish_read
  finish_read-answered op n true bytes s e = ground arith
  finish_read-answered op n false bytes s e = ground arith

  cached_run-seek :
      (on_io : Bool) (b : MultiBuffer Byte) (p q size : ℕ)
      → cached_run (seek on_io (pos p) b) q size ≡ cached_run b q size
  unfolding cached_run is_cached
  cached_run-seek on_io b p q zero = refl
  cached_run-seek on_io b p q (suc size) =
      let (cache, _, shift, _, _) = seek-keeps on_io b p in
      rw (cache, shift, cached_run-seek on_io b p (suc q) size) refl

  From-seek :
      (on_io : Bool) (b : MultiBuffer Byte) (p : ℕ)
      → From 0 b.cache
      → From 0 (seek on_io (pos p) b).cache
  From-seek on_io b p keyed = let (cache, _, _, _, _) = seek-keeps on_io b p in rw cache keyed

  Holds-seek :
      (resource : ℕ → Byte) (on_io : Bool) (b : MultiBuffer Byte) (p : ℕ)
      → Holds resource b
      → Holds resource (seek on_io (pos p) b)
  Holds-seek resource on_io b p h =
      let (cache, _, shift, _, _) = seek-keeps on_io b p in rw (cache, shift) h

  module _ (resource : ℕ → Byte) (on_io : Bool) (s : ResourceDataSource Byte) (op : ReadOperation)
      (p : ℕ) (asked : s.read_op ≡ some op) (running : s.stop_signal_received ≡ false)
      (some_bytes : 0 < op.size) (keyed : From 0 s.multibuffer.cache)
      (holds : Holds resource s.multibuffer) where
    read_task-Served : to_int op.position ≡ pos p → Served resource on_io p op s
    read_task-Served at =
        let c = seek on_io (pos p) s.multibuffer in
        let filled =
          fill-cached_run resource c p op.size (From-seek on_io s.multibuffer p keyed)
            (Holds-seek resource on_io s.multibuffer p holds) in
        let n = cached_run c p op.size in
        rw (← cached_run-seek on_io s.multibuffer p p op.size) (
          read_task_steps on_io s op p asked running some_bytes at
          ∙ ap (λ r. some (finish_read op r (sought on_io p s))) filled
          ∙ ap some (finish_read-answered op n (ltb 0 n) _ (sought on_io p s) refl))

    -- ReadTask, while not stopped and with a read of at least one byte, below 2^31, over a cache
    -- whose bytes are the resource's: it seeks to the position and runs the callback with the number
    -- of bytes that are cached from there on without a break, up to the size asked for, and these
    -- bytes of the resource; if there are none it tries again later. It does not fail.
    pub read_task-cached_run : op.position ≡ pos p → p < 2 ^ 31 → Served resource on_io p op s
    read_task-cached_run at small = read_task-Served (ap to_int at ∙ to_int-pos p small)

    -- ReadTask, while not stopped and with a read of at least one byte at p + 2^32, p below 2^31,
    -- over a cache whose bytes are the resource's: the read is served as one at p, that is, answered
    -- with the bytes of the resource that are cached from p on, if there are any.
    pub read_task-wraps : op.position ≡ pos (p + 2 ^ 32) → p < 2 ^ 31 → Served resource on_io p op s
    read_task-wraps at small = read_task-Served (ap to_int at ∙ to_int-wraps p small)
