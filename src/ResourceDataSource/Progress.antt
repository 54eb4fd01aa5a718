-- ===== src/ResourceDataSource/Progress.antt =====
-- A read over the network: ReadTask, a write of the fetcher, and ReadTask again.
use chromium_media_lib.Prelude.{
  ℕ, ◌+◌, ◌*◌, ◌/◌, ◌^◌, ◌≤◌, ◌<◌, ◌≡◌, refl, inl, inr, ◌∙◌, Bool, true, false, Option, some, none,
  ◌∷◌, arith, Bool-cases, ◌>>=◌,
}
use chromium_media_lib.Prelude.Int.{pos}
use chromium_media_lib.MultiBuffer.Longest.{cached_run, cached_run_le, cached_run-is_cached}
use chromium_media_lib.MultiBuffer.{
  MultiBuffer, Response, run_posted, on_write, slice, write_pos, block_size,
  max_wait_for_reader_offset,
}
use chromium_media_lib.MultiBuffer.Blocks.{is_cached}
use chromium_media_lib.MultiBuffer.Write.{IsFed}
use chromium_media_lib.MultiBuffer.Progress.{at_position, on_write-at_position}
use chromium_media_lib.ReadOperation.{ReadOperation, run}
use chromium_media_lib.ResourceDataSource.{
  ResourceDataSource, read_later, post, read_task, fetch, writer_write,
}
use chromium_media_lib.ResourceDataSource.Reads.{answered, sought, read_task-cached_run}

module _ {Byte : Type 0} (resource : ℕ → Byte) where
  -- From `s` to `u` the read at `p` has ended, with one answer: some of the bytes asked for.
  abbrev pub IsAnswered :
      ℕ → ReadOperation → ResourceDataSource Byte → ResourceDataSource Byte → Type 0
  IsAnswered p op s u =
      (n : ℕ) × (0 < n)
      × (n ≤ op.size)
      × (u.read_op ≡ none)
      × (u.answers ≡ run op (pos n) (slice resource p n) ∷ s.answers)

module _ {Byte : Type 0} (fresh : ℕ → Byte) (resource : ℕ → Byte) (on_io : Bool) (r : Response)
    (read_data : ℕ → Byte) (num_bytes : ℕ) where
  -- ReadTask; the request that it posted, if any, is made; the fetcher writes; ReadTask again.
  abbrev pub read_over_network : ResourceDataSource Byte → Option (ResourceDataSource Byte)
  read_over_network s = do
    t ← read_task on_io s
    x ← writer_write fresh r read_data num_bytes (fetch t)
    read_task on_io x.0

  written : MultiBuffer Byte → ResourceDataSource Byte → ResourceDataSource Byte
  written c s = record s { multibuffer = c }

  read_over_network-writes :
      (s t : ResourceDataSource Byte) (c : MultiBuffer Byte)
      → read_task on_io s ≡ some t
      → on_write fresh r read_data num_bytes (run_posted t.multibuffer) ≡ some (c, num_bytes)
      → read_over_network s ≡ read_task on_io (written c t)
  unfolding written fetch writer_write
  read_over_network-writes s t c e w = rw e (rw w)

  read_task-nothing : (s : ResourceDataSource Byte) → s.read_op ≡ none → read_task on_io s ≡ some s
  unfolding read_task
  read_task-nothing s e = ground arith

  module _ (s : ResourceDataSource Byte) (op : ReadOperation) (p f : ℕ)
      (asked : s.read_op ≡ some op) (running : s.stop_signal_received ≡ false)
      (some_bytes : 0 < op.size) (at : op.position ≡ pos p) (in_int : p < 2 ^ 31)
      (fed : IsFed resource s.multibuffer) (fetching : s.multibuffer.fetcher ≡ some f)
      (small : 2 * block_size s.multibuffer ≤ max_wait_for_reader_offset) (ok : r.code / 100 ≡ 2)
      (arrives : (i : ℕ)
        → i < num_bytes
        → read_data i ≡ resource (write_pos (at_position on_io p s.multibuffer) + i))
      (reaches : p < write_pos (at_position on_io p s.multibuffer) + num_bytes) where
    -- A read of at least one byte at p below 2^31, while not stopped, over a cache that agrees with
    -- the resource and has a fetcher, two blocks being no longer than the wait for the reader:
    -- ReadTask is run, the oldest request that waits is made, a response of success brings the bytes
    -- of the resource from the stream's position to beyond p, and ReadTask is run again. Nothing of
    -- this fails, the read is over, and its callback has been run exactly once in it, with at least
    -- one and at most the wanted number of bytes, those of the resource from p on.
    pub read_over_network-IsAnswered :
        (u : ResourceDataSource Byte) × (read_over_network s ≡ some u)
        × IsAnswered resource p op s u
    unfolding written
    read_over_network-IsAnswered =
        let (c, wrote, good, brought) =
          on_write-at_position fresh resource on_io p f num_bytes r read_data s.multibuffer fed
            fetching small ok arrives reaches in
        let n = cached_run s.multibuffer p op.size in
        let bound = cached_run_le s.multibuffer p op.size in
        let positive = cached_run-is_cached s.multibuffer p op.size some_bytes in
        let ran =
          read_task-cached_run resource on_io s op p asked running some_bytes fed.sound.keyed
            fed.holds at in_int in
        elim (Bool-cases (is_cached s.multibuffer p)) [
          | inl cached ↦
              let t = answered op n (slice resource p n) (sought on_io p s) in
              let first : read_task on_io s ≡ some t = ran ∙ rw (positive, cached) refl in
              (
                written c t,
                read_over_network-writes s t c first wrote ∙ read_task-nothing (written c t) refl,
                (n, ground arith, bound, refl, refl),
              )
          | inr missing ↦
              let t = post read_later (sought on_io p s) in
              let first : read_task on_io s ≡ some t = ran ∙ rw (positive, missing) refl in
              let there : is_cached c p ≡ true = elim brought [ inl old ↦ cc | inr new ↦ new ] in
              let m = cached_run c p op.size in
              let bound' = cached_run_le c p op.size in
              let positive' = cached_run-is_cached c p op.size some_bytes in
              let again =
                read_task-cached_run resource on_io (written c t) op p asked running some_bytes
                  good.sound.keyed good.holds at in_int in
              (
                answered op m (slice resource p m) (sought on_io p (written c t)),
                read_over_network-writes s t c first wrote ∙ again ∙ rw (positive', there) refl,
                (m, ground arith, bound', refl, refl),
              )
        ]
