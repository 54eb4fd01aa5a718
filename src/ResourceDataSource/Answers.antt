-- ===== src/ResourceDataSource/Answers.antt =====
-- ResourceDataSource::ReadTask over a cache in any state that it comes to: what fits a read, and what
-- one run of the task does to it.
use chromium_media_lib.Prelude.{
  some-injective, subst, sym, ap, ℕ, ◌≤◌, ◌<◌, ◌≡◌, refl, ◌⊎◌, inl, inr, ◌∙◌, Bool, true, false,
  Option, some, none, List, [], ◌∷◌, arith, ltb, ◌==◌, if◌then◌else◌, Bool-cases, Option-cases,
}
use chromium_media_lib.Prelude.Int.{ℤ, pos, negsuc}
use chromium_media_lib.MultiBuffer.{seek, fill, slice}
use chromium_media_lib.MultiBuffer.Longest.{cached_run, cached_run_le}
use chromium_media_lib.MultiBuffer.Run.{
  Reachable as CacheReachable, after as cache_step, sought as cache_sought, Reachable-fill,
}
use chromium_media_lib.ReadOperation.{ReadOperation, Answer, run, read_error, to_int}
use chromium_media_lib.ResourceDataSource.{
  ResourceDataSource, block_size_shift, post, read_later, finish_read, read_task,
}
use chromium_media_lib.ResourceDataSource.Reads.{answered, finish_read-answered}

module _ {Byte : Type 0} (resource : ℕ → Byte) where
  -- An answer that fits a read: an error, only if `stopped`, or some bytes of the resource from the
  -- read's position on, as an `int`, at most as many as were asked for.
  abbrev pub Right : Bool → ReadOperation → Answer Byte → Type 0
  Right stopped op a =
      (a.callback ≡ op.callback)
      × ((stopped ≡ true) × (a.result ≡ read_error) × (a.bytes ≡ [])
          ⊎ (p : ℕ) × (n : ℕ) × (to_int op.position ≡ pos p)
            × (0 < n)
            × (n ≤ op.size)
            × (a.result ≡ pos n)
            × (a.bytes ≡ slice resource p n))

  -- One answer for each read, in the same order.
  abbrev pub Matches : Bool → List ReadOperation → List (Answer Byte) → Type 0
  Matches stopped [] [] = Unit
  Matches stopped [] (a ∷ answers) = ⊥
  Matches stopped (op ∷ ops) [] = ⊥
  Matches stopped (op ∷ ops) (a ∷ answers) = Right stopped op a × Matches stopped ops answers

  Right-stopped : (b : Bool) (op : ReadOperation) (a : Answer Byte) → Right b op a → Right true op a
  Right-stopped b op a (same, inl (on, error, empty)) = (same, inl (refl, error, empty))
  Right-stopped b op a (same, inr bytes) = (same, inr bytes)

  pub Matches-stopped :
      (b : Bool) (ops : List ReadOperation) (answers : List (Answer Byte))
      → Matches b ops answers
      → Matches true ops answers
  Matches-stopped b [] [] m = tt
  Matches-stopped b [] (a ∷ answers) m = elim m [ ]
  Matches-stopped b (op ∷ ops) [] m = elim m [ ]
  Matches-stopped b (op ∷ ops) (a ∷ answers) m =
      (Right-stopped b op a m.0, Matches-stopped b ops answers m.1)

  abbrev pub with_pending : Option ReadOperation → List ReadOperation → List ReadOperation
  with_pending none ops = ops
  with_pending (some op) ops = op ∷ ops

module _ {Byte : Type 0} (fresh : ℕ → Byte) (resource : ℕ → Byte) where
  -- What ReadTask does: it changes neither the pending read nor the answers, or it answers the read.
  abbrev pub TaskRun : ResourceDataSource Byte → ResourceDataSource Byte → Type 0
  TaskRun s t =
      CacheReachable fresh resource block_size_shift t.multibuffer
      × (t.stop_signal_received ≡ s.stop_signal_received)
      × ((t.read_op ≡ s.read_op) × (t.answers ≡ s.answers)
          ⊎ (op : ReadOperation) × (a : Answer Byte) × (s.read_op ≡ some op)
            × (t.read_op ≡ none)
            × (t.answers ≡ a ∷ s.answers)
            × Right resource s.stop_signal_received op a)

  finish_read-negative :
      (op : ReadOperation) (n : ℕ) (s : ResourceDataSource Byte)
      → finish_read op (fill s.multibuffer (negsuc n) op.size) s ≡ post read_later s
  unfolding fill finish_read
  finish_read-negative op n s = refl

  -- ReadTask of a pending read, at a position that is an `int`.
  filled-TaskRun :
      (s : ResourceDataSource Byte) (op : ReadOperation) (position : ℤ)
      → s.read_op ≡ some op
      → to_int op.position ≡ position
      → CacheReachable fresh resource block_size_shift s.multibuffer
      → TaskRun s (finish_read op (fill s.multibuffer position op.size) s)
  unfolding run
  filled-TaskRun s op (negsuc n) pending at cache =
      subst (TaskRun s) (sym (finish_read-negative op n s)) (cache, refl, inl (refl, refl))
  filled-TaskRun s op (pos p) pending at cache =
      let n = cached_run s.multibuffer p op.size in
      let gives : finish_read op (fill s.multibuffer (pos p) op.size) s
          ≡ (if ltb 0 n then answered op n (slice resource p n) s else post read_later s) =
        ap (λ r. finish_read op r s)
          (Reachable-fill fresh resource block_size_shift s.multibuffer p op.size cache)
        ∙ finish_read-answered op n (ltb 0 n) (slice resource p n) s refl in
      subst (TaskRun s) (sym gives) (elim (Bool-cases (ltb 0 n)) [
        | inl some_bytes ↦ rw some_bytes (
          cache,
          refl,
          inr (
            op,
            run op (pos n) (slice resource p n),
            pending,
            refl,
            refl,
            (refl, inr (p, n, at, ground arith, cached_run_le s.multibuffer p op.size, refl, refl)),
          ),
        )
        | inr nothing ↦ rw nothing (cache, refl, inl (refl, refl))
      ])

  -- ReadTask of a pending read seeks first.
  read_task_pending :
      (s : ResourceDataSource Byte) (op : ReadOperation) (on_io : Bool)
      → s.read_op ≡ some op
      → s.stop_signal_received ≡ false
      → (op.size == 0) ≡ false
      → let b = seek on_io (to_int op.position) s.multibuffer in
        read_task on_io s
        ≡ some (finish_read op (fill b (to_int op.position) op.size) (record s { multibuffer = b }))
  unfolding read_task
  read_task_pending s op on_io pending running some_bytes = ground arith

  pub read_task-TaskRun :
      (s t : ResourceDataSource Byte) (on_io : Bool)
      → CacheReachable fresh resource block_size_shift s.multibuffer
      → read_task on_io s ≡ some t
      → TaskRun s t
  unfolding read_task
  read_task-TaskRun s t on_io cache e = elim (Option-cases s.read_op) [
    | inl nothing ↦
        let same : s ≡ t = ground arith in subst (TaskRun s) same (cache, refl, inl (refl, refl))
    | inr (op, pending) ↦ elim (Bool-cases s.stop_signal_received) [
      | inl stopped ↦
          let same : s ≡ t = ground arith in subst (TaskRun s) same (cache, refl, inl (refl, refl))
      | inr running ↦ elim (Bool-cases (op.size == 0)) [
        | inl empty ↦ absurd (ground arith)
        | inr some_bytes ↦
            let position = to_int op.position in
            let b = seek on_io position s.multibuffer in
            let same =
              some-injective _ _
                (sym (read_task_pending s op on_io pending running some_bytes) ∙ e) in
            subst (TaskRun s) same (
              filled-TaskRun (record s { multibuffer = b }) op position pending refl
                (cache_step s.multibuffer b cache (cache_sought s.multibuffer on_io position)))
      ]
    ]
  ]
