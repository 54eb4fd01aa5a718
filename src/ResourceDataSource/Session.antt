-- ===== src/ResourceDataSource/Session.antt =====
-- A source in every order of calls, tasks and writes of the network: what its reads are answered.
use chromium_media_lib.Prelude.{
  subst, sym, ap, ℕ, ◌+◌, ◌/◌, ◌<◌, ◌≡◌, refl, inl, inr, Bool, true, some, List, [], ◌∷◌, arith,
  Bool-cases, Option-cases,
}
use chromium_media_lib.MultiBuffer.{MultiBuffer, Response, run_posted, on_write, start, write_pos}
use chromium_media_lib.MultiBuffer.Run.{
  Reachable as CacheReachable, at_first as new_cache, after as cache_step, started as cache_started,
  fetched as cache_fetched, wrote as cache_wrote,
}
use chromium_media_lib.ReadOperation.{ReadOperation, run, read_error}
use chromium_media_lib.ResourceDataSource.{
  ResourceDataSource, Task, block_size_shift, post, read_now, new_source, initialize, stop, abort,
  read, get_source_size, read_task, did_initialize, on_update_state, fetch, writer_initialize,
  writer_write, writer_finish,
}
use chromium_media_lib.ResourceDataSource.Answers.{
  Matches, Matches-stopped, with_pending, read_task-TaskRun,
}

module _ {Byte : Type 0} (fresh : ℕ → Byte) (resource : ℕ → Byte) where
  -- What may happen to a source but a read. A task may run at any time; a response is of success and
  -- brings the bytes of the resource at the position where the stream is.
  pub data Step : ResourceDataSource Byte → ResourceDataSource Byte → Type 0 where
    initialized :
        (s t : ResourceDataSource Byte) (on_io : Bool) → initialize on_io s ≡ some t → Step s t
    was_stopped : (s : ResourceDataSource Byte) → Step s (stop s)
    was_aborted : (s : ResourceDataSource Byte) → Step s (abort s)
    size_asked : (s : ResourceDataSource Byte) → Step s (get_source_size s).2
    task_taken :
        (s : ResourceDataSource Byte) (tasks : List Task) → Step s (record s { tasks = tasks })
    task_run :
        (s t : ResourceDataSource Byte) (on_io : Bool) → read_task on_io s ≡ some t → Step s t
    fetched : (s : ResourceDataSource Byte) → Step s (fetch s)
    response_began : (s : ResourceDataSource Byte) → Step s (writer_initialize s)
    wrote :
        (s : ResourceDataSource Byte) (x : ResourceDataSource Byte × ℕ) (r : Response)
        (read_data : ℕ → Byte) (num_bytes f : ℕ)
        → s.multibuffer.fetcher ≡ some f
        → r.code / 100 ≡ 2
        → ((i : ℕ) → i < num_bytes → read_data i ≡ resource (write_pos s.multibuffer + i))
        → writer_write fresh r read_data num_bytes s ≡ some x
        → Step s x.0
    response_ended : (s : ResourceDataSource Byte) → Step s (writer_finish s)

  -- The states that a new source comes to, with the reads so far, the last one first.
  pub data Reachable : List ReadOperation → ResourceDataSource Byte → Type 0 where
    at_first : Reachable [] new_source
    asked :
        (ops : List ReadOperation) (s t : ResourceDataSource Byte) (op : ReadOperation)
        → Reachable ops s
        → read op s ≡ some t
        → Reachable (op ∷ ops) t
    after :
        (ops : List ReadOperation) (s t : ResourceDataSource Byte)
        → Reachable ops s
        → Step s t
        → Reachable ops t

  -- The reads but the pending one are answered, in their order, and each answer fits its read.
  pub record IsAnswered (ops : List ReadOperation) (s : ResourceDataSource Byte) : Type 0 where
    pub cache : CacheReachable fresh resource block_size_shift s.multibuffer
    pub ended : List ReadOperation
    pub reads : ops ≡ with_pending resource s.read_op ended
    pub right : Matches resource s.stop_signal_received ended s.answers

  task_run-IsAnswered :
      (ops : List ReadOperation) (s t : ResourceDataSource Byte) (on_io : Bool)
      → IsAnswered ops s
      → read_task on_io s ≡ some t
      → IsAnswered ops t
  task_run-IsAnswered ops s t on_io good e =
      let (cache, same, run) = read_task-TaskRun fresh resource s t on_io good.cache e in
      elim run [
        | inl (pending, answers) ↦ record {
          cache = cache;
          ended = good.ended;
          reads = rw pending good.reads;
          right = rw (same, answers) good.right;
        }
        | inr (op, a, pending, none_left, answers, fits) ↦ record {
          cache = cache;
          ended = op ∷ good.ended;
          reads =
              rw none_left
                (subst (λ o. ops ≡ with_pending resource o good.ended) pending good.reads);
          right = rw (same, answers) (fits, good.right);
        }
      ]

  -- Steps that change at most the cache, and it as it may change.
  cache-IsAnswered :
      (ops : List ReadOperation) (s : ResourceDataSource Byte) (b : MultiBuffer Byte)
      → IsAnswered ops s
      → CacheReachable fresh resource block_size_shift b
      → IsAnswered ops (record s { multibuffer = b })
  cache-IsAnswered ops s b good cache = record {
    cache = cache;
    ended = good.ended;
    reads = good.reads;
    right = good.right;
  }

  stopped-IsAnswered :
      (ops : List ReadOperation) (s : ResourceDataSource Byte)
      → IsAnswered ops s
      → IsAnswered ops (record s { stop_signal_received = true })
  stopped-IsAnswered ops s good = record {
    cache = good.cache;
    ended = good.ended;
    reads = good.reads;
    right = Matches-stopped resource s.stop_signal_received good.ended s.answers good.right;
  }

  initialized-IsAnswered :
      (ops : List ReadOperation) (s t : ResourceDataSource Byte) (on_io : Bool)
      → IsAnswered ops s
      → initialize on_io s ≡ some t
      → IsAnswered ops t
  unfolding initialize
  initialized-IsAnswered ops s t on_io good e = elim (Option-cases (start on_io s.multibuffer)) [
    | inl nothing ↦ absurd (ground arith)
    | inr (b, run) ↦
        let same : record s { init_cb = true; multibuffer = b } ≡ t = ground arith in
        let cache =
          cache_step s.multibuffer b good.cache (cache_started s.multibuffer b on_io run) in
        subst (IsAnswered ops) same
          (record { cache = cache; ended = good.ended; reads = good.reads; right = good.right })
  ]

  began-IsAnswered :
      (ops : List ReadOperation) (s : ResourceDataSource Byte)
      → IsAnswered ops s
      → IsAnswered ops (writer_initialize s)
  unfolding writer_initialize did_initialize
  began-IsAnswered ops s good =
      let t = writer_initialize s in
      let buffer : t.multibuffer ≡ s.multibuffer = ground arith in
      let pending : t.read_op ≡ s.read_op = ground arith in
      let stopped : t.stop_signal_received ≡ s.stop_signal_received = ground arith in
      let answers : t.answers ≡ s.answers = ground arith in
      record {
        cache = subst (CacheReachable fresh resource block_size_shift) (sym buffer) good.cache;
        ended = good.ended;
        reads = subst (λ o. ops ≡ with_pending resource o good.ended) (sym pending) good.reads;
        right =
            subst (λ b. Matches resource b good.ended t.answers) (sym stopped)
              (subst (Matches resource s.stop_signal_received good.ended) (sym answers) good.right);
      }

  wrote-IsAnswered :
      (ops : List ReadOperation) (s : ResourceDataSource Byte) (x : ResourceDataSource Byte × ℕ)
      (r : Response) (read_data : ℕ → Byte) (num_bytes f : ℕ)
      → s.multibuffer.fetcher ≡ some f
      → r.code / 100 ≡ 2
      → ((i : ℕ) → i < num_bytes → read_data i ≡ resource (write_pos s.multibuffer + i))
      → writer_write fresh r read_data num_bytes s ≡ some x
      → IsAnswered ops s
      → IsAnswered ops x.0
  unfolding writer_write
  wrote-IsAnswered ops s x r read_data num_bytes f fetching ok arrives e good =
      elim (Option-cases (on_write fresh r read_data num_bytes s.multibuffer)) [
        | inl nothing ↦ absurd (ground arith)
        | inr (y, run) ↦
            let same : record s { multibuffer = y.0 } ≡ x.0 = ground arith in
            subst (IsAnswered ops) same (
              cache-IsAnswered ops s y.0 good (
                cache_step s.multibuffer y.0 good.cache (
                  cache_wrote s.multibuffer y.0 r read_data num_bytes f y.1 fetching ok arrives
                    run)))
      ]

  step-IsAnswered :
      (ops : List ReadOperation) (s t : ResourceDataSource Byte)
      → Step s t
      → IsAnswered ops s
      → IsAnswered ops t
  unfolding initialize stop abort get_source_size fetch writer_initialize did_initialize
      writer_write writer_finish on_update_state
  step-IsAnswered ops _ _ (initialized s t on_io e) good =
      initialized-IsAnswered ops s t on_io good e
  step-IsAnswered ops _ _ (was_stopped s) good = stopped-IsAnswered ops s good
  step-IsAnswered ops _ _ (was_aborted s) good = stopped-IsAnswered ops s good
  step-IsAnswered ops _ _ (size_asked s) good = record {
    cache = good.cache;
    ended = good.ended;
    reads = good.reads;
    right = good.right;
  }
  step-IsAnswered ops _ _ (task_taken s tasks) good = record {
    cache = good.cache;
    ended = good.ended;
    reads = good.reads;
    right = good.right;
  }
  step-IsAnswered ops _ _ (task_run s t on_io e) good = task_run-IsAnswered ops s t on_io good e
  step-IsAnswered ops _ _ (fetched s) good =
      cache-IsAnswered ops s _ good (
        cache_step s.multibuffer (run_posted s.multibuffer) good.cache
          (cache_fetched s.multibuffer))
  step-IsAnswered ops _ _ (response_began s) good = began-IsAnswered ops s good
  step-IsAnswered ops _ _ (wrote s x r read_data num_bytes f fetching ok arrives e) good =
      wrote-IsAnswered ops s x r read_data num_bytes f fetching ok arrives e good
  step-IsAnswered ops _ _ (response_ended s) good = record {
    cache = good.cache;
    ended = good.ended;
    reads = good.reads;
    right = good.right;
  }

  asked-IsAnswered :
      (ops : List ReadOperation) (s t : ResourceDataSource Byte) (op : ReadOperation)
      → IsAnswered ops s
      → read op s ≡ some t
      → IsAnswered (op ∷ ops) t
  unfolding read run
  asked-IsAnswered ops s t op good e = elim (Option-cases s.read_op) [
    | inr (other, pending) ↦ absurd (ground arith)
    | inl nothing ↦
        let before : ops ≡ good.ended =
          subst (λ o. ops ≡ with_pending resource o good.ended) nothing good.reads in
        let more : op ∷ ops ≡ op ∷ good.ended = ap (◌∷◌ op) before in
        elim (Bool-cases s.stop_signal_received) [
          | inl stopped ↦
              let same : record s { answers = run op read_error [] ∷ s.answers } ≡ t =
                ground arith in
              subst (IsAnswered (op ∷ ops)) same (record {
                cache = good.cache;
                ended = op ∷ good.ended;
                reads =
                    subst (λ o. op ∷ ops ≡ with_pending resource o (op ∷ good.ended)) (sym nothing)
                      more;
                right = ((refl, inl (stopped, refl, refl)), good.right);
              })
          | inr running ↦
              let same : post read_now (record s { read_op = some op }) ≡ t = ground arith in
              subst (IsAnswered (op ∷ ops)) same (record {
                cache = good.cache;
                ended = good.ended;
                reads = more;
                right = good.right;
              })
        ]
  ]

  -- In every state that a new source comes to by reads, Initialize, Stop, Abort, GetSize, tasks in any
  -- order and at any time, posted requests and responses of success that bring the bytes of the
  -- resource at the stream: the reads but a pending one have been answered, once each and in their
  -- order, each with its callback and with from 1 to the wanted number of bytes of the resource from
  -- its position (as an `int`) on, or, only if the source was stopped, with the read error.
  pub Reachable-IsAnswered :
      (ops : List ReadOperation) (s : ResourceDataSource Byte) → Reachable ops s → IsAnswered ops s
  unfolding new_source
  Reachable-IsAnswered _ _ at_first = record {
    cache = new_cache;
    ended = [];
    reads = refl;
    right = tt;
  }
  Reachable-IsAnswered _ _ (asked ops s t op r e) =
      asked-IsAnswered ops s t op (Reachable-IsAnswered ops s r) e
  Reachable-IsAnswered _ _ (after ops s t r step) =
      step-IsAnswered ops s t step (Reachable-IsAnswered ops s r)
