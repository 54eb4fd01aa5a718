-- ===== src/SyncReader/Waiting.antt =====
-- AudioSyncReader: when the data is taken as ready, and what the counters count.
use chromium_media_lib.Prelude.{
  Bool, ℕ, ◌+◌, ◌^◌, ◌≤◌, ◌<◌, ◌≡◌, subst, inl, inr, ◌↔◌, true, some, none, List, [], ◌∷◌, arith,
  ◌==◌, Bool-cases,
}
use chromium_media_lib.SyncReader.{
  SyncReader, Receive, wait_loop, wait_until_data_is_ready, read, request_more_data, new_reader,
}

-- The socket gives the index in time: after values that are others, each with some time left.
pub data Arrives (index : ℕ) : ℕ → List Receive → Type 0 where
  now :
      (timeout left : ℕ) (rest : List Receive)
      → 0 < timeout
      → Arrives index timeout ((some index, left) ∷ rest)
  later :
      (timeout left other : ℕ) (rest : List Receive)
      → 0 < timeout
      → Arrives index left rest
      → Arrives index timeout ((some other, left) ∷ rest)

wait_loop_of_Arrives :
    (index timeout : ℕ) (l : List Receive)
    → Arrives index timeout l
    → wait_loop index timeout l ≡ true
unfolding wait_loop
wait_loop_of_Arrives index _ _ (now timeout left rest h) = ground arith
wait_loop_of_Arrives index _ _ (later timeout left other rest h a) =
    ground (arith, wait_loop_of_Arrives index left rest a)

Arrives-of_wait_loop :
    (index timeout : ℕ) (l : List Receive)
    → wait_loop index timeout l ≡ true
    → Arrives index timeout l
unfolding wait_loop
Arrives-of_wait_loop index timeout [] e = absurd (ground arith)
Arrives-of_wait_loop index timeout ((none, left) ∷ l) e = absurd (ground arith)
Arrives-of_wait_loop index timeout ((some v, left) ∷ l) e = elim (Bool-cases (v == index)) [
  | inl same ↦
      subst (λ w. Arrives index timeout ((some w, left) ∷ l)) (ground arith)
        (now timeout left l (ground arith))
  | inr other ↦
      later timeout left v l (ground arith) (Arrives-of_wait_loop index left l (ground arith))
]

-- WaitUntilDataIsReady returns true exactly if the socket brings the index of the buffer that was
-- asked for, before a value is missing and while time is left.
pub wait_until_data_is_ready-Arrives :
    {Sample : Type 0} (socket : List Receive) (s : SyncReader Sample)
    → (wait_until_data_is_ready socket s ≡ true) ↔ Arrives s.buffer_index s.maximum_wait_time socket
unfolding wait_until_data_is_ready
wait_until_data_is_ready-Arrives socket s = (
  Arrives-of_wait_loop s.buffer_index s.maximum_wait_time socket,
  wait_loop_of_Arrives s.buffer_index s.maximum_wait_time socket,
)

-- What the threads may do with a reader.
pub data Step {Sample : Type 0} : SyncReader Sample → SyncReader Sample → Type 0 where
  requested :
      (s : SyncReader Sample) (zeroed : List Sample) (is_max : Bool) (delay stamp skipped : ℕ)
      → Step s (request_more_data zeroed is_max delay stamp skipped s)
  was_read :
      (s : SyncReader Sample) (zeroed : List Sample) (socket : List Receive)
      → Step s (read zeroed socket s).1

pub data Reachable {Sample : Type 0} : SyncReader Sample → Type 0 where
  at_first : (zeroed : List Sample) → Reachable (new_reader zeroed)
  after : (s t : SyncReader Sample) → Reachable s → Step s t → Reachable t

abbrev pub Counted : {Sample : Type 0} → SyncReader Sample → Type 0
Counted s =
    (s.trailing_renderer_missed_callback_count ≤ s.renderer_missed_callback_count)
    × (s.renderer_missed_callback_count ≤ s.renderer_callback_count)
    × (s.buffer_index < 2 ^ 32)

step-Counted : {Sample : Type 0} (s t : SyncReader Sample) → Step s t → Counted s → Counted t
unfolding request_more_data read
step-Counted _ _ (requested s zeroed is_max delay stamp skipped) c = ground arith
step-Counted _ _ (was_read s zeroed socket) c = ground arith

-- In every state that a new reader comes to by requests and reads, the missed callbacks since the
-- last one that was served are at most the missed ones, these at most all the callbacks, and the
-- index of the buffer is a uint32_t.
pub Reachable-Counted : {Sample : Type 0} (s : SyncReader Sample) → Reachable s → Counted s
unfolding new_reader
Reachable-Counted _ (at_first zeroed) = (omega arith, omega arith, omega arith)
Reachable-Counted _ (after s t r step) = step-Counted s t step (Reachable-Counted s r)

-- If the socket brings the index in time, Read gives the samples in the shared memory, and then no
-- callback is missed since and none more is missed.
pub read-Arrives :
    {Sample : Type 0} (zeroed : List Sample) (socket : List Receive) (s : SyncReader Sample)
    → Arrives s.buffer_index s.maximum_wait_time socket
    → ((read zeroed socket s).0 ≡ s.buffer.audio)
      × ((read zeroed socket s).1.trailing_renderer_missed_callback_count ≡ 0)
      × ((read zeroed socket s).1.renderer_missed_callback_count ≡ s.renderer_missed_callback_count)
unfolding read wait_until_data_is_ready
read-Arrives zeroed socket s a =
    let ready = (wait_until_data_is_ready-Arrives socket s).1 a in ground (arith, ready)

-- If the socket does not bring the index in time, Read gives silence, and one more callback is
-- missed, both of all and since the last one that was served.
pub read_late :
    {Sample : Type 0} (zeroed : List Sample) (socket : List Receive) (s : SyncReader Sample)
    → ¬ Arrives s.buffer_index s.maximum_wait_time socket
    → ((read zeroed socket s).0 ≡ zeroed)
      × ((read zeroed socket s).1.renderer_missed_callback_count
          ≡ s.renderer_missed_callback_count + 1)
      × ((read zeroed socket s).1.trailing_renderer_missed_callback_count
          ≡ s.trailing_renderer_missed_callback_count + 1)
unfolding read wait_until_data_is_ready
read_late zeroed socket s n = elim (Bool-cases (wait_until_data_is_ready socket s)) [
  | inl ready ↦ absurd (n ((wait_until_data_is_ready-Arrives socket s).0 ready))
  | inr late ↦ ground arith
]
