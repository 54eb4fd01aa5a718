-- ===== src/SyncReader.antt =====
-- audio_sync_reader.h and audio_sync_reader.cc: the browser's side of the audio shared memory. Times
-- are numbers of microseconds. The bytes on the socket are arguments: each call of
-- ReceiveWithTimeout is the value that it received, if it received all of it, and the time that is
-- left of the wait after it. `Sample` is what the audio bus holds.
pub mod Waiting
mod Tests
use chromium_media_lib.Prelude.{
  ℕ, zero, suc, ◌+◌, ◌-◌, ◌*◌, ◌%◌, ◌^◌, Bool, true, false, not, ◌||◌, Option, some, none, List, [],
  ◌∷◌, ltb, ◌==◌, if◌then◌else◌,
}

-- `AudioOutputBuffer`: the parameters and the audio of the shared memory.
pub record AudioOutputBuffer (Sample : Type 0) : Type 0 where
  pub frames_skipped : ℕ
  pub delay : ℕ
  pub delay_timestamp : ℕ
  pub audio : List Sample

pub record SyncReader (Sample : Type 0) : Type 0 where
  pub buffer : AudioOutputBuffer Sample
  pub renderer_callback_count : ℕ
  pub renderer_missed_callback_count : ℕ
  pub trailing_renderer_missed_callback_count : ℕ
  pub maximum_wait_time : ℕ
  -- A uint32_t.
  pub buffer_index : ℕ
  pub has_foreign_socket : Bool
  pub closed : Bool
  -- The control signals that were sent, the last one first.
  pub sent : List ℕ

-- One call of ReceiveWithTimeout: the value, and the time left after it.
abbrev pub Receive : Type 0
Receive = Option ℕ × ℕ

abbrev pub uint32_mod : ℕ
uint32_mod = 2 ^ 32

-- The constructor; `zeroed` is the audio bus after Zero.
unfoldable pub new_reader : {Sample : Type 0} → List Sample → SyncReader Sample
new_reader zeroed = record {
  buffer = record { frames_skipped = 0; delay = 0; delay_timestamp = 0; audio = zeroed };
  renderer_callback_count = 0;
  renderer_missed_callback_count = 0;
  trailing_renderer_missed_callback_count = 0;
  maximum_wait_time = 20 * 1000;
  buffer_index = 0;
  has_foreign_socket = true;
  closed = false;
  sent = [];
}

-- Create: the size of the shared memory may be too large for a size_t, and the memory and the sockets
-- may fail to be made.
unfoldable pub create :
    {Sample : Type 0} → Bool → Bool → Bool → List Sample → Option (SyncReader Sample)
create memory_size_is_valid mapped paired zeroed =
    if not memory_size_is_valid || not mapped || not paired then none else some (new_reader zeroed)

-- The `while` loop of WaitUntilDataIsReady: whether it was left with the value that it waits for.
unfoldable pub wait_loop : ℕ → ℕ → List Receive → Bool
wait_loop buffer_index timeout [] = false
wait_loop buffer_index timeout ((received, time_left) ∷ rest) =
    let more = wait_loop buffer_index time_left rest in
    if ltb 0 timeout
    then elim received [ none ↦ false | some value ↦ if value == buffer_index then true else more ]
    else false

module _ {Sample : Type 0} where
  unfoldable pub take_foreign_socket : SyncReader Sample → Option (SyncReader Sample)
  take_foreign_socket s =
      if s.has_foreign_socket then some (record s { has_foreign_socket = false }) else none

  unfoldable pub wait_until_data_is_ready : List Receive → SyncReader Sample → Bool
  wait_until_data_is_ready socket s = wait_loop s.buffer_index s.maximum_wait_time socket

  -- `zeroed` is the audio bus after Zero, and `delay_is_max` is `delay.is_max()`.
  unfoldable pub request_more_data :
      List Sample → Bool → ℕ → ℕ → ℕ → SyncReader Sample → SyncReader Sample
  request_more_data zeroed delay_is_max delay delay_timestamp prior_frames_skipped s = record s {
    buffer = record {
      frames_skipped = (s.buffer.frames_skipped + prior_frames_skipped) % uint32_mod;
      delay = delay;
      delay_timestamp = delay_timestamp;
      audio = zeroed;
    };
    sent = (if delay_is_max then uint32_mod - 1 else 0) ∷ s.sent;
    buffer_index = (s.buffer_index + 1) % uint32_mod;
  }

  -- Read: what is copied to the destination, and the new state.
  unfoldable pub read :
      List Sample → List Receive → SyncReader Sample → List Sample × SyncReader Sample
  read zeroed socket s =
      let t = record s { renderer_callback_count = s.renderer_callback_count + 1 } in
      if not (wait_until_data_is_ready socket t)
      then (
        zeroed,
        record t {
          trailing_renderer_missed_callback_count = s.trailing_renderer_missed_callback_count + 1;
          renderer_missed_callback_count = s.renderer_missed_callback_count + 1;
        },
      )
      else (s.buffer.audio, record t { trailing_renderer_missed_callback_count = 0 })

  unfoldable pub close : SyncReader Sample → SyncReader Sample
  close s = record s { closed = true }
