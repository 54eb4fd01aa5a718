-- ===== src/RendererHost.antt =====
-- audio_renderer_host.h, audio_renderer_host.cc, audio_message_filter.h and audio_message_filter.cc:
-- the streams of the audio output, from the renderer's IPC object to the delegates of the host.
-- Stream ids and the filter's delegates, its listeners, are numbers; the id that the filter's id map
-- gives is an argument. Calls of the listeners and of the audio system are kept in the state, the
-- last one first. A failed DCHECK or assert, or a null pointer, is `none`.
pub mod Filter
pub mod Delegates
pub mod Closing
pub mod Made
pub mod Opening
pub mod Steps
pub mod Invariant
pub mod Run
mod Tests
use Prim.Native.String.{String}
use text.Mathlib.Text.{◌==◌ as str_eq}
use chromium_media_lib.Prelude.{
  ℕ, Bool, true, false, ◌&&◌, not, Option, some, none, List, [], ◌∷◌, ◌++◌, ◌==◌, ltb,
  if◌then◌else◌, ◌>>=◌, is_some,
}
use chromium_media_lib.Prelude.Maps.{lookup, put, remove}
use chromium_media_lib.MediaInternals.{AudioParameters, create_audio_log, new_internals}
use chromium_media_lib.OutputDelegate.{
  MediaLibrary, OutputDelegate, Audio, Task, Notice, send_created_notification, report_error,
  update_playing_state, new_delegate, destroy_delegate, on_play_stream, set_playing, take_socket,
  log_stream_error,
}

pub data Call : Type 0 where
  -- Of the filter's delegate of a stream.
  stream_created stream_error : ℕ → Call
  device_authorized : ℕ → AudioParameters → String → Call
  -- The host asks the audio system for the parameters of the default device.
  get_parameters : ℕ → Call

pub record AudioRendererHost (Real : Type 0) : Type 0 where
  pub authorizations : List (ℕ × (Bool × String))
  -- Whether `client_` is set; it is the filter.
  pub client : Bool
  pub delegates : List OutputDelegate
  -- `delegates_` of AudioMessageFilter: its delegate of each stream.
  pub listeners : List (ℕ × ℕ)
  pub calls : List Call
  pub audio : Audio Real

-- AudioOutputIPCImpl.
pub record OutputIpc : Type 0 where
  pub stream_id : Option ℕ
  pub stream_created : Bool

-- CreateAudioOutputIPC, for the frame of an id.
unfoldable pub new_ipc : ℕ → Option OutputIpc
new_ipc render_frame_id =
    if ltb 0 render_frame_id
    then some (record { stream_id = none; stream_created = false })
    else none

-- The first delegate that has the id `k` of a kind.
unfoldable pub find_by : (OutputDelegate → ℕ) → ℕ → List OutputDelegate → Option OutputDelegate
find_by id k [] = none
find_by id k (d ∷ l) = if id d == k then some d else find_by id k l

-- LookupById.
abbrev pub lookup_by_id : ℕ → List OutputDelegate → Option OutputDelegate
lookup_by_id stream_id l = find_by (λ d. d.stream_id) stream_id l

-- The delegate that a weak pointer points to.
abbrev pub lookup_object : ℕ → List OutputDelegate → Option OutputDelegate
lookup_object object l = find_by (λ d. d.object) object l

-- A change of the delegate of a number.
unfoldable pub replace_object : OutputDelegate → List OutputDelegate → List OutputDelegate
replace_object e [] = []
replace_object e (d ∷ l) = (if d.object == e.object then e else d) ∷ replace_object e l

-- All but the last item, and the last one.
unfoldable pub split_last :
    OutputDelegate → List OutputDelegate → List OutputDelegate × OutputDelegate
split_last d [] = ([], d)
split_last d (x ∷ l) = let r = split_last x l in (d ∷ r.0, r.1)

-- The first delegate of a stream is swapped with the last one of all, which is then popped.
unfoldable pub swap_and_pop : ℕ → List OutputDelegate → List OutputDelegate
swap_and_pop stream_id [] = []
swap_and_pop stream_id (d ∷ l) =
    let rest = swap_and_pop stream_id l in
    if d.stream_id == stream_id
    then elim l [ [] ↦ [] | x ∷ more ↦ let r = split_last x more in r.1 ∷ r.0 ]
    else d ∷ rest

-- `std::map::insert`, which keeps the value that is there.
abbrev pub insert_new : ℕ → Bool × String → List (ℕ × (Bool × String)) → List (ℕ × (Bool × String))
insert_new k v m = if is_some (lookup k m) then m else put k v m

module _ {Real : Type 0} where
  unfoldable pub new_host : Bool → AudioRendererHost Real
  unfolding new_internals
  new_host client = record {
    authorizations = [];
    client = client;
    delegates = [];
    listeners = [];
    calls = [];
    audio = record {
      internals = new_internals;
      controller_calls = [];
      tasks = [];
      next_object = 0;
    };
  }

  unfoldable pub set_client : Bool → AudioRendererHost Real → AudioRendererHost Real
  set_client client s = record s { client = client }

  abbrev pub say : Call → AudioRendererHost Real → AudioRendererHost Real
  say c s = record s { calls = c ∷ s.calls }

  -- AudioMessageFilter::OnStreamError, OnAuthorizationCompleted and OnStreamCreated.
  unfoldable pub on_stream_error : ℕ → AudioRendererHost Real → AudioRendererHost Real
  on_stream_error stream_id s = elim (lookup stream_id s.listeners) [
    | none ↦ s
    | some l ↦ say (stream_error l) s
  ]

  unfoldable pub on_authorization_completed :
      ℕ → AudioParameters → String → AudioRendererHost Real → AudioRendererHost Real
  on_authorization_completed stream_id params device_id s = elim (lookup stream_id s.listeners) [
    | none ↦ s
    | some l ↦ say (device_authorized l params device_id) s
  ]

  unfoldable pub on_stream_created : ℕ → AudioRendererHost Real → AudioRendererHost Real
  on_stream_created stream_id s = elim (lookup stream_id s.listeners) [
    | none ↦ s
    | some l ↦ say (stream_created l) s
  ]

  -- AudioRendererHost::OnStreamError.
  unfoldable pub notify_stream_error : ℕ → AudioRendererHost Real → AudioRendererHost Real
  unfolding on_stream_error
  notify_stream_error stream_id s = if s.client then on_stream_error stream_id s else s

  -- AudioRendererHost::OnStreamCreated; `duplicated` is whether the memory's handle is valid and
  -- `prepared` whether the socket's descriptor could be made. The client is not checked here.
  unfoldable pub notify_stream_created :
      Bool → Bool → ℕ → AudioRendererHost Real → Option (AudioRendererHost Real)
  unfolding on_stream_error on_stream_created
  notify_stream_created duplicated prepared stream_id s =
      if s.client
      then some (
          if duplicated && prepared
          then on_stream_created stream_id s
          else on_stream_error stream_id s)
      else none

module _ {Real : Type 0} (lib : MediaLibrary Real) where
  -- RequestDeviceAuthorization for a default device; another one fails an assert.
  unfoldable pub request_device_authorization :
      ℕ → String → AudioRendererHost Real → Option (AudioRendererHost Real)
  request_device_authorization stream_id device_id s =
      if lib.is_default_device device_id
      then some (
          say (get_parameters stream_id) (record s {
            authorizations = insert_new stream_id (true, lib.default_device_id) s.authorizations;
          }))
      else none

  -- The audio system answers for the stream.
  unfoldable pub device_parameters_received :
      ℕ → String → AudioParameters → AudioRendererHost Real → Option (AudioRendererHost Real)
  unfolding on_authorization_completed
  device_parameters_received stream_id raw_device_id output_params s =
      if str_eq raw_device_id ""
      then none
      else some (
          on_authorization_completed stream_id
            (if lib.is_valid output_params then output_params else lib.unavailable_params)
            raw_device_id s)

  -- The end of CreateStream: the log and the delegate are made.
  unfoldable pub add_delegate :
      Bool → ℕ → AudioParameters → String → AudioRendererHost Real → Option (AudioRendererHost Real)
  add_delegate reader_created stream_id params device_id s =
      create_audio_log lib.component_max lib.output_controller s.audio.internals >>= λ made.
      new_delegate lib reader_created made.0 stream_id params device_id
        (record s.audio { internals = made.1 })
      >>= λ r. some (record s { delegates = s.delegates ++ r.0 ∷ []; audio = r.1 })

  unfoldable pub create_stream :
      Bool → ℕ → AudioParameters → AudioRendererHost Real → Option (AudioRendererHost Real)
  create_stream reader_created stream_id params s = elim (lookup stream_id s.authorizations) [
    | none ↦ add_delegate reader_created stream_id params "" s
    | some auth ↦
        if not auth.0
        then some (notify_stream_error stream_id s)
        else add_delegate reader_created stream_id params auth.1
            (record s { authorizations = remove stream_id s.authorizations })
  ]

  unfoldable pub play_stream : ℕ → AudioRendererHost Real → AudioRendererHost Real
  play_stream stream_id s = elim (lookup_by_id stream_id s.delegates) [
    | none ↦ notify_stream_error stream_id s
    | some d ↦ record s { audio = on_play_stream lib d s.audio }
  ]

  -- OnCloseStream; the popped delegate's destructor runs.
  unfoldable pub on_close_stream : ℕ → AudioRendererHost Real → AudioRendererHost Real
  on_close_stream stream_id s =
      let open_ones = record s { authorizations = remove stream_id s.authorizations } in
      elim (lookup_by_id stream_id s.delegates) [
        | none ↦ open_ones
        | some d ↦ record open_ones {
          delegates = swap_and_pop stream_id s.delegates;
          audio = destroy_delegate lib d s.audio;
        }
      ]

  -- SendCreatedNotification, UpdatePlayingState and OnError of the delegate `d` of the host.
  unfoldable pub run_notice :
      Bool
      → Bool
      → OutputDelegate
      → Notice
      → AudioRendererHost Real
      → Option (AudioRendererHost Real)
  run_notice duplicated prepared d send_created_notification s = take_socket d >>= λ e.
      notify_stream_created duplicated prepared d.stream_id
        (record s { delegates = replace_object e s.delegates })
  run_notice duplicated prepared d (update_playing_state playing) s =
      some (record s { delegates = replace_object (set_playing playing d) s.delegates })
  run_notice duplicated prepared d report_error s =
      some (notify_stream_error d.stream_id (record s { audio = log_stream_error lib d s.audio }))

  -- The io thread runs the oldest task; nothing happens if its delegate is gone.
  unfoldable pub run_task : Bool → Bool → AudioRendererHost Real → Option (AudioRendererHost Real)
  run_task duplicated prepared s = elim s.audio.tasks [
    | [] ↦ some s
    | t ∷ rest ↦
        let s' = record s { audio = record s.audio { tasks = rest } } in
        elim (lookup_object t.object s.delegates) [
          | none ↦ some s'
          | some d ↦ run_notice duplicated prepared d t.notice s'
        ]
  ]

-- The operations of AudioOutputIPCImpl, `fresh` being the id that the map of listeners gives.
abbrev pub Streams : Type 0 → Type 0
Streams Real = OutputIpc × AudioRendererHost Real

module _ {Real : Type 0} (lib : MediaLibrary Real) where
  unfoldable pub ipc_request_device_authorization :
      ℕ → ℕ → String → Streams Real → Option (Streams Real)
  ipc_request_device_authorization fresh listener device_id (ipc, s) =
      if is_some ipc.stream_id
      then none
      else if ipc.stream_created
      then none
      else (request_device_authorization lib fresh device_id
            (record s { listeners = put fresh listener s.listeners })
          >>= λ t. some (record ipc { stream_id = some fresh }, t))

  unfoldable pub ipc_create_stream :
      Bool → ℕ → ℕ → AudioParameters → Streams Real → Option (Streams Real)
  ipc_create_stream reader_created fresh listener params (ipc, s) =
      if ipc.stream_created then none else elim ipc.stream_id [
        | none ↦
            create_stream lib reader_created fresh params
              (record s { listeners = put fresh listener s.listeners })
            >>= λ t. some (record { stream_id = some fresh; stream_created = true }, t)
        | some id ↦ create_stream lib reader_created id params s >>= λ t.
            some (record ipc { stream_created = true }, t)
      ]

  unfoldable pub ipc_play_stream : Streams Real → Option (Streams Real)
  ipc_play_stream (ipc, s) =
      if ipc.stream_created
      then elim ipc.stream_id [
        -- No stream has the id -1.
        | none ↦ some (ipc, s)
        | some id ↦ some (ipc, play_stream lib id s)
      ]
      else none

module _ {Real : Type 0} where
  -- PauseStream, and SetVolume: nothing is sent.
  unfoldable pub ipc_pause_stream : Streams Real → Option (Streams Real)
  ipc_pause_stream (ipc, s) = if ipc.stream_created then some (ipc, s) else none

  unfoldable pub ipc_set_volume : Real → Streams Real → Option (Streams Real)
  ipc_set_volume volume (ipc, s) = if ipc.stream_created then some (ipc, s) else none

  unfoldable pub ipc_close_stream : Streams Real → Option (Streams Real)
  ipc_close_stream (ipc, s) = ipc.stream_id >>= λ id. some (
    record { stream_id = none; stream_created = false },
    record s { listeners = remove id s.listeners },
  )
