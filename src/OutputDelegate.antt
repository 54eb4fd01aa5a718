-- ===== src/OutputDelegate.antt =====
-- audio_output_delegate_impl.h and audio_output_delegate_impl.cc: a stream's delegate, between its
-- audio controller and the host. A delegate has a number that no other has, by which the tasks that
-- its controller's event handler posts to the io thread find it: a task whose weak pointer is no
-- longer valid is one whose delegate is not found. A failed DCHECK or a null pointer is `none`.
use Prim.Native.String.{String}
use chromium_media_lib.Prelude.{
  ℕ, ◌+◌, Bool, true, false, Option, some, none, List, [], ◌∷◌, ◌++◌, ◌&&◌, if◌then◌else◌, ◌>>=◌,
}
use chromium_media_lib.MediaInternals.{
  MediaInternals, AudioLog, AudioParameters, on_created, on_started, on_stopped, on_closed,
  on_log_error, on_set_volume,
}

-- What `base` and `media` give: how numbers are printed, the names of channel layouts, the flags of
-- the effects with their names, the number of audio components and the one of output controllers,
-- the default device and which ids mean one, which parameters are valid and which are given where
-- there are none, and the comparisons of a volume with 0 and 1.
pub record MediaLibrary (Real : Type 0) : Type 0 where
  pub int_to_string : ℕ → String
  pub channel_layout_to_string : ℕ → String
  pub effect_flags : List (ℕ × String)
  pub component_max : ℕ
  pub output_controller : ℕ
  pub default_device_id : String
  pub is_default_device : String → Bool
  pub is_valid : AudioParameters → Bool
  pub unavailable_params : AudioParameters
  pub at_least_zero : Real → Bool
  pub at_most_one : Real → Bool

pub data ControllerCall (Real : Type 0) : Type 0 where
  -- AudioOutputController::Create for the delegate of a number, with the device.
  create_controller : ℕ → String → ControllerCall Real
  play_controller pause_controller close_controller : ℕ → ControllerCall Real
  set_controller_volume : ℕ → Real → ControllerCall Real

pub data Notice : Type 0 where
  send_created_notification report_error : Notice
  update_playing_state : Bool → Notice

-- A task of the io thread, bound to the delegate of a number.
pub record Task : Type 0 where
  pub object : ℕ
  pub notice : Notice

pub record OutputDelegate : Type 0 where
  pub object : ℕ
  pub stream_id : ℕ
  pub log : AudioLog
  -- `reader_`, if it could be created: whether it has its foreign socket.
  pub reader : Option Bool
  pub playing : Bool

-- What the delegates share: the logs, their controllers' calls, the last one first, the io thread's
-- tasks, the oldest one first, and the number of the next delegate.
pub record Audio (Real : Type 0) : Type 0 where
  pub internals : MediaInternals Real
  pub controller_calls : List (ControllerCall Real)
  pub tasks : List Task
  pub next_object : ℕ

module _ {Real : Type 0} where
  abbrev pub call_controller : ControllerCall Real → Audio Real → Audio Real
  call_controller c a = record a { controller_calls = c ∷ a.controller_calls }

  abbrev pub post : OutputDelegate → Notice → Audio Real → Audio Real
  post d notice a = record a {
    tasks = a.tasks ++ record { object = d.object; notice = notice } ∷ [];
  }

  -- The ControllerEventHandler of a delegate.
  unfoldable pub on_controller_created : OutputDelegate → Audio Real → Audio Real
  on_controller_created d a = post d send_created_notification a

  unfoldable pub on_controller_playing : OutputDelegate → Audio Real → Audio Real
  on_controller_playing d a = post d (update_playing_state true) a

  unfoldable pub on_controller_paused : OutputDelegate → Audio Real → Audio Real
  on_controller_paused d a = post d (update_playing_state false) a

  unfoldable pub on_controller_error : OutputDelegate → Audio Real → Audio Real
  on_controller_error d a = post d report_error a

unfoldable pub set_playing : Bool → OutputDelegate → OutputDelegate
set_playing true d = if d.playing then d else record d { playing = true }
set_playing false d = if d.playing then record d { playing = false } else d

-- `reader_->TakeForeignSocket()`.
unfoldable pub take_socket : OutputDelegate → Option OutputDelegate
take_socket d = d.reader >>= λ has. if has then some (record d { reader = some false }) else none

module _ {Real : Type 0} (lib : MediaLibrary Real) where
  -- The constructor; `reader_created` is whether AudioSyncReader::Create gave a reader.
  unfoldable pub new_delegate :
      Bool
      → AudioLog
      → ℕ
      → AudioParameters
      → String
      → Audio Real
      → Option (OutputDelegate × Audio Real)
  new_delegate reader_created log stream_id params output_device_id a =
      on_created lib.int_to_string log stream_id lib.channel_layout_to_string lib.effect_flags
        params output_device_id a.internals
      >>= λ internals. some (
        record {
          object = a.next_object;
          stream_id = stream_id;
          log = log;
          reader = if reader_created then some true else none;
          playing = false;
        },
        call_controller (create_controller a.next_object output_device_id)
            (record a { internals = internals; next_object = a.next_object + 1 }),
      )

  -- The destructor. The playing flag, which it clears, goes with the delegate.
  unfoldable pub destroy_delegate : OutputDelegate → Audio Real → Audio Real
  destroy_delegate d a =
      call_controller (close_controller d.object)
        (record a { internals = on_closed lib.int_to_string d.log d.stream_id a.internals })

  unfoldable pub on_play_stream : OutputDelegate → Audio Real → Audio Real
  on_play_stream d a = record (call_controller (play_controller d.object) a) {
    internals = on_started lib.int_to_string d.log d.stream_id a.internals;
  }

  unfoldable pub on_pause_stream : OutputDelegate → Audio Real → Audio Real
  on_pause_stream d a = record (call_controller (pause_controller d.object) a) {
    internals = on_stopped lib.int_to_string d.log d.stream_id a.internals;
  }

  unfoldable pub on_set_stream_volume : OutputDelegate → Real → Audio Real → Option (Audio Real)
  on_set_stream_volume d volume a =
      if lib.at_least_zero volume && lib.at_most_one volume
      then some (record (call_controller (set_controller_volume d.object volume) a) {
        internals = on_set_volume lib.int_to_string d.log d.stream_id volume a.internals;
      })
      else none

  -- The log's part of OnError.
  unfoldable pub log_stream_error : OutputDelegate → Audio Real → Audio Real
  log_stream_error d a = record a {
    internals = on_log_error lib.int_to_string d.log d.stream_id a.internals;
  }
