-- ===== src/RendererHost/Tests.antt =====
-- Examples: a host with the streams 5, 6 and 7, and one that is new.
use chromium_media_lib.Prelude.{ℕ, ◌≡◌, refl, arith, true, false, some, none, [], ◌∷◌, leb}
use chromium_media_lib.Prelude.Maps.{lookup}
use chromium_media_lib.MediaInternals.{
  AudioParameters, AudioLog, audio_pcm_linear, create_audio_log, on_created, format_to_string,
}
use chromium_media_lib.OutputDelegate.{
  MediaLibrary, OutputDelegate, new_delegate, on_play_stream, destroy_delegate, on_controller_error,
  report_error,
}
use chromium_media_lib.RendererHost.{
  AudioRendererHost, OutputIpc, stream_created, new_host, create_stream, add_delegate, play_stream,
  on_close_stream, find_by, run_task,
}
use chromium_media_lib.RendererHost.Delegates.{Distinct}
use chromium_media_lib.RendererHost.Invariant.{IsSound}
use chromium_media_lib.RendererHost.Run.{
  Reachable, here, after, stream_made, reported, failed, run_task-on_close_stream,
}
use chromium_media_lib.RendererHost.Opening.{
  CanLog, open_stream, open_stream-returns, play_stream-create_stream,
}

abbrev stereo : AudioParameters
stereo = record {
  format = audio_pcm_linear;
  frames_per_buffer = 441;
  sample_rate = 44100;
  channels = 2;
  channel_layout = 3;
  effects = 0;
}

-- Volumes are in hundredths.
abbrev media : MediaLibrary ℕ
media = record {
  int_to_string = λ _. "0";
  channel_layout_to_string = λ _. "STEREO";
  effect_flags = [];
  component_max = 3;
  output_controller = 1;
  default_device_id = "default";
  is_default_device = λ _. true;
  is_valid = λ _. true;
  unavailable_params = stereo;
  at_least_zero = λ _. true;
  at_most_one = λ v. leb v 100;
}

abbrev log_of : ℕ → AudioLog
log_of n = record { owner_id = n; component = 1 }

abbrev delegate : ℕ → ℕ → OutputDelegate
delegate n stream = record {
  object = n;
  stream_id = stream;
  log = log_of n;
  reader = some true;
  playing = false;
}

abbrev three_streams : AudioRendererHost ℕ
three_streams = record {
  authorizations = (8, (true, "default")) ∷ [];
  client = true;
  delegates = delegate 0 5 ∷ delegate 1 6 ∷ delegate 2 7 ∷ [];
  listeners = (5, 1) ∷ (6, 2) ∷ (7, 3) ∷ [];
  calls = [];
  audio = record {
    internals = record { owner_ids = λ _. 3; updates = [] };
    controller_calls = [];
    tasks = [];
    next_object = 3;
  };
}

three_streams-Distinct : Distinct (λ d. d.stream_id) three_streams.delegates
three_streams-Distinct = (
  (λ e. absurd (omega arith), (λ e. absurd (omega arith), tt)),
  ((λ e. absurd (omega arith), tt), (tt, tt)),
)

three_streams-IsSound : IsSound three_streams
three_streams-IsSound = record {
  granted = (refl, tt);
  objects = (
    (λ e. absurd (omega arith), (λ e. absurd (omega arith), tt)),
    ((λ e. absurd (omega arith), tt), (tt, tt)),
  );
  below = (omega arith, (omega arith, (omega arith, tt)));
}

three_streams-CanLog : CanLog media stereo three_streams
unfolding format_to_string
three_streams-CanLog = record {
  format_name = "pcm_linear";
  known = refl;
  component = omega arith;
  owner_id = omega arith;
}

abbrev no_stream : OutputIpc
no_stream = record { stream_id = none; stream_created = false }

open_stream-returns_example :
    (u : AudioRendererHost ℕ) × (open_stream media 9 4 stereo (no_stream, three_streams)
      ≡ some (record { stream_id = some 9; stream_created = true }, u))
    × (u.calls ≡ stream_created 4 ∷ [])
    × (u.audio.tasks ≡ [])
open_stream-returns_example =
    open_stream-returns media 9 4 stereo no_stream three_streams refl refl three_streams-IsSound
      three_streams-CanLog refl refl

-- A new host with a client, after CreateStream of the stream 5.
abbrev one_stream : AudioRendererHost ℕ
unfolding new_host create_stream add_delegate create_audio_log new_delegate on_created lookup
one_stream = elim (create_stream media true 5 stereo (new_host true)) [
  | some t ↦ t
  | none ↦ new_host true
]

one_stream-made : create_stream media true 5 stereo (new_host true) ≡ some one_stream
unfolding new_host create_stream add_delegate create_audio_log new_delegate on_created lookup
one_stream-made = refl

one_stream-Reachable : Reachable media true one_stream
one_stream-Reachable =
    after (new_host true) one_stream here
      (stream_made (new_host true) one_stream true 5 stereo one_stream-made)

play_stream-create_stream_example :
    (d : OutputDelegate) × (d.stream_id ≡ 5)
    × (play_stream media 5 one_stream
        ≡ record one_stream { audio = on_play_stream media d one_stream.audio })
unfolding new_host
play_stream-create_stream_example =
    play_stream-create_stream media true 5 stereo (new_host true) one_stream tt one_stream-made

-- Its stream is closed, and then its controller reports an error.
abbrev closed_stream : AudioRendererHost ℕ
closed_stream = on_close_stream media 5 one_stream

abbrev late_error : AudioRendererHost ℕ
late_error = record closed_stream { audio = on_controller_error (delegate 0 5) closed_stream.audio }

run_task-on_close_stream_example :
    run_task media true true late_error
    ≡ some (record late_error { audio = record late_error.audio { tasks = [] } })
unfolding new_host create_stream add_delegate create_audio_log new_delegate on_created
    on_close_stream find_by destroy_delegate on_controller_error lookup
run_task-on_close_stream_example =
    run_task-on_close_stream media true one_stream late_error 5 (delegate 0 5)
      (record { object = 0; notice = report_error }) [] true true one_stream-Reachable refl
      (after closed_stream late_error here
        (reported closed_stream on_controller_error (delegate 0 5) failed))
      refl refl
