-- ===== src/SourceProvider.antt =====
-- audiosourceprovider_impl.h and audiosourceprovider_impl.cc: the audio sink of the player, which
-- falls back to a null sink, and the filter that copies what is rendered. Sinks and renderers are
-- numbers; what a sink says of its device, and the audio that a renderer gives, are arguments. A
-- failed DCHECK or a null pointer is `none`.
pub mod Fallback
mod Tests
use chromium_media_lib.Prelude.{
  ℕ, Bool, true, false, not, Option, some, none, List, [], ◌∷◌, if◌then◌else◌, ◌>>=◌, is_some,
}

pub data Call (Double : Type 0) : Type 0 where
  -- The calls of a sink.
  sink_initialize sink_start sink_stop sink_play sink_pause : ℕ → Call Double
  sink_set_volume : ℕ → Double → Call Double
  sink_switch_output_device : ℕ → ℕ → Call Double
  -- The callback of SwitchOutputDevice, with OUTPUT_DEVICE_STATUS_ERROR_INTERNAL.
  internal_error : Call Double

pub record TeeFilter : Type 0 where
  pub renderer : Option ℕ
  pub channels : ℕ
  pub sample_rate : ℕ
  pub copy_audio_bus_callback : Bool

pub record SourceProvider (Double : Type 0) : Type 0 where
  pub volume : Double
  pub sink : Option ℕ
  pub tee_filter : TeeFilter
  pub calls : List (Call Double)

-- What a client gets of a rendered bus: the copy, the delay in frames and the sample rate.
pub record AudioCopy (Sample : Type 0) : Type 0 where
  pub bus : List Sample
  pub frames_delayed : ℕ
  pub sample_rate : ℕ

unfoldable pub is_initialized : TeeFilter → Bool
is_initialized f = is_some f.renderer

unfoldable pub tee_initialize : ℕ → ℕ → ℕ → TeeFilter → TeeFilter
tee_initialize renderer channels sample_rate f = record f {
  renderer = some renderer;
  channels = channels;
  sample_rate = sample_rate;
}

unfoldable pub set_copy_audio_bus_callback : Bool → TeeFilter → TeeFilter
set_copy_audio_bus_callback callback f = record f { copy_audio_bus_callback = callback }

-- TeeFilter::Render, of a renderer that gives `frames` frames in the bus `rendered`: the result, and
-- the copy for the client. `time_to_frames` is AudioTimestampHelper's.
unfoldable pub tee_render :
    {Sample : Type 0}
    → (ℕ → ℕ → ℕ)
    → ℕ
    → ℕ
    → List Sample
    → TeeFilter
    → Option (ℕ × Option (AudioCopy Sample))
tee_render {Sample = Sample} time_to_frames delay frames rendered f =
    let copy : AudioCopy Sample = record {
      bus = rendered;
      frames_delayed = time_to_frames delay f.sample_rate;
      sample_rate = f.sample_rate;
    } in
    if is_initialized f
    then some (frames, if f.copy_audio_bus_callback then some copy else none)
    else none

module _ {Double : Type 0} where
  abbrev pub say : Call Double → SourceProvider Double → SourceProvider Double
  say c s = record s { calls = c ∷ s.calls }

  unfoldable pub new_provider : Double → Option ℕ → SourceProvider Double
  new_provider full_volume sink = record {
    volume = full_volume;
    sink = sink;
    tee_filter = record {
      renderer = none;
      channels = 0;
      sample_rate = 0;
      copy_audio_bus_callback = false;
    };
    calls = [];
  }

  -- Whether the device of the provider's sink is OK: GetOutputDeviceInfo.
  unfoldable pub device_ok : (ℕ → Bool) → SourceProvider Double → Bool
  device_ok status_ok s = elim s.sink [ none ↦ false | some k ↦ status_ok k ]

  -- The sink is stopped and the null sink `fallback` takes its place.
  unfoldable pub fall_back : ℕ → SourceProvider Double → SourceProvider Double
  fall_back fallback s = record s {
    sink = some fallback;
    calls = elim s.sink [ none ↦ s.calls | some k ↦ sink_stop k ∷ s.calls ];
  }

  unfoldable pub initialize :
      (ℕ → Bool) → ℕ → ℕ → ℕ → ℕ → SourceProvider Double → Option (SourceProvider Double)
  initialize status_ok fallback renderer channels sample_rate s =
      let t = if not (device_ok status_ok s) then fall_back fallback s else s in
      t.sink >>= λ k. some (
        say (sink_initialize k)
          (record t { tee_filter = tee_initialize renderer channels sample_rate t.tee_filter }))

  unfoldable pub start : SourceProvider Double → Option (SourceProvider Double)
  start s = s.sink >>= λ k. some (say (sink_start k) s)

  unfoldable pub stop : SourceProvider Double → Option (SourceProvider Double)
  stop s = s.sink >>= λ k. some (say (sink_stop k) s)

  unfoldable pub play : SourceProvider Double → Option (SourceProvider Double)
  play s = s.sink >>= λ k. some (say (sink_play k) s)

  unfoldable pub pause : SourceProvider Double → Option (SourceProvider Double)
  pause s = s.sink >>= λ k. some (say (sink_pause k) s)

  unfoldable pub set_volume : Double → SourceProvider Double → Option (SourceProvider Double)
  set_volume volume s =
      s.sink >>= λ k. some (say (sink_set_volume k volume) (record s { volume = volume }))

  -- SwitchOutputDevice to a device of an id, for an origin that the sink is told too.
  unfoldable pub switch_output_device : ℕ → SourceProvider Double → SourceProvider Double
  switch_output_device device_id s = elim s.sink [
    | none ↦ say internal_error s
    | some k ↦ say (sink_switch_output_device k device_id) s
  ]

module _ {Double : Type 0} where
  unfoldable pub is_optimized_for_hardware_parameters : SourceProvider Double → Bool
  is_optimized_for_hardware_parameters s = true

  unfoldable pub current_thread_is_rendering_thread : SourceProvider Double → Bool
  current_thread_is_rendering_thread s = false

-- TeeFilter::OnRenderError: the renderer that it tells.
unfoldable pub on_render_error : TeeFilter → Option ℕ
on_render_error f = f.renderer
