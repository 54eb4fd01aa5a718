-- ===== src/AudioDeviceFactory.antt =====
-- audio_device_factory.h and audio_device_factory.cc: new sinks for the mixers, and new inputs of
-- mixers for the players. The audio output device is the media library's.
use chromium_media_lib.Prelude.{ℕ, ◌*◌, ◌/◌, min, Bool, Option, some, if◌then◌else◌, ◌>>=◌}
use chromium_media_lib.RendererHost.{OutputIpc, new_ipc}
use chromium_media_lib.RendererHost.Filter.{get}
use chromium_media_lib.SinkCache.{OutputDeviceInfo}
use chromium_media_lib.MixerManager.{
  Latency, playback, AudioParameters, MediaAudio, MixerManager, MixerInput, new_manager,
  create_input,
}
use chromium_media_lib.MediaContext.{MediaContext, get_audio_renderer_mixer_manager}

-- Milliseconds; without a timeout elsewhere than on Windows and Mac.
abbrev pub max_authorization_timeout_ms : Bool → ℕ
max_authorization_timeout_ms windows_or_mac = if windows_or_mac then 10000 else 0

abbrev pub hung_renderer_delay_ms : ℕ
hung_renderer_delay_ms = 30000

-- What a new audio output device is made of.
pub record OutputDevice : Type 0 where
  pub filter : ℕ
  pub ipc : OutputIpc
  pub session_id : ℕ
  pub device_id : ℕ
  pub authorization_timeout_ms : ℕ

-- NewAudioRendererMixerSink, with the filter that `g_filter` points to; the device then requests its
-- authorization.
unfoldable pub new_audio_renderer_mixer_sink : Bool → ℕ → ℕ → ℕ → Option ℕ → Option OutputDevice
new_audio_renderer_mixer_sink windows_or_mac owner_id session_id device_id g_filter =
    get g_filter >>= λ filter. new_ipc owner_id >>= λ ipc. some (record {
      filter = filter;
      ipc = ipc;
      session_id = session_id;
      device_id = device_id;
      authorization_timeout_ms =
          min (hung_renderer_delay_ms * 8 / 10) (max_authorization_timeout_ms windows_or_mac);
    })

-- NewSwitchableAudioRendererSink: an input of the context's mixer manager.
unfoldable pub new_switchable_audio_renderer_sink :
    {Real : Type 0}
    → (ℕ → Bool)
    → (Latency → ℕ)
    → (ℕ → OutputDeviceInfo)
    → (ℕ → AudioParameters)
    → MediaAudio
    → Bool
    → ℕ
    → ℕ
    → ℕ
    → ℕ
    → MediaContext MixerManager Real
    → MixerInput × MediaContext MixerManager Real
unfolding get_audio_renderer_mixer_manager new_manager
new_switchable_audio_renderer_sink is_default_device latency_index info output_params media
      use_session_id created owner_id device_id security_origin c =
    let (manager, context) = get_audio_renderer_mixer_manager new_manager c in
    let (input, used) =
      create_input is_default_device latency_index info output_params media use_session_id created
        owner_id device_id security_origin playback manager in
    (input, record context { audio_renderer_mixer_manager = some used })
