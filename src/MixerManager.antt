-- ===== src/MixerManager.antt =====
-- audio_renderer_mixer_manager.h and audio_renderer_mixer_manager.cc: the mixers that clients share,
-- over the sink cache. Strings and origins are numbers in their order. `std::map` is a list of its
-- entries. Its `find` gives an entry with an equivalent key or the end. Since the comparison is no
-- strict weak order it may miss an equivalent key: the entries that the search comes to, by their
-- mixers, are an argument. `operator[]` after a search that found none adds an entry. A mixer is named
-- by a number, and the one that may be made is an argument. A failed DCHECK is `none`.
pub mod Keys
pub mod References
pub mod Searching
pub mod Sinks
pub mod Making
pub mod Returning
pub mod Run
mod Tests
use chromium_media_lib.Prelude.{
  ℕ, zero, suc, ◌+◌, ◌-◌, Bool, true, false, ◌&&◌, ◌||◌, not, Option, some, none, List, [], ◌∷◌,
  ltb, ◌==◌, if◌then◌else◌, ◌>>=◌,
}
use chromium_media_lib.SinkCache.{
  SinkCache, OutputDeviceInfo, new_cache, get_sink, get_sink_info, release_sink,
}

pub data Latency : Type 0 where
  interactive rtc playback exact_ms : Latency

unfoldable pub is_exact : Latency → Bool
is_exact interactive = false
is_exact rtc = false
is_exact playback = false
is_exact exact_ms = true

pub record AudioParameters : Type 0 where
  pub format : ℕ
  pub channel_layout : ℕ
  pub channels : ℕ
  pub sample_rate : ℕ
  pub bits_per_sample : ℕ
  pub frames_per_buffer : ℕ
  -- 0 if there are none.
  pub effects : ℕ
  pub latency_tag : Option Latency

pub record MixerKey : Type 0 where
  pub source_render_frame_id : ℕ
  pub params : AudioParameters
  pub latency : Latency
  pub device_id : ℕ
  pub security_origin : ℕ

pub record MixerReference : Type 0 where
  pub mixer : ℕ
  pub ref_count : ℕ
  pub sink : ℕ

-- A new audio renderer mixer: what it gives to its sink, and the sink.
pub record Mixer : Type 0 where
  pub id : ℕ
  pub output_params : AudioParameters
  pub sink : ℕ

-- An input of a mixer, with the key of GetMixer but for the parameters that it is initialized with.
pub record MixerInput : Type 0 where
  pub source_render_frame_id : ℕ
  pub device_id : ℕ
  pub security_origin : ℕ
  pub latency : Latency

pub record MixerManager : Type 0 where
  pub mixers : List (MixerKey × MixerReference)
  pub sink_cache : SinkCache
  pub latency_map : Latency → Bool
  -- The mixers that the manager made, the sinks that it stopped, and the mixers that it deleted, the
  -- last one first.
  pub made : List Mixer
  pub stopped : List ℕ
  pub deleted : List ℕ

-- The constructor, on a new sink cache, and Create.
unfoldable pub new_manager : MixerManager
unfolding new_cache
new_manager = record {
  mixers = [];
  sink_cache = new_cache;
  latency_map = λ latency. false;
  made = [];
  stopped = [];
  deleted = [];
}

-- The media library's part: the format of a fake device, which parameters are valid, the channels of
-- a layout, and the buffer sizes that media::AudioLatency computes.
pub record MediaAudio : Type 0 where
  pub audio_fake : ℕ
  pub is_valid : AudioParameters → Bool
  pub channel_count : ℕ → ℕ
  pub interactive_size : ℕ → ℕ
  pub rtc_size : ℕ → ℕ → ℕ
  pub high_latency_size : ℕ → ℕ → ℕ

-- GetMixerOutputParams off ChromeOS. The new parameters have no effects, and the channels of their
-- layout.
unfoldable pub get_mixer_output_params :
    MediaAudio → AudioParameters → AudioParameters → Latency → Option AudioParameters
get_mixer_output_params media input hardware latency =
    let valid_not_fake = not (hardware.format == media.audio_fake) && media.is_valid hardware in
    let rate = if valid_not_fake then hardware.sample_rate else input.sample_rate in
    let hardware_frames = if valid_not_fake then hardware.frames_per_buffer else 0 in
    let size : Option ℕ = elim latency [
      | interactive ↦ some (media.interactive_size hardware.frames_per_buffer)
      | rtc ↦ some (media.rtc_size rate hardware_frames)
      | playback ↦ some (media.high_latency_size rate hardware_frames)
      | exact_ms ↦ none
    ] in
    size >>= λ n.
    if n == 0
    then none
    else some (record {
      format = input.format;
      channel_layout = input.channel_layout;
      channels = media.channel_count input.channel_layout;
      sample_rate = rate;
      bits_per_sample = 16;
      frames_per_buffer = n;
      effects = 0;
      latency_tag = some latency;
    })

-- The first entry of a mixer, and the list with one reference less: without the entry if that was
-- the last one.
unfoldable pub drop_reference :
    ℕ
    → List (MixerKey × MixerReference)
    → Option (MixerReference × List (MixerKey × MixerReference))
drop_reference mixer [] = none
drop_reference mixer ((k, r) ∷ l) =
    let rest = drop_reference mixer l in
    if r.mixer == mixer
    then some
        (r, if (r.ref_count - 1) == 0 then l else (k, record r { ref_count = r.ref_count - 1 }) ∷ l)
    else (rest >>= λ x. some (x.0, (k, r) ∷ x.1))

-- ReturnMixer. The mixer is deleted with its last reference.
unfoldable pub return_mixer : ℕ → MixerManager → Option MixerManager
return_mixer mixer s = drop_reference mixer s.mixers >>= λ x.
    if (x.0.ref_count - 1) == 0
    then (release_sink x.0.sink s.sink_cache >>= λ c.
        some (record s { mixers = x.1; sink_cache = c; deleted = mixer ∷ s.deleted }))
    else some (record s { mixers = x.1 })

-- `it->second.ref_count++`, of the entry of a mixer.
unfoldable pub add_reference :
    ℕ → List (MixerKey × MixerReference) → List (MixerKey × MixerReference)
add_reference mixer [] = []
add_reference mixer ((k, r) ∷ l) =
    if r.mixer == mixer
    then (k, record r { ref_count = r.ref_count + 1 }) ∷ l
    else (k, r) ∷ add_reference mixer l

-- `latency_map_[latency] = 1`; `latency_index` is the order of the enumeration of latencies.
unfoldable pub note_latency : (Latency → ℕ) → Latency → MixerManager → MixerManager
note_latency latency_index latency s = record s {
  latency_map = λ l. if latency_index l == latency_index latency then true else s.latency_map l;
}

module _ (is_default_device : ℕ → Bool) (latency_index : Latency → ℕ) where
  -- MixerKeyCompare.
  unfoldable pub less : MixerKey → MixerKey → Option Bool
  less a b =
      if not (a.source_render_frame_id == b.source_render_frame_id)
      then some (ltb a.source_render_frame_id b.source_render_frame_id)
      else if not (a.params.channels == b.params.channels)
      then some (ltb a.params.channels b.params.channels)
      else if not (latency_index a.latency == latency_index b.latency)
      then some (ltb (latency_index a.latency) (latency_index b.latency))
      else if is_exact a.latency
      then none
      else if not (a.params.channel_layout == b.params.channel_layout)
      then some (ltb a.params.channel_layout b.params.channel_layout)
      else if is_default_device a.device_id && is_default_device b.device_id
      then some false
      else if not (a.device_id == b.device_id)
      then some (ltb a.device_id b.device_id)
      else some (ltb a.security_origin b.security_origin)

  -- Neither of two keys is less than the other.
  unfoldable pub equivalent : MixerKey → MixerKey → Option Bool
  equivalent a b = less a b >>= λ x. less b a >>= λ y. some (not x && not y)

  -- `mixers_.find`: an entry with an equivalent key among those that the search comes to, or none.
  unfoldable pub find_mixer :
      (ℕ → Bool) → MixerKey → List (MixerKey × MixerReference) → Option (Option MixerReference)
  find_mixer reached key [] = some none
  find_mixer reached key ((k, r) ∷ l) =
      let rest = find_mixer reached key l in
      if reached r.mixer
      then (equivalent k key >>= λ same. if same then some (some r) else rest)
      else rest

  module _ (info : ℕ → OutputDeviceInfo) (output_params : ℕ → AudioParameters)
      (media : MediaAudio) where
    -- GetMixer for a key that has no mixer, `mixer` and `created` being the mixer and the sink that
    -- it may make: whether the status of the device is OK, the mixer, or none for a null pointer,
    -- and the new state.
    unfoldable pub make_mixer :
        ℕ → ℕ → MixerKey → MixerManager → Option (Bool × Option ℕ × MixerManager)
    make_mixer mixer created key s =
        let got =
          get_sink is_default_device info created key.source_render_frame_id key.device_id
            key.security_origin s.sink_cache in
        if not (info got.0).status_ok
        then (release_sink got.0 got.1 >>= λ c.
            some (false, none, record s { sink_cache = c; stopped = got.0 ∷ s.stopped }))
        else (get_mixer_output_params media key.params (output_params got.0) key.latency
            >>= λ params. some (
              true,
              some mixer,
              record s {
                mixers = (key, record { mixer = mixer; ref_count = 1; sink = got.0 }) ∷ s.mixers;
                sink_cache = got.1;
                made = record { id = mixer; output_params = params; sink = got.0 } ∷ s.made;
              },
            ))

    -- The rest of GetMixer after the search, which found an entry or not.
    unfoldable pub reuse_or_make :
        ℕ
        → ℕ
        → MixerKey
        → MixerManager
        → Option MixerReference
        → Option (Bool × Option ℕ × MixerManager)
    reuse_or_make mixer created key s (some r) =
        some (true, some r.mixer, record s { mixers = add_reference r.mixer s.mixers })
    reuse_or_make mixer created key s none = make_mixer mixer created key s

    -- GetMixer.
    unfoldable pub get_mixer :
        (ℕ → Bool) → ℕ → ℕ → MixerKey → MixerManager → Option (Bool × Option ℕ × MixerManager)
    get_mixer reached mixer created key s =
        if not (key.params.effects == 0)
        then none
        else (find_mixer reached key s.mixers
            >>= reuse_or_make mixer created key (note_latency latency_index key.latency s))

    -- GetOutputDeviceInfo.
    unfoldable pub get_output_device_info :
        Bool → ℕ → ℕ → ℕ → ℕ → MixerManager → OutputDeviceInfo × MixerManager
    get_output_device_info use_session_id created source_render_frame_id device_id security_origin
          s =
        let r =
          get_sink_info is_default_device info use_session_id created source_render_frame_id
            device_id security_origin s.sink_cache in
        (r.0, record s { sink_cache = r.1 })

    unfoldable pub create_input :
        Bool → ℕ → ℕ → ℕ → ℕ → Latency → MixerManager → MixerInput × MixerManager
    create_input use_session_id created source_render_frame_id device_id security_origin latency s =
        let r =
          get_output_device_info true created source_render_frame_id device_id security_origin s in
        (
          record {
            source_render_frame_id = source_render_frame_id;
            device_id = if use_session_id then r.0.device_id else device_id;
            security_origin = security_origin;
            latency = latency;
          },
          if use_session_id then r.1 else s,
        )
