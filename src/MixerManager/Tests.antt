-- ===== src/MixerManager/Tests.antt =====
-- Examples: the ids of the default device are 0 and 9, the empty string and "default", and other
-- ids lie between them.
use chromium_media_lib.Prelude.{
  ℕ, ◌≡◌, refl, arith, Bool, true, false, ◌&&◌, ◌||◌, Option, some, none, [], ◌∷◌, ◌==◌, ◌⊎◌,
  if◌then◌else◌,
}
use chromium_media_lib.SinkCache.{OutputDeviceInfo, get_sink, find_if}
use chromium_media_lib.MixerManager.{
  MixerKey, MixerManager, AudioParameters, MediaAudio, Latency, playback, interactive, rtc,
  exact_ms, is_exact, reuse_or_make, less, equivalent, find_mixer, get_mixer, make_mixer,
  note_latency, new_manager, get_mixer_output_params, return_mixer,
}
use chromium_media_lib.MixerManager.Keys.{less_not_transitive, equivalent_iff, less-IsStrictWeak}
use chromium_media_lib.MixerManager.References.{IsReferenced, get_mixer-return_mixer}
use chromium_media_lib.MixerManager.Making.{IsServed, Made}
use chromium_media_lib.MixerManager.Run.{
  Reachable, at_first, after, requested, Reachable-IsServed, Reachable-return_mixer,
  Reachable-get_mixer,
}

abbrev is_default : ℕ → Bool
is_default d = (d == 0) || (d == 9)

abbrev index : Latency → ℕ
index exact_ms = 0
index interactive = 1
index rtc = 2
index playback = 3

abbrev stereo : AudioParameters
stereo = record {
  format = 1;
  channel_layout = 3;
  channels = 2;
  sample_rate = 48000;
  bits_per_sample = 16;
  frames_per_buffer = 480;
  effects = 0;
  latency_tag = none;
}

abbrev key_of : ℕ → MixerKey
key_of device = record {
  source_render_frame_id = 1;
  params = stereo;
  latency = playback;
  device_id = device;
  security_origin = 4;
}

abbrev one_mixer : MixerManager
one_mixer = record {
  mixers = (key_of 0, record { mixer = 20; ref_count = 1; sink = 10 }) ∷ [];
  sink_cache = record {
    cache =
        record {
          source_render_frame_id = 1;
          device_id = 0;
          security_origin = 4;
          sink = 10;
          used = true;
        }
        ∷ [];
    delayed = [];
    stopped = [];
  };
  latency_map = λ latency. true;
  made = [];
  stopped = [];
  deleted = [];
}

abbrev healthy : ℕ → OutputDeviceInfo
healthy sink = record { status_ok = true; device_id = 0 }

abbrev media : MediaAudio
media = record {
  audio_fake = 0;
  is_valid = λ params. true;
  channel_count = λ layout. 2;
  interactive_size = λ n. n;
  rtc_size = λ rate n. n;
  high_latency_size = λ rate n. n;
}

less_not_transitive_example :
    (less is_default index (key_of 0) (key_of 5) ≡ some true)
    × (less is_default index (key_of 5) (key_of 9) ≡ some true)
    × (less is_default index (key_of 0) (key_of 9) ≡ some false)
unfolding is_exact
less_not_transitive_example =
    less_not_transitive is_default index (key_of 3) 0 5 9 refl (omega arith) (omega arith) refl refl
      refl

equivalent_iff_example : equivalent is_default index (key_of 0) (key_of 9) ≡ (
    if (1 == 1) && (2 == 2) && (3 == 3)
    then (if is_exact playback || is_exact playback
        then none
        else some ((3 == 3) && ((is_default 0 && is_default 9) || ((0 == 9) && (4 == 4)))))
    else some false)
equivalent_iff_example = equivalent_iff is_default index (key_of 0) (key_of 9)

less-IsStrictWeak_example :
    (less is_default index (key_of 7) (key_of 0) ≡ some false)
    × ((less is_default index (key_of 0) (key_of 5) ≡ some true)
        ⊎ (less is_default index (key_of 5) (key_of 7) ≡ some true))
unfolding less is_exact
less-IsStrictWeak_example =
    less-IsStrictWeak is_default index 0 (key_of 0) (key_of 5) (key_of 7) (refl, refl) (refl, refl)
      (refl, refl) refl

-- A search that comes to every entry.
abbrev anywhere : ℕ → Bool
anywhere mixer = true

get_mixer-return_mixer_example :
    (t : MixerManager) × (get_mixer is_default index healthy
        (λ k. stereo)
        media
        anywhere
        21
        12
        (key_of 9)
        one_mixer
      ≡ some (true, some 20, t))
    × IsReferenced t.mixers
    × (t.sink_cache ≡ one_mixer.sink_cache)
    × (return_mixer 20 t ≡ some (note_latency index playback one_mixer))
unfolding find_mixer equivalent less is_exact
get_mixer-return_mixer_example =
    get_mixer-return_mixer is_default index healthy (λ k. stereo) media anywhere 21 12 (key_of 9)
      one_mixer (omega arith, refl, tt) refl (record { mixer = 20; ref_count = 1; sink = 10 }) refl

-- What the first request gives.
abbrev first_mixer : Bool × Option ℕ × MixerManager
first_mixer =
    elim (get_mixer is_default index healthy (λ k. stereo) media anywhere 20 10 (key_of 0)
      new_manager) [ none ↦ (false, none, new_manager) | some r ↦ r ]

first_mixer-Reachable : Reachable is_default index media first_mixer.2
unfolding new_manager get_mixer make_mixer note_latency get_mixer_output_params get_sink find_if
    find_mixer reuse_or_make equivalent less is_exact
first_mixer-Reachable = after new_manager first_mixer.2 at_first (
    requested new_manager first_mixer healthy (λ k. stereo) anywhere 20 10 (key_of 0) refl refl
      refl)

Reachable-IsServed_example : IsServed first_mixer.2
Reachable-IsServed_example =
    Reachable-IsServed is_default index media first_mixer.2 first_mixer-Reachable

Reachable-return_mixer_example :
    (t : MixerManager) × (return_mixer 20 first_mixer.2 ≡ some t) × IsServed t
unfolding new_manager get_mixer make_mixer note_latency get_mixer_output_params get_sink find_if
    find_mixer reuse_or_make equivalent less is_exact
Reachable-return_mixer_example =
    Reachable-return_mixer is_default index media first_mixer.2 20 first_mixer-Reachable refl

-- A request for another device, whose new sink is the first one that is not healthy.
abbrev some_healthy : ℕ → OutputDeviceInfo
some_healthy sink = record { status_ok = sink == 10; device_id = 0 }

Reachable-get_mixer_example :
    (r : Bool × Option ℕ × MixerManager) × (get_mixer is_default index some_healthy
        (λ k. stereo)
        media
        anywhere
        21
        12
        (key_of 5)
        first_mixer.2
      ≡ some r)
    × Made r
unfolding new_manager get_mixer make_mixer note_latency get_mixer_output_params get_sink find_if
    find_mixer reuse_or_make equivalent less is_exact
Reachable-get_mixer_example =
    Reachable-get_mixer is_default index media first_mixer.2 some_healthy (λ k. stereo) anywhere 21
      12 (key_of 5) first_mixer-Reachable refl refl refl (λ k. refl)
