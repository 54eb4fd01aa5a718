-- ===== src/MediaPlayer/Rates.antt =====
-- MediaPlayerImpl: the rate of the pipeline, and the time of a paused player.
use chromium_media_lib.Prelude.{
  ℕ, ◌≡◌, refl, ◌⊎◌, inl, inr, Bool, true, false, some, List, [], ◌∷◌, arith, if◌then◌else◌,
  Bool-cases,
}
use chromium_media_lib.MediaPlayer.{
  MediaPlayer, PipelineCall, playback_rate_set, volume_set_to, set_volume, seek_to, start_pipeline,
  initialize_source, sink_client_set, MediaPlayerParams, PipelineMetadata,
  set_video_renderer_sink_client, on_metadata, on_audio_config_change, on_video_config_change,
  new_player, load_url, load_path, play, pause, do_seek, seek, on_ended, data_source_initialized,
  start_pipeline_of_source, on_pipeline_seeked, clamp_rate, set_rate,
}

module _ {Double : Type 0} (lt : Double → Double → Bool) (equal : Double → Double → Bool)
    (zero_rate min_rate max_rate : Double) where
  -- The rate that the pipeline was last asked for; a new pipeline stands still.
  abbrev pub pipeline_rate : List (PipelineCall Double) → Double
  pipeline_rate [] = zero_rate
  pipeline_rate (playback_rate_set rate ∷ l) = rate
  pipeline_rate (volume_set_to volume ∷ l) = pipeline_rate l
  pipeline_rate (seek_to time updated ∷ l) = pipeline_rate l
  pipeline_rate (start_pipeline file ∷ l) = pipeline_rate l
  pipeline_rate (initialize_source file ∷ l) = pipeline_rate l
  pipeline_rate (sink_client_set client ∷ l) = pipeline_rate l

  -- The rates that SetRate lets through: 0, and those neither below the bounds nor above them.
  abbrev pub Allowed : Double → Type 0
  Allowed rate =
      (equal rate zero_rate ≡ true) ⊎ ((lt rate min_rate ≡ false) × (lt max_rate rate ≡ false))

  -- What the user, the pipeline and the data source do to a player.
  pub data Step : MediaPlayer Double → MediaPlayer Double → Type 0 where
    played : (s : MediaPlayer Double) → Step s (play s)
    was_paused :
        (s : MediaPlayer Double) (duration media_time : ℕ)
        → Step s (pause zero_rate duration media_time s)
    sought : (s : MediaPlayer Double) (time : ℕ) → Step s (seek time s)
    rated :
        (s : MediaPlayer Double) (rate : Double)
        → Step s (set_rate lt equal zero_rate min_rate max_rate rate s)
    volume_set : (s : MediaPlayer Double) (volume : Double) → Step s (set_volume volume s)
    loaded_url : (s : MediaPlayer Double) → Step s (load_url s)
    loaded_path : (s : MediaPlayer Double) → Step s (load_path s)
    has_ended : (s : MediaPlayer Double) → Step s (on_ended s)
    initialized :
        (s t : MediaPlayer Double) (success : Bool)
        → data_source_initialized success s ≡ some t
        → Step s t
    has_sought :
        (s : MediaPlayer Double) (media_time : ℕ) → Step s (on_pipeline_seeked media_time s)
    client_set :
        (s t : MediaPlayer Double) (client : Bool)
        → set_video_renderer_sink_client client s ≡ some t
        → Step s t
    described :
        (s : MediaPlayer Double) (metadata : PipelineMetadata) → Step s (on_metadata metadata s)
    audio_changed :
        (s : MediaPlayer Double) (unset config : ℕ) → Step s (on_audio_config_change unset config s)
    video_changed :
        (s : MediaPlayer Double) (unset config : ℕ) → Step s (on_video_config_change unset config s)

  pub data Reachable (full_volume : Double) : MediaPlayer Double → Type 0 where
    at_first :
        (params : MediaPlayerParams)
        → Reachable full_volume (new_player zero_rate full_volume params)
    after :
        (s t : MediaPlayer Double) → Reachable full_volume s → Step s t → Reachable full_volume t

  abbrev pub IsInStep : MediaPlayer Double → Type 0
  IsInStep s =
      (pipeline_rate s.pipeline ≡ (if s.paused then zero_rate else s.playback_rate))
      × Allowed s.playback_rate

  module _ (order_refl : (x : Double) → lt x x ≡ false)
      (zero_equal : equal zero_rate zero_rate ≡ true) (bounds : lt max_rate min_rate ≡ false) where
    clamp_rate-Allowed :
        (rate : Double) → Allowed (clamp_rate lt equal zero_rate min_rate max_rate rate)
    unfolding clamp_rate
    clamp_rate-Allowed rate = elim (Bool-cases (equal rate zero_rate)) [
      | inl zero ↦ rw zero (inl zero)
      | inr moving ↦ rw moving (elim (Bool-cases (lt rate min_rate)) [
        | inl slow ↦ rw slow (inr (order_refl min_rate, bounds))
        | inr not_slow ↦ rw not_slow (elim (Bool-cases (lt max_rate rate)) [
          | inl fast ↦ rw fast (inr (bounds, order_refl max_rate))
          | inr not_fast ↦ rw not_fast (inr (not_slow, not_fast))
        ])
      ])
    ]

    step-IsInStep : (s t : MediaPlayer Double) → Step s t → IsInStep s → IsInStep t
    unfolding play pause seek do_seek set_rate set_volume load_url load_path on_ended
        data_source_initialized start_pipeline_of_source on_pipeline_seeked
        set_video_renderer_sink_client on_metadata on_audio_config_change on_video_config_change
    step-IsInStep _ _ (played s) c = (refl, c.1)
    step-IsInStep _ _ (was_paused s duration media_time) c = (refl, c.1)
    step-IsInStep _ _ (sought s time) c = c
    step-IsInStep _ _ (rated s rate) c = (ground arith, ground (arith, clamp_rate-Allowed rate))
    step-IsInStep _ _ (volume_set s volume) c = c
    step-IsInStep _ _ (loaded_url s) c = c
    step-IsInStep _ _ (loaded_path s) c = c
    step-IsInStep _ _ (has_ended s) c = c
    step-IsInStep _ _ (initialized s t success e) c = ground arith
    step-IsInStep _ _ (has_sought s media_time) c = c
    step-IsInStep _ _ (client_set s t client e) c = ground arith
    step-IsInStep _ _ (described s metadata) c = c
    step-IsInStep _ _ (audio_changed s unset config) c = c
    step-IsInStep _ _ (video_changed s unset config) c = c

    -- If no double is below itself, 0 equals itself, and the highest rate is not below the lowest: in
    -- every state that a new player comes to by its controls and the pipeline's callbacks, the
    -- pipeline was last asked for the player's rate, or for 0 while the player is paused; and the
    -- player's rate is 0, or neither below the lowest nor above the highest rate. A rate that
    -- compares with nothing, NaN, is among the latter.
    pub Reachable-IsInStep :
        (full_volume : Double) (s : MediaPlayer Double) → Reachable full_volume s → IsInStep s
    unfolding new_player
    Reachable-IsInStep full_volume _ (at_first params) = (ground arith, inl zero_equal)
    Reachable-IsInStep full_volume _ (after s t r step) =
        step-IsInStep s t step (Reachable-IsInStep full_volume s r)
