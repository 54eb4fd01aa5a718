-- ===== src/MediaPlayer.antt =====
-- mediaplayer_impl.h and mediaplayer_impl.cc: the player's own state, and what it asks of the
-- pipeline controller. Times are numbers; a rate or a volume is a value of `Double`, whose order is
-- the parameter `lt`. What the pipeline answers is an argument. Decoder configurations are numbers.
-- A failed DCHECK or NOTREACHED is `none`. Also mediaplayer_params.h and, in example/main.cc, what it
-- does with a player.
pub mod Rates
pub mod Starting
pub mod Loading
pub mod Sources
pub mod Example
mod Tests
use chromium_media_lib.Prelude.{
  ℕ, Bool, true, false, ◌&&◌, ◌||◌, not, Option, some, none, List, [], ◌∷◌, if◌then◌else◌,
}

-- The calls of the pipeline controller, and of Initialize of a data source.
pub data PipelineCall (Double : Type 0) : Type 0 where
  playback_rate_set volume_set_to : Double → PipelineCall Double
  seek_to : ℕ → Bool → PipelineCall Double
  -- The source is the file if there is one; never streaming, always static.
  start_pipeline : Bool → PipelineCall Double
  -- Of the file if there is one.
  initialize_source : Bool → PipelineCall Double
  -- SetVideoRendererSinkClient of the video sink, with whether there is a client.
  sink_client_set : Bool → PipelineCall Double

-- What the player reads of its parameters, besides the task runners.
pub record MediaPlayerParams : Type 0 where
  pub has_media_log : Bool
  pub has_video_renderer_sink_client : Bool

unfoldable pub new_params : MediaPlayerParams
new_params = record { has_media_log = true; has_video_renderer_sink_client = false }

-- Whether there was a log, which is moved out.
unfoldable pub take_media_log : MediaPlayerParams → Bool × MediaPlayerParams
take_media_log p = (p.has_media_log, record p { has_media_log = false })

unfoldable pub set_params_client : Bool → MediaPlayerParams → MediaPlayerParams
set_params_client client p = record p { has_video_renderer_sink_client = client }

pub record PipelineMetadata : Type 0 where
  pub audio_decoder_config : ℕ
  pub video_decoder_config : ℕ

-- Of the statistics that the pipeline keeps, what the player reads.
pub record PipelineStatistics : Type 0 where
  pub audio_bytes_decoded : ℕ
  pub video_bytes_decoded : ℕ

pub record MediaPlayer (Double : Type 0) : Type 0 where
  pub playback_rate : Double
  pub paused : Bool
  pub paused_time : ℕ
  pub seeking : Bool
  pub seek_time : ℕ
  pub ended : Bool
  pub volume : Double
  pub has_data_source : Bool
  pub has_resource_source : Bool
  pub has_demuxer : Bool
  pub has_media_log : Bool
  pub pipeline_metadata : Option PipelineMetadata
  -- The last call first.
  pub pipeline : List (PipelineCall Double)

-- `unset` is the default configuration.
abbrev pub metadata_or : ℕ → Option PipelineMetadata → PipelineMetadata
metadata_or unset none = record { audio_decoder_config = unset; video_decoder_config = unset }
metadata_or unset (some m) = m

module _ {Double : Type 0} where
  abbrev pub call : PipelineCall Double → MediaPlayer Double → MediaPlayer Double
  call c s = record s { pipeline = c ∷ s.pipeline }

  -- The player that the constructor makes, from the doubles 0 and 1. The metadata is the default one
  -- until it is set.
  unfoldable pub new_player : Double → Double → MediaPlayerParams → MediaPlayer Double
  unfolding take_media_log
  new_player zero_rate full_volume params = record {
    playback_rate = zero_rate;
    paused = true;
    paused_time = 0;
    seeking = false;
    seek_time = 0;
    ended = false;
    volume = full_volume;
    has_data_source = false;
    has_resource_source = false;
    has_demuxer = false;
    has_media_log = (take_media_log params).0;
    pipeline_metadata = none;
    pipeline = if params.has_video_renderer_sink_client then sink_client_set true ∷ [] else [];
  }

  -- Load of an URL, and of a path.
  unfoldable pub load_url : MediaPlayer Double → MediaPlayer Double
  load_url s = call (initialize_source false) (record s { has_resource_source = true })

  unfoldable pub load_path : MediaPlayer Double → MediaPlayer Double
  load_path s = call (initialize_source true) (record s { has_data_source = true })

  unfoldable pub play : MediaPlayer Double → MediaPlayer Double
  play s = call (playback_rate_set s.playback_rate) (record s { paused = false })

  -- `duration` and `media_time` are the pipeline's.
  unfoldable pub pause : Double → ℕ → ℕ → MediaPlayer Double → MediaPlayer Double
  pause zero_rate duration media_time s =
      call (playback_rate_set zero_rate)
        (record s { paused = true; paused_time = if s.ended then duration else media_time })

  unfoldable pub supports_save : MediaPlayer Double → Bool
  supports_save s = false

  unfoldable pub do_seek : ℕ → Bool → MediaPlayer Double → MediaPlayer Double
  do_seek time time_updated s = call (seek_to time time_updated) (record s {
    ended = false;
    seeking = true;
    paused_time = if s.paused then time else s.paused_time;
  })

  -- `time` is the time that the seconds are.
  unfoldable pub seek : ℕ → MediaPlayer Double → MediaPlayer Double
  seek time s = do_seek time true s

  unfoldable pub set_volume : Double → MediaPlayer Double → MediaPlayer Double
  set_volume volume s = call (volume_set_to volume) (record s { volume = volume })

  unfoldable pub on_error : MediaPlayer Double → Option (MediaPlayer Double)
  on_error s = none

  unfoldable pub set_video_renderer_sink_client :
      Bool → MediaPlayer Double → Option (MediaPlayer Double)
  set_video_renderer_sink_client client s =
      if client then some (call (sink_client_set client) s) else none

  unfoldable pub on_metadata : PipelineMetadata → MediaPlayer Double → MediaPlayer Double
  on_metadata metadata s = record s { pipeline_metadata = some metadata }

  unfoldable pub on_audio_config_change : ℕ → ℕ → MediaPlayer Double → MediaPlayer Double
  on_audio_config_change unset config s = record s {
    pipeline_metadata =
        some (record (metadata_or unset s.pipeline_metadata) { audio_decoder_config = config });
  }

  unfoldable pub on_video_config_change : ℕ → ℕ → MediaPlayer Double → MediaPlayer Double
  on_video_config_change unset config s = record s {
    pipeline_metadata =
        some (record (metadata_or unset s.pipeline_metadata) { video_decoder_config = config });
  }

  -- OnAddTextTrack, OnWaitingForDecryptionKey and OnEncryptedMediaInitData.
  unfoldable pub on_add_text_track : MediaPlayer Double → Option (MediaPlayer Double)
  on_add_text_track s = none

  unfoldable pub on_waiting_for_decryption_key : MediaPlayer Double → Option (MediaPlayer Double)
  on_waiting_for_decryption_key s = none

  unfoldable pub on_encrypted_media_init_data : MediaPlayer Double → Option (MediaPlayer Double)
  on_encrypted_media_init_data s = none

  unfoldable pub on_media_tracks_updated : MediaPlayer Double → Option (MediaPlayer Double)
  on_media_tracks_updated s = if s.has_demuxer then some s else none

  unfoldable pub on_ended : MediaPlayer Double → MediaPlayer Double
  on_ended s = record s { ended = true }

  -- `pipeline` is what the pipeline controller says.
  unfoldable pub get_pipeline_statistics :
      PipelineStatistics → MediaPlayer Double → PipelineStatistics
  get_pipeline_statistics pipeline s = pipeline

  unfoldable pub start_pipeline_of_source : MediaPlayer Double → Option (MediaPlayer Double)
  start_pipeline_of_source s =
      if s.has_data_source || s.has_resource_source
      then some (call (start_pipeline s.has_data_source) (record s { has_demuxer = true }))
      else none

  unfoldable pub audio_decoded_byte_count : PipelineStatistics → MediaPlayer Double → ℕ
  unfolding get_pipeline_statistics
  audio_decoded_byte_count pipeline s = (get_pipeline_statistics pipeline s).audio_bytes_decoded

  unfoldable pub video_decoded_byte_count : PipelineStatistics → MediaPlayer Double → ℕ
  unfolding get_pipeline_statistics
  video_decoded_byte_count pipeline s = (get_pipeline_statistics pipeline s).video_bytes_decoded

  unfoldable pub get_pipeline_media_duration : ℕ → MediaPlayer Double → ℕ
  get_pipeline_media_duration pipeline s = pipeline

  unfoldable pub data_source_initialized : Bool → MediaPlayer Double → Option (MediaPlayer Double)
  data_source_initialized success s = if success then start_pipeline_of_source s else some s

  unfoldable pub on_pipeline_seeked : ℕ → MediaPlayer Double → MediaPlayer Double
  on_pipeline_seeked media_time s = record s {
    seeking = false;
    seek_time = 0;
    paused_time = if s.paused then media_time else s.paused_time;
  }

  module _ (lt : Double → Double → Bool) (equal : Double → Double → Bool)
      (zero_rate min_rate max_rate : Double) where
    -- The rate that SetRate makes of one that is not negative.
    unfoldable pub clamp_rate : Double → Double
    clamp_rate rate =
        if not (equal rate zero_rate)
        then (if lt rate min_rate then min_rate else if lt max_rate rate then max_rate else rate)
        else rate

    unfoldable pub set_rate : Double → MediaPlayer Double → MediaPlayer Double
    set_rate rate s =
        let t = record s { playback_rate = clamp_rate rate } in
        if lt rate zero_rate
        then s
        else if not s.paused
        then call (playback_rate_set (clamp_rate rate)) t
        else t

    -- The example program: a player that loads a file if there is one, and plays at the rate `one`.
    unfoldable pub init : Double → Bool → MediaPlayer Double
    unfolding new_params set_params_client
    init one has_file =
        let made = new_player zero_rate one (set_params_client true new_params) in
        play (set_rate one (if has_file then load_path made else load_url made))
