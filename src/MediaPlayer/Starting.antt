-- ===== src/MediaPlayer/Starting.antt =====
-- The example program: from its start to the pipeline.
use chromium_media_lib.Prelude.{◌≡◌, refl, Bool, true, false, ◌||◌, some, [], ◌∷◌, arith}
use chromium_media_lib.MediaPlayer.{
  MediaPlayer, playback_rate_set, start_pipeline, initialize_source, sink_client_set, new_player,
  new_params, set_params_client, load_url, load_path, play, set_rate, clamp_rate, init,
  data_source_initialized, start_pipeline_of_source,
}

module _ {Double : Type 0} (lt : Double → Double → Bool) (equal : Double → Double → Bool)
    (zero_rate min_rate max_rate one : Double) (not_negative : lt one zero_rate ≡ false)
    (not_slow : lt one min_rate ≡ false) (not_fast : lt max_rate one ≡ false) where
  clamp_rate-one : clamp_rate lt equal zero_rate min_rate max_rate one ≡ one
  unfolding clamp_rate
  clamp_rate-one = ground arith

  pub init-gives :
      (has_file : Bool)
      → let s = init lt equal zero_rate min_rate max_rate one has_file in
        (s.pipeline
          ≡ playback_rate_set one ∷ initialize_source has_file ∷ sink_client_set true ∷ [])
        × (s.paused ≡ false)
        × (s.playback_rate ≡ one)
        × ((s.has_data_source || s.has_resource_source) ≡ true)
        × (s.has_data_source ≡ has_file)
  unfolding init new_player new_params set_params_client load_url load_path play set_rate
  init-gives true = rw (not_negative, clamp_rate-one) (refl, refl, refl, refl, refl)
  init-gives false = rw (not_negative, clamp_rate-one) (refl, refl, refl, refl, refl)

  start_pipeline-gives :
      (s : MediaPlayer Double)
      → (s.has_data_source || s.has_resource_source) ≡ true
      → data_source_initialized true s
        ≡ some (record s {
          has_demuxer = true;
          pipeline = start_pipeline s.has_data_source ∷ s.pipeline;
        })
  unfolding data_source_initialized start_pipeline_of_source
  start_pipeline-gives s e = rw e refl

  -- If 1 is not below 0 and lies between the bounds, the example's player, once its data source is
  -- initialized with success, plays at the rate 1: its calls have been, in this order, to give the
  -- video sink a client, to initialize the source (the file if there is one, otherwise the URL), to
  -- set the rate 1 and to start the pipeline on that source. If the source fails, nothing more is
  -- called.
  init-data_source_initialized :
      (has_file : Bool)
      → let started = init lt equal zero_rate min_rate max_rate one has_file in
        (u : MediaPlayer Double) × (data_source_initialized true started ≡ some u)
        × (data_source_initialized false started ≡ some started)
        × (u.paused ≡ false)
        × (u.playback_rate ≡ one)
        × (u.pipeline
            ≡ start_pipeline has_file
              ∷ playback_rate_set one
              ∷ initialize_source has_file
              ∷ sink_client_set true
              ∷ [])
  unfolding data_source_initialized
  init-data_source_initialized has_file =
      let s = init lt equal zero_rate min_rate max_rate one has_file in
      let (calls, playing, rate, source, file) = init-gives has_file in
      (
        record s { has_demuxer = true; pipeline = start_pipeline s.has_data_source ∷ s.pipeline },
        start_pipeline-gives s source,
        refl,
        playing,
        rate,
        rw (file, calls) refl,
      )
