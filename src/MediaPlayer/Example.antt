-- ===== src/MediaPlayer/Example.antt =====
-- example/main.cc: the program from its command line to the pipeline, with the data source that it
-- loads. The threads and the event loop are left out: the callbacks are run by `run_callback`.
use Prim.Native.String.{String}
use text.Mathlib.Text.{◌==◌ as str_eq}
use chromium_media_lib.Prelude.{
  ℕ, ◌≡◌, ◌∙◌, refl, inr, Bool, true, false, Option, some, none, ◌||◌, [], ◌∷◌, if◌then◌else◌,
  is_some, ◌>>=◌,
}
use chromium_media_lib.FileDataSource
use chromium_media_lib.ResourceDataSource
use chromium_media_lib.MultiBuffer.{start, new_multibuffer}
use chromium_media_lib.MediaPlayer.{
  playback_rate_set, initialize_source, sink_client_set, new_params, set_params_client, init, play,
  set_rate,
}
use chromium_media_lib.MediaPlayer.Starting.{init-gives}
use chromium_media_lib.MediaPlayer.Loading.{
  LoadedPlayer, new_loaded, load_file, load_resource, response_begins, run_callback, started,
}
use chromium_media_lib.MediaPlayer.Sources.{run_callback-started}

-- The media file and the resource, of which one is empty.
pub record MainParams : Type 0 where
  pub media_file : String
  pub resource_file : String

-- What main makes of the values of its switches; without any it shows its usage.
unfoldable pub main_params : Option String → Option String → Option MainParams
main_params (some media_file) _ = some (record { media_file = media_file; resource_file = "" })
main_params none (some resource_file) =
    some (record { media_file = ""; resource_file = resource_file })
main_params none none = none

module _ {Double Byte : Type 0} (lt : Double → Double → Bool) (equal : Double → Double → Bool)
    (zero_rate min_rate max_rate one : Double) where
  -- The end of init: SetRate and Play.
  abbrev pub set_going : LoadedPlayer Double Byte → LoadedPlayer Double Byte
  set_going s = record s {
    player = play (set_rate lt equal zero_rate min_rate max_rate one s.player);
  }

  -- The player that init makes.
  abbrev pub made_player : LoadedPlayer Double Byte
  made_player = new_loaded zero_rate one (set_params_client true new_params)

  -- init, `opened` being what mapping the media file gives, and `on_io` whether it runs on the io
  -- thread.
  unfoldable pub init_loaded :
      Option ((ℕ → Byte) × ℕ) → Bool → MainParams → Option (LoadedPlayer Double Byte)
  init_loaded opened on_io params =
      (if str_eq params.media_file ""
        then load_resource on_io made_player
        else some (load_file opened made_player))
      >>= λ s. some (set_going s)

  unfoldable pub main :
      Option ((ℕ → Byte) × ℕ)
      → Bool
      → Option String
      → Option String
      → Option (LoadedPlayer Double Byte)
  unfolding main_params
  main opened on_io media_file resource_file =
      main_params media_file resource_file >>= init_loaded opened on_io

  module _ (not_negative : lt one zero_rate ≡ false) (not_slow : lt one min_rate ≡ false)
      (not_fast : lt max_rate one ≡ false) where
    -- What holds of the player of the program after init.
    abbrev IsInitialized : Bool → LoadedPlayer Double Byte → Type 0
    IsInitialized has_file s =
        (s.player.pipeline
          ≡ playback_rate_set one ∷ initialize_source has_file ∷ sink_client_set true ∷ [])
        × (s.player.paused ≡ false)
        × (s.player.playback_rate ≡ one)
        × ((s.player.has_data_source || s.player.has_resource_source) ≡ true)
        × (s.player.has_data_source ≡ has_file)

    main-load_file :
        (opened : Option ((ℕ → Byte) × ℕ)) (on_io : Bool) (file : String) (resource : Option String)
        → str_eq file "" ≡ false
        → (s : LoadedPlayer Double Byte) × (main opened on_io (some file) resource ≡ some s)
          × (s.posted ≡ is_some opened ∷ [])
          × IsInitialized true s
    unfolding main init_loaded new_loaded load_file FileDataSource.initialize
        FileDataSource.new_source init
    main-load_file none on_io file resource e = (
      set_going (load_file none made_player),
      rw e refl,
      refl,
      init-gives lt equal zero_rate min_rate max_rate one not_negative not_slow not_fast true,
    )
    main-load_file (some x) on_io file resource e = (
      set_going (load_file (some x) made_player),
      rw e refl,
      refl,
      init-gives lt equal zero_rate min_rate max_rate one not_negative not_slow not_fast true,
    )

    main-load_resource :
        (opened : Option ((ℕ → Byte) × ℕ)) (on_io : Bool) (url : String)
        → (s : LoadedPlayer Double Byte) × (main opened on_io none (some url) ≡ some s)
          × (s.posted ≡ [])
          × ((response_begins s).posted ≡ true ∷ [])
          × IsInitialized false (response_begins s)
    unfolding main init_loaded new_loaded load_resource ResourceDataSource.initialize
        ResourceDataSource.new_source start new_multibuffer response_begins init
        ResourceDataSource.writer_initialize
    main-load_resource opened on_io url = (
      _,
      refl,
      refl,
      refl,
      init-gives lt equal zero_rate min_rate max_rate one not_negative not_slow not_fast false,
    )

    -- What the program comes to when the callback is run: it plays at the rate `one`, and the pipeline
    -- is started on the source if the callback brings success.
    abbrev pub IsRunning : Bool → Bool → LoadedPlayer Double Byte → Type 0
    IsRunning has_file success t =
        (t.player.paused ≡ false)
        × (t.player.playback_rate ≡ one)
        × (t.player.pipeline
            ≡ started has_file (success ∷ [])
                (playback_rate_set one ∷ initialize_source has_file ∷ sink_client_set true ∷ []))

    run_callback-IsRunning :
        (has_file success : Bool) (s : LoadedPlayer Double Byte)
        → s.posted ≡ success ∷ []
        → IsInitialized has_file s
        → (t : LoadedPlayer Double Byte) × (run_callback s ≡ some t) × IsRunning has_file success t
    run_callback-IsRunning has_file success s e (calls, playing, rate, source, file) =
        let (t, run, more, paused, same_rate) =
          run_callback-started (success ∷ []) s e (inr source) in
        (t, run, (paused ∙ playing, same_rate ∙ rate, more ∙ cc))

    -- If 1 is not below 0 and lies between the bounds, the program runs as follows. With a media file
    -- whose name is not empty, the player plays at the rate 1 once it has run the callback of the
    -- file; its calls have been, in this order, to give the video sink a client, to initialize the
    -- file, to set the rate 1 and, if the file could be mapped, to start the pipeline on the file.
    -- With a resource alone no callback is posted until the response begins, and then the calls are
    -- the same, with the URL for the file and the pipeline started.
    pub main-run_callback :
        (opened : Option ((ℕ → Byte) × ℕ)) (on_io : Bool) (file url : String)
        (resource : Option String)
        → str_eq file "" ≡ false
        → ((s t : LoadedPlayer Double Byte) × (main opened on_io (some file) resource ≡ some s)
            × (run_callback s ≡ some t)
            × IsRunning true (is_some opened) t)
          × ((s t : LoadedPlayer Double Byte) × (main opened on_io none (some url) ≡ some s)
              × (s.posted ≡ [])
              × (run_callback (response_begins s) ≡ some t)
              × IsRunning false true t)
    main-run_callback opened on_io file url resource e =
        let (s, run, posted, initialized) = main-load_file opened on_io file resource e in
        let (t, called, running) =
          run_callback-IsRunning true (is_some opened) s posted initialized in
        let (s', run', none_posted, posted', initialized') = main-load_resource opened on_io url in
        let (t', called', running') =
          run_callback-IsRunning false true (response_begins s') posted' initialized' in
        ((s, t, run, called, running), (s', t', run', none_posted, called', running'))
