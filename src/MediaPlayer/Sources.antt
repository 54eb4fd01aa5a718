-- ===== src/MediaPlayer/Sources.antt =====
-- The player with its data sources: which of them its callbacks start, and that there is one.
use chromium_media_lib.Prelude.{
  sym, ◌≢◌, some-injective, ℕ, ◌≡◌, ◌∙◌, refl, inl, inr, ◌⊎◌, Bool, true, false, ◌||◌, Option, some,
  none, List, [], ◌∷◌, arith, is_some, Bool-cases, Option-cases,
}
use chromium_media_lib.ResourceDataSource
use chromium_media_lib.ResourceDataSource.{ResourceDataSource}
use chromium_media_lib.MediaPlayer.{
  MediaPlayerParams, start_pipeline, call, load_url, load_path, data_source_initialized,
  start_pipeline_of_source,
}
use chromium_media_lib.MediaPlayer.Loading.{
  LoadedPlayer, new_loaded, load_file, load_resource, response_begins, run_callback, started, Step,
  file_loaded, resource_loaded, response_began, called, Later, at_once, after,
}

any_true : (b : Bool) → (b || true) ≡ true
any_true true = refl
any_true false = refl

module _ {Double Byte : Type 0} where
  -- The player knows of its sources, and there is one if a callback is posted.
  pub record IsLoaded (s : LoadedPlayer Double Byte) : Type 0 where
    pub file : s.player.has_data_source ≡ is_some s.data_source
    pub resource : s.player.has_resource_source ≡ is_some s.resource_source
    pub sourced : (s.posted ≡ []) ⊎ ((is_some s.data_source || is_some s.resource_source) ≡ true)

  pub run_callback-started :
      (posted : List Bool) (s : LoadedPlayer Double Byte)
      → s.posted ≡ posted
      → ((posted ≡ []) ⊎ ((s.player.has_data_source || s.player.has_resource_source) ≡ true))
      → (u : LoadedPlayer Double Byte) × (run_callback s ≡ some u)
        × (u.player.pipeline ≡ started s.player.has_data_source posted s.player.pipeline)
        × (u.player.paused ≡ s.player.paused)
        × (u.player.playback_rate ≡ s.player.playback_rate)
  unfolding run_callback data_source_initialized start_pipeline_of_source
  run_callback-started [] s e _ = (s, rw e refl, refl, refl, refl)
  run_callback-started (false ∷ rest) s e _ =
      (record s { posted = rest }, rw e refl, refl, refl, refl)
  run_callback-started (true ∷ rest) s e (inl nothing) = absurd (ground arith)
  run_callback-started (true ∷ rest) s e (inr source) = (
    record s {
      player =
          call (start_pipeline s.player.has_data_source) (record s.player { has_demuxer = true });
      posted = rest;
    },
    rw (e, source) refl,
    refl,
    refl,
    refl,
  )

  -- What running a callback leaves.
  run_callback-keeps :
      (posted : List Bool) (s t : LoadedPlayer Double Byte)
      → s.posted ≡ posted
      → run_callback s ≡ some t
      → (t.data_source ≡ s.data_source)
        × (t.resource_source ≡ s.resource_source)
        × (t.player.has_data_source ≡ s.player.has_data_source)
        × (t.player.has_resource_source ≡ s.player.has_resource_source)
        × ((t.posted ≡ []) ⊎ (s.posted ≢ []))
  unfolding run_callback data_source_initialized start_pipeline_of_source
  run_callback-keeps [] s t e run =
      let same : t ≡ s = some-injective _ _ (sym run ∙ rw e refl) in
      rw same (refl, refl, refl, refl, inl e)
  run_callback-keeps (false ∷ rest) s t e run =
      let same : t ≡ record s { posted = rest } = some-injective _ _ (sym run ∙ rw e refl) in
      rw same (refl, refl, refl, refl, inr (λ none_posted. ground arith))
  run_callback-keeps (true ∷ rest) s t e run =
      elim (Bool-cases (s.player.has_data_source || s.player.has_resource_source)) [
        | inl source ↦
            let same : t ≡ (record s {
              player =
                  call (start_pipeline s.player.has_data_source)
                    (record s.player { has_demuxer = true });
              posted = rest;
            }) =
              some-injective _ _ (sym run ∙ rw (e, source) refl) in
            rw same (refl, refl, refl, refl, inr (λ none_posted. ground arith))
        | inr nothing ↦ absurd (ground arith)
      ]

  load_resource-gives :
      (on_io : Bool) (s t : LoadedPlayer Double Byte)
      → load_resource on_io s ≡ some t
      → (r : ResourceDataSource Byte) × (t
          ≡ record s { player = load_url s.player; resource_source = some r })
  unfolding load_resource
  load_resource-gives on_io s t e =
      elim (Option-cases
        (ResourceDataSource.initialize on_io (ResourceDataSource.new_source {Byte = Byte}))) [
          | inl nothing ↦ absurd (ground arith)
          | inr (r, run) ↦ (r, some-injective _ _ (sym e ∙ rw run refl))
        ]

  response_begins-IsLoaded :
      (source : Option (ResourceDataSource Byte)) (s : LoadedPlayer Double Byte)
      → s.resource_source ≡ source
      → IsLoaded s
      → IsLoaded (response_begins s)
  unfolding response_begins
  response_begins-IsLoaded none s e w =
      rw e record { file = w.file; resource = w.resource ∙ rw e refl; sourced = ground arith }
  response_begins-IsLoaded (some r) s e w = rw e record {
    file = w.file;
    resource = w.resource ∙ rw e refl;
    sourced = inr (any_true (is_some s.data_source));
  }

  -- The sources after one call.
  Step-IsLoaded : (s t : LoadedPlayer Double Byte) → Step s t → IsLoaded s → IsLoaded t
  unfolding load_file response_begins load_path load_url
  Step-IsLoaded _ _ (file_loaded s opened) w = record {
    file = refl;
    resource = w.resource;
    sourced = inr refl;
  }
  Step-IsLoaded _ _ (resource_loaded s t on_io e) w =
      let (r, same) = load_resource-gives on_io s t e in
      record {
        file = rw same w.file;
        resource = rw same refl;
        sourced = rw same (inr (any_true (is_some s.data_source)));
      }
  Step-IsLoaded _ _ (response_began s) w = response_begins-IsLoaded s.resource_source s refl w
  Step-IsLoaded _ _ (called s t e) w =
      let (file, resource, has_file, has_resource, left) = run_callback-keeps s.posted s t refl e in
      record {
        file = has_file ∙ w.file ∙ rw file refl;
        resource = has_resource ∙ w.resource ∙ rw resource refl;
        sourced = elim left [
          | inl over ↦ inl over
          | inr some_left ↦ elim w.sourced [
            | inl nothing ↦ absurd (some_left nothing)
            | inr source ↦ inr (rw (file, resource) source)
          ]
        ];
      }

  Later-IsLoaded : (s t : LoadedPlayer Double Byte) → Later s t → IsLoaded s → IsLoaded t
  Later-IsLoaded s _ at_once w = w
  Later-IsLoaded s _ (after t u l step) w = Step-IsLoaded t u step (Later-IsLoaded s t l w)

  new_loaded-IsLoaded :
      (zero_rate full_volume : Double) (params : MediaPlayerParams)
      → IsLoaded (new_loaded zero_rate full_volume params)
  unfolding new_loaded
  new_loaded-IsLoaded zero_rate full_volume params = record {
    file = refl;
    resource = refl;
    sourced = inl refl;
  }

  -- A file is never given up.
  Step-has_data_source :
      (s t : LoadedPlayer Double Byte)
      → Step s t
      → s.player.has_data_source ≡ true
      → t.player.has_data_source ≡ true
  unfolding load_file load_path response_begins load_url
  Step-has_data_source _ _ (file_loaded s opened) h = refl
  Step-has_data_source _ _ (resource_loaded s t on_io e) h =
      let (r, same) = load_resource-gives on_io s t e in rw same h
  Step-has_data_source _ _ (response_began s) h = ground arith
  Step-has_data_source _ _ (called s t e) h =
      let (_, _, has_file, _, _) = run_callback-keeps s.posted s t refl e in has_file ∙ h

  Later-has_data_source :
      (s t : LoadedPlayer Double Byte)
      → Later s t
      → s.player.has_data_source ≡ true
      → t.player.has_data_source ≡ true
  Later-has_data_source s _ at_once h = h
  Later-has_data_source s _ (after t u l step) h =
      Step-has_data_source t u step (Later-has_data_source s t l h)

  -- In every state that a new player comes to by loads of files and URLs, responses that begin and
  -- callbacks that are run, the oldest posted call of DataSourceInitialized fails no DCHECK. If it
  -- brings success it starts the pipeline, on the file if one was loaded and otherwise on the URL;
  -- if not, it asks nothing of the pipeline.
  pub Later-run_callback :
      (zero_rate full_volume : Double) (params : MediaPlayerParams) (s : LoadedPlayer Double Byte)
      → Later (new_loaded zero_rate full_volume params) s
      → (t : LoadedPlayer Double Byte) × (run_callback s ≡ some t)
        × (t.player.pipeline ≡ started (is_some s.data_source) s.posted s.player.pipeline)
  Later-run_callback zero_rate full_volume params s l =
      let w =
        Later-IsLoaded (new_loaded zero_rate full_volume params) s l
          (new_loaded-IsLoaded zero_rate full_volume params) in
      let (t, run, calls, _, _) =
        run_callback-started s.posted s refl (rw (w.file, w.resource) w.sourced) in
      (t, run, calls ∙ rw w.file refl)

  -- Once a file was loaded, whatever is loaded, begins or is run afterwards, the oldest posted call
  -- of DataSourceInitialized fails no DCHECK and, if it brings success, starts the pipeline on the
  -- file, also if an URL was loaded last and the call is the URL's.
  pub run_callback-load_file :
      (opened : Option ((ℕ → Byte) × ℕ)) (s t : LoadedPlayer Double Byte)
      → Later (load_file opened s) t
      → (u : LoadedPlayer Double Byte) × (run_callback t ≡ some u)
        × (u.player.pipeline ≡ started true t.posted t.player.pipeline)
  unfolding load_file load_path
  run_callback-load_file opened s t l =
      let h = Later-has_data_source (load_file opened s) t l refl in
      let (u, run, calls, _, _) = run_callback-started t.posted t refl (inr (rw h refl)) in
      (u, run, calls ∙ rw h refl)
