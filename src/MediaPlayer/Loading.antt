-- ===== src/MediaPlayer/Loading.antt =====
-- The player with its data sources: what Load does to them, and the callbacks that they post.
use chromium_media_lib.Prelude.{
  ℕ, ◌≡◌, Bool, true, false, Option, some, none, List, [], ◌∷◌, ◌++◌, ◌>>=◌,
}
use chromium_media_lib.FileDataSource
use chromium_media_lib.FileDataSource.{FileDataSource}
use chromium_media_lib.ResourceDataSource
use chromium_media_lib.ResourceDataSource.{ResourceDataSource}
use chromium_media_lib.MediaPlayer.{
  MediaPlayer, MediaPlayerParams, PipelineCall, start_pipeline, new_player, load_url, load_path,
  data_source_initialized,
}

-- The init callbacks among the tasks of a source, with their arguments.
unfoldable pub file_inits : List FileDataSource.Task → List Bool
file_inits [] = []
file_inits (FileDataSource.read_task_due ∷ l) = file_inits l
file_inits (FileDataSource.init_done success ∷ l) = success ∷ file_inits l

unfoldable pub resource_inits : List ResourceDataSource.Task → List Bool
resource_inits [] = []
resource_inits (ResourceDataSource.read_now ∷ l) = resource_inits l
resource_inits (ResourceDataSource.read_later ∷ l) = resource_inits l
resource_inits (ResourceDataSource.init_done success ∷ l) = success ∷ resource_inits l

-- The player, its sources, and the calls of DataSourceInitialized that are posted to the main thread,
-- oldest first; they outlive the source that posted them.
pub record LoadedPlayer (Double Byte : Type 0) : Type 0 where
  pub player : MediaPlayer Double
  pub data_source : Option (FileDataSource Byte)
  pub resource_source : Option (ResourceDataSource Byte)
  pub posted : List Bool

-- What running the oldest callback makes of the calls to the pipeline.
abbrev pub started :
    {Double : Type 0} → Bool → List Bool → List (PipelineCall Double) → List (PipelineCall Double)
started has_file [] l = l
started has_file (false ∷ rest) l = l
started has_file (true ∷ rest) l = start_pipeline has_file ∷ l

module _ {Double Byte : Type 0} where
  unfoldable pub new_loaded : Double → Double → MediaPlayerParams → LoadedPlayer Double Byte
  unfolding new_player
  new_loaded zero_rate full_volume params = record {
    player = new_player zero_rate full_volume params;
    data_source = none;
    resource_source = none;
    posted = [];
  }

  -- Load of a path, `opened` being what mapping the file gives.
  unfoldable pub load_file :
      Option ((ℕ → Byte) × ℕ) → LoadedPlayer Double Byte → LoadedPlayer Double Byte
  unfolding load_path file_inits
  load_file opened s =
      let d = FileDataSource.initialize opened FileDataSource.new_source in
      record s {
        player = load_path s.player;
        data_source = some (record d { tasks = [] });
        posted = s.posted ++ file_inits d.tasks;
      }

  -- Load of an URL. Its source posts the callback when the response begins.
  unfoldable pub load_resource : Bool → LoadedPlayer Double Byte → Option (LoadedPlayer Double Byte)
  unfolding load_url
  load_resource on_io s = ResourceDataSource.initialize on_io ResourceDataSource.new_source >>= λ r.
      some (record s { player = load_url s.player; resource_source = some r })

  -- A response of the URL begins: what its source posts joins the main thread's queue.
  unfoldable pub response_begins : LoadedPlayer Double Byte → LoadedPlayer Double Byte
  unfolding resource_inits
  response_begins s = elim s.resource_source [
    | none ↦ s
    | some r ↦
        let t = ResourceDataSource.writer_initialize r in
        record s {
          resource_source = some (record t { tasks = [] });
          posted = s.posted ++ resource_inits t.tasks;
        }
  ]

  -- The main thread runs the oldest callback.
  unfoldable pub run_callback : LoadedPlayer Double Byte → Option (LoadedPlayer Double Byte)
  run_callback s = elim s.posted [
    | [] ↦ some s
    | success ∷ rest ↦ data_source_initialized success s.player >>= λ p.
        some (record s { player = p; posted = rest })
  ]

  pub data Step : LoadedPlayer Double Byte → LoadedPlayer Double Byte → Type 0 where
    file_loaded :
        (s : LoadedPlayer Double Byte) (opened : Option ((ℕ → Byte) × ℕ))
        → Step s (load_file opened s)
    resource_loaded :
        (s t : LoadedPlayer Double Byte) (on_io : Bool) → load_resource on_io s ≡ some t → Step s t
    response_began : (s : LoadedPlayer Double Byte) → Step s (response_begins s)
    called : (s t : LoadedPlayer Double Byte) → run_callback s ≡ some t → Step s t

  -- The states that a player comes to from one.
  pub data Later (s : LoadedPlayer Double Byte) : LoadedPlayer Double Byte → Type 0 where
    at_once : Later s s
    after : (t u : LoadedPlayer Double Byte) → Later s t → Step t u → Later s u
