-- ===== src/SinkCache.antt =====
-- audio_renderer_sink_cache_impl.h and audio_renderer_sink_cache_impl.cc: the cache of audio
-- renderer sinks. A sink is named by a number (its pointer), as are device ids and origins. Which
-- device ids mean the default device, whether a session id selects the device, and what a sink says
-- of its device are parameters; a sink that the creation callback makes is an argument. The deletions
-- that are posted with a delay are kept in the state, as are the sinks that were stopped. A failed
-- DCHECK is `none`.
pub mod Entries
pub mod Use
pub mod Others
mod Tests
use chromium_media_lib.Prelude.{
  ℕ, Bool, true, false, ◌&&◌, ◌||◌, not, Option, some, none, List, [], ◌∷◌, ◌++◌, ◌==◌,
  if◌then◌else◌, ◌>>=◌, length,
}

-- What a device says of itself: whether its status is OK, and its id.
pub record OutputDeviceInfo : Type 0 where
  pub status_ok : Bool
  pub device_id : ℕ

pub record CacheEntry : Type 0 where
  pub source_render_frame_id : ℕ
  pub device_id : ℕ
  pub security_origin : ℕ
  pub sink : ℕ
  pub used : Bool

pub record SinkCache : Type 0 where
  pub cache : List CacheEntry
  -- The sinks of the posted DeleteSink calls, oldest first.
  pub delayed : List ℕ
  pub stopped : List ℕ

unfoldable pub new_cache : SinkCache
new_cache = record { cache = []; delayed = []; stopped = [] }

-- The first entry with a test, and the list of the others.
unfoldable pub find_if : (CacheEntry → Bool) → List CacheEntry → Option CacheEntry
find_if test [] = none
find_if test (e ∷ l) = if test e then some e else find_if test l

-- `cache_.erase` of the first entry with a test.
unfoldable pub erase_if : (CacheEntry → Bool) → List CacheEntry → List CacheEntry
erase_if test [] = []
erase_if test (e ∷ l) = if test e then l else e ∷ erase_if test l

-- `cache_iter->used = true` at the first entry with a test.
unfoldable pub use_if : (CacheEntry → Bool) → List CacheEntry → List CacheEntry
use_if test [] = []
use_if test (e ∷ l) = if test e then record e { used = true } ∷ l else e ∷ use_if test l

abbrev pub has_sink : ℕ → CacheEntry → Bool
has_sink sink e = e.sink == sink

-- DeleteSink, forced or not.
unfoldable pub delete_sink : ℕ → Bool → SinkCache → Option SinkCache
delete_sink sink force_delete_used s = elim (find_if (has_sink sink) s.cache) [
  | none ↦ some s
  | some e ↦
      if force_delete_used && not e.used
      then none
      else if not force_delete_used && e.used
      then some s
      else some (record s {
        cache = erase_if (has_sink sink) s.cache;
        stopped = if e.used then s.stopped else sink ∷ s.stopped;
      })
]

unfoldable pub release_sink : ℕ → SinkCache → Option SinkCache
release_sink sink s = delete_sink sink true s

unfoldable pub delete_later_if_unused : ℕ → SinkCache → SinkCache
delete_later_if_unused sink s = record s { delayed = s.delayed ++ sink ∷ [] }

-- The delay of the oldest posted deletion is over.
unfoldable pub run_delayed : SinkCache → Option SinkCache
run_delayed s = elim s.delayed [
  | [] ↦ some s
  | sink ∷ rest ↦ delete_sink sink false (record s { delayed = rest })
]

-- The destructor stops all the sinks.
unfoldable pub stop_all : List CacheEntry → List ℕ → List ℕ
stop_all [] stopped = stopped
stop_all (e ∷ l) stopped = stop_all l (e.sink ∷ stopped)

unfoldable pub destroy : SinkCache → List ℕ
destroy s = stop_all s.cache s.stopped

unfoldable pub get_cache_size_for_testing : SinkCache → ℕ
get_cache_size_for_testing s = length s.cache

module _ (is_default_device : ℕ → Bool) (info : ℕ → OutputDeviceInfo) where
  abbrev pub sink_is_healthy : ℕ → Bool
  sink_is_healthy sink = (info sink).status_ok

  -- The test of FindCacheEntry_Locked.
  unfoldable pub matches : ℕ → ℕ → ℕ → Bool → CacheEntry → Bool
  matches source_render_frame_id device_id security_origin unused_only e =
      if e.used && unused_only
      then false
      else if not (e.source_render_frame_id == source_render_frame_id)
      then false
      else if is_default_device device_id && is_default_device e.device_id
      then true
      else (e.device_id == device_id) && (e.security_origin == security_origin)

  unfoldable pub cache_unused_sink_if_healthy : ℕ → ℕ → ℕ → ℕ → SinkCache → SinkCache
  cache_unused_sink_if_healthy source_render_frame_id device_id security_origin sink s =
      let e : CacheEntry = record {
        source_render_frame_id = source_render_frame_id;
        device_id = device_id;
        security_origin = security_origin;
        sink = sink;
        used = false;
      } in
      if sink_is_healthy sink
      then delete_later_if_unused sink (record s { cache = s.cache ++ e ∷ [] })
      else s

  -- GetSinkInfo, `created` being the sink that the creation callback would make, and
  -- `use_session_id` whether the session id selects the device.
  unfoldable pub get_sink_info : Bool → ℕ → ℕ → ℕ → ℕ → SinkCache → OutputDeviceInfo × SinkCache
  get_sink_info use_session_id created source_render_frame_id device_id security_origin s =
      if use_session_id
      then (
        info created,
        cache_unused_sink_if_healthy source_render_frame_id (info created).device_id security_origin
            created s,
      )
      else elim (find_if (matches source_render_frame_id device_id security_origin false) s.cache) [
        | some e ↦ (info e.sink, s)
        | none ↦ (
          info created,
          cache_unused_sink_if_healthy source_render_frame_id device_id security_origin created s,
        )
      ]

  -- GetSink: the sink, and the new state.
  unfoldable pub get_sink : ℕ → ℕ → ℕ → ℕ → SinkCache → ℕ × SinkCache
  get_sink created source_render_frame_id device_id security_origin s =
      let test = matches source_render_frame_id device_id security_origin true in
      let e : CacheEntry = record {
        source_render_frame_id = source_render_frame_id;
        device_id = device_id;
        security_origin = security_origin;
        sink = created;
        used = true;
      } in
      elim (find_if test s.cache) [
        | some found ↦ (found.sink, record s { cache = use_if test s.cache })
        | none ↦
            (created, if sink_is_healthy created then record s { cache = s.cache ++ e ∷ [] } else s)
      ]
