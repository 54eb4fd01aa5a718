-- ===== src/SinkCache/Tests.antt =====
-- Examples: a cache with one sink in use and one unused, both of the default device 0.
use chromium_media_lib.Prelude.{ℕ, ◌≡◌, refl, inl, inr, Bool, true, false, some, [], ◌∷◌, ◌==◌}
use chromium_media_lib.SinkCache.{
  OutputDeviceInfo, CacheEntry, SinkCache, get_sink, run_delayed, find_if,
}
use chromium_media_lib.SinkCache.Entries.{IsTidy, in_use}
use chromium_media_lib.SinkCache.Use.{Given, get_sink-Given, run_delayed-IsTidy}

abbrev is_default : ℕ → Bool
is_default d = d == 0

abbrev healthy : ℕ → OutputDeviceInfo
healthy sink = record { status_ok = true; device_id = 0 }

abbrev entry_of : ℕ → Bool → CacheEntry
entry_of sink used = record {
  source_render_frame_id = 1;
  device_id = 0;
  security_origin = 4;
  sink = sink;
  used = used;
}

abbrev two_sinks : SinkCache
two_sinks = record {
  cache = entry_of 10 true ∷ entry_of 11 false ∷ [];
  delayed = 11 ∷ [];
  stopped = [];
}

two_sinks-IsTidy : IsTidy two_sinks
unfolding find_if
two_sinks-IsTidy = ((refl, (refl, tt)), (inl refl, (inr refl, tt)))

get_sink-Given_example :
    Given is_default healthy 12 two_sinks (get_sink is_default healthy 12 1 0 9 two_sinks)
unfolding find_if
get_sink-Given_example = get_sink-Given is_default healthy 12 1 0 9 two_sinks two_sinks-IsTidy refl

run_delayed-IsTidy_example :
    (t : SinkCache) × (run_delayed two_sinks ≡ some t)
    × IsTidy t
    × ((j : ℕ) → in_use j t ≡ in_use j two_sinks)
run_delayed-IsTidy_example = run_delayed-IsTidy two_sinks two_sinks-IsTidy
