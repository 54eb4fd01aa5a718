-- ===== src/SourceProvider/Tests.antt =====
-- Examples: a provider whose sink 1 is not OK falls back to the null sink 2.
use chromium_media_lib.Prelude.{ℕ, ◌≡◌, refl, Bool, true, some, ◌==◌, if◌then◌else◌}
use chromium_media_lib.SourceProvider.{
  SourceProvider, new_provider, initialize, device_ok, is_initialized,
}
use chromium_media_lib.SourceProvider.Fallback.{initialize-device_ok}

abbrev only_null_sink : ℕ → Bool
only_null_sink k = k == 2

abbrev silent : SourceProvider ℕ
silent = new_provider 1 (some 1)

initialize-device_ok_example :
    (t : SourceProvider ℕ) × (initialize only_null_sink 2 30 2 48000 silent ≡ some t)
    × (device_ok only_null_sink t ≡ true)
    × (is_initialized t.tee_filter ≡ true)
    × (t.sink ≡ (if device_ok only_null_sink silent then silent.sink else some 2))
initialize-device_ok_example = initialize-device_ok only_null_sink 2 30 2 48000 silent refl
