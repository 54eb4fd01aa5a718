-- ===== src/RendererHost/Filter.antt =====
-- audio_message_filter.cc: the one filter. `g_filter` is the number of the filter that it points to.
use chromium_media_lib.Prelude.{ℕ, Option, some, none, ◌==◌, if◌then◌else◌}

unfoldable pub new_filter : ℕ → Option ℕ → Option (Option ℕ)
new_filter filter none = some (some filter)
new_filter filter (some _) = none

unfoldable pub destroy_filter : ℕ → Option ℕ → Option (Option ℕ)
destroy_filter filter none = none
destroy_filter filter (some g_filter) = if g_filter == filter then some none else none

abbrev pub get : Option ℕ → Option ℕ
get g_filter = g_filter
