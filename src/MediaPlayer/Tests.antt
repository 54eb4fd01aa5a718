-- ===== src/MediaPlayer/Tests.antt =====
-- Examples: rates in sixteenths, of a player that plays at a rate that was too high; and a player
-- that loads a file of eight bytes and then an URL.
use chromium_media_lib.Prelude.{
  ℕ, Option, none, is_some, ◌≡◌, true, false, some, [], refl, arith, ltb, ◌==◌,
}
use chromium_media_lib.MediaPlayer.{MediaPlayer, load_url, new_player, new_params, play, set_rate}
use chromium_media_lib.MediaPlayer.Sources.{Later-run_callback, run_callback-load_file}
use chromium_media_lib.MediaPlayer.Example.{main, IsRunning, main-run_callback}
use chromium_media_lib.MediaPlayer.Rates.{
  at_first, after, played, rated, IsInStep, Reachable-IsInStep,
}
use chromium_media_lib.MultiBuffer.{start, new_multibuffer}
use chromium_media_lib.ResourceDataSource.{ResourceDataSource}
use chromium_media_lib.ResourceDataSource
use chromium_media_lib.MediaPlayer.Loading.{
  LoadedPlayer, Step, Later, at_once, new_loaded, load_file, load_resource, response_begins,
  run_callback, started, file_loaded, resource_loaded, response_began,
}
use chromium_media_lib.MediaPlayer.Loading

abbrev fast : MediaPlayer ℕ
fast = set_rate ltb ◌==◌ 0 1 256 1000 (play (new_player 0 16 new_params))

Reachable-IsInStep_example : IsInStep ltb ◌==◌ 0 1 256 fast
Reachable-IsInStep_example =
    Reachable-IsInStep ltb ◌==◌ 0 1 256 (λ x. ground arith) refl refl 16 fast
      (after (play (new_player 0 16 new_params)) fast
        (after (new_player 0 16 new_params) (play (new_player 0 16 new_params))
          (at_first new_params) (played (new_player 0 16 new_params)))
        (rated (play (new_player 0 16 new_params)) 1000))

abbrev fresh : LoadedPlayer ℕ ℕ
fresh = new_loaded 0 16 new_params

abbrev with_file : LoadedPlayer ℕ ℕ
with_file = load_file (some (λ i. i, 8)) fresh

abbrev or_new : Option (ResourceDataSource ℕ) → ResourceDataSource ℕ
or_new none = ResourceDataSource.new_source
or_new (some r) = r

abbrev with_url : LoadedPlayer ℕ ℕ
with_url = record with_file {
  player = load_url with_file.player;
  resource_source =
      some (or_new (ResourceDataSource.initialize true ResourceDataSource.new_source));
}

with_url-loaded : Step with_file with_url
unfolding load_resource ResourceDataSource.initialize ResourceDataSource.new_source start
    new_multibuffer
with_url-loaded = resource_loaded with_file with_url true refl

with_both-Later : Later with_file (response_begins with_url)
with_both-Later =
    Loading.after with_url (response_begins with_url)
      (Loading.after with_file with_url at_once with_url-loaded) (response_began with_url)

Later-run_callback_example :
    (t : LoadedPlayer ℕ ℕ) × (run_callback with_url ≡ some t)
    × (t.player.pipeline
        ≡ started (is_some with_url.data_source) with_url.posted with_url.player.pipeline)
Later-run_callback_example = Later-run_callback 0 16 new_params with_url (
    Loading.after with_file with_url
      (Loading.after fresh with_file at_once (file_loaded fresh (some (λ i. i, 8))))
      with_url-loaded)

run_callback-load_file_example :
    let both = response_begins with_url in
    (u : LoadedPlayer ℕ ℕ) × (run_callback both ≡ some u)
    × (u.player.pipeline ≡ started true both.posted both.player.pipeline)
run_callback-load_file_example =
    run_callback-load_file (some (λ i. i, 8)) fresh (response_begins with_url) with_both-Later

-- A file that cannot be mapped.
abbrev unmapped : Option ((ℕ → ℕ) × ℕ)
unmapped = none

main-run_callback_example :
    let program = main ltb ◌==◌ 0 1 256 16 unmapped true in
    ((s t : LoadedPlayer ℕ ℕ) × (program (some "film.mp4") none ≡ some s)
      × (run_callback s ≡ some t)
      × IsRunning ltb ◌==◌ 0 1 256 16 refl refl refl true false t)
    × ((s t : LoadedPlayer ℕ ℕ) × (program none (some "http://host/film.mp4") ≡ some s)
        × (s.posted ≡ [])
        × (run_callback (response_begins s) ≡ some t)
        × IsRunning ltb ◌==◌ 0 1 256 16 refl refl refl false true t)
main-run_callback_example =
    main-run_callback ltb ◌==◌ 0 1 256 16 refl refl refl unmapped true "film.mp4"
      "http://host/film.mp4" none refl
