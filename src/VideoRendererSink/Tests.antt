-- ===== src/VideoRendererSink/Tests.antt =====
-- Examples: a sink that was started and has rendered one frame.
use chromium_media_lib.Prelude.{ℕ, ◌≡◌, refl, true, false, some, none, [], ◌∷◌}
use chromium_media_lib.VideoRendererSink.{
  VideoRendererSink, VideoFrame, new_sink, start, run_posted, on_renderer_state_update,
  background_render, timer_fires, call_render, process_new_frame, after_render, render, timer_reset,
}
use chromium_media_lib.VideoRendererSink.Timer.{restart, timer_fires-restart}
use chromium_media_lib.VideoRendererSink.Rendering.{
  Reachable, at_first, later, started, updated, IsConsistent, Reachable-IsConsistent,
  timer_fires_runs,
}

abbrev frame : ℕ → VideoFrame
frame n = record { unique_id = n }

-- After Start, before the posted update.
abbrev waiting : VideoRendererSink
waiting = record {
  background_rendering_enabled = true;
  client = false;
  rendering = false;
  rendered_last_frame = false;
  is_background_rendering = false;
  new_background_frame = false;
  last_interval = 16;
  current_frame = none;
  callback = true;
  timer_running = false;
  posted = true ∷ [];
  calls = [];
}

-- After the update, which rendered the frame 1 in the background.
abbrev running : VideoRendererSink
running = record waiting {
  rendering = true;
  is_background_rendering = true;
  new_background_frame = true;
  current_frame = some (frame 1);
  timer_running = true;
  posted = [];
  calls = timer_reset ∷ render ∷ [];
}

running-Reachable : Reachable 16 running
unfolding new_sink start run_posted on_renderer_state_update background_render call_render
    process_new_frame after_render
running-Reachable =
    later waiting running
      (later (new_sink 16) waiting at_first (started (new_sink 16) waiting refl))
      (updated waiting running 100 (some (frame 1)) refl)

Reachable-IsConsistent_example : IsConsistent running
Reachable-IsConsistent_example = Reachable-IsConsistent 16 running running-Reachable

timer_fires_runs_example :
    (t : VideoRendererSink) × (timer_fires 200 (some (frame 2)) running ≡ some t)
timer_fires_runs_example = timer_fires_runs 16 200 (some (frame 2)) running running-Reachable refl

timer_fires-restart_example :
    (t : VideoRendererSink) × (restart 200 none running ≡ some t)
    × Reachable 16 t
    × (t.timer_running ≡ true)
    × (timer_fires 300 (some (frame 2)) t ≡ none)
    × ((u : VideoRendererSink) × (run_posted 300 (some (frame 2)) t ≡ some u))
timer_fires-restart_example =
    timer_fires-restart 16 200 300 none (some (frame 2)) running running-Reachable refl refl
