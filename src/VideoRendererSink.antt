-- ===== src/VideoRendererSink.antt =====
-- video_renderer_sink_impl.h and video_renderer_sink_impl.cc: the sink that asks a video renderer
-- for frames and hands them to a client. What the renderer's Render returns is an argument of the
-- operations that call it; times are numbers of ticks; the state updates that Start and Stop post
-- to the compositor thread are kept in the state, oldest first, as are the calls out of the sink,
-- the last one first. A failed DCHECK is `none`.
pub mod Rendering
pub mod Timer
mod Tests
use chromium_media_lib.Prelude.{
  ℕ, ◌+◌, ◌-◌, Bool, true, false, ◌&&◌, ◌||◌, not, Option, some, none, List, [], ◌∷◌, ◌++◌, ◌==◌,
  if◌then◌else◌, ◌>>=◌, is_some,
}

-- A frame, by its `unique_id()`.
pub record VideoFrame : Type 0 where
  pub unique_id : ℕ

pub data Call : Type 0 where
  start_rendering stop_rendering frame_dropped render timer_reset : Call
  did_receive_frame : Option VideoFrame → Call

pub record VideoRendererSink : Type 0 where
  pub background_rendering_enabled : Bool
  pub client : Bool
  pub rendering : Bool
  pub rendered_last_frame : Bool
  pub is_background_rendering : Bool
  pub new_background_frame : Bool
  pub last_interval : ℕ
  pub current_frame : Option VideoFrame
  pub callback : Bool
  -- Whether `background_rendering_timer_` is running, which does not repeat.
  pub timer_running : Bool
  pub posted : List Bool
  pub calls : List Call

unfoldable pub new_sink : ℕ → VideoRendererSink
new_sink interval = record {
  background_rendering_enabled = true;
  client = false;
  rendering = false;
  rendered_last_frame = false;
  is_background_rendering = false;
  new_background_frame = false;
  last_interval = interval;
  current_frame = none;
  callback = false;
  timer_running = false;
  posted = [];
  calls = [];
}

abbrev pub say : Call → VideoRendererSink → VideoRendererSink
say c s = record s { calls = c ∷ s.calls }

-- SetVideoRendererSinkClient, on the compositor thread.
unfoldable pub set_client : Bool → VideoRendererSink → VideoRendererSink
set_client client s =
    let t = record s { client = client } in
    if t.rendering && client then say start_rendering t else t

unfoldable pub start : VideoRendererSink → Option VideoRendererSink
start s =
    if s.callback then none else some (record s { callback = true; posted = s.posted ++ true ∷ [] })

unfoldable pub stop : VideoRendererSink → Option VideoRendererSink
stop s =
    if s.callback
    then some (record s { callback = false; posted = s.posted ++ false ∷ [] })
    else none

abbrev pub same_frame : Option VideoFrame → Option VideoFrame → Bool
same_frame none g = false
same_frame (some f) none = false
same_frame (some f) (some g) = f.unique_id == g.unique_id

-- Whether the frame is a new one, and the state.
unfoldable pub process_new_frame :
    Option VideoFrame → Bool → VideoRendererSink → Bool × VideoRendererSink
process_new_frame frame repaint_duplicate_frame s =
    if not repaint_duplicate_frame && same_frame frame s.current_frame
    then (false, s)
    else (true, record s { rendered_last_frame = false; current_frame = frame })

-- What CallRender does after it has called Render.
unfoldable pub after_render : ℕ → Bool → Bool × VideoRendererSink → Bool × VideoRendererSink
after_render interval background_rendering (new_frame, s) =
    let t = record s {
      new_background_frame = background_rendering && new_frame;
      is_background_rendering = background_rendering;
      last_interval = interval;
    } in
    (
      new_frame || s.new_background_frame,
      if t.background_rendering_enabled
          then say timer_reset (record t { timer_running = true })
          else t,
    )

-- CallRender between two deadlines, `rendered` being what the callback's Render returns.
unfoldable pub call_render :
    ℕ → ℕ → Bool → Option VideoFrame → VideoRendererSink → Option (Bool × VideoRendererSink)
call_render deadline_min deadline_max background_rendering rendered s =
    if not s.callback
    then some (not s.rendered_last_frame && is_some s.current_frame, s)
    else if not s.rendering
    then none
    else (let dropped =
          not s.rendered_last_frame
          && is_some s.current_frame
          && not background_rendering
          && not s.is_background_rendering in
        let told = if dropped then say frame_dropped s else s in
        some (
          after_render (deadline_max - deadline_min) background_rendering
            (process_new_frame rendered false (say render told))))

unfoldable pub background_render :
    ℕ → Option VideoFrame → VideoRendererSink → Option VideoRendererSink
background_render now rendered s = call_render now (now + s.last_interval) true rendered s >>= λ r.
    some (if r.0 && r.1.client then say (did_receive_frame r.1.current_frame) r.1 else r.1)

-- The timer, if it is running.
unfoldable pub timer_fires : ℕ → Option VideoFrame → VideoRendererSink → Option VideoRendererSink
timer_fires now rendered s =
    if s.timer_running
    then background_render now rendered (record s { timer_running = false })
    else some s

-- The end of OnRendererStateUpdate.
abbrev pub tell_client : VideoRendererSink → VideoRendererSink
tell_client s =
    if s.client then say (if s.rendering then start_rendering else stop_rendering) s else s

unfoldable pub on_renderer_state_update :
    ℕ → Option VideoFrame → Bool → VideoRendererSink → Option VideoRendererSink
on_renderer_state_update now rendered new_state s =
    let t = record s { rendering = new_state } in
    if new_state
    then background_render now rendered t >>= (λ u. some (tell_client u))
    else some (tell_client t)

-- The compositor thread takes the oldest posted update.
unfoldable pub run_posted : ℕ → Option VideoFrame → VideoRendererSink → Option VideoRendererSink
run_posted now rendered s = elim s.posted [
  | [] ↦ some s
  | u ∷ rest ↦ on_renderer_state_update now rendered u (record s { posted = rest })
]
