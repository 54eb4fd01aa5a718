-- ===== src/VideoRendererSink/Rendering.antt =====
-- VideoRendererSinkImpl: frames are reported to the client, and the sink's state follows Start and
-- Stop.
use chromium_media_lib.Prelude.{
  List-cases, Bool-cases, subst, ℕ, ◌+◌, ◌≡◌, ◌≢◌, ◌∙◌, sym, refl, inl, inr, Bool, true, false,
  ◌&&◌, ◌||◌, not, Option, some, none, List, [], ◌∷◌, ◌++◌, arith, if◌then◌else◌, Option-cases,
}
use chromium_media_lib.VideoRendererSink.{
  VideoRendererSink, VideoFrame, start, stop, set_client, process_new_frame, after_render,
  call_render, background_render, timer_fires, on_renderer_state_update, run_posted, same_frame,
  new_sink,
}

-- The state that the sink comes to once the posted updates have run.
abbrev pub settled : Bool → List Bool → Bool
settled now [] = now
settled now (u ∷ rest) = settled u rest

-- The sink is to render, once the posted updates have run, exactly while it has a callback; the
-- compositor thread never marks the last frame as rendered.
abbrev pub IsConsistent : VideoRendererSink → Type 0
IsConsistent s = (settled s.rendering s.posted ≡ s.callback) × (s.rendered_last_frame ≡ false)

settled_last : (now u : Bool) (l : List Bool) → settled now (l ++ u ∷ []) ≡ u
settled_last now u [] = refl
settled_last now u (x ∷ l) = settled_last x u l

pub settled_next :
    (s : VideoRendererSink) (u : Bool) (rest : List Bool)
    → s.posted ≡ u ∷ rest
    → settled s.rendering s.posted ≡ settled u rest
settled_next s u rest e = rw e refl

-- What the threads may do with the sink.
pub data Step : VideoRendererSink → VideoRendererSink → Type 0 where
  client_set : (s : VideoRendererSink) (client : Bool) → Step s (set_client client s)
  started : (s t : VideoRendererSink) → start s ≡ some t → Step s t
  stopped : (s t : VideoRendererSink) → stop s ≡ some t → Step s t
  timer_fired :
      (s t : VideoRendererSink) (now : ℕ) (rendered : Option VideoFrame)
      → timer_fires now rendered s ≡ some t
      → Step s t
  updated :
      (s t : VideoRendererSink) (now : ℕ) (rendered : Option VideoFrame)
      → run_posted now rendered s ≡ some t
      → Step s t

-- The states that a new sink comes to.
pub data Reachable (interval : ℕ) : VideoRendererSink → Type 0 where
  at_first : Reachable interval (new_sink interval)
  later : (s t : VideoRendererSink) → Reachable interval s → Step s t → Reachable interval t

-- What CallRender leaves alone.
abbrev pub Kept : VideoRendererSink → VideoRendererSink → Type 0
Kept s t =
    (t.rendering ≡ s.rendering)
    × (t.background_rendering_enabled ≡ s.background_rendering_enabled)
    × (t.posted ≡ s.posted)
    × (t.callback ≡ s.callback)
    × (s.rendered_last_frame ≡ false → t.rendered_last_frame ≡ false)

call_render-Kept :
    (from to : ℕ) (bg : Bool) (f : Option VideoFrame) (s : VideoRendererSink)
    (r : Bool × VideoRendererSink)
    → call_render from to bg f s ≡ some r
    → Kept s r.1
unfolding call_render after_render process_new_frame
call_render-Kept from to bg f s r e = ground arith

pub background_render-Kept :
    (now : ℕ) (f : Option VideoFrame) (s t : VideoRendererSink)
    → background_render now f s ≡ some t
    → Kept s t
unfolding background_render
background_render-Kept now f s t e =
    elim (Option-cases (call_render now (now + s.last_interval) true f s)) [
      | inl n ↦ ground arith
      | inr (r, h) ↦
          let kept = call_render-Kept now (now + s.last_interval) true f s r h in
          ground (arith, kept)
    ]

set_client-IsConsistent :
    (s : VideoRendererSink) (client : Bool) → IsConsistent s → IsConsistent (set_client client s)
unfolding set_client
set_client-IsConsistent s client c = ground arith

start-IsConsistent : (s t : VideoRendererSink) → IsConsistent s → start s ≡ some t → IsConsistent t
unfolding start
start-IsConsistent s t c e = ground (arith, settled_last s.rendering true s.posted)

stop-IsConsistent : (s t : VideoRendererSink) → IsConsistent s → stop s ≡ some t → IsConsistent t
unfolding stop
stop-IsConsistent s t c e = ground (arith, settled_last s.rendering false s.posted)

background_render-IsConsistent :
    (now : ℕ) (f : Option VideoFrame) (s t : VideoRendererSink)
    → IsConsistent s
    → background_render now f s ≡ some t
    → IsConsistent t
background_render-IsConsistent now f s t c e =
    let (rendering, _, posted, callback, last) = background_render-Kept now f s t e in
    (rw (rendering, posted, callback) c.0, last c.1)

timer_fires-IsConsistent :
    (now : ℕ) (f : Option VideoFrame) (s t : VideoRendererSink)
    → IsConsistent s
    → timer_fires now f s ≡ some t
    → IsConsistent t
unfolding timer_fires
timer_fires-IsConsistent now f s t c e = elim (Bool-cases s.timer_running) [
  | inl on ↦
      background_render-IsConsistent now f (record s { timer_running = false }) t c (ground arith)
  | inr off ↦ let same : s ≡ t = ground arith in subst IsConsistent same c
]

update-IsConsistent :
    (now : ℕ) (f : Option VideoFrame) (u : Bool) (s t : VideoRendererSink)
    → settled u s.posted ≡ s.callback
    → s.rendered_last_frame ≡ false
    → on_renderer_state_update now f u s ≡ some t
    → IsConsistent t
unfolding on_renderer_state_update
update-IsConsistent now f false s t c last e = ground arith
update-IsConsistent now f true s t c last e =
    elim (Option-cases (background_render now f (record s { rendering = true }))) [
      | inl n ↦ absurd (ground arith)
      | inr (r, h) ↦
          let good =
            background_render-IsConsistent now f (record s { rendering = true }) r (c, last) h in
          ground (arith, good)
    ]

run_posted-IsConsistent :
    (now : ℕ) (f : Option VideoFrame) (s t : VideoRendererSink)
    → IsConsistent s
    → run_posted now f s ≡ some t
    → IsConsistent t
unfolding run_posted
run_posted-IsConsistent now f s t c e = elim (List-cases s.posted) [
  | inl h ↦ ground arith
  | inr (u, rest, h) ↦
      update-IsConsistent now f u (record s { posted = rest }) t
        (sym (settled_next s u rest h) ∙ c.0) c.1 (ground arith)
]

step-IsConsistent : (s t : VideoRendererSink) → Step s t → IsConsistent s → IsConsistent t
step-IsConsistent _ _ (client_set s client) c = set_client-IsConsistent s client c
step-IsConsistent _ _ (started s t e) c = start-IsConsistent s t c e
step-IsConsistent _ _ (stopped s t e) c = stop-IsConsistent s t c e
step-IsConsistent _ _ (timer_fired s t now f e) c = timer_fires-IsConsistent now f s t c e
step-IsConsistent _ _ (updated s t now f e) c = run_posted-IsConsistent now f s t c e

-- In every state that a new sink comes to, through any order of client changes, Start, Stop, timer
-- rounds and posted updates: once the updates that are posted have run the sink is rendering exactly
-- if it has a callback, and the last frame is not marked as rendered.
pub Reachable-IsConsistent :
    (interval : ℕ) (s : VideoRendererSink) → Reachable interval s → IsConsistent s
unfolding new_sink
Reachable-IsConsistent interval _ at_first = (refl, refl)
Reachable-IsConsistent interval _ (later s t r step) =
    step-IsConsistent s t step (Reachable-IsConsistent interval s r)

call_render_fails :
    (from to : ℕ) (bg : Bool) (f : Option VideoFrame) (s : VideoRendererSink)
    → s.rendering ≡ s.callback
    → call_render from to bg f s ≢ none
unfolding call_render
call_render_fails from to bg f s same e = ground arith

pub background_render_steps :
    (now : ℕ) (f : Option VideoFrame) (s : VideoRendererSink) (r : Bool × VideoRendererSink)
    → call_render now (now + s.last_interval) true f s ≡ some r
    → (t : VideoRendererSink) × (background_render now f s ≡ some t)
unfolding background_render
background_render_steps now f s r e = elim (Option-cases (background_render now f s)) [
  | inl n ↦ absurd (ground arith)
  | inr found ↦ found
]

-- In every state that a new sink comes to in such a way, while no update is posted, a round of the
-- timer fails no DCHECK.
pub timer_fires_runs :
    (interval now : ℕ) (f : Option VideoFrame) (s : VideoRendererSink)
    → Reachable interval s
    → s.posted ≡ []
    → (t : VideoRendererSink) × (timer_fires now f s ≡ some t)
unfolding timer_fires
timer_fires_runs interval now f s r e =
    let (same, _) = Reachable-IsConsistent interval s r in
    let now_same : s.rendering ≡ s.callback = ground arith in
    let fired = record s { timer_running = false } in
    elim (Bool-cases s.timer_running) [
      | inr off ↦ (s, ground arith)
      | inl on ↦ elim (Option-cases (call_render now (now + s.last_interval) true f fired)) [
        | inl n ↦ absurd (call_render_fails now (now + s.last_interval) true f fired now_same n)
        | inr (o, h) ↦ let (t, run) = background_render_steps now f fired o h in (t, ground arith)
      ]
    ]

call_render-result :
    (from to : ℕ) (bg : Bool) (f : Option VideoFrame) (s : VideoRendererSink)
    (r : Bool × VideoRendererSink)
    → s.callback ≡ true
    → s.rendering ≡ true
    → call_render from to bg f s ≡ some r
    → (r.0 ≡ (not (same_frame f s.current_frame) || s.new_background_frame))
      × (r.1.current_frame ≡ (if same_frame f s.current_frame then s.current_frame else f))
      × (r.1.new_background_frame ≡ (bg && not (same_frame f s.current_frame)))
unfolding call_render after_render process_new_frame
call_render-result from to bg f s r callback rendering e = ground arith

-- While rendering with a callback, CallRender returns true exactly if Render gave no frame or one
-- with another id than the current frame's, or if there was a background frame that the provider
-- has not been told of; the frame that Render gave is then the current one unless its id was the
-- current one's already.
call_render-new_frame :
    (from to : ℕ) (bg : Bool) (f : Option VideoFrame) (s : VideoRendererSink)
    → s.callback ≡ true
    → s.rendering ≡ true
    → (r : Bool) × (t : VideoRendererSink) × (call_render from to bg f s ≡ some (r, t))
      × (r ≡ (not (same_frame f s.current_frame) || s.new_background_frame))
      × (t.current_frame ≡ (if same_frame f s.current_frame then s.current_frame else f))
      × (t.new_background_frame ≡ (bg && not (same_frame f s.current_frame)))
call_render-new_frame from to bg f s callback rendering =
    elim (Option-cases (call_render from to bg f s)) [
      | inl n ↦ absurd (call_render_fails from to bg f s (rendering ∙ sym callback) n)
      | inr (r, h) ↦
          let (told, frame, background) =
            call_render-result from to bg f s r callback rendering h in
          (r.0, r.1, h, told, frame, background)
    ]
