-- ===== src/VideoRendererSink/Timer.antt =====
-- The timer of VideoRendererSinkImpl: it runs while the sink renders, and may fire too early after a
-- restart.
use chromium_media_lib.Prelude.{
  List-cases, Bool-cases, Option-cases, subst, ℕ, ◌+◌, ◌≡◌, ◌≢◌, ◌∙◌, sym, refl, inl, inr, Bool,
  true, false, Option, some, none, List, [], ◌∷◌, ◌++◌, arith, if◌then◌else◌, ◌>>=◌,
}
use chromium_media_lib.VideoRendererSink.{
  VideoRendererSink, VideoFrame, start, stop, set_client, process_new_frame, after_render,
  call_render, background_render, timer_fires, on_renderer_state_update, run_posted, new_sink,
  stop_rendering, tell_client,
}
use chromium_media_lib.VideoRendererSink.Rendering.{
  Step, client_set, started, stopped, timer_fired, updated, Reachable, at_first, later, settled,
  IsConsistent, Reachable-IsConsistent, settled_next, background_render-Kept,
  background_render_steps,
}

-- While the sink has a callback and no update is posted, the timer is running.
abbrev pub IsTimed : VideoRendererSink → Type 0
IsTimed s =
    (s.background_rendering_enabled ≡ true)
    × (s.posted ≡ [] → s.callback ≡ true → s.timer_running ≡ true)

append-ne-nil : (l : List Bool) (u : Bool) → l ++ u ∷ [] ≡ [] → ⊥
append-ne-nil [] u e = cc e
append-ne-nil (x ∷ l) u e = cc e

call_render-timer :
    (from to : ℕ) (bg : Bool) (f : Option VideoFrame) (s : VideoRendererSink)
    (r : Bool × VideoRendererSink)
    → s.background_rendering_enabled ≡ true
    → s.callback ≡ true
    → call_render from to bg f s ≡ some r
    → r.1.timer_running ≡ true
unfolding call_render after_render process_new_frame
call_render-timer from to bg f s r on callback e = ground arith

background_render-timer :
    (now : ℕ) (f : Option VideoFrame) (s t : VideoRendererSink)
    → s.background_rendering_enabled ≡ true
    → s.callback ≡ true
    → background_render now f s ≡ some t
    → t.timer_running ≡ true
unfolding background_render
background_render-timer now f s t on callback e =
    elim (Option-cases (call_render now (now + s.last_interval) true f s)) [
      | inl n ↦ absurd (ground arith)
      | inr (r, h) ↦
          let timed = call_render-timer now (now + s.last_interval) true f s r on callback h in
          ground (arith, timed)
    ]

-- A round of rendering starts the timer, if there is a callback.
background_render-IsTimed :
    (now : ℕ) (f : Option VideoFrame) (s t : VideoRendererSink)
    → s.background_rendering_enabled ≡ true
    → background_render now f s ≡ some t
    → IsTimed t
background_render-IsTimed now f s t on e =
    let (_, enabled, _, callback, _) = background_render-Kept now f s t e in
    (enabled ∙ on, λ empty has. background_render-timer now f s t on (sym callback ∙ has) e)

timer_fires-IsTimed :
    (now : ℕ) (f : Option VideoFrame) (s t : VideoRendererSink)
    → IsTimed s
    → timer_fires now f s ≡ some t
    → IsTimed t
unfolding timer_fires
timer_fires-IsTimed now f s t h e = elim (Bool-cases s.timer_running) [
  | inl on ↦
      background_render-IsTimed now f (record s { timer_running = false }) t h.0 (ground arith)
  | inr off ↦ let same : s ≡ t = ground arith in subst IsTimed same h
]

update-IsTimed :
    (now : ℕ) (f : Option VideoFrame) (u : Bool) (s t : VideoRendererSink)
    → settled u s.posted ≡ s.callback
    → s.background_rendering_enabled ≡ true
    → on_renderer_state_update now f u s ≡ some t
    → IsTimed t
unfolding on_renderer_state_update
update-IsTimed now f false s t c on e =
    let posted : s.posted ≡ t.posted = ground arith in
    let callback : s.callback ≡ t.callback = ground arith in
    let same_flag : s.background_rendering_enabled ≡ t.background_rendering_enabled =
      ground arith in
    (
      sym same_flag ∙ on,
      λ empty has.
          let off = subst (λ l. settled false l ≡ s.callback) (posted ∙ empty) c in
          absurd (cc (off, callback, has)),
    )
update-IsTimed now f true s t c on e =
    elim (Option-cases (background_render now f (record s { rendering = true }))) [
      | inl n ↦ absurd (ground arith)
      | inr (r, h) ↦
          let timed = background_render-IsTimed now f (record s { rendering = true }) r on h in
          let posted : t.posted ≡ r.posted = ground arith in
          let callback : t.callback ≡ r.callback = ground arith in
          let timer : r.timer_running ≡ t.timer_running = ground arith in
          let same_flag : t.background_rendering_enabled ≡ r.background_rendering_enabled =
            ground arith in
          (
            same_flag ∙ timed.0,
            λ empty has. sym timer ∙ timed.1 (sym posted ∙ empty) (sym callback ∙ has),
          )
    ]

run_posted-IsTimed :
    (now : ℕ) (f : Option VideoFrame) (s t : VideoRendererSink)
    → IsConsistent s
    → IsTimed s
    → run_posted now f s ≡ some t
    → IsTimed t
unfolding run_posted
run_posted-IsTimed now f s t c h e = elim (List-cases s.posted) [
  | inl nothing ↦ let same : s ≡ t = ground arith in subst IsTimed same h
  | inr (u, rest, first) ↦
      update-IsTimed now f u (record s { posted = rest }) t
        (sym (settled_next s u rest first) ∙ c.0) h.0 (ground arith)
]

step-IsTimed : (s t : VideoRendererSink) → Step s t → IsConsistent s → IsTimed s → IsTimed t
unfolding set_client start stop
step-IsTimed _ _ (client_set s client) c h = ground arith
step-IsTimed _ _ (started s t e) c h = ground (arith, append-ne-nil s.posted true)
step-IsTimed _ _ (stopped s t e) c h = ground (arith, append-ne-nil s.posted false)
step-IsTimed _ _ (timer_fired s t now f e) c h = timer_fires-IsTimed now f s t h e
step-IsTimed _ _ (updated s t now f e) c h = run_posted-IsTimed now f s t c h e

Reachable-IsTimed : (interval : ℕ) (s : VideoRendererSink) → Reachable interval s → IsTimed s
unfolding new_sink
Reachable-IsTimed interval _ at_first = (refl, λ empty has. absurd (cc))
Reachable-IsTimed interval _ (later s t r step) =
    step-IsTimed s t step (Reachable-IsConsistent interval s r) (Reachable-IsTimed interval s r)

-- Stop, the update that it posted, and Start.
abbrev pub restart : ℕ → Option VideoFrame → VideoRendererSink → Option VideoRendererSink
restart now f s = stop s >>= run_posted now f >>= start

restarted : VideoRendererSink → VideoRendererSink
restarted s = record s {
  rendering = false;
  posted = true ∷ [];
  calls = if s.client then stop_rendering ∷ s.calls else s.calls;
}

restart-restarted :
    (now : ℕ) (f : Option VideoFrame) (s : VideoRendererSink)
    → s.callback ≡ true
    → s.posted ≡ []
    → restart now f s ≡ some (restarted s)
unfolding stop run_posted on_renderer_state_update start restarted
restart-restarted now f s has empty = ground arith

restart-Reachable :
    (interval now : ℕ) (f : Option VideoFrame) (s t : VideoRendererSink)
    → Reachable interval s
    → restart now f s ≡ some t
    → Reachable interval t
restart-Reachable interval now f s t r e = elim (Option-cases (stop s)) [
  | inl n ↦ absurd (ground arith)
  | inr (a, halted) ↦ elim (Option-cases (run_posted now f a)) [
    | inl n ↦ absurd (ground arith)
    | inr (b, told) ↦
        later b t (later a b (later s a r (stopped s a halted)) (updated a b now f told))
          (started b t (ground arith))
  ]
]

call_render-ne-none :
    (from to : ℕ) (bg : Bool) (f : Option VideoFrame) (s : VideoRendererSink)
    → s.rendering ≡ true
    → call_render from to bg f s ≢ none
unfolding call_render
call_render-ne-none from to bg f s on e = ground arith

restarted_fails :
    (now : ℕ) (f : Option VideoFrame) (s : VideoRendererSink)
    → s.timer_running ≡ true
    → s.callback ≡ true
    → timer_fires now f (restarted s) ≡ none
unfolding timer_fires background_render call_render restarted
restarted_fails now f s running has = ground arith

call_render_runs :
    (from to : ℕ) (bg : Bool) (f : Option VideoFrame) (s : VideoRendererSink)
    → s.rendering ≡ true
    → (r : Bool × VideoRendererSink) × (call_render from to bg f s ≡ some r)
call_render_runs from to bg f s on = elim (Option-cases (call_render from to bg f s)) [
  | inl n ↦ absurd (call_render-ne-none from to bg f s on n)
  | inr found ↦ found
]

-- A posted update to render fails no DCHECK.
update_runs :
    (now : ℕ) (f : Option VideoFrame) (s : VideoRendererSink)
    → (t : VideoRendererSink) × (on_renderer_state_update now f true s ≡ some t)
unfolding on_renderer_state_update
update_runs now f s =
    let on = record s { rendering = true } in
    let (r, called) = call_render_runs now (now + s.last_interval) true f on refl in
    let (t, rendered) = background_render_steps now f on r called in
    (tell_client t, rw rendered refl)

-- In every state that a new sink comes to, in which it has a callback and no update is posted: Stop,
-- the update that it posts, and Start fail no DCHECK, and bring the sink to a state in which its timer
-- is running. If the timer fires before the update that Start posted has run, CallRender fails its
-- DCHECK; if the update runs first, it fails none.
pub timer_fires-restart :
    (interval now next : ℕ) (f g : Option VideoFrame) (s : VideoRendererSink)
    → Reachable interval s
    → s.callback ≡ true
    → s.posted ≡ []
    → (t : VideoRendererSink) × (restart now f s ≡ some t)
      × Reachable interval t
      × (t.timer_running ≡ true)
      × (timer_fires next g t ≡ none)
      × ((u : VideoRendererSink) × (run_posted next g t ≡ some u))
unfolding restarted run_posted
timer_fires-restart interval now next f g s r has empty =
    let gives = restart-restarted now f s has empty in
    let running = (Reachable-IsTimed interval s r).1 empty has in
    (
      restarted s,
      gives,
      restart-Reachable interval now f s (restarted s) r gives,
      running,
      restarted_fails next g s running has,
      update_runs next g (record (restarted s) { posted = [] }),
    )
