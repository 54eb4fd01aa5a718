-- ===== src/RendererHost/Run.antt =====
-- AudioRendererHost over a whole run: what holds in every state that it comes to, and what becomes of
-- the tasks of a delegate that was closed.
use Prim.Native.String.{String}
use chromium_media_lib.Prelude.{ℕ, ◌≡◌, refl, Bool, some, none, List, ◌∷◌}
use chromium_media_lib.MediaInternals.{AudioParameters}
use chromium_media_lib.OutputDelegate.{
  MediaLibrary, OutputDelegate, Audio, Task, on_controller_created, on_controller_playing,
  on_controller_paused, on_controller_error,
}
use chromium_media_lib.RendererHost.{
  AudioRendererHost, lookup_by_id, lookup_object, new_host, set_client,
  request_device_authorization, device_parameters_received, create_stream, play_stream,
  on_close_stream, run_task,
}
use chromium_media_lib.RendererHost.Delegates.{find_by-none}
use chromium_media_lib.RendererHost.Steps.{
  Alike, device_parameters_received-Alike, play_stream-Alike, run_task-Changed,
}
use chromium_media_lib.RendererHost.Invariant.{
  IsSound, IsGone, Alike-IsSound, Alike-IsGone, Changed-IsSound, Changed-IsGone,
  create_stream-IsSound, create_stream-IsGone, on_close_stream-IsSound, on_close_stream-IsGone,
  on_close_stream-closed, insert_new-Granted, request-gives,
}

module _ {Real : Type 0} (lib : MediaLibrary Real) where
  -- The four events of a controller, as its event handler takes them.
  abbrev pub Event : Type 0
  Event = OutputDelegate → Audio Real → Audio Real

  pub data IsEvent : Event → Type 0 where
    created : IsEvent on_controller_created
    playing : IsEvent on_controller_playing
    paused : IsEvent on_controller_paused
    failed : IsEvent on_controller_error

  -- What the filter, the audio system, the controllers and the io thread do to the host. A
  -- controller may report of a delegate that is closed already.
  pub data Step : AudioRendererHost Real → AudioRendererHost Real → Type 0 where
    client_set : (s : AudioRendererHost Real) (client : Bool) → Step s (set_client client s)
    listeners_changed :
        (s : AudioRendererHost Real) (m : List (ℕ × ℕ)) → Step s (record s { listeners = m })
    authorization_requested :
        (s t : AudioRendererHost Real) (stream : ℕ) (device : String)
        → request_device_authorization lib stream device s ≡ some t
        → Step s t
    parameters_received :
        (s t : AudioRendererHost Real) (stream : ℕ) (device : String) (params : AudioParameters)
        → device_parameters_received lib stream device params s ≡ some t
        → Step s t
    stream_made :
        (s t : AudioRendererHost Real) (reader_created : Bool) (stream : ℕ)
        (params : AudioParameters)
        → create_stream lib reader_created stream params s ≡ some t
        → Step s t
    played : (s : AudioRendererHost Real) (stream : ℕ) → Step s (play_stream lib stream s)
    closed : (s : AudioRendererHost Real) (stream : ℕ) → Step s (on_close_stream lib stream s)
    reported :
        (s : AudioRendererHost Real) (event : Event) (d : OutputDelegate)
        → IsEvent event
        → Step s (record s { audio = event d s.audio })
    ran :
        (s t : AudioRendererHost Real) (duplicated prepared : Bool)
        → run_task lib duplicated prepared s ≡ some t
        → Step s t

  pub data Steps (s : AudioRendererHost Real) : AudioRendererHost Real → Type 0 where
    here : Steps s s
    after : (t u : AudioRendererHost Real) → Steps s t → Step t u → Steps s u

  event-Alike :
      (s : AudioRendererHost Real) (event : Event) (d : OutputDelegate)
      → IsEvent event
      → Alike s (record s { audio = event d s.audio })
  unfolding on_controller_created on_controller_playing on_controller_paused on_controller_error
  event-Alike s _ d created = record { authorizations = refl; delegates = refl; next_object = refl }
  event-Alike s _ d playing = record { authorizations = refl; delegates = refl; next_object = refl }
  event-Alike s _ d paused = record { authorizations = refl; delegates = refl; next_object = refl }
  event-Alike s _ d failed = record { authorizations = refl; delegates = refl; next_object = refl }

  step-IsSound : (s t : AudioRendererHost Real) → Step s t → IsSound s → IsSound t
  unfolding set_client
  step-IsSound _ _ (client_set s client) v = record {
    granted = v.granted;
    objects = v.objects;
    below = v.below;
  }
  step-IsSound _ _ (listeners_changed s m) v = record {
    granted = v.granted;
    objects = v.objects;
    below = v.below;
  }
  step-IsSound _ _ (authorization_requested s t stream device e) v =
      let (authorizations, delegates, audio) = request-gives lib stream device s t e in
      record {
        granted =
            rw authorizations
              (insert_new-Granted stream lib.default_device_id s.authorizations v.granted);
        objects = rw delegates v.objects;
        below = rw (delegates, audio) v.below;
      }
  step-IsSound _ _ (parameters_received s t stream device params e) v =
      Alike-IsSound s t (device_parameters_received-Alike lib stream device params s t e) v
  step-IsSound _ _ (stream_made s t reader_created stream params e) v =
      create_stream-IsSound lib reader_created stream params s t e v
  step-IsSound _ _ (played s stream) v = Alike-IsSound s _ (play_stream-Alike lib stream s) v
  step-IsSound _ _ (closed s stream) v = on_close_stream-IsSound lib stream s v
  step-IsSound _ _ (reported s event d is) v = Alike-IsSound s _ (event-Alike s event d is) v
  step-IsSound _ _ (ran s t duplicated prepared e) v =
      Changed-IsSound lib s t (run_task-Changed lib duplicated prepared s t e) v

  step-IsGone :
      (object : ℕ) (s t : AudioRendererHost Real)
      → Step s t
      → IsSound s
      → IsGone object s
      → IsGone object t
  unfolding set_client
  step-IsGone object _ _ (client_set s client) v g = record {
    no_delegate = g.no_delegate;
    used = g.used;
  }
  step-IsGone object _ _ (listeners_changed s m) v g = record {
    no_delegate = g.no_delegate;
    used = g.used;
  }
  step-IsGone object _ _ (authorization_requested s t stream device e) v g =
      let (_, delegates, audio) = request-gives lib stream device s t e in
      record { no_delegate = rw delegates g.no_delegate; used = rw audio g.used }
  step-IsGone object _ _ (parameters_received s t stream device params e) v g =
      Alike-IsGone object s t (device_parameters_received-Alike lib stream device params s t e) g
  step-IsGone object _ _ (stream_made s t reader_created stream params e) v g =
      create_stream-IsGone lib object reader_created stream params s t e v g
  step-IsGone object _ _ (played s stream) v g =
      Alike-IsGone object s _ (play_stream-Alike lib stream s) g
  step-IsGone object _ _ (closed s stream) v g = on_close_stream-IsGone lib object stream s g
  step-IsGone object _ _ (reported s event d is) v g =
      Alike-IsGone object s _ (event-Alike s event d is) g
  step-IsGone object _ _ (ran s t duplicated prepared e) v g =
      Changed-IsGone lib object s t (run_task-Changed lib duplicated prepared s t e) g

  -- The states that a new host comes to.
  abbrev pub Reachable : Bool → AudioRendererHost Real → Type 0
  Reachable client s = Steps (new_host client) s

  Steps-IsSound : (s t : AudioRendererHost Real) → Steps s t → IsSound s → IsSound t
  Steps-IsSound s _ here v = v
  Steps-IsSound s _ (after t u r st) v = step-IsSound t u st (Steps-IsSound s t r v)

  Steps-IsGone :
      (object : ℕ) (s t : AudioRendererHost Real)
      → Steps s t
      → IsSound s
      → IsGone object s
      → IsGone object t
  Steps-IsGone object s _ here v g = g
  Steps-IsGone object s _ (after t u r st) v g =
      step-IsGone object t u st (Steps-IsSound s t r v) (Steps-IsGone object s t r v g)

  -- In every state that a new host comes to, whatever the filter asks for, the audio system answers,
  -- the controllers report and tasks of the io thread run: every authorization is granted, and the
  -- delegates have different numbers, all of them already used.
  Reachable-IsSound : (client : Bool) (s : AudioRendererHost Real) → Reachable client s → IsSound s
  unfolding new_host
  Reachable-IsSound client s r =
      Steps-IsSound (new_host client) s r (record { granted = tt; objects = tt; below = tt })

  run_task_missing :
      (duplicated prepared : Bool) (s : AudioRendererHost Real) (t : Task) (rest : List Task)
      → s.audio.tasks ≡ t ∷ rest
      → lookup_object t.object s.delegates ≡ none
      → run_task lib duplicated prepared s
        ≡ some (record s { audio = record s.audio { tasks = rest } })
  unfolding run_task
  run_task_missing duplicated prepared s t rest e missing = rw (e, run_task) (rw missing refl)

  module _ (client : Bool) (s u : AudioRendererHost Real) (stream : ℕ) (d : OutputDelegate)
      (t : Task) (rest : List Task) (duplicated prepared : Bool) (r : Reachable client s)
      (found : lookup_by_id stream s.delegates ≡ some d)
      (later : Steps (on_close_stream lib stream s) u) (next : u.audio.tasks ≡ t ∷ rest)
      (bound : t.object ≡ d.object) where
    -- Once OnCloseStream has closed a delegate in a state that a new host comes to, then however the
    -- host goes on, a task that is bound to that delegate does nothing when it runs: it only leaves
    -- the queue.
    pub run_task-on_close_stream :
        run_task lib duplicated prepared u
        ≡ some (record u { audio = record u.audio { tasks = rest } })
    run_task-on_close_stream =
        let v = Reachable-IsSound client s r in
        let g =
          Steps-IsGone d.object (on_close_stream lib stream s) u later
            (on_close_stream-IsSound lib stream s v)
            (on_close_stream-closed lib stream s d found v) in
        run_task_missing duplicated prepared u t rest next
          (rw bound (find_by-none (λ e. e.object) d.object u.delegates g.no_delegate))
