-- ===== src/RendererHost/Steps.antt =====
-- AudioRendererHost: what its operations do to the delegates, their numbers and the authorizations.
use Prim.Native.String.{String}
use chromium_media_lib.Prelude.{
  List-cases, ℕ, ◌≡◌, refl, subst, inl, inr, ◌⊎◌, Bool, some, List, arith, Option-cases, ◌>>=◌,
}
use chromium_media_lib.MediaInternals.{AudioParameters}
use chromium_media_lib.OutputDelegate.{
  MediaLibrary, OutputDelegate, Task, Notice, send_created_notification, report_error,
  update_playing_state, take_socket, set_playing, log_stream_error, on_play_stream,
}
use chromium_media_lib.RendererHost.{
  AudioRendererHost, lookup_by_id, lookup_object, replace_object, on_stream_error,
  on_stream_created, on_authorization_completed, notify_stream_error, notify_stream_created,
  device_parameters_received, play_stream, run_notice, run_task,
}

module _ {Real : Type 0} where
  -- The parts of the state that no answer, error or played stream changes are the same.
  pub record Alike (s t : AudioRendererHost Real) : Type 0 where
    pub authorizations : t.authorizations ≡ s.authorizations
    pub delegates : t.delegates ≡ s.delegates
    pub next_object : t.audio.next_object ≡ s.audio.next_object

  pub Alike-refl : (s : AudioRendererHost Real) → Alike s s
  Alike-refl s = record { authorizations = refl; delegates = refl; next_object = refl }

  on_stream_error-Alike :
      (stream : ℕ) (s : AudioRendererHost Real) → Alike s (on_stream_error stream s)
  unfolding on_stream_error
  on_stream_error-Alike stream s = ground arith

  on_stream_created-Alike :
      (stream : ℕ) (s : AudioRendererHost Real) → Alike s (on_stream_created stream s)
  unfolding on_stream_created
  on_stream_created-Alike stream s = ground arith

  notify_stream_error-Alike :
      (stream : ℕ) (s : AudioRendererHost Real) → Alike s (notify_stream_error stream s)
  unfolding notify_stream_error
  notify_stream_error-Alike stream s = ground arith

  notify_stream_created-Alike :
      (duplicated prepared : Bool) (stream : ℕ) (s t : AudioRendererHost Real)
      → notify_stream_created duplicated prepared stream s ≡ some t
      → Alike s t
  unfolding notify_stream_created
  notify_stream_created-Alike duplicated prepared stream s t e = ground arith

  pub on_authorization_completed-Alike :
      (stream : ℕ) (params : AudioParameters) (device : String) (s : AudioRendererHost Real)
      → Alike s (on_authorization_completed stream params device s)
  unfolding on_authorization_completed
  on_authorization_completed-Alike stream params device s = ground arith

module _ {Real : Type 0} (lib : MediaLibrary Real) where
  pub device_parameters_received-Alike :
      (stream : ℕ) (device : String) (params : AudioParameters) (s t : AudioRendererHost Real)
      → device_parameters_received lib stream device params s ≡ some t
      → Alike s t
  unfolding device_parameters_received
  device_parameters_received-Alike stream device params s t e = ground arith

  pub play_stream-Alike :
      (stream : ℕ) (s : AudioRendererHost Real) → Alike s (play_stream lib stream s)
  unfolding play_stream on_play_stream
  play_stream-Alike stream s = elim (Option-cases (lookup_by_id stream s.delegates)) [
    | inl missing ↦ rw (missing, play_stream) (notify_stream_error-Alike stream s)
    | inr (d, found) ↦
        rw (found, play_stream)
          (record { authorizations = refl; delegates = refl; next_object = refl })
  ]

  -- A task changes at most one delegate, and not its number.
  abbrev pub Changed : AudioRendererHost Real → AudioRendererHost Real → Type 0
  Changed s t =
      Alike s t
      ⊎ ((e : OutputDelegate) × Alike (record s { delegates = replace_object e s.delegates }) t)

  run_notice-Changed :
      (duplicated prepared : Bool) (d : OutputDelegate) (notice : Notice)
      (s t : AudioRendererHost Real)
      → run_notice lib duplicated prepared d notice s ≡ some t
      → Changed s t
  unfolding run_notice log_stream_error
  run_notice-Changed duplicated prepared d send_created_notification s t e =
      elim (Option-cases (take_socket d)) [
        | inl none_left ↦ absurd (ground arith)
        | inr (d', taken) ↦ inr (
          d',
          notify_stream_created-Alike duplicated prepared d.stream_id _ t (
              subst
                (λ o.
                  (o >>= λ f.
                  notify_stream_created duplicated prepared d.stream_id
                    (record s { delegates = replace_object f s.delegates }))
                  ≡ some t)
                taken e),
        )
      ]
  run_notice-Changed duplicated prepared d (update_playing_state playing) s t e =
      inr (set_playing playing d, subst (Alike _) (ground arith) (Alike-refl _))
  run_notice-Changed duplicated prepared d report_error s t e =
      let logged = record s { audio = log_stream_error lib d s.audio } in
      let a = notify_stream_error-Alike d.stream_id logged in
      inl (
        subst (Alike s) {x = notify_stream_error d.stream_id logged} (ground arith) (record {
          authorizations = a.authorizations;
          delegates = a.delegates;
          next_object = a.next_object;
        }))

  since_tasks :
      (s : AudioRendererHost Real) (tasks : List Task) (t : AudioRendererHost Real)
      → Changed (record s { audio = record s.audio { tasks = tasks } }) t
      → Changed s t
  since_tasks s tasks t (inl a) = inl (record {
    authorizations = a.authorizations;
    delegates = a.delegates;
    next_object = a.next_object;
  })
  since_tasks s tasks t (inr (e, a)) = inr (
    e,
    record {
      authorizations = a.authorizations;
      delegates = a.delegates;
      next_object = a.next_object;
    },
  )

  pub run_task-Changed :
      (duplicated prepared : Bool) (s t : AudioRendererHost Real)
      → run_task lib duplicated prepared s ≡ some t
      → Changed s t
  unfolding run_task
  run_task-Changed duplicated prepared s t e = elim (List-cases s.audio.tasks) [
    | inl nothing ↦ inl (subst (Alike s) (ground arith) (Alike-refl s))
    | inr (task, rest, found) ↦
        let s' = record s { audio = record s.audio { tasks = rest } } in
        elim (Option-cases (lookup_object task.object s.delegates)) [
          | inl missing ↦ inl (
              subst (Alike s) {x = s'} (ground arith)
                (record { authorizations = refl; delegates = refl; next_object = refl }))
          | inr (d, there) ↦
              since_tasks s rest t
                (run_notice-Changed duplicated prepared d task.notice s' t (ground arith))
        ]
  ]
