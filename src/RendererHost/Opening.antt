-- ===== src/RendererHost/Opening.antt =====
-- Opening a stream: CreateStream of the renderer's IPC object, the controller's report and the io
-- thread's task; and PlayStream.
use Prim.Native.String.{String}
use chromium_media_lib.Prelude.{
  ℕ, ◌+◌, ◌^◌, ◌<◌, ◌≡◌, refl, ap, ◌∙◌, inl, inr, Bool, true, false, Option, some, none, List, [],
  ◌∷◌, arith, Option-cases, ◌>>=◌, ==_refl,
}
use chromium_media_lib.Prelude.Maps.{lookup, put, lookup-put, remove, All-lookup}
use chromium_media_lib.MediaInternals.{
  MediaInternals, AudioParameters, AudioLog, format_to_string, create_audio_log, on_created,
}
use chromium_media_lib.OutputDelegate.{
  MediaLibrary, OutputDelegate, Audio, Task, new_delegate, on_controller_created, on_play_stream,
  send_created_notification, take_socket,
}
use chromium_media_lib.RendererHost.{
  AudioRendererHost, OutputIpc, Streams, stream_created, say, lookup_by_id, lookup_object,
  add_delegate, create_stream, play_stream, run_task, run_notice, notify_stream_created,
  on_stream_created, replace_object, ipc_create_stream,
}
use chromium_media_lib.RendererHost.Delegates.{find_by-append, find_by-append_new, find_by-none}
use chromium_media_lib.RendererHost.Made.{
  Granted, create_stream-Made, create_stream_new, create_stream_found,
}
use chromium_media_lib.RendererHost.Invariant.{IsSound, differ}

bind-returns {ℓ κ} :
    {A : Type ℓ} {B : Type κ} {o : Option A} {a : A} (f : A → Option B)
    → o ≡ some a
    → (b : B) × (f a ≡ some b)
    → (b : B) × ((o >>= f) ≡ some b)
bind-returns f e (b, h) = (b, rw e h)

module _ {Real : Type 0} (lib : MediaLibrary Real) where
  -- The host can make one more log, for parameters whose format is known.
  pub record CanLog (params : AudioParameters) (s : AudioRendererHost Real) : Type 0 where
    pub format_name : String
    pub known : format_to_string params.format ≡ some format_name
    pub component : lib.output_controller < lib.component_max
    pub owner_id : s.audio.internals.owner_ids lib.output_controller + 1 < 2 ^ 31

  create_audio_log-returns :
      (m : MediaInternals Real)
      → lib.output_controller < lib.component_max
      → m.owner_ids lib.output_controller + 1 < 2 ^ 31
      → (r : AudioLog × MediaInternals Real) × (create_audio_log lib.component_max
            lib.output_controller m
          ≡ some r)
  unfolding create_audio_log
  create_audio_log-returns m c o =
      elim (Option-cases (create_audio_log lib.component_max lib.output_controller m)) [
        | inl nothing ↦ absurd (ground arith)
        | inr found ↦ found
      ]

  new_delegate-returns :
      (reader_created : Bool) (log : AudioLog) (stream : ℕ) (params : AudioParameters)
      (device name : String) (a : Audio Real)
      → format_to_string params.format ≡ some name
      → (r : OutputDelegate × Audio Real) × (new_delegate lib reader_created log stream params
            device a
          ≡ some r)
  unfolding new_delegate on_created
  new_delegate-returns reader_created log stream params device name a e =
      elim (Option-cases (new_delegate lib reader_created log stream params device a)) [
        | inl nothing ↦ absurd (ground arith)
        | inr found ↦ found
      ]

  add_delegate-returns :
      (reader_created : Bool) (stream : ℕ) (params : AudioParameters) (device : String)
      (s : AudioRendererHost Real)
      → CanLog params s
      → (t : AudioRendererHost Real) × (add_delegate lib reader_created stream params device s
          ≡ some t)
  unfolding add_delegate
  add_delegate-returns reader_created stream params device s can =
      let (made, logged) = create_audio_log-returns s.audio.internals can.component can.owner_id in
      let (r, new) =
        new_delegate-returns reader_created made.0 stream params device can.format_name
          (record s.audio { internals = made.1 }) can.known in
      bind-returns _ logged (bind-returns _ new (_, refl))

  -- CreateStream fails no DCHECK.
  create_stream-returns :
      (reader_created : Bool) (stream : ℕ) (params : AudioParameters) (s : AudioRendererHost Real)
      → Granted s.authorizations
      → CanLog params s
      → (t : AudioRendererHost Real) × (create_stream lib reader_created stream params s ≡ some t)
  create_stream-returns reader_created stream params s granted can =
      elim (Option-cases (lookup stream s.authorizations)) [
        | inl nothing ↦
            let (t, made) = add_delegate-returns reader_created stream params "" s can in
            (t, create_stream_new lib reader_created stream params s nothing ∙ made)
        | inr ((allowed, device), found) ↦
            let good : allowed ≡ true =
              All-lookup (λ a. a.1.0 ≡ true) stream (allowed, device) s.authorizations granted
                found in
            let rest = record s { authorizations = remove stream s.authorizations } in
            let (t, made) = add_delegate-returns reader_created stream params device rest (record {
              format_name = can.format_name;
              known = can.known;
              component = can.component;
              owner_id = can.owner_id;
            }) in
            (
              t,
              create_stream_found lib reader_created stream params s device (found ∙ rw good refl)
                  ∙ made,
            )
      ]

  run_task-found :
      (duplicated prepared : Bool) (s : AudioRendererHost Real) (t : Task) (rest : List Task)
      (d : OutputDelegate)
      → s.audio.tasks ≡ t ∷ rest
      → lookup_object t.object s.delegates ≡ some d
      → run_task lib duplicated prepared s
        ≡ run_notice lib duplicated prepared d t.notice
            (record s { audio = record s.audio { tasks = rest } })
  unfolding run_task
  run_task-found duplicated prepared s t rest d e found = rw (e, run_task) (rw found refl)

  notified : OutputDelegate → ℕ → AudioRendererHost Real → AudioRendererHost Real
  notified d listener s =
      say (stream_created listener)
        (record s { delegates = replace_object (record d { reader = some false }) s.delegates })

  run_notice-created :
      (d : OutputDelegate) (listener : ℕ) (s : AudioRendererHost Real)
      → d.reader ≡ some true
      → s.client ≡ true
      → lookup d.stream_id s.listeners ≡ some listener
      → run_notice lib true true d send_created_notification s ≡ some (notified d listener s)
  unfolding run_notice take_socket notify_stream_created notified
  run_notice-created d listener s r c l = rw (r, run_notice) (rw c (rw (l, on_stream_created) refl))

  -- CreateStream of the IPC object, the controller's report, and the task that it posts.
  abbrev pub open_stream : ℕ → ℕ → AudioParameters → Streams Real → Option (Streams Real)
  open_stream fresh listener params p = do
    (ipc, t) ← ipc_create_stream lib true fresh listener params p
    d ← lookup_object p.1.audio.next_object t.delegates
    u ← run_task lib true true (record t { audio = on_controller_created d t.audio })
    some (ipc, u)

  listened : ℕ → ℕ → AudioRendererHost Real → AudioRendererHost Real
  listened fresh listener s = record s { listeners = put fresh listener s.listeners }

  open_stream-steps :
      (fresh listener : ℕ) (params : AudioParameters) (s t u : AudioRendererHost Real)
      (ipc : OutputIpc) (d : OutputDelegate)
      → ipc.stream_id ≡ none
      → ipc.stream_created ≡ false
      → create_stream lib true fresh params (listened fresh listener s) ≡ some t
      → lookup_object s.audio.next_object t.delegates ≡ some d
      → run_task lib true true (record t { audio = on_controller_created d t.audio }) ≡ some u
      → open_stream fresh listener params (ipc, s)
        ≡ some (record { stream_id = some fresh; stream_created = true }, u)
  unfolding ipc_create_stream listened
  open_stream-steps fresh listener params s t u ipc d i c made found ran =
      rw (c, ipc_create_stream) (rw i (rw made (rw found (rw ran refl))))

  posted-created :
      (t : AudioRendererHost Real) (d : OutputDelegate)
      → t.audio.tasks ≡ []
      → (on_controller_created d t.audio).tasks
        ≡ record { object = d.object; notice = send_created_notification } ∷ []
  unfolding on_controller_created
  posted-created t d e = rw e refl

  module _ (fresh listener : ℕ) (params : AudioParameters) (ipc : OutputIpc)
      (s : AudioRendererHost Real) (no_id : ipc.stream_id ≡ none)
      (closed : ipc.stream_created ≡ false) (v : IsSound s) (can : CanLog params s)
      (client : s.client ≡ true) (idle : s.audio.tasks ≡ []) where
    -- An IPC object without a stream, on a sound host with a client, no waiting task and room for one
    -- more log of a known format: CreateStream, the controller's report that it is created and the
    -- task that this posts, where a reader is created and its handles can be passed on, fail no
    -- DCHECK; the object then has the new stream, and its delegate has been told once that the stream
    -- is created, and nothing else.
    pub open_stream-returns :
        (u : AudioRendererHost Real) × (open_stream fresh listener params (ipc, s)
          ≡ some (record { stream_id = some fresh; stream_created = true }, u))
        × (u.calls ≡ stream_created listener ∷ s.calls)
        × (u.audio.tasks ≡ [])
    unfolding listened notified
    open_stream-returns =
        let s' = listened fresh listener s in
        let (t, made) = create_stream-returns true fresh params s' v.granted (record {
          format_name = can.format_name;
          known = can.known;
          component = can.component;
          owner_id = can.owner_id;
        }) in
        let (m, _) = create_stream-Made lib true fresh params s' t v.granted made in
        let unused =
          find_by-none (λ d. d.object) s.audio.next_object s.delegates
            (differ s.audio.next_object s.delegates v.below) in
        let found : lookup_object s.audio.next_object t.delegates ≡ some m.made = rw m.delegates (
          find_by-append_new (λ d. d.object) s.audio.next_object s.delegates m.made unused
            m.object) in
        let reported = record t { audio = on_controller_created m.made t.audio } in
        let queue = posted-created t m.made (m.tasks ∙ idle) in
        let now = record reported { audio = record reported.audio { tasks = [] } } in
        let listening : lookup m.made.stream_id t.listeners ≡ some listener =
          rw (m.stream_id, m.listeners)
            (lookup-put fresh listener fresh s.listeners ∙ rw (==_refl fresh) refl) in
        let ran =
          run_task-found true true reported
            (record { object = m.made.object; notice = send_created_notification }) [] m.made queue
            (rw m.object found)
          ∙ run_notice-created m.made listener now m.reader (m.client ∙ client) listening in
        (
          notified m.made listener now,
          open_stream-steps fresh listener params s t _ ipc m.made no_id closed made found ran,
          ap (λ l. stream_created listener ∷ l) m.calls,
          refl,
        )

  play_stream-found :
      (stream : ℕ) (s : AudioRendererHost Real) (d : OutputDelegate)
      → lookup_by_id stream s.delegates ≡ some d
      → play_stream lib stream s ≡ record s { audio = on_play_stream lib d s.audio }
  unfolding play_stream
  play_stream-found stream s d e = rw (e, play_stream) refl

  -- While every authorization is granted, PlayStream after a CreateStream that fails no DCHECK
  -- reports no error: it plays the controller of a delegate of the stream and logs that, and changes
  -- nothing else.
  pub play_stream-create_stream :
      (reader_created : Bool) (stream : ℕ) (params : AudioParameters) (s t : AudioRendererHost Real)
      → Granted s.authorizations
      → create_stream lib reader_created stream params s ≡ some t
      → (d : OutputDelegate) × (d.stream_id ≡ stream)
        × (play_stream lib stream t ≡ record t { audio = on_play_stream lib d t.audio })
  play_stream-create_stream reader_created stream params s t granted e =
      let (m, _) = create_stream-Made lib reader_created stream params s t granted e in
      let (d, found, same) =
        find_by-append (λ x. x.stream_id) stream s.delegates m.made m.stream_id in
      (d, same, play_stream-found stream t d (rw m.delegates found))
