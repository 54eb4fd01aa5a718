-- ===== src/RendererHost/Made.antt =====
-- AudioRendererHost::CreateStream: what a call that fails no DCHECK makes.
use Prim.Native.String.{String}
use chromium_media_lib.Prelude.{
  ℕ, ◌+◌, ◌≡◌, refl, subst, sym, ◌∙◌, inl, inr, Bool, true, Option, some, none, List, [], ◌∷◌, ◌++◌,
  All, arith, Option-cases, ◌>>=◌, if◌then◌else◌,
}
use chromium_media_lib.Prelude.Maps.{lookup, remove, All-lookup, All-remove}
use chromium_media_lib.MediaInternals.{AudioLog, AudioParameters, create_audio_log}
use chromium_media_lib.OutputDelegate.{MediaLibrary, OutputDelegate, Audio, new_delegate}
use chromium_media_lib.RendererHost.{AudioRendererHost, add_delegate, create_stream}

-- Every authorization in the host is granted.
abbrev pub Granted : List (ℕ × (Bool × String)) → Type 0
Granted m = All (λ e. e.1.0 ≡ true) m

-- The inversion of a chain of two.
chain :
    {A B C : Type 0} (o : Option A) (f : A → Option B) (g : B → C) (c : C)
    → (o >>= λ a. f a >>= λ b. some (g b)) ≡ some c
    → (a : A) × (b : B) × (o ≡ some a) × (f a ≡ some b) × (g b ≡ c)
chain (some a) f g c e = elim (Option-cases (f a)) [
  | inl nothing ↦ absurd (ground arith)
  | inr (b, found) ↦ (a, b, refl, found, ground arith)
]
chain none f g c e = absurd (cc)

module _ {Real : Type 0} (lib : MediaLibrary Real) (reader_created : Bool) (stream : ℕ)
    (params : AudioParameters) where
  -- `t` is `s` with one delegate more, of the stream and with the next number.
  pub record Made (s t : AudioRendererHost Real) : Type 0 where
    pub made : OutputDelegate
    pub delegates : t.delegates ≡ s.delegates ++ made ∷ []
    pub stream_id : made.stream_id ≡ stream
    pub object : made.object ≡ s.audio.next_object
    pub next_object : t.audio.next_object ≡ s.audio.next_object + 1
    pub tasks : t.audio.tasks ≡ s.audio.tasks
    pub listeners : t.listeners ≡ s.listeners
    pub client : t.client ≡ s.client
    pub calls : t.calls ≡ s.calls
    pub reader : made.reader ≡ (if reader_created then some true else none)

  new_delegate-gives :
      (log : AudioLog) (device : String) (a b : Audio Real) (d : OutputDelegate)
      → new_delegate lib reader_created log stream params device a ≡ some (d, b)
      → (d.stream_id ≡ stream)
        × (d.object ≡ a.next_object)
        × (b.next_object ≡ a.next_object + 1)
        × (b.tasks ≡ a.tasks)
        × (d.reader ≡ (if reader_created then some true else none))
  unfolding new_delegate
  new_delegate-gives log device a b d e = ground arith

  add_delegate-Made :
      (device : String) (s t : AudioRendererHost Real)
      → add_delegate lib reader_created stream params device s ≡ some t
      → Made s t × (t.authorizations ≡ s.authorizations)
  unfolding add_delegate
  add_delegate-Made device s t e =
      let ((log, internals), (d, audio), _, new, same) =
        chain (create_audio_log lib.component_max lib.output_controller s.audio.internals)
          (λ made.
            new_delegate lib reader_created made.0 stream params device
              (record s.audio { internals = made.1 }))
          (λ r. record s { delegates = s.delegates ++ r.0 ∷ []; audio = r.1 }) t e in
      let (id, object, next, tasks, reader) =
        new_delegate-gives log device (record s.audio { internals = internals }) audio d new in
      subst (λ u. Made s u × (u.authorizations ≡ s.authorizations)) same
        (
          record {
            made = d;
            delegates = refl;
            stream_id = id;
            object = object;
            next_object = next;
            tasks = tasks;
            listeners = refl;
            client = refl;
            calls = refl;
            reader = reader;
          },
          refl,
        )

  pub create_stream_new :
      (s : AudioRendererHost Real)
      → lookup stream s.authorizations ≡ none
      → create_stream lib reader_created stream params s
        ≡ add_delegate lib reader_created stream params "" s
  unfolding create_stream
  create_stream_new s e = rw (e, create_stream) refl

  pub create_stream_found :
      (s : AudioRendererHost Real) (device : String)
      → lookup stream s.authorizations ≡ some (true, device)
      → create_stream lib reader_created stream params s
        ≡ add_delegate lib reader_created stream params device
            (record s { authorizations = remove stream s.authorizations })
  unfolding create_stream
  create_stream_found s device e = rw (e, create_stream) refl

  Made-since :
      (s t : AudioRendererHost Real) (authorizations : List (ℕ × (Bool × String)))
      → Made (record s { authorizations = authorizations }) t
      → Made s t
  Made-since s t authorizations m = record {
    made = m.made;
    delegates = m.delegates;
    stream_id = m.stream_id;
    object = m.object;
    next_object = m.next_object;
    tasks = m.tasks;
    listeners = m.listeners;
    client = m.client;
    calls = m.calls;
    reader = m.reader;
  }

  -- While every authorization is granted, CreateStream makes a delegate.
  pub create_stream-Made :
      (s t : AudioRendererHost Real)
      → Granted s.authorizations
      → create_stream lib reader_created stream params s ≡ some t
      → Made s t × Granted t.authorizations
  create_stream-Made s t granted e = elim (Option-cases (lookup stream s.authorizations)) [
    | inl nothing ↦
        let (made, same) = add_delegate-Made "" s t (sym (create_stream_new s nothing) ∙ e) in
        (made, subst Granted (sym same) granted)
    | inr ((allowed, device), found) ↦
        let good : allowed ≡ true =
          All-lookup (λ a. a.1.0 ≡ true) stream (allowed, device) s.authorizations granted found in
        let rest = record s { authorizations = remove stream s.authorizations } in
        let (made, same) =
          add_delegate-Made device rest t
            (sym (create_stream_found s device (found ∙ rw good refl)) ∙ e) in
        (
          Made-since s t _ made,
          subst Granted (sym same) (All-remove (λ a. a.1.0 ≡ true) stream s.authorizations granted),
        )
  ]
