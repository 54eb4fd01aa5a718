-- ===== src/RendererHost/Invariant.antt =====
-- AudioRendererHost: the invariant of its delegates and authorizations, and of a number whose
-- delegate was closed.
use Prim.Native.String.{String}
use chromium_media_lib.Prelude.{
  ℕ, ◌+◌, ◌<◌, ◌≡◌, ◌≢◌, refl, subst, sym, inl, inr, Bool, true, some, none, List, [], ◌∷◌, All,
  arith, Option-cases, is_some, Bool-cases,
}
use chromium_media_lib.Prelude.Maps.{lookup, remove, All-put, All-remove}
use chromium_media_lib.MediaInternals.{AudioParameters}
use chromium_media_lib.OutputDelegate.{MediaLibrary, OutputDelegate, destroy_delegate}
use chromium_media_lib.RendererHost.{
  AudioRendererHost, lookup_by_id, swap_and_pop, insert_new, request_device_authorization,
  create_stream, on_close_stream,
}
use chromium_media_lib.RendererHost.Delegates.{
  Distinct, All-find_by, All-append, All-swap_and_pop, Distinct-append, Distinct-swap_and_pop,
  swap_and_pop-gone, All-replace_object, Distinct-replace_object,
}
use chromium_media_lib.RendererHost.Made.{Granted, create_stream-Made}
use chromium_media_lib.RendererHost.Steps.{Alike, Changed}

pub insert_new-Granted :
    (stream : ℕ) (device : String) (m : List (ℕ × (Bool × String)))
    → Granted m
    → Granted (insert_new stream (true, device) m)
insert_new-Granted stream device m g = elim (Bool-cases (is_some (lookup stream m))) [
  | inl there ↦ rw there g
  | inr absent ↦ rw absent (All-put (λ e. e.1.0 ≡ true) stream (true, device) m refl g)
]

weaken :
    (n : ℕ) (l : List OutputDelegate) → All (λ d. d.object < n) l → All (λ d. d.object < n + 1) l
weaken n [] h = tt
weaken n (d ∷ l) h = (omega arith, weaken n l h.1)

pub differ :
    (n : ℕ) (l : List OutputDelegate) → All (λ d. d.object < n) l → All (λ d. d.object ≢ n) l
differ n [] h = tt
differ n (d ∷ l) h = (λ e. absurd (omega (arith, h.0, e)), differ n l h.1)

module _ {Real : Type 0} where
  -- What a step may do to the delegates and what goes with them.
  pub record IsSound (s : AudioRendererHost Real) : Type 0 where
    pub granted : Granted s.authorizations
    -- No two delegates have one number, and all numbers are below the next one.
    pub objects : Distinct (λ d. d.object) s.delegates
    pub below : All (λ d. d.object < s.audio.next_object) s.delegates

  -- No delegate has the number any more, nor will a new one have it.
  pub record IsGone (object : ℕ) (s : AudioRendererHost Real) : Type 0 where
    pub no_delegate : All (λ d. d.object ≢ object) s.delegates
    pub used : object < s.audio.next_object

  pub Alike-IsSound : (s t : AudioRendererHost Real) → Alike s t → IsSound s → IsSound t
  Alike-IsSound s t a v = record {
    granted = subst Granted (sym a.authorizations) v.granted;
    objects = subst (Distinct (λ d. d.object)) (sym a.delegates) v.objects;
    below = rw (a.delegates, a.next_object) v.below;
  }

  pub Alike-IsGone :
      (object : ℕ) (s t : AudioRendererHost Real) → Alike s t → IsGone object s → IsGone object t
  Alike-IsGone object s t a v = record {
    no_delegate = rw a.delegates v.no_delegate;
    used = rw a.next_object v.used;
  }

module _ {Real : Type 0} (lib : MediaLibrary Real) where
  pub Changed-IsSound : (s t : AudioRendererHost Real) → Changed lib s t → IsSound s → IsSound t
  Changed-IsSound s t (inl a) v = Alike-IsSound s t a v
  Changed-IsSound s t (inr (e, a)) v = Alike-IsSound _ t a (record {
    granted = v.granted;
    objects = Distinct-replace_object e s.delegates v.objects;
    below = All-replace_object (λ k. k < s.audio.next_object) e s.delegates v.below;
  })

  pub Changed-IsGone :
      (object : ℕ) (s t : AudioRendererHost Real)
      → Changed lib s t
      → IsGone object s
      → IsGone object t
  Changed-IsGone object s t (inl a) v = Alike-IsGone object s t a v
  Changed-IsGone object s t (inr (e, a)) v = Alike-IsGone object _ t a (record {
    no_delegate = All-replace_object (λ k. k ≢ object) e s.delegates v.no_delegate;
    used = v.used;
  })

  pub create_stream-IsSound :
      (reader_created : Bool) (stream : ℕ) (params : AudioParameters) (s t : AudioRendererHost Real)
      → create_stream lib reader_created stream params s ≡ some t
      → IsSound s
      → IsSound t
  create_stream-IsSound reader_created stream params s t e v =
      let (m, granted) = create_stream-Made lib reader_created stream params s t v.granted e in
      let n = s.audio.next_object in
      record {
        granted = granted;
        objects = rw m.delegates (
            Distinct-append (λ d. d.object) s.delegates m.made v.objects
              (rw m.object (differ n s.delegates v.below)));
        below =
            rw (m.delegates, m.next_object)
              (All-append (λ d. d.object < n + 1) s.delegates m.made (weaken n s.delegates v.below)
                (rw m.object (omega arith)));
      }

  pub create_stream-IsGone :
      (object : ℕ) (reader_created : Bool) (stream : ℕ) (params : AudioParameters)
      (s t : AudioRendererHost Real)
      → create_stream lib reader_created stream params s ≡ some t
      → IsSound s
      → IsGone object s
      → IsGone object t
  create_stream-IsGone object reader_created stream params s t e v g =
      let (m, _) = create_stream-Made lib reader_created stream params s t v.granted e in
      let used = g.used in
      record {
        no_delegate = rw m.delegates (
            All-append (λ d. d.object ≢ object) s.delegates m.made g.no_delegate
              (λ same. absurd (omega (arith, m.object, same))));
        used = omega (arith, m.next_object);
      }

  on_close_stream-missing :
      (stream : ℕ) (s : AudioRendererHost Real)
      → lookup_by_id stream s.delegates ≡ none
      → on_close_stream lib stream s ≡ record s { authorizations = remove stream s.authorizations }
  unfolding on_close_stream
  on_close_stream-missing stream s e = rw (e, on_close_stream) refl

  on_close_stream-found :
      (stream : ℕ) (s : AudioRendererHost Real) (d : OutputDelegate)
      → lookup_by_id stream s.delegates ≡ some d
      → on_close_stream lib stream s ≡ record s {
        authorizations = remove stream s.authorizations;
        delegates = swap_and_pop stream s.delegates;
        audio = destroy_delegate lib d s.audio;
      }
  unfolding on_close_stream
  on_close_stream-found stream s d e = rw (e, on_close_stream) refl

  pub on_close_stream-IsSound :
      (stream : ℕ) (s : AudioRendererHost Real) → IsSound s → IsSound (on_close_stream lib stream s)
  unfolding destroy_delegate
  on_close_stream-IsSound stream s v =
      let granted = All-remove (λ e. e.1.0 ≡ true) stream s.authorizations v.granted in
      elim (Option-cases (lookup_by_id stream s.delegates)) [
        | inl missing ↦
            subst IsSound (sym (on_close_stream-missing stream s missing))
              (record { granted = granted; objects = v.objects; below = v.below })
        | inr (d, found) ↦ subst IsSound (sym (on_close_stream-found stream s d found)) (record {
          granted = granted;
          objects = Distinct-swap_and_pop (λ e. e.object) stream s.delegates v.objects;
          below = All-swap_and_pop (λ e. e.object < s.audio.next_object) stream s.delegates v.below;
        })
      ]

  pub on_close_stream-IsGone :
      (object stream : ℕ) (s : AudioRendererHost Real)
      → IsGone object s
      → IsGone object (on_close_stream lib stream s)
  unfolding destroy_delegate
  on_close_stream-IsGone object stream s g = elim (Option-cases (lookup_by_id stream s.delegates)) [
    | inl missing ↦
        subst (IsGone object) (sym (on_close_stream-missing stream s missing))
          (record { no_delegate = g.no_delegate; used = g.used })
    | inr (d, found) ↦
        subst (IsGone object) (sym (on_close_stream-found stream s d found)) (record {
          no_delegate = All-swap_and_pop (λ e. e.object ≢ object) stream s.delegates g.no_delegate;
          used = g.used;
        })
  ]

  -- The delegate that OnCloseStream destroys is gone.
  pub on_close_stream-closed :
      (stream : ℕ) (s : AudioRendererHost Real) (d : OutputDelegate)
      → lookup_by_id stream s.delegates ≡ some d
      → IsSound s
      → IsGone d.object (on_close_stream lib stream s)
  unfolding destroy_delegate
  on_close_stream-closed stream s d found v =
      subst (IsGone d.object) (sym (on_close_stream-found stream s d found)) (record {
        no_delegate = swap_and_pop-gone (λ e. e.object) stream s.delegates d v.objects found;
        used =
            All-find_by (λ e. e.stream_id) (λ e. e.object < s.audio.next_object) stream s.delegates
              d v.below found;
      })

  pub request-gives :
      (stream : ℕ) (device : String) (s t : AudioRendererHost Real)
      → request_device_authorization lib stream device s ≡ some t
      → (t.authorizations ≡ insert_new stream (true, lib.default_device_id) s.authorizations)
        × (t.delegates ≡ s.delegates)
        × (t.audio ≡ s.audio)
  unfolding request_device_authorization
  request-gives stream device s t e = ground arith
