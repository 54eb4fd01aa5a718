-- ===== src/SinkCache/Use.antt =====
-- AudioRendererSinkCacheImpl: sinks that are in use stay, and unused ones do not stay for ever.
use chromium_media_lib.Prelude.{
  List-cases, ℕ, ◌≡◌, refl, sym, subst, inl, inr, ◌⊎◌, Bool, true, false, some, none, List, [], ◌∷◌,
  ◌++◌, All, arith, if◌then◌else◌, Bool-cases, Option-cases,
}
use chromium_media_lib.SinkCache.{
  OutputDeviceInfo, CacheEntry, SinkCache, find_if, erase_if, use_if, has_sink, delete_sink,
  run_delayed, matches, cache_unused_sink_if_healthy, get_sink_info, get_sink,
  delete_later_if_unused,
}
use chromium_media_lib.SinkCache.Entries.{
  entry, in_use, Awaited, IsTidy, entry-append, DistinctSinks-append, Awaited-append, among_last,
  Awaited-more, DistinctSinks-use_if, Awaited-use_if, DistinctSinks-erase_if, Awaited-without,
  Awaited-erased, Awaited-used, in_use-erase_if, found_entry,
}

-- DeleteSink that is not forced keeps a sink that is in use, and does not stop it.
pub delete_sink-in_use :
    (k : ℕ) (s : SinkCache) → in_use k s ≡ true → delete_sink k false s ≡ some s
unfolding delete_sink find_if
delete_sink-in_use k s h = elim (Option-cases (entry k s.cache)) [
  | inl n ↦ ground arith
  | inr (e, f) ↦ ground arith
]

-- In a tidy cache, when the delay of a deletion is over, DeleteSink fails no DCHECK: it keeps the
-- cache tidy, and the same sinks are in use. A cache is tidy if no two entries have one
-- sink and each entry that is not in use waits for its deletion.
pub run_delayed-IsTidy :
    (s : SinkCache)
    → IsTidy s
    → (t : SinkCache) × (run_delayed s ≡ some t) × IsTidy t × ((j : ℕ) → in_use j t ≡ in_use j s)
unfolding run_delayed delete_sink
run_delayed-IsTidy s c = elim (List-cases s.delayed) [
  | inl nothing ↦ (s, rw nothing refl, c, λ j. refl)
  | inr (k, rest, h) ↦
      let waiting = subst (λ d. Awaited d s.cache) h c.1 in
      elim (Option-cases (entry k s.cache)) [
        | inl gone ↦ (
          record s { delayed = rest },
          ground arith,
          (c.0, Awaited-without k rest s.cache waiting gone),
          λ j. refl,
        )
        | inr (e, found) ↦ elim (Bool-cases e.used) [
          | inl used ↦ (
            record s { delayed = rest },
            ground arith,
            (c.0, Awaited-used k rest s.cache e waiting c.0 found used),
            λ j. refl,
          )
          | inr unused ↦ (
            record s {
              delayed = rest;
              cache = erase_if (has_sink k) s.cache;
              stopped = k ∷ s.stopped;
            },
            ground arith,
            (
              DistinctSinks-erase_if (has_sink k) s.cache c.0,
              Awaited-erased k rest s.cache waiting c.0,
            ),
            λ j. in_use-erase_if k j e s c.0 found unused,
          )
        ]
      ]
]

-- A tidy cache with no deletion posted holds only sinks that are in use.
pub Awaited-nothing : (l : List CacheEntry) → Awaited [] l → All (λ e. e.used ≡ true) l
Awaited-nothing [] a = tt
Awaited-nothing (e ∷ l) a = (ground arith, Awaited-nothing l a.1)

module _ (is_default_device : ℕ → Bool) (info : ℕ → OutputDeviceInfo) where
  cache_unused-IsTidy :
      (frame device origin sink : ℕ) (s : SinkCache)
      → IsTidy s
      → entry sink s.cache ≡ none
      → IsTidy (cache_unused_sink_if_healthy is_default_device info frame device origin sink s)
  unfolding cache_unused_sink_if_healthy delete_later_if_unused
  cache_unused-IsTidy frame device origin sink s c absent =
      elim (Bool-cases (info sink).status_ok) [
        | inr bad ↦ rw bad c
        | inl good ↦ rw good (
          DistinctSinks-append s.cache _ c.0 absent,
          Awaited-append (s.delayed ++ sink ∷ []) s.cache _
              (Awaited-more s.delayed sink s.cache c.1) (inr (among_last sink s.delayed)),
        )
      ]

  -- GetSinkInfo keeps a tidy cache tidy, if the sink that it may create is not in it yet.
  pub get_sink_info-IsTidy :
      (use_session_id : Bool) (created frame device origin : ℕ) (s : SinkCache)
      → IsTidy s
      → entry created s.cache ≡ none
      → IsTidy (get_sink_info is_default_device info use_session_id created frame device origin s).1
  unfolding get_sink_info
  get_sink_info-IsTidy true created frame device origin s c absent =
      cache_unused-IsTidy frame (info created).device_id origin created s c absent
  get_sink_info-IsTidy false created frame device origin s c absent =
      elim (Option-cases
        (find_if (matches is_default_device info frame device origin false) s.cache)) [
          | inl nothing ↦ rw nothing (cache_unused-IsTidy frame device origin created s c absent)
          | inr (e, found) ↦ rw found c
        ]

  matches_unused :
      (frame device origin : ℕ) (e : CacheEntry)
      → matches is_default_device info frame device origin true e ≡ true
      → e.used ≡ false
  unfolding matches
  matches_unused frame device origin e m = ground arith

  -- What GetSink promises of its result: the sink, and the state after it was `s`.
  abbrev pub Given : ℕ → SinkCache → ℕ × SinkCache → Type 0
  Given created s r =
      IsTidy r.1
      × (in_use r.0 s ≡ false)
      × ((in_use r.0 r.1 ≡ true)
          ⊎ ((r.0 ≡ created) × ((info created).status_ok ≡ false) × (r.1 ≡ s)))

  module _ (created frame device origin : ℕ) (s : SinkCache) (tidy : IsTidy s)
      (absent : entry created s.cache ≡ none) where
    test : CacheEntry → Bool
    test = matches is_default_device info frame device origin true

    created_entry : CacheEntry
    created_entry = record {
      source_render_frame_id = frame;
      device_id = device;
      security_origin = origin;
      sink = created;
      used = true;
    }

    get_sink_found :
        (e : CacheEntry)
        → find_if test s.cache ≡ some e
        → get_sink is_default_device info created frame device origin s
          ≡ (e.sink, record s { cache = use_if test s.cache })
    unfolding get_sink test
    get_sink_found e found = rw (get_sink, found) refl

    get_sink_created :
        find_if test s.cache ≡ none
        → get_sink is_default_device info created frame device origin s ≡ (
          created,
          if (info created).status_ok
              then record s { cache = s.cache ++ created_entry ∷ [] }
              else s,
        )
    unfolding get_sink test created_entry
    get_sink_created nothing = rw (get_sink, nothing) refl

    created-Given : Given created s (
      created,
      if (info created).status_ok then record s { cache = s.cache ++ created_entry ∷ [] } else s,
    )
    unfolding created_entry
    created-Given = elim (Bool-cases (info created).status_ok) [
      | inl good ↦ rw good (
        (
          DistinctSinks-append s.cache created_entry tidy.0 absent,
          Awaited-append s.delayed s.cache created_entry tidy.1 (inl refl),
        ),
        ground arith,
        inl (ground (arith, entry-append created s.cache created_entry absent)),
      )
      | inr bad ↦ rw bad (tidy, ground arith, inr (refl, refl, refl))
    ]

    -- GetSink keeps a tidy cache tidy, if the sink that it may create is not in it yet. The sink
    -- that it gives was not in use, and it is in use afterwards, unless it was created and is not
    -- healthy, and then the cache is as before. So no two clients are given one sink.
    pub get_sink-Given :
        Given created s (get_sink is_default_device info created frame device origin s)
    unfolding test
    get_sink-Given = elim (Option-cases (find_if test s.cache)) [
      | inl nothing ↦ subst (Given created s) (sym (get_sink_created nothing)) created-Given
      | inr (e, found) ↦
          let (there, passes, used) = found_entry test s.cache e tidy.0 found in
          let unused = matches_unused frame device origin e passes in
          subst (Given created s) (sym (get_sink_found e found)) (
            (
              DistinctSinks-use_if test s.cache tidy.0,
              Awaited-use_if s.delayed test s.cache tidy.1,
            ),
            ground arith,
            inl (ground arith),
          )
    ]
