-- ===== src/SinkCache/Others.antt =====
-- AudioRendererSinkCacheImpl: what GetSink and ReleaseSink of one sink leave to the others.
use chromium_media_lib.Prelude.{
  ℕ, ◌≡◌, ap, inl, inr, Bool, true, false, some, none, List, [], ◌∷◌, ◌++◌, arith, ◌==◌, Bool-cases,
  Option-cases,
}
use chromium_media_lib.SinkCache.{
  OutputDeviceInfo, CacheEntry, SinkCache, find_if, erase_if, use_if, has_sink, delete_sink,
  release_sink, matches, get_sink, get_sink_info, cache_unused_sink_if_healthy,
  delete_later_if_unused,
}
use chromium_media_lib.SinkCache.Entries.{
  entry, in_use, is_used, IsTidy, DistinctSinks-erase_if, Awaited-erase_if, entry_of_erased,
  entry_erased,
}

used-use_if :
    (j : ℕ) (test : CacheEntry → Bool) (l : List CacheEntry)
    → is_used (entry j l) ≡ true
    → is_used (entry j (use_if test l)) ≡ true
unfolding find_if use_if
used-use_if j test [] h = h
used-use_if j test (e ∷ l) h = ground (arith, used-use_if j test l)

used-append :
    (j : ℕ) (l : List CacheEntry) (e : CacheEntry)
    → is_used (entry j l) ≡ true
    → is_used (entry j (l ++ e ∷ [])) ≡ true
unfolding find_if
used-append j [] e h = absurd (ground arith)
used-append j (x ∷ l) e h = ground (arith, used-append j l e)

-- A sink that is in use stays so while GetSink gives another one.
pub in_use-get_sink :
    (is_default_device : ℕ → Bool) (info : ℕ → OutputDeviceInfo) (created frame device origin j : ℕ)
    (s : SinkCache)
    → in_use j s ≡ true
    → in_use j (get_sink is_default_device info created frame device origin s).1 ≡ true
unfolding get_sink
in_use-get_sink is_default_device info created frame device origin j s h =
    let test = matches is_default_device info frame device origin true in
    elim (Option-cases (find_if test s.cache)) [
      | inr (e, found) ↦ rw (get_sink, found) (used-use_if j test s.cache h)
      | inl nothing ↦
          rw (get_sink, nothing)
            (elim (Bool-cases (info created).status_ok) [
              | inl good ↦ rw good (used-append j s.cache _ h)
              | inr bad ↦ rw bad h
            ])
    ]

-- GetSinkInfo keeps the sinks that are in use.
in_use-cache_unused :
    (is_default_device : ℕ → Bool) (info : ℕ → OutputDeviceInfo) (frame device origin sink j : ℕ)
    (s : SinkCache)
    → in_use j s ≡ true
    → in_use j (cache_unused_sink_if_healthy is_default_device info frame device origin sink s)
      ≡ true
unfolding cache_unused_sink_if_healthy delete_later_if_unused
in_use-cache_unused is_default_device info frame device origin sink j s h =
    elim (Bool-cases (info sink).status_ok) [
      | inl good ↦ rw good (used-append j s.cache _ h)
      | inr bad ↦ rw bad h
    ]

pub in_use-get_sink_info :
    (is_default_device : ℕ → Bool) (info : ℕ → OutputDeviceInfo) (use_session_id : Bool)
    (created frame device origin j : ℕ) (s : SinkCache)
    → in_use j s ≡ true
    → in_use j (get_sink_info is_default_device info use_session_id created frame device origin s).1
      ≡ true
unfolding get_sink_info
in_use-get_sink_info is_default_device info true created frame device origin j s h =
    in_use-cache_unused is_default_device info frame (info created).device_id origin created j s h
in_use-get_sink_info is_default_device info false created frame device origin j s h =
    elim (Option-cases
      (find_if (matches is_default_device info frame device origin false) s.cache)) [
        | inr (e, found) ↦ rw (get_sink_info, found) h
        | inl nothing ↦
            rw (get_sink_info, nothing)
              (in_use-cache_unused is_default_device info frame device origin created j s h)
      ]

-- What ReleaseSink of a sink does.
abbrev pub Released : ℕ → SinkCache → SinkCache → Type 0
Released k s t = IsTidy t × ((j : ℕ) → (j == k) ≡ false → in_use j t ≡ in_use j s)

-- ReleaseSink of a sink that is in use fails no DCHECK: it erases that sink and no other.
pub release_sink-Released :
    (k : ℕ) (s : SinkCache)
    → IsTidy s
    → in_use k s ≡ true
    → (t : SinkCache) × (release_sink k s ≡ some t) × (in_use k t ≡ false) × Released k s t
unfolding release_sink delete_sink find_if
release_sink-Released k s tidy h = elim (Option-cases (entry k s.cache)) [
  | inl gone ↦ absurd (ground arith)
  | inr (e, found) ↦ (
    record s { cache = erase_if (has_sink k) s.cache },
    ground arith,
    ap is_used (entry_erased k s.cache tidy.0),
    (
      (
        DistinctSinks-erase_if (has_sink k) s.cache tidy.0,
        Awaited-erase_if s.delayed (has_sink k) s.cache tidy.1,
      ),
      λ j other. ap is_used (entry_of_erased j k s.cache other),
    ),
  )
]

-- ReleaseSink of a sink that is not in the cache does nothing.
pub release_sink-absent :
    (k : ℕ) (s : SinkCache) → entry k s.cache ≡ none → release_sink k s ≡ some s
unfolding release_sink delete_sink find_if
release_sink-absent k s h = ground arith
