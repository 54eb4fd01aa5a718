-- ===== src/MixerManager/Run.antt =====
-- The mixer manager and its sink cache in every order of calls.
use chromium_media_lib.Prelude.{
  some-injective, ℕ, ◌≡◌, ◌∙◌, refl, subst, sym, ◌⊎◌, inl, inr, Bool, true, false, Option, some,
  none, arith, ◌==◌, is_some, Bool-cases, Option-cases,
}
use chromium_media_lib.SinkCache.{SinkCache, OutputDeviceInfo, run_delayed, new_cache}
use chromium_media_lib.SinkCache.Entries.{entry, in_use, IsTidy}
use chromium_media_lib.SinkCache.Use.{run_delayed-IsTidy, get_sink_info-IsTidy}
use chromium_media_lib.SinkCache.Others.{in_use-get_sink_info}
use chromium_media_lib.MixerManager.{
  MixerKey, MixerManager, AudioParameters, MediaAudio, Latency, find_mixer, add_reference,
  make_mixer, get_mixer, reuse_or_make, is_exact, return_mixer, note_latency,
  get_mixer_output_params, get_output_device_info, create_input, new_manager,
}
use chromium_media_lib.MixerManager.References.{
  lacks, add_reference-IsReferenced, add_reference-lacks, Holds-lacks, find_mixer-Holds,
}
use chromium_media_lib.MixerManager.Searching.{
  add_reference-Comparable, find_mixer-Comparable, get_mixer_output_params-is_exact,
}
use chromium_media_lib.MixerManager.Sinks.{Served-more, Served-add_reference}
use chromium_media_lib.MixerManager.Making.{IsServed, Made, make_mixer-Made}
use chromium_media_lib.MixerManager.Returning.{return_mixer-IsServed, return_mixer-lacks}

-- Another state of the sink cache in which the same sinks are in use, or more.
kept-IsServed :
    (s : MixerManager) (c : SinkCache)
    → IsServed s
    → IsTidy c
    → ((j : ℕ) → in_use j s.sink_cache ≡ true → in_use j c ≡ true)
    → IsServed (record s { sink_cache = c })
kept-IsServed s c good tidy more = record {
  referenced = good.referenced;
  tidy = tidy;
  served = Served-more s.sink_cache c s.mixers more good.served;
  comparable = good.comparable;
}

module _ (is_default_device : ℕ → Bool) (latency_index : Latency → ℕ) (media : MediaAudio) where
  -- Calls of the manager, and the end of the delay of a deletion. What sinks say of their devices
  -- may change from call to call, and so may the entries that the search of the map comes to; a sink
  -- that is created is not in the cache yet, and a mixer that
  -- is made is none of the manager's.
  pub data Step : MixerManager → MixerManager → Type 0 where
    requested :
        (s : MixerManager) (r : Bool × Option ℕ × MixerManager) (info : ℕ → OutputDeviceInfo)
        (output_params : ℕ → AudioParameters) (reached : ℕ → Bool) (mixer created : ℕ)
        (key : MixerKey)
        → entry created s.sink_cache.cache ≡ none
        → lacks mixer s.mixers ≡ true
        → get_mixer is_default_device latency_index info output_params media reached mixer created
            key s
          ≡ some r
        → Step s r.2
    returned : (s t : MixerManager) (mixer : ℕ) → return_mixer mixer s ≡ some t → Step s t
    asked :
        (s : MixerManager) (info : ℕ → OutputDeviceInfo) (output_params : ℕ → AudioParameters)
        (use_session_id : Bool) (created frame device origin : ℕ)
        → entry created s.sink_cache.cache ≡ none
        → Step s
            (get_output_device_info is_default_device latency_index info output_params media
              use_session_id created frame device origin s).1
    gave_input :
        (s : MixerManager) (info : ℕ → OutputDeviceInfo) (output_params : ℕ → AudioParameters)
        (use_session_id : Bool) (created frame device origin : ℕ) (latency : Latency)
        → entry created s.sink_cache.cache ≡ none
        → Step s
            (create_input is_default_device latency_index info output_params media use_session_id
              created frame device origin latency s).1
    waited :
        (s : MixerManager) (c : SinkCache)
        → run_delayed s.sink_cache ≡ some c
        → Step s (record s { sink_cache = c })

  pub data Reachable : MixerManager → Type 0 where
    at_first : Reachable new_manager
    after : (s t : MixerManager) → Reachable s → Step s t → Reachable t

  -- GetMixer fails only for a key with effects, or where no output parameters can be made.
  get_mixer-Made :
      (s : MixerManager) (info : ℕ → OutputDeviceInfo) (output_params : ℕ → AudioParameters)
      (reached : ℕ → Bool) (mixer created : ℕ) (key : MixerKey)
      → IsServed s
      → entry created s.sink_cache.cache ≡ none
      → lacks mixer s.mixers ≡ true
      → let made =
          get_mixer is_default_device latency_index info output_params media reached mixer created
            key s in
        ((made ≡ none)
          × (((key.params.effects == 0) ≡ false)
              ⊎ ((k : ℕ) × (get_mixer_output_params media key.params (output_params k) key.latency
                    ≡ none))))
        ⊎ ((r : Bool × Option ℕ × MixerManager) × (made ≡ some r) × Made r)
  unfolding note_latency get_mixer reuse_or_make
  get_mixer-Made s info output_params reached mixer created key good absent new_mixer =
      let noted = note_latency latency_index key.latency s in
      let find = find_mixer is_default_device latency_index reached key s.mixers in
      elim (Bool-cases (key.params.effects == 0)) [
        | inr effects ↦ inl (rw (get_mixer, effects) refl, inl effects)
        | inl plain ↦ elim (Option-cases find) [
          | inl failed ↦ elim (Bool-cases (is_exact key.latency)) [
            | inl exact ↦ inl (
              rw (get_mixer, plain, failed) refl,
              inr (
                0,
                get_mixer_output_params-is_exact media key.params (output_params 0) key.latency
                    exact,
              ),
            )
            | inr inexact ↦
                let (found, fine) =
                  find_mixer-Comparable is_default_device latency_index reached key s.mixers
                    good.comparable inexact in
                absurd (cc)
          ]
          | inr (some m, found) ↦
              let t = record noted { mixers = add_reference m.mixer s.mixers } in
              inr (
                (true, some m.mixer, t),
                rw (get_mixer, plain, found) refl,
                (
                  record {
                    referenced = add_reference-IsReferenced m.mixer s.mixers good.referenced;
                    tidy = good.tidy;
                    served = Served-add_reference m.mixer s.sink_cache s.mixers good.served;
                    comparable = add_reference-Comparable m.mixer s.mixers good.comparable;
                  },
                  inr (
                    m.mixer,
                    refl,
                    refl,
                    add_reference-lacks m.mixer m.mixer s.mixers
                        ∙ Holds-lacks m s.mixers (
                            find_mixer-Holds is_default_device latency_index reached key m s.mixers
                              found),
                  ),
                ),
              )
          | inr (none, nothing) ↦
              let same : get_mixer is_default_device latency_index info output_params media reached
                    mixer created key s
                  ≡ make_mixer is_default_device latency_index info output_params media mixer
                      created key noted =
                rw (get_mixer, plain, nothing) refl in
              elim (make_mixer-Made is_default_device latency_index info output_params media mixer
                created key noted
                (record {
                  referenced = good.referenced;
                  tidy = good.tidy;
                  served = good.served;
                  comparable = good.comparable;
                })
                absent new_mixer) [
                  | inl (failed, k, bad) ↦ inl (same ∙ failed, inr (k, bad))
                  | inr (r, run, made) ↦ inr (r, same ∙ run, made)
                ]
        ]
      ]

  step-IsServed : (s t : MixerManager) → Step s t → IsServed s → IsServed t
  unfolding get_output_device_info create_input
  step-IsServed _ _
        (requested s r info output_params reached mixer created key absent new_mixer run) good =
      elim (get_mixer-Made s info output_params reached mixer created key good absent new_mixer) [
        | inl (failed, why) ↦ absurd (cc)
        | inr (q, made, kept) ↦
            let same : some q ≡ some r = sym made ∙ run in
            subst (λ o. IsServed o.2) (some-injective _ _ same) kept.0
      ]
  step-IsServed _ _ (returned s t mixer run) good = elim (Bool-cases (lacks mixer s.mixers)) [
    | inl missing ↦ let failed = return_mixer-lacks mixer s missing in absurd (cc)
    | inr there ↦
        let (u, done, kept) = return_mixer-IsServed mixer s good there in
        let same : some u ≡ some t = sym done ∙ run in subst IsServed (some-injective _ _ same) kept
  ]
  step-IsServed _ _ (asked s info output_params use_session_id created frame device origin absent)
        good =
      kept-IsServed s _ good
        (get_sink_info-IsTidy is_default_device info use_session_id created frame device origin
          s.sink_cache good.tidy absent)
        (λ j.
          in_use-get_sink_info is_default_device info use_session_id created frame device origin j
            s.sink_cache)
  step-IsServed _ _
        (gave_input s info output_params true created frame device origin latency absent) good =
      kept-IsServed s _ good
        (get_sink_info-IsTidy is_default_device info true created frame device origin s.sink_cache
          good.tidy absent)
        (λ j.
          in_use-get_sink_info is_default_device info true created frame device origin j
            s.sink_cache)
  step-IsServed _ _
        (gave_input s info output_params false created frame device origin latency absent) good =
      good
  step-IsServed _ _ (waited s c run) good =
      let (d, done, tidy, same) = run_delayed-IsTidy s.sink_cache good.tidy in
      let alike : some d ≡ some c = sym done ∙ run in
      subst (λ x. IsServed (record s { sink_cache = x })) (some-injective _ _ alike)
        (kept-IsServed s d good tidy (λ j on. same j ∙ on))

  -- In every state that a new manager comes to by GetMixer, ReturnMixer, GetOutputDeviceInfo,
  -- CreateInput and the ends of the delays of deletions, in any order: the sink of each mixer is in
  -- the cache and in use, no two mixers share a sink, each mixer has a reference, no key has the
  -- exact latency, and no two entries of the cache have one sink.
  pub Reachable-IsServed : (s : MixerManager) → Reachable s → IsServed s
  unfolding new_manager new_cache
  Reachable-IsServed _ at_first = record {
    referenced = tt;
    tidy = (tt, tt);
    served = tt;
    comparable = tt;
  }
  Reachable-IsServed _ (after s t r step) = step-IsServed s t step (Reachable-IsServed s r)

  -- In every such state ReturnMixer of a mixer of the manager fails no DCHECK, neither its own nor
  -- that of the sink cache, and keeps this so.
  pub Reachable-return_mixer :
      (s : MixerManager) (mixer : ℕ)
      → Reachable s
      → lacks mixer s.mixers ≡ false
      → (t : MixerManager) × (return_mixer mixer s ≡ some t) × IsServed t
  Reachable-return_mixer s mixer r there =
      return_mixer-IsServed mixer s (Reachable-IsServed s r) there

  -- In every such state, for a key without effects for which output parameters can be made on every
  -- sink, GetMixer, whose new sink is not in the cache and whose new mixer is not the manager's, fails
  -- no DCHECK. It gives a mixer that the manager has, with an OK status, or a null pointer with
  -- another status; the mixers' sinks are in use afterwards.
  pub Reachable-get_mixer :
      (s : MixerManager) (info : ℕ → OutputDeviceInfo) (output_params : ℕ → AudioParameters)
      (reached : ℕ → Bool) (mixer created : ℕ) (key : MixerKey)
      → Reachable s
      → entry created s.sink_cache.cache ≡ none
      → lacks mixer s.mixers ≡ true
      → key.params.effects ≡ 0
      → ((k : ℕ)
          → is_some (get_mixer_output_params media key.params (output_params k) key.latency) ≡ true)
      → (r : Bool × Option ℕ × MixerManager) × (get_mixer is_default_device latency_index info
            output_params media reached mixer created key s
          ≡ some r)
        × Made r
  Reachable-get_mixer s info output_params reached mixer created key r absent new_mixer plain fits =
      elim (get_mixer-Made s info output_params reached mixer created key (Reachable-IsServed s r)
        absent new_mixer) [
          | inl (failed, inl effects) ↦ absurd (ground arith)
          | inl (failed, inr (k, bad)) ↦ let ok = fits k in absurd (ground arith)
          | inr made ↦ made
        ]
