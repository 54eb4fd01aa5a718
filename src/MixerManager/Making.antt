-- ===== src/MixerManager/Making.antt =====
-- AudioRendererMixerManager::GetMixer and ReturnMixer, with what they do to the sink cache.
use chromium_media_lib.Prelude.{
  ℕ, ◌≡◌, refl, subst, sym, ◌⊎◌, inl, inr, Bool, true, false, Option, some, none, ◌∷◌, arith, ◌>>=◌,
  Bool-cases, Option-cases,
}
use chromium_media_lib.SinkCache.{SinkCache, OutputDeviceInfo, get_sink, release_sink}
use chromium_media_lib.SinkCache.Entries.{entry, IsTidy}
use chromium_media_lib.SinkCache.Use.{Given, get_sink-Given}
use chromium_media_lib.SinkCache.Others.{
  in_use-get_sink, release_sink-Released, release_sink-absent,
}
use chromium_media_lib.MixerManager.{
  MixerKey, MixerManager, AudioParameters, MediaAudio, Latency, make_mixer, get_mixer_output_params,
  is_exact,
}
use chromium_media_lib.MixerManager.Searching.{Comparable, get_mixer_output_params-is_exact}
use chromium_media_lib.MixerManager.References.{IsReferenced, lacks}
use chromium_media_lib.MixerManager.Sinks.{uses, Served, Served-more, Served-uses, Served-without}

-- Every entry has a reference, no two have one mixer or one sink, the sinks are in the cache and in
-- use, no key has the exact latency, and the cache is tidy.
pub record IsServed (s : MixerManager) : Type 0 where
  pub referenced : IsReferenced s.mixers
  pub tidy : IsTidy s.sink_cache
  pub served : Served s.sink_cache s.mixers
  pub comparable : Comparable s.mixers

-- What GetMixer gives: the null pointer with a status that is not OK, or a mixer of the manager.
abbrev pub Made : Bool × Option ℕ × MixerManager → Type 0
Made r =
    IsServed r.2
    × ((r.0 ≡ false) × (r.1 ≡ none)
        ⊎ (id : ℕ) × (r.0 ≡ true) × (r.1 ≡ some id) × (lacks id r.2.mixers ≡ false))

module _ (is_default_device : ℕ → Bool) (latency_index : Latency → ℕ) (info : ℕ → OutputDeviceInfo)
    (output_params : ℕ → AudioParameters) (media : MediaAudio) (mixer created : ℕ) (key : MixerKey)
    (s : MixerManager) (good : IsServed s) (absent : entry created s.sink_cache.cache ≡ none)
    (new_mixer : lacks mixer s.mixers ≡ true) where
  got : ℕ × SinkCache
  got =
      get_sink is_default_device info created key.source_render_frame_id key.device_id
        key.security_origin s.sink_cache

  got-Given : Given is_default_device info created s.sink_cache got
  unfolding got
  got-Given =
      get_sink-Given is_default_device info created key.source_render_frame_id key.device_id
        key.security_origin s.sink_cache good.tidy absent

  -- The mixers' sinks stay in use while another sink is given.
  got-Served : Served got.1 s.mixers
  unfolding got
  got-Served =
      Served-more s.sink_cache got.1 s.mixers
        (λ j.
          in_use-get_sink is_default_device info created key.source_render_frame_id key.device_id
            key.security_origin j s.sink_cache)
        good.served

  got-uses : uses got.0 s.mixers ≡ false
  got-uses = Served-uses got.0 s.sink_cache s.mixers got-Given.1 good.served

  abbrev made_by : MixerManager → Option (Bool × Option ℕ × MixerManager)
  made_by t =
      make_mixer is_default_device latency_index info output_params media mixer created key t

  with_cache : SinkCache → MixerManager
  with_cache c = record s { sink_cache = c; stopped = got.0 ∷ s.stopped }

  make_mixer_released :
      (c : SinkCache)
      → (info got.0).status_ok ≡ false
      → release_sink got.0 got.1 ≡ some c
      → made_by s ≡ some (false, none, with_cache c)
  unfolding make_mixer got with_cache
  make_mixer_released c bad released = rw (make_mixer, bad, released) refl

  -- An unhealthy sink is released again.
  make_mixer-bad :
      (info got.0).status_ok ≡ false
      → (c : SinkCache) × (made_by s ≡ some (false, none, with_cache c)) × IsServed (with_cache c)
  unfolding with_cache
  make_mixer-bad bad = elim got-Given.2 [
    | inl on ↦
        let (c, released, _, (tidy, others)) = release_sink-Released got.0 got.1 got-Given.0 on in
        (
          c,
          make_mixer_released c bad released,
          record {
            referenced = good.referenced;
            tidy = tidy;
            served = Served-without got.0 got.1 c s.mixers others got-uses got-Served;
            comparable = good.comparable;
          },
        )
    | inr (same, unhealthy, unchanged) ↦
        let missing : entry got.0 got.1.cache ≡ none =
          subst (λ k. entry k got.1.cache ≡ none) (sym same)
            (subst (λ c. entry created c.cache ≡ none) (sym unchanged) absent) in
        (
          got.1,
          make_mixer_released got.1 bad (release_sink-absent got.0 got.1 missing),
          record {
            referenced = good.referenced;
            tidy = got-Given.0;
            served = got-Served;
            comparable = good.comparable;
          },
        )
  ]

  made_mixer : AudioParameters → MixerManager
  made_mixer params = record s {
    mixers = (key, record { mixer = mixer; ref_count = 1; sink = got.0 }) ∷ s.mixers;
    sink_cache = got.1;
    made = record { id = mixer; output_params = params; sink = got.0 } ∷ s.made;
  }

  make_mixer_params :
      (params : Option AudioParameters)
      → (info got.0).status_ok ≡ true
      → get_mixer_output_params media key.params (output_params got.0) key.latency ≡ params
      → made_by s ≡ (params >>= λ p. some (true, some mixer, made_mixer p))
  unfolding make_mixer got made_mixer
  make_mixer_params params healthy e = rw (make_mixer, healthy, e) refl

  -- A healthy sink gets a mixer.
  made_mixer-IsServed :
      (params : AudioParameters)
      → (info got.0).status_ok ≡ true
      → is_exact key.latency ≡ false
      → IsServed (made_mixer params)
  unfolding made_mixer
  made_mixer-IsServed params healthy inexact = elim got-Given.2 [
    | inl on ↦ record {
      referenced = (omega arith, new_mixer, good.referenced);
      tidy = got-Given.0;
      served = (on, got-uses, got-Served);
      comparable = (inexact, good.comparable);
    }
    | inr (same, unhealthy, unchanged) ↦
        let sick : (info got.0).status_ok ≡ false =
          subst (λ k. (info k).status_ok ≡ false) (sym same) unhealthy in
        absurd (cc)
  ]

  -- It fails only where no output parameters can be made.
  pub make_mixer-Made :
      ((made_by s ≡ none)
        × (k : ℕ) × (get_mixer_output_params media key.params (output_params k) key.latency ≡ none))
      ⊎ ((r : Bool × Option ℕ × MixerManager) × (made_by s ≡ some r) × Made r)
  unfolding with_cache made_mixer
  make_mixer-Made = elim (Bool-cases (info got.0).status_ok) [
    | inr bad ↦
        let (c, run, kept) = make_mixer-bad bad in
        inr ((false, none, with_cache c), run, (kept, inl (refl, refl)))
    | inl healthy ↦
        let params = get_mixer_output_params media key.params (output_params got.0) key.latency in
        elim (Option-cases params) [
          | inl nothing ↦ inl (make_mixer_params none healthy nothing, got.0, nothing)
          | inr (p, found) ↦ elim (Bool-cases (is_exact key.latency)) [
            | inl exact ↦
                let none_made =
                  get_mixer_output_params-is_exact media key.params (output_params got.0)
                    key.latency exact in
                absurd (cc)
            | inr inexact ↦ inr (
              (true, some mixer, made_mixer p),
              make_mixer_params (some p) healthy found,
              (made_mixer-IsServed p healthy inexact, inr (mixer, refl, refl, ground arith)),
            )
          ]
        ]
  ]
