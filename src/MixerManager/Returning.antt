-- ===== src/MixerManager/Returning.antt =====
-- AudioRendererMixerManager::ReturnMixer, with what it does to the sink cache.
use chromium_media_lib.Prelude.{
  ℕ, ◌-◌, ◌≡◌, refl, inl, inr, true, false, some, none, List, [], ◌∷◌, arith, ◌==◌, if◌then◌else◌,
  Bool-cases,
}
use chromium_media_lib.SinkCache.{SinkCache, release_sink}
use chromium_media_lib.SinkCache.Others.{release_sink-Released}
use chromium_media_lib.MixerManager.{
  MixerKey, MixerReference, MixerManager, drop_reference, return_mixer,
}
use chromium_media_lib.MixerManager.References.{lacks, drop_reference-IsReferenced}
use chromium_media_lib.MixerManager.Searching.{drop_reference-Comparable}
use chromium_media_lib.MixerManager.Sinks.{Served-without, drop_reference-Served}
use chromium_media_lib.MixerManager.Making.{IsServed}

drop_reference-found :
    (mixer : ℕ) (l : List (MixerKey × MixerReference))
    → lacks mixer l ≡ false
    → (x : MixerReference × List (MixerKey × MixerReference)) × (drop_reference mixer l ≡ some x)
unfolding drop_reference
drop_reference-found mixer [] h = absurd (cc)
drop_reference-found mixer ((k, r) ∷ l) h = elim (Bool-cases (r.mixer == mixer)) [
  | inl here ↦ rw here (_, refl)
  | inr later ↦
      let (x, found) = drop_reference-found mixer l (ground arith) in rw (later, found) (_, refl)
]

return_mixer_dropped :
    (mixer : ℕ) (s : MixerManager) (x : MixerReference × List (MixerKey × MixerReference))
    (c : SinkCache)
    → drop_reference mixer s.mixers ≡ some x
    → release_sink x.0.sink s.sink_cache ≡ some c
    → return_mixer mixer s
      ≡ some (
          if (x.0.ref_count - 1) == 0
          then record s { mixers = x.1; sink_cache = c; deleted = mixer ∷ s.deleted }
          else record s { mixers = x.1 })
unfolding return_mixer
return_mixer_dropped mixer s x c found released = elim (Bool-cases ((x.0.ref_count - 1) == 0)) [
  | inl last ↦ rw (return_mixer, found, last, released) refl
  | inr more ↦ rw (return_mixer, found, more) refl
]

-- ReturnMixer of a mixer that is there.
pub return_mixer-IsServed :
    (mixer : ℕ) (s : MixerManager)
    → IsServed s
    → lacks mixer s.mixers ≡ false
    → (t : MixerManager) × (return_mixer mixer s ≡ some t) × IsServed t
return_mixer-IsServed mixer s good there =
    let (x, found) = drop_reference-found mixer s.mixers there in
    let (on, rest, gone) = drop_reference-Served mixer s.sink_cache s.mixers x good.served found in
    let (c, released, _, (tidy, others)) =
      release_sink-Released x.0.sink s.sink_cache good.tidy on in
    let fewer = drop_reference-IsReferenced mixer s.mixers x good.referenced found in
    let inexact = drop_reference-Comparable mixer s.mixers x good.comparable found in
    (
      _,
      return_mixer_dropped mixer s x c found released,
      elim (Bool-cases ((x.0.ref_count - 1) == 0)) [
        | inl last ↦ rw last (record {
          referenced = fewer;
          tidy = tidy;
          served = Served-without x.0.sink s.sink_cache c x.1 others (gone last) rest;
          comparable = inexact;
        })
        | inr more ↦
            rw more
              (record { referenced = fewer; tidy = good.tidy; served = rest; comparable = inexact })
      ],
    )

drop_reference-lacks :
    (mixer : ℕ) (l : List (MixerKey × MixerReference))
    → lacks mixer l ≡ true
    → drop_reference mixer l ≡ none
unfolding drop_reference
drop_reference-lacks mixer [] h = refl
drop_reference-lacks mixer ((k, r) ∷ l) h = ground (arith, drop_reference-lacks mixer l)

pub return_mixer-lacks :
    (mixer : ℕ) (s : MixerManager) → lacks mixer s.mixers ≡ true → return_mixer mixer s ≡ none
unfolding return_mixer
return_mixer-lacks mixer s h = rw (return_mixer, drop_reference-lacks mixer s.mixers h) refl
