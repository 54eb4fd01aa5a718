-- ===== src/MixerManager/Searching.antt =====
-- AudioRendererMixerManager: the comparisons of a search fail no DCHECK, since no mixer is made for
-- the exact latency.
use chromium_media_lib.Prelude.{
  ℕ, ◌≡◌, refl, inl, inr, Bool, true, false, Option, some, none, List, [], ◌∷◌, arith, ◌==◌,
  Bool-cases, Option-cases,
}
use chromium_media_lib.MixerManager.{
  MixerKey, MixerReference, AudioParameters, MediaAudio, Latency, interactive, rtc, playback,
  exact_ms, is_exact, less, equivalent, find_mixer, add_reference, drop_reference,
  get_mixer_output_params,
}

-- No key has the exact latency.
abbrev pub Comparable : List (MixerKey × MixerReference) → Type 0
Comparable [] = Unit
Comparable (e ∷ l) = (is_exact e.0.latency ≡ false) × Comparable l

pub add_reference-Comparable :
    (mixer : ℕ) (l : List (MixerKey × MixerReference))
    → Comparable l
    → Comparable (add_reference mixer l)
unfolding add_reference
add_reference-Comparable mixer [] w = tt
add_reference-Comparable mixer ((k, r) ∷ l) w = elim (Bool-cases (r.mixer == mixer)) [
  | inl same ↦ rw same w
  | inr other ↦ rw other (w.0, add_reference-Comparable mixer l w.1)
]

pub drop_reference-Comparable :
    (m : ℕ) (l : List (MixerKey × MixerReference))
    (x : MixerReference × List (MixerKey × MixerReference))
    → Comparable l
    → drop_reference m l ≡ some x
    → Comparable x.1
unfolding drop_reference
drop_reference-Comparable m [] x w e = absurd (ground arith)
drop_reference-Comparable m ((k, r) ∷ l) x w e = elim (Option-cases (drop_reference m l)) [
  | inl nothing ↦ ground arith
  | inr (y, found) ↦ let kept = drop_reference-Comparable m l y w.1 found in ground (arith, kept)
]

-- No mixer is made for a key of the exact latency.
pub get_mixer_output_params-is_exact :
    (media : MediaAudio) (input hardware : AudioParameters) (latency : Latency)
    → is_exact latency ≡ true
    → get_mixer_output_params media input hardware latency ≡ none
unfolding get_mixer_output_params is_exact
get_mixer_output_params-is_exact media input hardware interactive h = absurd (ground arith)
get_mixer_output_params-is_exact media input hardware rtc h = absurd (ground arith)
get_mixer_output_params-is_exact media input hardware playback h = absurd (ground arith)
get_mixer_output_params-is_exact media input hardware exact_ms h = refl

module _ (is_default_device : ℕ → Bool) (latency_index : Latency → ℕ) where
  equivalent-is_exact :
      (a b : MixerKey)
      → is_exact a.latency ≡ false
      → is_exact b.latency ≡ false
      → (same : Bool) × (equivalent is_default_device latency_index a b ≡ some same)
  unfolding equivalent less
  equivalent-is_exact a b h k =
      elim (Option-cases (equivalent is_default_device latency_index a b)) [
        | inl failed ↦ absurd (ground arith)
        | inr found ↦ found
      ]

  pub find_mixer-Comparable :
      (reached : ℕ → Bool) (key : MixerKey) (l : List (MixerKey × MixerReference))
      → Comparable l
      → is_exact key.latency ≡ false
      → (found : Option MixerReference) × (find_mixer is_default_device latency_index reached key l
          ≡ some found)
  unfolding find_mixer
  find_mixer-Comparable reached key [] w h = (none, refl)
  find_mixer-Comparable reached key ((k, r) ∷ l) w h =
      let (rest, later) = find_mixer-Comparable reached key l w.1 h in
      let (same, compared) = equivalent-is_exact k key w.0 h in
      elim (Bool-cases (reached r.mixer)) [
        | inr passed ↦ rw passed (rest, later)
        | inl come ↦
            rw (come, compared)
              (elim (Bool-cases same) [
                | inl one ↦ rw one (some r, refl)
                | inr two ↦ rw two (rest, later)
              ])
      ]
