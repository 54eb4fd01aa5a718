-- ===== src/MixerManager/References.antt =====
-- AudioRendererMixerManager: the references to a mixer.
use chromium_media_lib.Prelude.{
  ℕ, ◌+◌, ◌-◌, ◌<◌, ◌≡◌, ◌∙◌, refl, subst, sym, inl, inr, Bool, true, false, some, List, [], ◌∷◌,
  arith, ◌==◌, if◌then◌else◌, Bool-cases, Option-cases, ◌⊎◌,
}
use chromium_media_lib.SinkCache.{OutputDeviceInfo, release_sink}
use chromium_media_lib.MixerManager.{
  MixerKey, MixerReference, MixerManager, AudioParameters, MediaAudio, Latency, equivalent,
  find_mixer, add_reference, drop_reference, return_mixer, get_mixer, note_latency, reuse_or_make,
}

-- Whether a list has no entry of a mixer.
abbrev pub lacks : ℕ → List (MixerKey × MixerReference) → Bool
lacks mixer [] = true
lacks mixer (e ∷ l) = if e.1.mixer == mixer then false else lacks mixer l

-- Every entry has a reference, and no two have one mixer.
abbrev pub IsReferenced : List (MixerKey × MixerReference) → Type 0
IsReferenced [] = Unit
IsReferenced (e ∷ l) = (0 < e.1.ref_count) × (lacks e.1.mixer l ≡ true) × IsReferenced l

drop_reference-lacks :
    (m : ℕ) (l : List (MixerKey × MixerReference))
    (x : MixerReference × List (MixerKey × MixerReference)) (j : ℕ)
    → lacks j l ≡ true
    → drop_reference m l ≡ some x
    → lacks j x.1 ≡ true
unfolding drop_reference
drop_reference-lacks m [] x j h e = absurd (ground arith)
drop_reference-lacks m ((k, r) ∷ l) x j h e = elim (Option-cases (drop_reference m l)) [
  | inl nothing ↦ ground arith
  | inr (y, found) ↦
      let less = drop_reference-lacks m l y j (ground arith) found in ground (arith, less)
]

pub drop_reference-IsReferenced :
    (m : ℕ) (l : List (MixerKey × MixerReference))
    (x : MixerReference × List (MixerKey × MixerReference))
    → IsReferenced l
    → drop_reference m l ≡ some x
    → IsReferenced x.1
unfolding drop_reference
drop_reference-IsReferenced m [] x w e = absurd (ground arith)
drop_reference-IsReferenced m ((k, r) ∷ l) x w e = elim (Option-cases (drop_reference m l)) [
  | inl nothing ↦ ground arith
  | inr (y, found) ↦
      let good = drop_reference-IsReferenced m l y w.2 found in
      let less = drop_reference-lacks m l y r.mixer w.1 found in ground (arith, good, less)
]

-- If every entry has a reference and no two have one mixer, this holds after ReturnMixer too, if it
-- fails no DCHECK.
return_mixer-IsReferenced :
    (mixer : ℕ) (s t : MixerManager)
    → IsReferenced s.mixers
    → return_mixer mixer s ≡ some t
    → IsReferenced t.mixers
unfolding return_mixer
return_mixer-IsReferenced mixer s t w e = elim (Option-cases (drop_reference mixer s.mixers)) [
  | inl nothing ↦ absurd (ground arith)
  | inr (x, found) ↦
      let good = drop_reference-IsReferenced mixer s.mixers x w found in
      elim (Option-cases (release_sink x.0.sink s.sink_cache)) [
        | inl nothing_released ↦ ground arith
        | inr (c, released) ↦ ground arith
      ]
]

return_steps :
    (mixer : ℕ) (r : MixerReference) (s : MixerManager) (l : List (MixerKey × MixerReference))
    → drop_reference mixer s.mixers ≡ some (r, l)
    → ((r.ref_count - 1) == 0) ≡ false
    → return_mixer mixer s ≡ some (record s { mixers = l })
unfolding return_mixer
return_steps mixer r s l e more = rw (e, more) refl

pub add_reference-lacks :
    (mixer j : ℕ) (l : List (MixerKey × MixerReference))
    → lacks j (add_reference mixer l) ≡ lacks j l
unfolding add_reference
add_reference-lacks mixer j [] = refl
add_reference-lacks mixer j ((k, r) ∷ l) = elim (Bool-cases (r.mixer == mixer)) [
  | inl same ↦ rw same refl
  | inr other ↦ rw (other, add_reference-lacks mixer j l) refl
]

pub add_reference-IsReferenced :
    (mixer : ℕ) (l : List (MixerKey × MixerReference))
    → IsReferenced l
    → IsReferenced (add_reference mixer l)
unfolding add_reference
add_reference-IsReferenced mixer [] w = tt
add_reference-IsReferenced mixer ((k, r) ∷ l) w = elim (Bool-cases (r.mixer == mixer)) [
  | inl same ↦ rw same (omega arith, w.1, w.2)
  | inr other ↦
      rw other
        (w.0, add_reference-lacks mixer r.mixer l ∙ w.1, add_reference-IsReferenced mixer l w.2)
]

-- `r` is the reference of an entry.
abbrev pub Holds : MixerReference → List (MixerKey × MixerReference) → Type 0
Holds r [] = ⊥
Holds r (e ∷ l) = (e.1 ≡ r) ⊎ Holds r l

pub Holds-lacks :
    (r : MixerReference) (l : List (MixerKey × MixerReference))
    → Holds r l
    → lacks r.mixer l ≡ false
Holds-lacks r [] h = elim h [ ]
Holds-lacks r ((k, x) ∷ l) (inl here) = rw (sym here) (ground arith)
Holds-lacks r ((k, x) ∷ l) (inr later) = ground (arith, Holds-lacks r l later)

Holds-positive :
    (r : MixerReference) (l : List (MixerKey × MixerReference))
    → IsReferenced l
    → Holds r l
    → 0 < r.ref_count
Holds-positive r [] w h = elim h [ ]
Holds-positive r ((k, x) ∷ l) w (inl here) = subst (λ y. 0 < y.ref_count) here w.0
Holds-positive r ((k, x) ∷ l) w (inr later) = Holds-positive r l w.2 later

drop_first :
    (k : MixerKey) (x : MixerReference) (l : List (MixerKey × MixerReference))
    → 0 < x.ref_count
    → drop_reference x.mixer (add_reference x.mixer ((k, x) ∷ l))
      ≡ some (record x { ref_count = x.ref_count + 1 }, (k, x) ∷ l)
unfolding add_reference drop_reference
drop_first k x l h = ground arith

-- The reference that was added is dropped again.
drop-add :
    (r : MixerReference) (l : List (MixerKey × MixerReference))
    → IsReferenced l
    → Holds r l
    → drop_reference r.mixer (add_reference r.mixer l)
      ≡ some (record r { ref_count = r.ref_count + 1 }, l)
unfolding add_reference drop_reference
drop-add r [] w h = elim h [ ]
drop-add r ((k, x) ∷ l) w (inl here) =
    subst
      (λ y.
        drop_reference y.mixer (add_reference y.mixer ((k, x) ∷ l))
        ≡ some (record y { ref_count = y.ref_count + 1 }, (k, x) ∷ l))
      here (drop_first k x l w.0)
drop-add r ((k, x) ∷ l) w (inr later) =
    let there = Holds-lacks r l later in
    let differs : (x.mixer == r.mixer) ≡ false = elim (Bool-cases (x.mixer == r.mixer)) [
      | inl one ↦
          let alike : x.mixer ≡ r.mixer = ground arith in
          let missing : lacks r.mixer l ≡ true = subst (λ m. lacks m l ≡ true) alike w.1 in
          absurd (ground arith)
      | inr two ↦ two
    ] in
    rw (differs, differs, drop-add r l w.2 later) refl

module _ (is_default_device : ℕ → Bool) (latency_index : Latency → ℕ) where
  pub find_mixer-Holds :
      (reached : ℕ → Bool) (key : MixerKey) (r : MixerReference)
      (l : List (MixerKey × MixerReference))
      → find_mixer is_default_device latency_index reached key l ≡ some (some r)
      → Holds r l
  unfolding find_mixer
  find_mixer-Holds reached key r [] e = absurd (ground arith)
  find_mixer-Holds reached key r ((k, x) ∷ l) e = elim (Bool-cases (reached x.mixer)) [
    | inr passed ↦ inr (find_mixer-Holds reached key r l (ground arith))
    | inl come ↦ elim (Option-cases (equivalent is_default_device latency_index k key)) [
      | inl failed ↦ absurd (ground arith)
      | inr (same, compared) ↦ elim (Bool-cases same) [
        | inl one ↦ inl (ground arith)
        | inr two ↦ inr (find_mixer-Holds reached key r l (ground arith))
      ]
    ]
  ]

  module _ (info : ℕ → OutputDeviceInfo) (output_params : ℕ → AudioParameters) (media : MediaAudio)
      (reached : ℕ → Bool) (mixer created : ℕ) (key : MixerKey) (s : MixerManager)
      (referenced : IsReferenced s.mixers) (no_effects : key.params.effects ≡ 0) where
    -- GetMixer of a mixer that is found.
    get_mixer_found :
        (r : MixerReference)
        → find_mixer is_default_device latency_index reached key s.mixers ≡ some (some r)
        → (key.params.effects == 0) ≡ true
        → get_mixer is_default_device latency_index info output_params media reached mixer created
            key s
          ≡ some (
            true,
            some r.mixer,
            record (note_latency latency_index key.latency s) {
              mixers = add_reference r.mixer s.mixers;
            },
          )
    unfolding get_mixer reuse_or_make note_latency
    get_mixer_found r found none_set = rw (get_mixer, none_set, found) refl

    -- For a key without effects, if the search of the map comes to an entry with an equivalent key,
    -- where every entry has a reference and no two have one mixer: GetMixer gives the mixer of that
    -- entry with one reference more and an OK status, without asking for a sink, and ReturnMixer of
    -- it then restores the state, but for the latency that is noted.
    pub get_mixer-return_mixer :
        (r : MixerReference)
        → find_mixer is_default_device latency_index reached key s.mixers ≡ some (some r)
        → (t : MixerManager) × (get_mixer is_default_device latency_index info output_params media
              reached mixer created key s
            ≡ some (true, some r.mixer, t))
          × IsReferenced t.mixers
          × (t.sink_cache ≡ s.sink_cache)
          × (return_mixer r.mixer t ≡ some (note_latency latency_index key.latency s))
    unfolding note_latency
    get_mixer-return_mixer r found =
        let noted = note_latency latency_index key.latency s in
        let t = record noted { mixers = add_reference r.mixer s.mixers } in
        let there = find_mixer-Holds reached key r s.mixers found in
        (
          t,
          get_mixer_found r found (ground arith),
          add_reference-IsReferenced r.mixer s.mixers referenced,
          refl,
          return_steps r.mixer (record r { ref_count = r.ref_count + 1 }) t s.mixers
              (drop-add r s.mixers referenced there)
              (ground (arith, Holds-positive r s.mixers referenced there)),
        )
