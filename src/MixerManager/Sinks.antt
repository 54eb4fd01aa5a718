-- ===== src/MixerManager/Sinks.antt =====
-- The mixer manager over its sink cache: the sinks of the mixers.
use chromium_media_lib.Prelude.{
  ℕ, ◌-◌, ◌≡◌, ◌∙◌, refl, subst, inl, inr, Bool, true, false, some, List, [], ◌∷◌, arith, ◌==◌,
  if◌then◌else◌, Bool-cases, Option-cases,
}
use chromium_media_lib.SinkCache.{SinkCache}
use chromium_media_lib.SinkCache.Entries.{in_use}
use chromium_media_lib.MixerManager.{MixerKey, MixerReference, add_reference, drop_reference}

-- Whether a sink is that of an entry.
abbrev pub uses : ℕ → List (MixerKey × MixerReference) → Bool
uses k [] = false
uses k (e ∷ l) = if e.1.sink == k then true else uses k l

-- The sink of each entry is in the cache and in use, and no two entries have one sink.
abbrev pub Served : SinkCache → List (MixerKey × MixerReference) → Type 0
Served c [] = Unit
Served c (e ∷ l) = (in_use e.1.sink c ≡ true) × (uses e.1.sink l ≡ false) × Served c l

-- More sinks in use.
pub Served-more :
    (c d : SinkCache) (l : List (MixerKey × MixerReference))
    → ((j : ℕ) → in_use j c ≡ true → in_use j d ≡ true)
    → Served c l
    → Served d l
Served-more c d [] h w = tt
Served-more c d (e ∷ l) h w = (h e.1.sink w.0, w.1, Served-more c d l h w.2)

-- No entry has a sink that is not in use.
pub Served-uses :
    (k : ℕ) (c : SinkCache) (l : List (MixerKey × MixerReference))
    → in_use k c ≡ false
    → Served c l
    → uses k l ≡ false
Served-uses k c [] h w = refl
Served-uses k c (e ∷ l) h w = elim (Bool-cases (e.1.sink == k)) [
  | inl same ↦
      let on : in_use k c ≡ true = subst (λ j. in_use j c ≡ true) (ground arith) w.0 in absurd (cc)
  | inr other ↦ rw other (Served-uses k c l h w.2)
]

-- A sink that no entry has may be released.
pub Served-without :
    (k : ℕ) (c d : SinkCache) (l : List (MixerKey × MixerReference))
    → ((j : ℕ) → (j == k) ≡ false → in_use j d ≡ in_use j c)
    → uses k l ≡ false
    → Served c l
    → Served d l
Served-without k c d [] h u w = tt
Served-without k c d (e ∷ l) h u w =
    let other : (e.1.sink == k) ≡ false = ground arith in
    (h e.1.sink other ∙ w.0, w.1, Served-without k c d l h (ground arith) w.2)

uses-add_reference :
    (mixer k : ℕ) (l : List (MixerKey × MixerReference)) → uses k (add_reference mixer l) ≡ uses k l
unfolding add_reference
uses-add_reference mixer k [] = refl
uses-add_reference mixer k ((i, r) ∷ l) = elim (Bool-cases (r.mixer == mixer)) [
  | inl same ↦ rw same refl
  | inr other ↦ rw (other, uses-add_reference mixer k l) refl
]

pub Served-add_reference :
    (mixer : ℕ) (c : SinkCache) (l : List (MixerKey × MixerReference))
    → Served c l
    → Served c (add_reference mixer l)
unfolding add_reference
Served-add_reference mixer c [] w = tt
Served-add_reference mixer c ((i, r) ∷ l) w = elim (Bool-cases (r.mixer == mixer)) [
  | inl same ↦ rw same w
  | inr other ↦
      rw other (w.0, uses-add_reference mixer r.sink l ∙ w.1, Served-add_reference mixer c l w.2)
]

drop_reference-uses :
    (m k : ℕ) (l : List (MixerKey × MixerReference))
    (x : MixerReference × List (MixerKey × MixerReference))
    → uses k l ≡ false
    → drop_reference m l ≡ some x
    → (uses k x.1 ≡ false) × ((x.0.sink == k) ≡ false)
unfolding drop_reference
drop_reference-uses m k [] x u e = absurd (ground arith)
drop_reference-uses m k ((i, r) ∷ l) x u e = elim (Option-cases (drop_reference m l)) [
  | inl nothing ↦ ground arith
  | inr (y, found) ↦
      let (less, differs) = drop_reference-uses m k l y (ground arith) found in
      ground (arith, less, differs)
]

-- What dropping a reference leaves: the entry has a sink in use, and the others have other sinks if
-- it is gone.
abbrev pub DroppedServed : SinkCache → MixerReference × List (MixerKey × MixerReference) → Type 0
DroppedServed c x =
    (in_use x.0.sink c ≡ true)
    × Served c x.1
    × (((x.0.ref_count - 1) == 0) ≡ true → uses x.0.sink x.1 ≡ false)

dropped_here :
    (c : SinkCache) (i : MixerKey) (r : MixerReference) (l : List (MixerKey × MixerReference))
    → Served c ((i, r) ∷ l)
    → DroppedServed c
        (r, if (r.ref_count - 1) == 0 then l else (i, record r { ref_count = r.ref_count - 1 }) ∷ l)
dropped_here c i r l w = elim (Bool-cases ((r.ref_count - 1) == 0)) [
  | inl last ↦ rw last (w.0, w.2, λ e. w.1)
  | inr more ↦ rw more (w.0, w, λ e. absurd (cc))
]

pub drop_reference-Served :
    (m : ℕ) (c : SinkCache) (l : List (MixerKey × MixerReference))
    (x : MixerReference × List (MixerKey × MixerReference))
    → Served c l
    → drop_reference m l ≡ some x
    → DroppedServed c x
unfolding drop_reference
drop_reference-Served m c [] x w e = absurd (ground arith)
drop_reference-Served m c ((i, r) ∷ l) x w e = elim (Bool-cases (r.mixer == m)) [
  | inl here ↦
      let it : (
        r,
        if (r.ref_count - 1) == 0 then l else (i, record r { ref_count = r.ref_count - 1 }) ∷ l,
      )
          ≡ x =
        ground arith in
      subst (DroppedServed c) it (dropped_here c i r l w)
  | inr later ↦ elim (Option-cases (drop_reference m l)) [
    | inl nothing ↦ absurd (ground arith)
    | inr (y, found) ↦
        let it : (y.0, (i, r) ∷ y.1) ≡ x = ground arith in
        let (on, rest, gone) = drop_reference-Served m c l y w.2 found in
        let (less, differs) = drop_reference-uses m r.sink l y w.1 found in
        subst (DroppedServed c) it (on, (w.0, less, rest), λ last. ground (arith, gone last))
  ]
]
