-- ===== src/SinkCache/Entries.antt =====
-- The entries of the sink cache: what appending, using and erasing one does to the others.
use chromium_media_lib.Prelude.{
  ℕ, ◌≡◌, refl, ap, subst, inl, inr, ◌⊎◌, Bool, true, false, Option, some, none, List, [], ◌∷◌,
  ◌++◌, arith, ◌==◌, if◌then◌else◌, Bool-cases,
}
use chromium_media_lib.SinkCache.{CacheEntry, SinkCache, find_if, erase_if, use_if, has_sink}

-- Whether a sink is in a list.
abbrev pub among : ℕ → List ℕ → Bool
among k [] = false
among k (x ∷ l) = if x == k then true else among k l

-- The entry of a sink.
abbrev pub entry : ℕ → List CacheEntry → Option CacheEntry
entry k l = find_if (has_sink k) l

abbrev pub is_used : Option CacheEntry → Bool
is_used none = false
is_used (some e) = e.used

-- Whether a sink is in the cache and in use.
abbrev pub in_use : ℕ → SinkCache → Bool
in_use k s = is_used (entry k s.cache)

-- No two entries have the same sink.
abbrev pub DistinctSinks : List CacheEntry → Type 0
DistinctSinks [] = Unit
DistinctSinks (e ∷ l) = (entry e.sink l ≡ none) × DistinctSinks l

-- Every entry that is not in use waits for its deletion.
abbrev pub Awaited : List ℕ → List CacheEntry → Type 0
Awaited d [] = Unit
Awaited d (e ∷ l) = ((e.used ≡ true) ⊎ (among e.sink d ≡ true)) × Awaited d l

abbrev pub IsTidy : SinkCache → Type 0
IsTidy s = DistinctSinks s.cache × Awaited s.delayed s.cache

pub entry-append :
    (k : ℕ) (l : List CacheEntry) (e : CacheEntry)
    → entry k l ≡ none
    → entry k (l ++ e ∷ []) ≡ (if e.sink == k then some e else none)
unfolding find_if
entry-append k [] e h = refl
entry-append k (x ∷ l) e h = ground (arith, entry-append k l e)

pub DistinctSinks-append :
    (l : List CacheEntry) (e : CacheEntry)
    → DistinctSinks l
    → entry e.sink l ≡ none
    → DistinctSinks (l ++ e ∷ [])
unfolding find_if
DistinctSinks-append [] e d h = (refl, tt)
DistinctSinks-append (x ∷ l) e d h =
    ground (arith, DistinctSinks-append l e d.1, entry-append x.sink l e d.0)

pub Awaited-append :
    (d : List ℕ) (l : List CacheEntry) (e : CacheEntry)
    → Awaited d l
    → (e.used ≡ true) ⊎ (among e.sink d ≡ true)
    → Awaited d (l ++ e ∷ [])
Awaited-append d [] e a h = (h, tt)
Awaited-append d (x ∷ l) e a h = (a.0, Awaited-append d l e a.1 h)

pub among-append : (k x : ℕ) (d : List ℕ) → among k d ≡ true → among k (d ++ x ∷ []) ≡ true
among-append k x [] h = absurd (ground arith)
among-append k x (y ∷ d) h = ground (arith, among-append k x d)

pub among_last : (k : ℕ) (d : List ℕ) → among k (d ++ k ∷ []) ≡ true
among_last k [] = ground arith
among_last k (y ∷ d) = ground (arith, among_last k d)

pub Awaited-more :
    (d : List ℕ) (x : ℕ) (l : List CacheEntry) → Awaited d l → Awaited (d ++ x ∷ []) l
Awaited-more d x [] a = tt
Awaited-more d x (e ∷ l) a = ground (arith, Awaited-more d x l a.1, among-append e.sink x d)

pub entry-use_if :
    (k : ℕ) (test : CacheEntry → Bool) (l : List CacheEntry)
    → entry k l ≡ none
    → entry k (use_if test l) ≡ none
unfolding find_if use_if
entry-use_if k test [] h = refl
entry-use_if k test (e ∷ l) h = ground (arith, entry-use_if k test l)

pub DistinctSinks-use_if :
    (test : CacheEntry → Bool) (l : List CacheEntry)
    → DistinctSinks l
    → DistinctSinks (use_if test l)
unfolding use_if
DistinctSinks-use_if test [] d = tt
DistinctSinks-use_if test (e ∷ l) d =
    ground (arith, DistinctSinks-use_if test l d.1, entry-use_if e.sink test l d.0)

pub Awaited-use_if :
    (w : List ℕ) (test : CacheEntry → Bool) (l : List CacheEntry)
    → Awaited w l
    → Awaited w (use_if test l)
unfolding use_if
Awaited-use_if w test [] a = tt
Awaited-use_if w test (e ∷ l) a = ground (arith, Awaited-use_if w test l a.1)

pub entry-erase_if :
    (k : ℕ) (test : CacheEntry → Bool) (l : List CacheEntry)
    → entry k l ≡ none
    → entry k (erase_if test l) ≡ none
unfolding find_if erase_if
entry-erase_if k test [] h = refl
entry-erase_if k test (e ∷ l) h = ground (arith, entry-erase_if k test l)

pub DistinctSinks-erase_if :
    (test : CacheEntry → Bool) (l : List CacheEntry)
    → DistinctSinks l
    → DistinctSinks (erase_if test l)
unfolding erase_if
DistinctSinks-erase_if test [] d = tt
DistinctSinks-erase_if test (e ∷ l) d =
    ground (arith, DistinctSinks-erase_if test l d.1, entry-erase_if e.sink test l d.0)

pub Awaited-erase_if :
    (w : List ℕ) (test : CacheEntry → Bool) (l : List CacheEntry)
    → Awaited w l
    → Awaited w (erase_if test l)
unfolding erase_if
Awaited-erase_if w test [] a = tt
Awaited-erase_if w test (e ∷ l) a = ground (arith, Awaited-erase_if w test l a.1)

-- The entries other than the first that has a test are as they were.
pub entry_of_erased :
    (k j : ℕ) (l : List CacheEntry)
    → (k == j) ≡ false
    → entry k (erase_if (has_sink j) l) ≡ entry k l
unfolding find_if erase_if
entry_of_erased k j [] h = refl
entry_of_erased k j (e ∷ l) h = ground (arith, entry_of_erased k j l h)

pub Awaited-without :
    (k : ℕ) (d : List ℕ) (l : List CacheEntry) → Awaited (k ∷ d) l → entry k l ≡ none → Awaited d l
unfolding find_if
Awaited-without k d [] a h = tt
Awaited-without k d (x ∷ l) a h = ground (arith, Awaited-without k d l a.1)

pub Awaited-erased :
    (k : ℕ) (d : List ℕ) (l : List CacheEntry)
    → Awaited (k ∷ d) l
    → DistinctSinks l
    → Awaited d (erase_if (has_sink k) l)
unfolding erase_if
Awaited-erased k d [] a w = tt
Awaited-erased k d (x ∷ l) a w = elim (Bool-cases (x.sink == k)) [
  | inl e ↦
      let gone : entry k l ≡ none = subst (λ j. entry j l ≡ none) (ground arith) w.0 in
      rw e (Awaited-without k d l a.1 gone)
  | inr e ↦ ground (arith, Awaited-erased k d l a.1 w.1)
]

pub Awaited-used :
    (k : ℕ) (d : List ℕ) (l : List CacheEntry) (e : CacheEntry)
    → Awaited (k ∷ d) l
    → DistinctSinks l
    → entry k l ≡ some e
    → e.used ≡ true
    → Awaited d l
unfolding find_if
Awaited-used k d [] e a w f u = tt
Awaited-used k d (x ∷ l) e a w f u = elim (Bool-cases (x.sink == k)) [
  | inl same ↦
      let gone : entry k l ≡ none = subst (λ j. entry j l ≡ none) (ground arith) w.0 in
      (ground arith, Awaited-without k d l a.1 gone)
  | inr other ↦ ground (arith, Awaited-used k d l e a.1 w.1)
]

pub entry_erased :
    (k : ℕ) (l : List CacheEntry) → DistinctSinks l → entry k (erase_if (has_sink k) l) ≡ none
unfolding find_if erase_if
entry_erased k [] w = refl
entry_erased k (x ∷ l) w = elim (Bool-cases (x.sink == k)) [
  | inl e ↦
      let gone : entry k l ≡ none = subst (λ j. entry j l ≡ none) (ground arith) w.0 in rw e gone
  | inr e ↦ ground (arith, entry_erased k l w.1)
]

-- Erasing an unused entry changes nothing about which sinks are in use.
pub in_use-erase_if :
    (k j : ℕ) (e : CacheEntry) (s : SinkCache)
    → DistinctSinks s.cache
    → entry k s.cache ≡ some e
    → e.used ≡ false
    → in_use j (record s { cache = erase_if (has_sink k) s.cache }) ≡ in_use j s
in_use-erase_if k j e s w found unused = elim (Bool-cases (j == k)) [
  | inl same ↦
      let at : entry j s.cache ≡ some e =
        subst (λ i. entry i s.cache ≡ some e) (ground arith) found in
      let gone : entry j (erase_if (has_sink k) s.cache) ≡ none =
        subst (λ i. entry i (erase_if (has_sink k) s.cache) ≡ none) (ground arith)
          (entry_erased k s.cache w) in
      ground arith
  | inr other ↦ ap is_used (entry_of_erased j k s.cache other)
]

-- The entry that is found first with a test.
pub found_entry :
    (test : CacheEntry → Bool) (l : List CacheEntry) (e : CacheEntry)
    → DistinctSinks l
    → find_if test l ≡ some e
    → (entry e.sink l ≡ some e)
      × (test e ≡ true)
      × (entry e.sink (use_if test l) ≡ some (record e { used = true }))
unfolding find_if use_if
found_entry test [] e w f = absurd (ground arith)
found_entry test (x ∷ l) e w f = elim (Bool-cases (test x)) [
  | inl here ↦ ground arith
  | inr not_here ↦
      let later : find_if test l ≡ some e = ground arith in
      let (there, passes, used) = found_entry test l e w.1 later in
      elim (Bool-cases (x.sink == e.sink)) [
        | inl same ↦
            let gone : entry e.sink l ≡ none = subst (λ j. entry j l ≡ none) (ground arith) w.0 in
            absurd (cc)
        | inr other ↦ (ground arith, passes, ground arith)
      ]
]
