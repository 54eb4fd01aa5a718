-- ===== src/RendererHost/Delegates.antt =====
-- The host's vector of delegates: finding one, replacing one, and swapping one out.
use chromium_media_lib.Prelude.{
  ℕ, ◌≡◌, ◌≢◌, refl, subst, sym, inl, inr, some, none, List, [], ◌∷◌, ◌++◌, All, arith, ◌==◌,
  Bool-cases,
}
use chromium_media_lib.OutputDelegate.{OutputDelegate}
use chromium_media_lib.RendererHost.{
  find_by, lookup_by_id, replace_object, split_last, swap_and_pop,
}

module _ (id : OutputDelegate → ℕ) where
  -- No two delegates have one id of the kind.
  abbrev pub Distinct : List OutputDelegate → Type 0
  Distinct [] = Unit
  Distinct (d ∷ l) = All (λ x. id x ≢ id d) l × Distinct l

  pub find_by-none :
      (k : ℕ) (l : List OutputDelegate) → All (λ x. id x ≢ k) l → find_by id k l ≡ none
  unfolding find_by
  find_by-none k [] h = refl
  find_by-none k (x ∷ l) h = ground (arith, find_by-none k l h.1)

  find_by-id :
      (k : ℕ) (l : List OutputDelegate) (d : OutputDelegate) → find_by id k l ≡ some d → id d ≡ k
  unfolding find_by
  find_by-id k [] d e = absurd (cc)
  find_by-id k (x ∷ l) d e = ground (arith, find_by-id k l d)

  pub find_by-append :
      (k : ℕ) (l : List OutputDelegate) (d : OutputDelegate)
      → id d ≡ k
      → (e : OutputDelegate) × (find_by id k (l ++ d ∷ []) ≡ some e) × (id e ≡ k)
  unfolding find_by
  find_by-append k [] d h = (d, ground arith, h)
  find_by-append k (x ∷ l) d h = elim (Bool-cases (id x == k)) [
    | inl same ↦ (x, rw same refl, ground arith)
    | inr other ↦ rw other (find_by-append k l d h)
  ]

  pub find_by-append_new :
      (k : ℕ) (l : List OutputDelegate) (d : OutputDelegate)
      → find_by id k l ≡ none
      → id d ≡ k
      → find_by id k (l ++ d ∷ []) ≡ some d
  unfolding find_by
  find_by-append_new k [] d n h = ground arith
  find_by-append_new k (x ∷ l) d n h = ground (arith, find_by-append_new k l d)

  pub All-find_by :
      (P : OutputDelegate → Type 0) (k : ℕ) (l : List OutputDelegate) (d : OutputDelegate)
      → All P l
      → find_by id k l ≡ some d
      → P d
  unfolding find_by
  All-find_by P k [] d h e = absurd (cc)
  All-find_by P k (x ∷ l) d h e = elim (Bool-cases (id x == k)) [
    | inl same ↦ subst P (ground arith) h.0
    | inr other ↦ All-find_by P k l d h.1 (ground arith)
  ]

pub All-append :
    (P : OutputDelegate → Type 0) (l : List OutputDelegate) (d : OutputDelegate)
    → All P l
    → P d
    → All P (l ++ d ∷ [])
All-append P [] d h p = (p, tt)
All-append P (x ∷ l) d h p = (h.0, All-append P l d h.1 p)

All-split_last :
    (P : OutputDelegate → Type 0) (d : OutputDelegate) (l : List OutputDelegate)
    → All P (d ∷ l)
    → All P ((split_last d l).1 ∷ (split_last d l).0)
unfolding split_last
All-split_last P d [] h = h
All-split_last P d (x ∷ l) h = let (last, rest) = All-split_last P x l h.1 in (last, (h.0, rest))

pub All-swap_and_pop :
    (P : OutputDelegate → Type 0) (stream : ℕ) (l : List OutputDelegate)
    → All P l
    → All P (swap_and_pop stream l)
unfolding swap_and_pop
All-swap_and_pop P stream [] h = tt
All-swap_and_pop P stream (d ∷ []) h = elim (Bool-cases (d.stream_id == stream)) [
  | inl same ↦ rw same tt
  | inr other ↦ rw other h
]
All-swap_and_pop P stream (d ∷ x ∷ l) h = elim (Bool-cases (d.stream_id == stream)) [
  | inl same ↦ rw same (All-split_last P x l h.1)
  | inr other ↦ rw other (h.0, All-swap_and_pop P stream (x ∷ l) h.1)
]

module _ (id : OutputDelegate → ℕ) where
  pub Distinct-append :
      (l : List OutputDelegate) (d : OutputDelegate)
      → Distinct id l
      → All (λ x. id x ≢ id d) l
      → Distinct id (l ++ d ∷ [])
  Distinct-append [] d h n = (tt, tt)
  Distinct-append (x ∷ l) d h n =
      (All-append (λ y. id y ≢ id x) l d h.0 (λ e. n.0 (sym e)), Distinct-append l d h.1 n.1)

  Distinct-split_last :
      (d : OutputDelegate) (l : List OutputDelegate)
      → Distinct id (d ∷ l)
      → Distinct id ((split_last d l).1 ∷ (split_last d l).0)
  unfolding split_last
  Distinct-split_last d [] h = h
  Distinct-split_last d (x ∷ l) h =
      let (differ, distinct) = Distinct-split_last x l h.1 in
      let (last, rest) = All-split_last (λ y. id y ≢ id d) x l h.0 in
      ((λ e. last (sym e), differ), (rest, distinct))

  pub Distinct-swap_and_pop :
      (stream : ℕ) (l : List OutputDelegate) → Distinct id l → Distinct id (swap_and_pop stream l)
  unfolding swap_and_pop
  Distinct-swap_and_pop stream [] h = tt
  Distinct-swap_and_pop stream (d ∷ []) h = elim (Bool-cases (d.stream_id == stream)) [
    | inl same ↦ rw same tt
    | inr other ↦ rw other h
  ]
  Distinct-swap_and_pop stream (d ∷ x ∷ l) h = elim (Bool-cases (d.stream_id == stream)) [
    | inl same ↦ rw same (Distinct-split_last x l h.1)
    | inr other ↦ rw other (
      All-swap_and_pop (λ y. id y ≢ id d) stream (x ∷ l) h.0,
      Distinct-swap_and_pop stream (x ∷ l) h.1,
    )
  ]

  -- Once the first delegate of a stream is swapped out, none has its id any more.
  pub swap_and_pop-gone :
      (stream : ℕ) (l : List OutputDelegate) (d : OutputDelegate)
      → Distinct id l
      → lookup_by_id stream l ≡ some d
      → All (λ x. id x ≢ id d) (swap_and_pop stream l)
  unfolding swap_and_pop find_by
  swap_and_pop-gone stream [] d h e = absurd (cc)
  swap_and_pop-gone stream (x ∷ []) d h e = elim (Bool-cases (x.stream_id == stream)) [
    | inl same ↦ rw same tt
    | inr other ↦ absurd (ground arith)
  ]
  swap_and_pop-gone stream (x ∷ y ∷ l) d h e = elim (Bool-cases (x.stream_id == stream)) [
    | inl same ↦
        let first : x ≡ d = ground arith in
        rw same (
          All-split_last (λ z. id z ≢ id d) y l
            (subst (λ w. All (λ z. id z ≢ id w) (y ∷ l)) first h.0))
    | inr other ↦
        let found : lookup_by_id stream (y ∷ l) ≡ some d = ground arith in
        let differs =
          All-find_by (λ w. w.stream_id) (λ z. id z ≢ id x) stream (y ∷ l) d h.0 found in
        rw other (λ same. differs (sym same), swap_and_pop-gone stream (y ∷ l) d h.1 found)
  ]

  pub split_last-find_by :
      (k : ℕ) (d : OutputDelegate) (l : List OutputDelegate)
      → Distinct id (d ∷ l)
      → find_by id k ((split_last d l).1 ∷ (split_last d l).0) ≡ find_by id k (d ∷ l)
  unfolding split_last find_by
  split_last-find_by k d [] h = refl
  split_last-find_by k d (x ∷ l) h = elim (Bool-cases (id d == k)) [
    | inl same ↦
        let last = (All-split_last (λ y. id y ≢ id d) x l h.0).0 in
        ground (arith, split_last-find_by k x l h.1)
    | inr other ↦ ground (arith, split_last-find_by k x l h.1)
  ]

pub All-replace_object :
    (P : ℕ → Type 0) (e : OutputDelegate) (l : List OutputDelegate)
    → All (λ x. P x.object) l
    → All (λ x. P x.object) (replace_object e l)
unfolding replace_object
All-replace_object P e [] h = tt
All-replace_object P e (d ∷ l) h = elim (Bool-cases (d.object == e.object)) [
  | inl same ↦ rw same (subst P (ground arith) h.0, All-replace_object P e l h.1)
  | inr other ↦ rw other (h.0, All-replace_object P e l h.1)
]

pub Distinct-replace_object :
    (e : OutputDelegate) (l : List OutputDelegate)
    → Distinct (λ d. d.object) l
    → Distinct (λ d. d.object) (replace_object e l)
unfolding replace_object
Distinct-replace_object e [] h = tt
Distinct-replace_object e (d ∷ l) h =
    let kept = All-replace_object (λ k. k ≢ d.object) e l h.0 in
    let rest = Distinct-replace_object e l h.1 in
    elim (Bool-cases (d.object == e.object)) [
      | inl same ↦
          let eq : d.object ≡ e.object = ground arith in
          rw same (subst (λ k. All (λ x. x.object ≢ k) (replace_object e l)) eq kept, rest)
      | inr other ↦ rw other (kept, rest)
    ]
