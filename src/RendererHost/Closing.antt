-- ===== src/RendererHost/Closing.antt =====
-- AudioRendererHost: closing a stream.
use chromium_media_lib.Prelude.{
  ℕ, ◌≡◌, refl, subst, ◌∙◌, inl, inr, true, some, none, List, [], ◌∷◌, arith, ◌==◌, if◌then◌else◌,
  Bool-cases, Option-cases,
}
use chromium_media_lib.OutputDelegate.{MediaLibrary, OutputDelegate}
use chromium_media_lib.RendererHost.{
  AudioRendererHost, find_by, lookup_by_id, swap_and_pop, on_close_stream,
}
use chromium_media_lib.RendererHost.Delegates.{Distinct, find_by-none, split_last-find_by}

without_first :
    (stream j : ℕ) (d : OutputDelegate) (l : List OutputDelegate)
    → (d.stream_id == stream) ≡ true
    → lookup_by_id stream l ≡ none
    → lookup_by_id j l ≡ (if j == stream then none else lookup_by_id j (d ∷ l))
unfolding find_by
without_first stream j d l same gone = elim (Bool-cases (j == stream)) [
  | inl e ↦ rw e (subst (λ i. lookup_by_id i l ≡ none) (ground arith) gone)
  | inr e ↦ ground arith
]

swap_and_pop-lookup :
    (stream j : ℕ) (l : List OutputDelegate)
    → Distinct (λ d. d.stream_id) l
    → lookup_by_id j (swap_and_pop stream l) ≡ (if j == stream then none else lookup_by_id j l)
unfolding swap_and_pop find_by
swap_and_pop-lookup stream j [] w = ground arith
swap_and_pop-lookup stream j (d ∷ []) w = ground arith
swap_and_pop-lookup stream j (d ∷ x ∷ l) w = elim (Bool-cases (d.stream_id == stream)) [
  | inl same ↦
      let gone : lookup_by_id stream (x ∷ l) ≡ none =
        subst (λ i. lookup_by_id i (x ∷ l) ≡ none) (ground arith)
          (find_by-none (λ e. e.stream_id) d.stream_id (x ∷ l) w.0) in
      let others = split_last-find_by (λ e. e.stream_id) j x l w.1 in
      rw same (others ∙ without_first stream j d (x ∷ l) same gone)
  | inr other ↦ rw other (ground (arith, swap_and_pop-lookup stream j (x ∷ l) w.1))
]

lookup-missing :
    (stream j : ℕ) (l : List OutputDelegate)
    → lookup_by_id stream l ≡ none
    → lookup_by_id j l ≡ (if j == stream then none else lookup_by_id j l)
lookup-missing stream j l e = elim (Bool-cases (j == stream)) [
  | inl same ↦ rw same (subst (λ i. lookup_by_id i l ≡ none) (ground arith) e)
  | inr other ↦ rw other refl
]

module _ {Real : Type 0} (lib : MediaLibrary Real) where
  on_close_stream-found :
      (stream : ℕ) (s : AudioRendererHost Real) (d : OutputDelegate)
      → lookup_by_id stream s.delegates ≡ some d
      → (on_close_stream lib stream s).delegates ≡ swap_and_pop stream s.delegates
  unfolding on_close_stream
  on_close_stream-found stream s d e = rw (e, on_close_stream) refl

  on_close_stream-missing :
      (stream : ℕ) (s : AudioRendererHost Real)
      → lookup_by_id stream s.delegates ≡ none
      → (on_close_stream lib stream s).delegates ≡ s.delegates
  unfolding on_close_stream
  on_close_stream-missing stream s e = rw (e, on_close_stream) refl

  -- OnCloseStream, where no two delegates have one stream: the host has no delegate of the stream any
  -- more, the delegates of the other streams are as they were.
  on_close_stream-lookup :
      (stream j : ℕ) (s : AudioRendererHost Real)
      → Distinct (λ d. d.stream_id) s.delegates
      → lookup_by_id j (on_close_stream lib stream s).delegates
        ≡ (if j == stream then none else lookup_by_id j s.delegates)
  on_close_stream-lookup stream j s w = elim (Option-cases (lookup_by_id stream s.delegates)) [
    | inl missing ↦
        rw (on_close_stream-missing stream s missing) (lookup-missing stream j s.delegates missing)
    | inr (d, found) ↦
        rw (on_close_stream-found stream s d found) (swap_and_pop-lookup stream j s.delegates w)
  ]
