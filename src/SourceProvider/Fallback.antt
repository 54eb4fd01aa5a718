-- ===== src/SourceProvider/Fallback.antt =====
-- AudioSourceProviderImpl: the fallback of Initialize.
use chromium_media_lib.Prelude.{
  ℕ, ◌≡◌, inl, inr, Bool, true, some, none, arith, if◌then◌else◌, Option-cases,
}
use chromium_media_lib.SourceProvider.{
  SourceProvider, device_ok, fall_back, initialize, tee_initialize, is_initialized,
}

module _ {Double : Type 0} (status_ok : ℕ → Bool) (fallback : ℕ) where
  initialize_fails :
      (renderer channels sample_rate : ℕ) (s : SourceProvider Double)
      → ¬ (initialize status_ok fallback renderer channels sample_rate s ≡ none)
  unfolding initialize device_ok fall_back
  initialize_fails renderer channels sample_rate s e = ground arith

  initialize-result :
      (renderer channels sample_rate : ℕ) (s t : SourceProvider Double)
      → status_ok fallback ≡ true
      → initialize status_ok fallback renderer channels sample_rate s ≡ some t
      → (device_ok status_ok t ≡ true)
        × (is_initialized t.tee_filter ≡ true)
        × (t.sink ≡ (if device_ok status_ok s then s.sink else some fallback))
  unfolding initialize device_ok fall_back tee_initialize is_initialized
  initialize-result renderer channels sample_rate s t ok e = ground arith

  -- If the null sink is OK, Initialize ends, with a sink that is OK, which is the sink that there
  -- was if that was OK, and with a filter that Render may be called on.
  pub initialize-device_ok :
      (renderer channels sample_rate : ℕ) (s : SourceProvider Double)
      → status_ok fallback ≡ true
      → (t : SourceProvider Double) × (initialize status_ok fallback renderer channels sample_rate s
          ≡ some t)
        × (device_ok status_ok t ≡ true)
        × (is_initialized t.tee_filter ≡ true)
        × (t.sink ≡ (if device_ok status_ok s then s.sink else some fallback))
  initialize-device_ok renderer channels sample_rate s ok =
      elim (Option-cases (initialize status_ok fallback renderer channels sample_rate s)) [
        | inl n ↦ absurd (initialize_fails renderer channels sample_rate s n)
        | inr (t, h) ↦
            let (device, ready, sink) = initialize-result renderer channels sample_rate s t ok h in
            (t, h, device, ready, sink)
      ]
