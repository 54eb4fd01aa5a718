-- ===== src/MixerManager/Keys.antt =====
-- MixerKeyCompare: which keys share a mixer, and when the comparison is an order.
use chromium_media_lib.Prelude.{
  ℕ, ◌<◌, ◌≡◌, Bool, true, false, ◌&&◌, ◌||◌, not, some, none, ◌⊎◌, arith, ◌==◌, if◌then◌else◌,
}
use chromium_media_lib.MixerManager.{MixerKey, Latency, is_exact, less, equivalent}

module _ (is_default_device : ℕ → Bool) (latency_index : Latency → ℕ) where
  -- Three keys of a latency other than the exact one that are alike but for their device ids, of
  -- which the first and the last mean the default device and the second, between them, does not:
  -- MixerKeyCompare puts the first before the second and the second before the last, and the first
  -- not before the last. So it is not transitive.
  pub less_not_transitive :
      (key : MixerKey) (a b c : ℕ)
      → is_exact key.latency ≡ false
      → a < b
      → b < c
      → is_default_device a ≡ true
      → is_default_device b ≡ false
      → is_default_device c ≡ true
      → (less is_default_device latency_index
            (record key { device_id = a })
            (record key { device_id = b })
          ≡ some true)
        × (less is_default_device latency_index
              (record key { device_id = b })
              (record key { device_id = c })
            ≡ some true)
        × (less is_default_device latency_index
              (record key { device_id = a })
              (record key { device_id = c })
            ≡ some false)
  unfolding less
  less_not_transitive key a b c inexact h k da db dc = ground arith

  -- Comparing two keys both ways fails the DCHECK exactly if their frames, channels and latencies are
  -- the same and the latency is the exact one. Otherwise they are equivalent exactly if their frames,
  -- channels, latencies and layouts are the same and their devices are both the default one, or the
  -- same with the same origin: nothing else of the audio parameters counts.
  pub equivalent_iff :
      (a b : MixerKey)
      → equivalent is_default_device latency_index a b ≡ (
          if (a.source_render_frame_id == b.source_render_frame_id)
            && (a.params.channels == b.params.channels)
            && (latency_index a.latency == latency_index b.latency)
          then (if is_exact a.latency || is_exact b.latency
              then none
              else some (
                  (a.params.channel_layout == b.params.channel_layout)
                  && ((is_default_device a.device_id && is_default_device b.device_id)
                      || ((a.device_id == b.device_id)
                          && (a.security_origin == b.security_origin)))))
          else some false)
  unfolding equivalent less
  equivalent_iff a b = ground arith

  -- A key of a latency other than the exact one whose device, if it is the default one, is spelled
  -- `spelling`.
  abbrev pub Spelled : ℕ → MixerKey → Type 0
  Spelled spelling k =
      (is_exact k.latency ≡ false)
      × ((is_default_device k.device_id && not (k.device_id == spelling)) ≡ false)

  -- On the keys of latencies other than the exact one that spell the default device in one way,
  -- MixerKeyCompare is a strict weak order, as std::map requires: if a key is before another, that
  -- one is not before it, and any third key is after the one or before the other.
  pub less-IsStrictWeak :
      (spelling : ℕ) (a b c : MixerKey)
      → Spelled spelling a
      → Spelled spelling b
      → Spelled spelling c
      → less is_default_device latency_index a c ≡ some true
      → (less is_default_device latency_index c a ≡ some false)
        × ((less is_default_device latency_index a b ≡ some true)
            ⊎ (less is_default_device latency_index b c ≡ some true))
  unfolding less
  less-IsStrictWeak spelling a b c sa sb sc before = (ground arith, ground arith)
