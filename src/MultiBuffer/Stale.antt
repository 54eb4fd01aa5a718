-- ===== src/MultiBuffer/Stale.antt =====
-- ResourceMultiBuffer: bytes that arrive between a Seek from another thread and the request that it
-- posted.
use chromium_media_lib.Prelude.{
  ℕ, ◌+◌, ◌-◌, ◌*◌, ◌/◌, ◌<◌, ◌≡◌, refl, ap, ◌∙◌, true, false, some, [], ◌∷◌, arith,
}
use chromium_media_lib.Prelude.Int.{pos}
use chromium_media_lib.MultiBuffer.{
  MultiBuffer, Response, block_size, write_pos, new_multibuffer, start, seek, on_write, fill, slice,
  is_pinned, must_restart, max_wait_for_reader_offset, create_fetcher_from, restart_from,
  adjust_pinned_range, to_block_id,
}
use chromium_media_lib.MultiBuffer.Blocks.{is_cached}
use chromium_media_lib.MultiBuffer.Fill.{block_size-pos, fill-is_cached}
use chromium_media_lib.MultiBuffer.Stream.{same_state, on_write-IsFed, on_write-is_cached}
use chromium_media_lib.MultiBuffer.Run.{Reachable-IsFed, at_first, after, started, sought}

restart_block : (block k : ℕ) → 0 < block → (k - 1) * block / block ≡ k - 1
restart_block block k h = grind arith

module _ {Byte : Type 0} where
  -- Where Seek to `p` restarts the stream.
  abbrev pub restart_position : MultiBuffer Byte → ℕ → ℕ
  restart_position b p = (p / block_size b - 1) * block_size b

  start-gives :
      (shift : ℕ) (b : MultiBuffer Byte)
      → start true (new_multibuffer shift) ≡ some b
      → (b.fetcher ≡ some 0) × (write_pos b ≡ 0)
  unfolding start new_multibuffer create_fetcher_from
  start-gives shift b e = ground arith

  seek-far :
      (b : MultiBuffer Byte) (p : ℕ)
      → write_pos b + max_wait_for_reader_offset < p
      → must_restart (adjust_pinned_range (to_block_id b p) b) p ≡ true
  unfolding must_restart adjust_pinned_range
  seek-far b p far = ground arith

  -- Seek from another thread to a position that is far ahead: the stream moves, the fetcher stays.
  seek-moves :
      (b : MultiBuffer Byte) (p : ℕ)
      → must_restart (adjust_pinned_range (to_block_id b p) b) p ≡ true
      → let c = seek false (pos p) b in
        (c.fetcher ≡ b.fetcher)
        × (write_pos c ≡ restart_position b p)
        × (c.block_size_shift ≡ b.block_size_shift)
        × (c.pinned_first ≡ p / block_size b - 5)
        × (c.pinned_last ≡ pos (p / block_size b + 50))
  unfolding seek to_block_id adjust_pinned_range restart_from create_fetcher_from
  seek-moves b p e = rw (seek, e) (refl, omega arith, refl, refl, refl)

  module _ (fresh : ℕ → Byte) (resource : ℕ → Byte) (shift p num_bytes : ℕ) (r : Response)
      (b : MultiBuffer Byte) (at_start : start true (new_multibuffer shift) ≡ some b)
      (far : max_wait_for_reader_offset < p) (some_bytes : 0 < num_bytes)
      (ok : r.code / 100 ≡ 2) where
    -- A new cache is started; Seek from another thread goes to a position further ahead than the
    -- wait for the reader; and before the io thread makes the new request, the first fetcher's
    -- response of success brings bytes of the resource from its start. OnWrite takes them, and then
    -- Fill gives the first byte of the resource for the position where the new request starts.
    pub on_write-stale :
        (c : MultiBuffer Byte) × (on_write fresh r resource num_bytes (seek false (pos p) b)
          ≡ some (c, num_bytes))
        × (fill c (pos (restart_position b p)) 1 ≡ (pos 1, resource 0 ∷ []))
    unfolding is_pinned slice
    on_write-stale =
        let s = seek false (pos p) b in
        let q = restart_position b p in
        let (fetching, at_zero) = start-gives shift b at_start in
        let (same, moved, same_shift, first, last) =
          seek-moves b p (seek-far b p (omega (arith, at_zero))) in
        let shifted : ℕ → Byte = λ x. resource (x - q) in
        let fed = Reachable-IsFed fresh shifted shift s (
          after b s
            (after (new_multibuffer shift) b at_first
              (started (new_multibuffer shift) b true at_start))
            (sought b false (pos p))) in
        let arrives : (i : ℕ) → i < num_bytes → resource i ≡ shifted (write_pos s + i) =
          λ i h. ap resource (omega (arith, moved)) in
        let (c, wrote, good, _, _, _) =
          on_write-IsFed fresh shifted r resource num_bytes 0 s fed (same ∙ fetching) ok arrives in
        let pinned : is_pinned s (q / block_size s) ≡ true =
          rw
            (
              same_shift,
              first,
              last,
              restart_block (block_size b) (p / block_size b) (block_size-pos b),
            )
            (ground arith) in
        let (d, again, cached) =
          on_write-is_cached fresh shifted r resource num_bytes 0 s fed (same ∙ fetching) ok arrives
            q (omega (arith, moved)) (omega (arith, moved)) pinned in
        let there : is_cached c q ≡ true =
          rw (same_state c d num_bytes num_bytes _ wrote again) cached in
        let (n, bound, positive, filled) =
          fill-is_cached shifted c q 1 good.sound.keyed good.holds (omega arith) in
        let one : n ≡ 1 = ground arith in
        (
          c,
          wrote,
          filled ∙ rw (there, one) (let none_past : q - q ≡ 0 = omega arith in rw none_past refl),
        )
