-- ===== src/MultiBuffer/Progress.antt =====
-- ResourceMultiBuffer: Seek, then the fetcher's bytes up to the position, then the position is cached.
use chromium_media_lib.Prelude.{
  ℕ, ◌+◌, ◌-◌, ◌*◌, ◌/◌, ◌≤◌, ◌<◌, ◌≡◌, sym, inl, inr, ◌∙◌, ◌⊎◌, Bool, true, some, arith,
  Option-cases,
}
use chromium_media_lib.Prelude.Int.{pos}
use chromium_media_lib.MultiBuffer.{
  MultiBuffer, Response, seek, run_posted, on_write, write_pos, block_size, is_pinned,
  max_wait_for_reader_offset, create_fetcher_from, restart_from, adjust_pinned_range,
}
use chromium_media_lib.MultiBuffer.Blocks.{is_cached}
use chromium_media_lib.MultiBuffer.Seek.{seek-WithinReach, seek-keeps}
use chromium_media_lib.MultiBuffer.Write.{IsFed}
use chromium_media_lib.MultiBuffer.Run.{seek-IsFed, run_posted-IsFed}
use chromium_media_lib.MultiBuffer.Stream.{same_state, on_write-IsFed, on_write-is_cached}

module _ {Byte : Type 0} where
  seek-fetcher :
      (on_io : Bool) (b : MultiBuffer Byte) (p f : ℕ)
      → b.fetcher ≡ some f
      → (g : ℕ) × ((seek on_io (pos p) b).fetcher ≡ some g)
  unfolding seek restart_from create_fetcher_from adjust_pinned_range
  seek-fetcher on_io b p f e = elim (Option-cases (seek on_io (pos p) b).fetcher) [
    | inl n ↦ absurd (ground arith)
    | inr found ↦ found
  ]

  run_posted-fetcher :
      (b : MultiBuffer Byte) (f : ℕ)
      → b.fetcher ≡ some f
      → (g : ℕ) × ((run_posted b).fetcher ≡ some g)
  unfolding run_posted create_fetcher_from
  run_posted-fetcher b f e = elim (Option-cases (run_posted b).fetcher) [
    | inl n ↦ absurd (ground arith)
    | inr found ↦ found
  ]

  run_posted-keeps :
      (b : MultiBuffer Byte)
      → ((run_posted b).cache ≡ b.cache)
        × ((run_posted b).block_size_shift ≡ b.block_size_shift)
        × (write_pos (run_posted b) ≡ write_pos b)
        × ((run_posted b).pinned_first ≡ b.pinned_first)
        × ((run_posted b).pinned_last ≡ b.pinned_last)
  unfolding run_posted create_fetcher_from
  run_posted-keeps b = ground arith

  -- The cache after Seek and one posted call.
  abbrev pub at_position : Bool → ℕ → MultiBuffer Byte → MultiBuffer Byte
  at_position on_io p b = run_posted (seek on_io (pos p) b)

  at_position-keeps :
      (on_io : Bool) (b : MultiBuffer Byte) (p : ℕ)
      → let c = at_position on_io p b in
        (c.cache ≡ b.cache)
        × (c.block_size_shift ≡ b.block_size_shift)
        × (c.pinned_first ≡ p / block_size b - 5)
        × (c.pinned_last ≡ pos (p / block_size b + 50))
  at_position-keeps on_io b p =
      let (cache, _, shift, first, last) = seek-keeps on_io b p in
      let (cache', shift', _, first', last') = run_posted-keeps (seek on_io (pos p) b) in
      (cache' ∙ cache, shift' ∙ shift, first' ∙ first, last' ∙ last)

  at_position-is_pinned :
      (on_io : Bool) (b : MultiBuffer Byte) (p : ℕ)
      → is_pinned (at_position on_io p b) (p / block_size (at_position on_io p b)) ≡ true
  unfolding is_pinned
  at_position-is_pinned on_io b p =
      let (_, shift, first, last) = at_position-keeps on_io b p in
      rw (shift, first, last) (ground arith)

  is_cached-seek :
      (on_io : Bool) (b : MultiBuffer Byte) (p : ℕ)
      → is_cached (seek on_io (pos p) b) p ≡ is_cached b p
  unfolding is_cached
  is_cached-seek on_io b p = let (cache, _, shift, _, _) = seek-keeps on_io b p in rw (cache, shift)

  module _ (fresh : ℕ → Byte) (resource : ℕ → Byte) (on_io : Bool) (p f num_bytes : ℕ)
      (r : Response) (read_data : ℕ → Byte) (b : MultiBuffer Byte) (fed : IsFed resource b)
      (fetching : b.fetcher ≡ some f) (small : 2 * block_size b ≤ max_wait_for_reader_offset)
      (ok : r.code / 100 ≡ 2)
      (arrives : (i : ℕ)
        → i < num_bytes
        → read_data i ≡ resource (write_pos (at_position on_io p b) + i))
      (reaches : p < write_pos (at_position on_io p b) + num_bytes) where
    -- After Seek the fetcher's bytes up to the position are taken, and then its byte is cached,
    -- unless it was before.
    pub on_write-at_position :
        (c : MultiBuffer Byte) × (on_write fresh r read_data num_bytes (at_position on_io p b)
          ≡ some (c, num_bytes))
        × IsFed resource c
        × ((is_cached b p ≡ true) ⊎ (is_cached c p ≡ true))
    on_write-at_position =
        let a = at_position on_io p b in
        let fed_there =
          run_posted-IsFed resource (seek on_io (pos p) b)
            (seek-IsFed resource on_io (pos p) b fed) in
        let (g, there) = seek-fetcher on_io b p f fetching in
        let (h, now) = run_posted-fetcher (seek on_io (pos p) b) g there in
        let (c, wrote, good, _, _, _) =
          on_write-IsFed fresh resource r read_data num_bytes h a fed_there now ok arrives in
        (
          c,
          wrote,
          good,
          elim (seek-WithinReach on_io b p fed.sound.keyed fed.sound.bounded small) [
            | inl cached ↦ inl (sym (is_cached-seek on_io b p) ∙ cached)
            | inr (behind, near) ↦
                let (_, _, same, _, _) = run_posted-keeps (seek on_io (pos p) b) in
                let (d, again, cached) =
                  on_write-is_cached fresh resource r read_data num_bytes h a fed_there now ok
                    arrives p (omega (arith, same)) reaches (at_position-is_pinned on_io b p) in
                inr (rw (same_state c d num_bytes num_bytes _ wrote again) cached)
          ],
        )
