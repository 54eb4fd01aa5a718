-- ===== src/MultiBuffer/Run.antt =====
-- ResourceMultiBuffer over a whole run: a new cache agrees with any resource, and Seek keeps what
-- OnWrite needs.
use chromium_media_lib.Prelude.{
  ltb, List-cases, ℕ, ◌+◌, ◌-◌, ◌*◌, ◌/◌, ◌%◌, ◌≤◌, ◌<◌, ◌≡◌, refl, sym, subst, inl, inr, Bool,
  true, false, Option, some, List, [], ◌∷◌, ◌++◌, if◌then◌else◌, arith, Bool-cases,
}
use chromium_media_lib.Prelude.Int.{ℤ, pos, negsuc, pos_part, sub_ℕ}
use chromium_media_lib.Prelude.Maps.{lookup}
use chromium_media_lib.Lru.{empty_lru, contains, size}
use chromium_media_lib.Lru.Nodes.{empty_lru-IsValid}
use chromium_media_lib.MultiBuffer.{
  MultiBuffer, Response, block_size, write_pos, new_multibuffer, seek, start, run_posted,
  create_fetcher_from, on_write, fill, slice, err_io_pending, restart_from, must_restart,
  adjust_pinned_range, adjust_pinned_range_negative, to_block_id,
}
use chromium_media_lib.MultiBuffer.Fill.{block_size-pos}
use chromium_media_lib.MultiBuffer.Longest.{cached_run, fill-cached_run}
use chromium_media_lib.MultiBuffer.Write.{IsFed, size_of}
use chromium_media_lib.MultiBuffer.Stream.{same_state, on_write-IsFed}

start_below : (k block n : ℕ) → 0 < block → (k * block + 0) % block ≤ n
start_below k block n h = grind arith

zero_below : (block n : ℕ) → 0 < block → 0 % block ≤ n
zero_below block n h = grind arith

module _ {Byte : Type 0} (resource : ℕ → Byte) where
  pub new_multibuffer-IsFed : (shift : ℕ) → IsFed resource (new_multibuffer shift)
  unfolding new_multibuffer lookup contains empty_lru size
  new_multibuffer-IsFed shift = record {
    sound = record {
      valid = empty_lru-IsValid;
      keyed = tt;
      same = λ id. refl;
      bounded = tt;
      narrow = omega arith;
    };
    small = omega arith;
    holds = tt;
    writing =
        zero_below (block_size (new_multibuffer {Byte = Byte} shift)) 0
          (block_size-pos (new_multibuffer {Byte = Byte} shift));
  }

  -- The cache agrees still if the stream moves to where its block is filled up to.
  moved-IsFed :
      (b : MultiBuffer Byte) (start offset first : ℕ) (last : ℤ) (f : Option ℕ) (posted : List ℕ)
      → IsFed resource b
      → pos_part last ≤ first + 55
      → (start + offset) % block_size b ≤ size_of (lookup ((start + offset) / block_size b) b.cache)
      → IsFed resource (record b {
        write_start_pos = start;
        write_offset = offset;
        fetcher = f;
        posted = posted;
        pinned_first = first;
        pinned_last = last;
      })
  moved-IsFed b start offset first last f posted fed narrow writing = record {
    sound = record {
      valid = fed.sound.valid;
      keyed = fed.sound.keyed;
      same = fed.sound.same;
      bounded = fed.sound.bounded;
      narrow = narrow;
    };
    small = fed.small;
    holds = fed.holds;
    writing = writing;
  }

  restart_from-IsFed :
      (on_io : Bool) (b : MultiBuffer Byte) (position first : ℕ) (last : ℤ)
      → IsFed resource b
      → pos_part last ≤ first + 55
      → ((n : ℕ) → (position + 0) % block_size b ≤ n)
      → IsFed resource
          (restart_from on_io position (record b { pinned_first = first; pinned_last = last }))
  unfolding restart_from create_fetcher_from
  restart_from-IsFed true b position first last fed narrow below =
      moved-IsFed b position 0 first last (some position) b.posted fed narrow (below _)
  restart_from-IsFed false b position first last fed narrow below =
      moved-IsFed b position 0 first last b.fetcher (b.posted ++ position ∷ []) fed narrow (below _)

  seek_restart :
      (on_io : Bool) (b : MultiBuffer Byte) (p : ℕ)
      → must_restart (adjust_pinned_range (to_block_id b p) b) p ≡ true
      → seek on_io (pos p) b
        ≡ restart_from on_io ((p / block_size b - 1) * block_size b) (record b {
          pinned_first = p / block_size b - 5;
          pinned_last = pos (p / block_size b + 50);
        })
  unfolding seek to_block_id adjust_pinned_range
  seek_restart on_io b p e = rw (seek, e) refl

  seek_stay :
      (on_io : Bool) (b : MultiBuffer Byte) (p : ℕ)
      → must_restart (adjust_pinned_range (to_block_id b p) b) p ≡ false
      → seek on_io (pos p) b ≡ record b {
        pinned_first = p / block_size b - 5;
        pinned_last = pos (p / block_size b + 50);
      }
  unfolding seek to_block_id adjust_pinned_range
  seek_stay on_io b p e = rw (seek, e) refl

  pub seek-IsFed :
      (on_io : Bool) (p : ℤ) (b : MultiBuffer Byte)
      → IsFed resource b
      → IsFed resource (seek on_io p b)
  unfolding seek adjust_pinned_range_negative
  seek-IsFed on_io (pos p) b fed =
      let first = p / block_size b - 5 in
      let last = pos (p / block_size b + 50) in
      elim (Bool-cases (must_restart (adjust_pinned_range (to_block_id b p) b) p)) [
        | inl r ↦ subst (IsFed resource) (sym (seek_restart on_io b p r)) (
            restart_from-IsFed on_io b ((p / block_size b - 1) * block_size b) first last fed
              (omega arith)
              (λ n. start_below (p / block_size b - 1) (block_size b) n (block_size-pos b)))
        | inr r ↦ subst (IsFed resource) (sym (seek_stay on_io b p r)) (
            moved-IsFed b b.write_start_pos b.write_offset first last b.fetcher b.posted fed
              (omega arith) fed.writing)
      ]
  seek-IsFed on_io (negsuc n) b fed =
      restart_from-IsFed on_io b 0 0 (sub_ℕ 50 (n / block_size b + 1)) fed (ground arith)
        (λ k. zero_below (block_size b) k (block_size-pos b))

  run_posted_nothing : (b : MultiBuffer Byte) → b.posted ≡ [] → run_posted b ≡ b
  unfolding run_posted
  run_posted_nothing b e = ground arith

  run_posted_oldest :
      (b : MultiBuffer Byte) (position : ℕ) (rest : List ℕ)
      → b.posted ≡ position ∷ rest
      → run_posted b ≡ record b { fetcher = some position; posted = rest }
  unfolding run_posted create_fetcher_from
  run_posted_oldest b position rest e = ground arith

  pub run_posted-IsFed : (b : MultiBuffer Byte) → IsFed resource b → IsFed resource (run_posted b)
  run_posted-IsFed b fed = elim (List-cases b.posted) [
    | inl nothing ↦ subst (IsFed resource) (sym (run_posted_nothing b nothing)) fed
    | inr (position, rest, found) ↦
        subst (IsFed resource) (sym (run_posted_oldest b position rest found)) (
          moved-IsFed b b.write_start_pos b.write_offset b.pinned_first b.pinned_last
            (some position) rest fed fed.sound.narrow fed.writing)
  ]

  start_restarts :
      (on_io : Bool) (b c : MultiBuffer Byte)
      → start on_io b ≡ some c
      → restart_from on_io 0
          (record b { pinned_first = b.pinned_first; pinned_last = b.pinned_last })
        ≡ c
  unfolding start create_fetcher_from restart_from
  start_restarts on_io b c e = ground arith

  start-IsFed :
      (on_io : Bool) (b c : MultiBuffer Byte)
      → IsFed resource b
      → start on_io b ≡ some c
      → IsFed resource c
  start-IsFed on_io b c fed e = subst (IsFed resource) (start_restarts on_io b c e) (
      restart_from-IsFed on_io b 0 b.pinned_first b.pinned_last fed fed.sound.narrow
        (λ n. zero_below (block_size b) n (block_size-pos b)))

module _ {Byte : Type 0} (fresh : ℕ → Byte) (resource : ℕ → Byte) where
  -- What readers and the network do to the cache, while every response is of success and brings the
  -- bytes of the resource at the position where the stream is.
  pub data Step : MultiBuffer Byte → MultiBuffer Byte → Type 0 where
    started : (b c : MultiBuffer Byte) (on_io : Bool) → start on_io b ≡ some c → Step b c
    sought : (b : MultiBuffer Byte) (on_io : Bool) (p : ℤ) → Step b (seek on_io p b)
    fetched : (b : MultiBuffer Byte) → Step b (run_posted b)
    wrote :
        (b c : MultiBuffer Byte) (r : Response) (read_data : ℕ → Byte) (num_bytes f taken : ℕ)
        → b.fetcher ≡ some f
        → r.code / 100 ≡ 2
        → ((i : ℕ) → i < num_bytes → read_data i ≡ resource (write_pos b + i))
        → on_write fresh r read_data num_bytes b ≡ some (c, taken)
        → Step b c

  -- The states that a new cache comes to.
  pub data Reachable (shift : ℕ) : MultiBuffer Byte → Type 0 where
    at_first : Reachable shift (new_multibuffer shift)
    after : (b c : MultiBuffer Byte) → Reachable shift b → Step b c → Reachable shift c

  step-IsFed : (b c : MultiBuffer Byte) → Step b c → IsFed resource b → IsFed resource c
  step-IsFed _ _ (started b c on_io e) fed = start-IsFed resource on_io b c fed e
  step-IsFed _ _ (sought b on_io p) fed = seek-IsFed resource on_io p b fed
  step-IsFed _ _ (fetched b) fed = run_posted-IsFed resource b fed
  step-IsFed _ _ (wrote b c r read_data num_bytes f taken fetching ok arrives e) fed =
      let (d, run, good, _, _, _) =
        on_write-IsFed fresh resource r read_data num_bytes f b fed fetching ok arrives in
      subst (IsFed resource) (same_state d c num_bytes taken _ run e) good

  -- In every state that a new cache comes to by Start, by Seek to any position and from either
  -- thread, by posted requests and by OnWrite on responses of success that bring the bytes of the
  -- resource at the stream's position, in any order: every cached byte is the byte of the resource
  -- at its position, the blocks and the LRU agree, at most `max_cache_size` blocks are there, and
  -- the stream is in a block that is filled up to it.
  pub Reachable-IsFed : (shift : ℕ) (b : MultiBuffer Byte) → Reachable shift b → IsFed resource b
  Reachable-IsFed shift _ at_first = new_multibuffer-IsFed resource shift
  Reachable-IsFed shift _ (after b c r step) = step-IsFed b c step (Reachable-IsFed shift b r)

  -- In every state that a new cache comes to by Start, Seek, posted requests and OnWrite on responses
  -- of success that bring the bytes of the resource at the stream's position: Fill at a nonnegative
  -- position copies bytes of the resource from the position on, as many as are cached there without
  -- a break, up to the size, and returns their number, or ERR_IO_PENDING if there are none.
  pub Reachable-fill :
      (shift : ℕ) (b : MultiBuffer Byte) (position size : ℕ)
      → Reachable shift b
      → let n = cached_run b position size in
        fill b (pos position) size
        ≡ (if ltb 0 n then pos n else err_io_pending, slice resource position n)
  Reachable-fill shift b position size r =
      let fed = Reachable-IsFed shift b r in
      fill-cached_run resource b position size fed.sound.keyed fed.holds
