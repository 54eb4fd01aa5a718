-- ===== src/MultiBuffer/Fill.antt =====
-- ResourceMultiBuffer::Fill: it copies what is cached from the position on, and bytes of the
-- resource only.
use native.Mathlib.Nat.{pow-suc}
use mathlib.Core.List.{append-nil}
use chromium_media_lib.Prelude.{
  List-cases, ℕ, zero, suc, ◌+◌, ◌-◌, ◌*◌, ◌/◌, ◌%◌, ◌^◌, ◌≤◌, ◌<◌, ◌≡◌, refl, ap, inl, inr, ◌⊎◌,
  ◌∙◌, min, true, false, List, [], ◌∷◌, ◌++◌, ◌&&◌, length, length-append, All, arith, ltb, leb,
  ◌==◌, Bool-cases, Option-cases, if◌then◌else◌, subst, lt→ltb,
}
use chromium_media_lib.Prelude.Int.{pos}
use chromium_media_lib.Prelude.Maps.{lookup, From, All-lookup}
use chromium_media_lib.MultiBuffer.{
  Entry, MultiBuffer, block_size, slice, at_or_below, fill_loop, fill_bytes, fill, to_block_id,
  err_io_pending,
}
use chromium_media_lib.MultiBuffer.Blocks.{
  Faithful, Holds, slice-append, slice-agree, length-slice, at_or_below-All, at_or_below-le,
  is_cached, at_or_below_present, at_or_below_absent,
}

module _ {Byte : Type 0} (resource : ℕ → Byte) where
  -- One entry, read from a position in it or at its end.
  entry-slice :
      (block k position n : ℕ) (e : Entry Byte)
      → Faithful resource block (k, e)
      → k * block ≤ position
      → position - k * block + n ≤ e.data_size
      → slice e.bytes (position - k * block) n ≡ slice resource position n
  entry-slice block k position n e f low fits =
      slice-agree e.bytes resource (position - k * block) position n
        λ i h. f.1 (position - k * block + i) (omega arith) ∙ ap resource (omega arith)

  -- The same for what one round copies.
  round-slice :
      (block k position size : ℕ) (e : Entry Byte)
      → Faithful resource block (k, e)
      → k * block ≤ position
      → position ≤ k * block + e.data_size
      → let begin = position - k * block in
        slice e.bytes begin (min (e.data_size - begin) size)
        ≡ slice resource position (min (e.data_size - begin) size)
  round-slice block k position size e f low high =
      entry-slice block k position _ e f low (omega arith)

  -- After a full entry the next round starts at its block, or nothing is left to copy.
  next_round :
      (block held index position size k : ℕ)
      → index ≡ k
      → held ≡ block
      → k * block ≤ position
      → position ≤ k * block + held
      → let remain = min (held - (position - k * block)) size in
        ((index + 1) * block ≤ position + remain) ⊎ (size - remain ≡ 0)
  next_round block held index position size k same full low high = ground arith

  fill_loop-slice :
      (block index position size : ℕ) (m : List (ℕ × Entry Byte))
      → All (Faithful resource block) m
      → (index * block ≤ position) ⊎ (size ≡ 0)
      → (n : ℕ) × (fill_loop block index position size m ≡ slice resource position n) × (n ≤ size)
  unfolding fill_loop slice
  fill_loop-slice block index position size [] a low = (0, refl, omega arith)
  fill_loop-slice block index position size ((k, e) ∷ rest) a low =
      let begin = position - k * block in
      let remain = min (e.data_size - begin) size in
      elim (Bool-cases (ltb 0 size && leb position (k * block + e.data_size) && (index == k))) [
        | inr stop ↦ (0, rw stop, omega arith)
        | inl on ↦
            let start : k * block ≤ position = let same : index ≡ k = ground arith in grind arith in
            let high : position ≤ k * block + e.data_size = ground arith in
            let here = round-slice block k position size e a.0 start high in
            elim (Bool-cases (e.data_size == block)) [
              | inr partial ↦ (remain, rw (on, partial) (append-nil _ ∙ here), omega arith)
              | inl whole ↦
                  let (n, more, bound) =
                    fill_loop-slice block (index + 1) (position + remain) (size - remain) rest a.1 (
                      next_round block e.data_size index position size k (ground arith)
                        (ground arith) start high) in
                  (
                    remain + n,
                    rw (on, whole, more)
                        (ap (λ l. l ++ slice resource (position + remain) n) here
                          ∙ slice-append resource position remain n _ refl),
                    omega arith,
                  )
            ]
      ]

pow_pos : (s : ℕ) → 0 < 2 ^ s
pow_pos zero = omega arith
pow_pos (suc s) = rw pow-suc (omega (arith, pow_pos s))

pub block_size-pos : {Byte : Type 0} (b : MultiBuffer Byte) → 0 < block_size b
block_size-pos b = pow_pos b.block_size_shift

pub block_start : (block k position : ℕ) → k ≤ position / block → k * block ≤ position
block_start block k position h = grind arith

fill_bytes_nothing :
    {Byte : Type 0} (b : MultiBuffer Byte) (position size : ℕ)
    → at_or_below (position / block_size b) b.cache ≡ []
    → fill_bytes b position size ≡ []
unfolding fill_bytes to_block_id
fill_bytes_nothing b position size e = rw (e, fill_bytes)

pub fill_bytes_found :
    {Byte : Type 0} (b : MultiBuffer Byte) (position size : ℕ) (e : ℕ × Entry Byte)
    (r : List (ℕ × Entry Byte))
    → at_or_below (position / block_size b) b.cache ≡ e ∷ r
    → fill_bytes b position size ≡ fill_loop (block_size b) e.0 position size (e ∷ r)
unfolding fill_bytes to_block_id
fill_bytes_found b position size e r h = rw (h, fill_bytes)

-- What Fill writes is the resource from the position on, at most as long as was asked for.
pub fill_bytes-slice :
    {Byte : Type 0} (resource : ℕ → Byte) (b : MultiBuffer Byte) (position size : ℕ)
    → Holds resource b
    → (n : ℕ) × (fill_bytes b position size ≡ slice resource position n) × (n ≤ size)
unfolding slice
fill_bytes-slice resource b position size h =
    elim (List-cases (at_or_below (position / block_size b) b.cache)) [
      | inl nothing ↦ (0, fill_bytes_nothing b position size nothing, omega arith)
      | inr (e, r, found) ↦
          let le = at_or_below-le (position / block_size b) b.cache r e found in
          let good =
            at_or_below-All (Faithful resource (block_size b)) (position / block_size b) b.cache
              h in
          let (n, copied, bound) =
            fill_loop-slice resource (block_size b) e.0 position size (e ∷ r) (rw found at good)
              (inl (block_start (block_size b) e.0 position le)) in
          (n, fill_bytes_found b position size e r found ∙ copied, bound)
    ]

pub block_end :
    (block k size position : ℕ) → k < position / block → size ≤ block → k * block + size ≤ position
block_end block k size position h fits = grind arith

-- A round that can copy something does.
fill_loop_some :
    {Byte : Type 0} (block k position size : ℕ) (e : Entry Byte) (r : List (ℕ × Entry Byte))
    → 0 < size
    → k * block ≤ position
    → position < k * block + e.data_size
    → 0 < length (fill_loop block k position size ((k, e) ∷ r))
unfolding fill_loop
fill_loop_some block k position size e r h low high =
    let on : (ltb 0 size && leb position (k * block + e.data_size) && (k == k)) ≡ true =
      ground arith in
    rw on (rw length-append (rw length-slice (omega arith)))

-- A missing block stops the loop.
fill_loop_gap :
    {Byte : Type 0} (block index id position size : ℕ) (r : List (ℕ × Entry Byte))
    → From (suc id) r
    → index ≤ id
    → fill_loop block index position size r ≡ []
unfolding fill_loop
fill_loop_gap block index id position size [] above h = refl
fill_loop_gap block index id position size ((j, w) ∷ r) above h = ground arith

-- A round at the end of an entry copies nothing.
fill_loop_end :
    {Byte : Type 0} (block k id position size : ℕ) (e : Entry Byte) (r : List (ℕ × Entry Byte))
    → k * block + e.data_size ≤ position
    → (e.data_size ≡ block → k < id)
    → From (suc id) r
    → fill_loop block k position size ((k, e) ∷ r) ≡ []
unfolding fill_loop slice
fill_loop_end block k id position size e r high next above =
    let none_left : min (e.data_size - (position - k * block)) size ≡ 0 = omega arith in
    rw none_left (ground (arith, fill_loop_gap block (k + 1) id (position + 0) (size - 0) r above))

fill_bytes_cached :
    {Byte : Type 0} (b : MultiBuffer Byte) (position size : ℕ)
    → From 0 b.cache
    → 0 < size
    → is_cached b position ≡ true
    → 0 < length (fill_bytes b position size)
unfolding is_cached
fill_bytes_cached b position size keyed h c =
    let id = position / block_size b in
    elim (Option-cases (lookup id b.cache)) [
      | inl none_there ↦ absurd (ground arith)
      | inr (e, there) ↦
          let (r, found, _) = at_or_below_present id 0 e b.cache keyed there in
          let inside : position % block_size b < e.data_size = ground arith in
          rw (fill_bytes_found b position size (id, e) r found) (
            fill_loop_some (block_size b) id position size e r h
              (block_start (block_size b) id position (omega arith)) (omega arith))
    ]

pub fill_bytes_missing :
    {Byte : Type 0} (resource : ℕ → Byte) (b : MultiBuffer Byte) (position size : ℕ)
    → From 0 b.cache
    → Holds resource b
    → is_cached b position ≡ false
    → fill_bytes b position size ≡ []
unfolding is_cached
fill_bytes_missing resource b position size keyed holds c =
    let id = position / block_size b in
    elim (Option-cases (lookup id b.cache)) [
      | inl none_there ↦ elim (at_or_below_absent id 0 b.cache keyed none_there) [
        | inl nothing ↦ fill_bytes_nothing b position size nothing
        | inr (e, r, found, less, above) ↦
            let good = at_or_below-All (Faithful resource (block_size b)) id b.cache holds in
            let whole : Faithful resource (block_size b) e = (rw found at good).0 in
            fill_bytes_found b position size e r found
            ∙ fill_loop_end (block_size b) e.0 id position size e.1 r
                (block_end (block_size b) e.0 e.1.data_size position less whole.0) (λ _. less) above
      ]
      | inr (e, there) ↦
          let (r, found, above) = at_or_below_present id 0 e b.cache keyed there in
          let outside : e.data_size ≤ position % block_size b = ground arith in
          let whole = All-lookup (Faithful resource (block_size b)) id e b.cache holds there in
          fill_bytes_found b position size (id, e) r found
          ∙ fill_loop_end (block_size b) id id position size e r (omega arith)
              (λ full. absurd (omega (arith, block_size-pos b))) above
    ]

length-positive :
    {Byte : Type 0} (resource : ℕ → Byte) (b : MultiBuffer Byte) (position size : ℕ)
    → From 0 b.cache
    → Holds resource b
    → 0 < size
    → ltb 0 (length (fill_bytes b position size)) ≡ is_cached b position
length-positive resource b position size keyed holds h = elim (Bool-cases (is_cached b position)) [
  | inl c ↦ rw c (lt→ltb _ _ (fill_bytes_cached b position size keyed h c))
  | inr c ↦ rw (c, fill_bytes_missing resource b position size keyed holds c)
]

-- For a read of at least one byte at a nonnegative position, over a cache in the order of its block
-- ids whose bytes are the resource's, Fill copies the first `n` bytes of the resource from the position on, `n` at most the size asked for. It copies
-- some exactly if the byte at the position is cached, and then returns `n`; otherwise it returns
-- ERR_IO_PENDING.
pub fill-is_cached :
    {Byte : Type 0} (resource : ℕ → Byte) (b : MultiBuffer Byte) (position size : ℕ)
    → From 0 b.cache
    → Holds resource b
    → 0 < size
    → (n : ℕ) × (n ≤ size)
      × (ltb 0 n ≡ is_cached b position)
      × (fill b (pos position) size
          ≡ (if is_cached b position then pos n else err_io_pending, slice resource position n))
unfolding fill
fill-is_cached resource b position size keyed holds h =
    let (n, copied, bound) = fill_bytes-slice resource b position size holds in
    let count = ap length copied ∙ length-slice resource position n in
    let some_bytes = length-positive resource b position size keyed holds h in
    let positive = subst (λ k. ltb 0 k ≡ is_cached b position) count some_bytes in
    (n, bound, positive, rw (some_bytes, count, copied))
