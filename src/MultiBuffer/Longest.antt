-- ===== src/MultiBuffer/Longest.antt =====
-- ResourceMultiBuffer::Fill against a reference that counts the cached bytes one by one.
use native.Mathlib.Nat.{add-zero}
use chromium_media_lib.Prelude.{
  sym, List-cases, ℕ, zero, suc, ◌+◌, ◌*◌, ◌/◌, ◌%◌, ◌≤◌, ◌<◌, ◌≡◌, refl, ap, inl, inr, ◌⊎◌, ◌∙◌,
  true, false, List, [], ◌∷◌, length, arith, ltb, ◌==◌, Bool-cases, Option-cases, if◌then◌else◌,
  subst, lt→ltb, some,
}
use chromium_media_lib.Prelude.Int.{pos}
use chromium_media_lib.Prelude.Maps.{lookup, From, All-lookup}
use chromium_media_lib.MultiBuffer.{
  Entry, MultiBuffer, block_size, slice, at_or_below, fill_bytes, fill, err_io_pending,
}
use chromium_media_lib.MultiBuffer.Blocks.{
  Faithful, Holds, length-slice, at_or_below_present, at_or_below_above, is_cached, at_or_below-All,
}
use chromium_media_lib.MultiBuffer.Fill.{
  block_size-pos, block_start, fill_bytes_found, fill_bytes_missing, fill_bytes-slice,
}
use chromium_media_lib.MultiBuffer.Rounds.{
  Covers, Gap, Longest, From-lookup, block_after, fill_loop-Longest,
}

-- How many bytes from the position on are cached without a break, up to `size`.
unfoldable pub cached_run : {Byte : Type 0} → MultiBuffer Byte → ℕ → ℕ → ℕ
cached_run b position zero = 0
cached_run b position (suc size) =
    let rest = cached_run b (suc position) size in if is_cached b position then suc rest else 0

pub cached_run_le :
    {Byte : Type 0} (b : MultiBuffer Byte) (position size : ℕ) → cached_run b position size ≤ size
unfolding cached_run
cached_run_le b position zero = omega arith
cached_run_le b position (suc size) = ground (arith, cached_run_le b (suc position) size)

-- The run is empty only if the first byte is missing.
pub cached_run-is_cached :
    {Byte : Type 0} (b : MultiBuffer Byte) (position size : ℕ)
    → 0 < size
    → ltb 0 (cached_run b position size) ≡ is_cached b position
unfolding cached_run
cached_run-is_cached b position zero h = absurd (omega arith)
cached_run-is_cached b position (suc size) h = ground arith

-- The entries from the one found on are those of the map.
at_or_below-lookup :
    {V : Type 0} (id k n : ℕ) (x : ℕ × V) (r m : List (ℕ × V))
    → From n m
    → at_or_below id m ≡ x ∷ r
    → id ≤ k
    → lookup k (x ∷ r) ≡ lookup k m
unfolding at_or_below lookup
at_or_below-lookup id k n x r [] a found h = absurd (cc)
at_or_below-lookup id k n x r ((j, w) ∷ m) a found h = elim (List-cases (at_or_below id m)) [
  | inl nothing ↦ elim (Bool-cases (ltb id j)) [
    | inl large ↦ absurd (ground arith)
    | inr small ↦ let same : x ∷ r ≡ (j, w) ∷ m = ground arith in ap (lookup k) same
  ]
  | inr (y, q, below) ↦ elim (Bool-cases (ltb id j)) [
    | inl large ↦ absurd (ground arith)
    | inr small ↦
        let same : y ∷ q ≡ x ∷ r = ground arith in
        let more = at_or_below-lookup id k (suc j) x r m a.1 (below ∙ same) h in
        elim (Bool-cases (k == j)) [
          | inl last ↦
              let key : j ≡ id = ground arith in
              absurd (
                let empty = at_or_below_above id m (subst (λ i. From (suc i) m) key a.1) in
                ground arith)
          | inr other ↦ ground (arith, more)
        ]
  ]
]

is_cached-some :
    {Byte : Type 0} (b : MultiBuffer Byte) (q : ℕ) (e : Entry Byte)
    → lookup (q / block_size b) b.cache ≡ some e
    → is_cached b q ≡ ltb (q % block_size b) e.data_size
unfolding is_cached
is_cached-some b q e there = rw (is_cached, there) refl

quotient : (block k q : ℕ) → k * block ≤ q → q < k * block + block → q / block ≡ k
quotient block k q low high = grind arith

remainder_below :
    (block k q size : ℕ) → k * block ≤ q → q < k * block + size → size ≤ block → q % block < size
remainder_below block k q size low high fits = grind arith

-- A byte that an entry covers is cached.
Covers-is_cached :
    {Byte : Type 0} (resource : ℕ → Byte) (b : MultiBuffer Byte) (q : ℕ)
    → Holds resource b
    → Covers (block_size b) b.cache q
    → is_cached b q ≡ true
Covers-is_cached resource b q holds (k, e, there, low, high) =
    let fits = (All-lookup (Faithful resource (block_size b)) k e b.cache holds there).0 in
    let id = quotient (block_size b) k q low (omega arith) in
    rw (is_cached-some b q e (rw (id, there) refl))
      (lt→ltb _ _ (remainder_below (block_size b) k q e.data_size low high fits))

Gap-is_cached :
    {Byte : Type 0} (b : MultiBuffer Byte) (q : ℕ)
    → Gap (block_size b) b.cache q
    → is_cached b q ≡ false
unfolding is_cached
Gap-is_cached b q gap = elim (Option-cases (lookup (q / block_size b) b.cache)) [
  | inl nothing ↦ rw (is_cached, nothing) refl
  | inr (e, there) ↦
      let start = block_start (block_size b) (q / block_size b) q (omega arith) in
      let past = gap (q / block_size b) e there start in
      let outside : e.data_size ≤ q % block_size b = grind (arith, block_size-pos b) in
      rw (is_cached-some b q e there) (ground arith)
]

cached_run_unique :
    {Byte : Type 0} (b : MultiBuffer Byte) (position size n : ℕ)
    → n ≤ size
    → ((i : ℕ) → i < n → is_cached b (position + i) ≡ true)
    → (n ≡ size) ⊎ (is_cached b (position + n) ≡ false)
    → n ≡ cached_run b position size
unfolding cached_run
cached_run_unique b position zero n le all end = omega arith
cached_run_unique b position (suc size) zero le all (inl full) = absurd (omega arith)
cached_run_unique b position (suc size) zero le all (inr out) =
    let here = subst (λ p. is_cached b p ≡ false) (add-zero position) out in rw here refl
cached_run_unique b position (suc size) (suc n) le all end =
    let here = subst (λ p. is_cached b p ≡ true) (add-zero position) (all 0 (omega arith)) in
    let shift : (i : ℕ) → position + suc i ≡ suc position + i = λ i. omega arith in
    rw here (
      ap suc (
        cached_run_unique b (suc position) size n (omega arith)
          (λ i h. subst (λ p. is_cached b p ≡ true) (shift i) (all (suc i) (omega arith)))
          (elim end [
            | inl full ↦ inl (omega arith)
            | inr out ↦ inr (subst (λ p. is_cached b p ≡ false) (shift n) out)
          ])))

within_block : (block q : ℕ) → 0 < block → q < q / block * block + block
within_block block q h = grind arith

-- From the entry found on, the entries are those of the cache, so the run is the cache's too.
Longest-cached_run :
    {Byte : Type 0} (resource : ℕ → Byte) (b : MultiBuffer Byte) (id position size n : ℕ)
    (e : Entry Byte) (r : List (ℕ × Entry Byte))
    → From 0 b.cache
    → Holds resource b
    → at_or_below id b.cache ≡ (id, e) ∷ r
    → From (suc id) r
    → id * block_size b ≤ position
    → Longest (block_size b) ((id, e) ∷ r) position size n
    → n ≡ cached_run b position size
Longest-cached_run resource b id position size n e r keyed holds found above low (le, all, end) =
    let same : (k : ℕ) → id ≤ k → lookup k ((id, e) ∷ r) ≡ lookup k b.cache =
      λ k h. at_or_below-lookup id k 0 (id, e) r b.cache keyed found h in
    cached_run_unique b position size n le
      (λ i h.
        let (k, w, there, from, to) = all i h in
        let after = From-lookup k id w ((id, e) ∷ r) (omega arith, above) there in
        Covers-is_cached resource b (position + i) holds
          (k, w, rw (← same k after) there, from, to))
      (elim end [
        | inl full ↦ inl full
        | inr gap ↦ inr (
            Gap-is_cached b (position + n) λ k w there from. elim (Bool-cases (ltb k id)) [
              | inl before ↦
                  let fits =
                    (All-lookup (Faithful resource (block_size b)) k w b.cache holds there).0 in
                  let past =
                    block_after (block_size b) id k (position + n) (ground arith) (omega arith) in
                  omega arith
              | inr after ↦ gap k w (rw (same k (ground arith)) there) from
            ])
      ])

length-fill_bytes :
    {Byte : Type 0} (resource : ℕ → Byte) (b : MultiBuffer Byte) (position size : ℕ)
    → From 0 b.cache
    → Holds resource b
    → length (fill_bytes b position size) ≡ cached_run b position size
unfolding is_cached
length-fill_bytes resource b position size keyed holds =
    let id = position / block_size b in
    elim (Bool-cases (is_cached b position)) [
      | inr out ↦ rw (fill_bytes_missing resource b position size keyed holds out) (
          cached_run_unique b position size 0 (omega arith) (λ i h. absurd (omega arith))
            (inr (rw add-zero out)))
      | inl cached ↦ elim (Option-cases (lookup id b.cache)) [
        | inl nothing ↦ absurd (ground arith)
        | inr (e, there) ↦
            let (r, found, above) = at_or_below_present id 0 e b.cache keyed there in
            let good = at_or_below-All (Faithful resource (block_size b)) id b.cache holds in
            let low = block_start (block_size b) id position (omega arith) in
            let high = within_block (block_size b) position (block_size-pos b) in
            rw (fill_bytes_found b position size (id, e) r found) (
              Longest-cached_run resource b id position size _ e r keyed holds found above low (
                fill_loop-Longest resource (block_size b) id position size ((id, e) ∷ r)
                  (omega arith, above) (rw found at good) low high))
      ]
    ]

-- Over a cache in the order of its block ids whose bytes are the resource's, and at a nonnegative
-- position, Fill copies the longest run of cached bytes from the position on, cut at the size:
-- `cached_run` asks of one position after the other whether its byte is cached, and Fill writes the
-- resource's bytes there. It returns their number, and ERR_IO_PENDING if there are none.
pub fill-cached_run :
    {Byte : Type 0} (resource : ℕ → Byte) (b : MultiBuffer Byte) (position size : ℕ)
    → From 0 b.cache
    → Holds resource b
    → let n = cached_run b position size in
      fill b (pos position) size
      ≡ (if ltb 0 n then pos n else err_io_pending, slice resource position n)
unfolding fill
fill-cached_run resource b position size keyed holds =
    let count = length-fill_bytes resource b position size keyed holds in
    let (n, copied, bound) = fill_bytes-slice resource b position size holds in
    let number : n ≡ cached_run b position size =
      sym (ap length copied ∙ length-slice resource position n) ∙ count in
    rw (count, copied, number) refl
