-- ===== src/MultiBuffer/Rounds.antt =====
-- The loop of ResourceMultiBuffer::Fill, round by round: how far it goes.
use native.Mathlib.Nat.{add-zero, suc-mul}
use mathlib.Core.List.{append-nil}
use chromium_media_lib.Prelude.{
  ℕ, suc, ◌+◌, ◌-◌, ◌*◌, ◌≤◌, ◌<◌, ◌≡◌, refl, inl, inr, ◌⊎◌, min, false, List, [], ◌∷◌, ◌&&◌,
  length, length-append, All, arith, ltb, leb, ◌==◌, Bool-cases, subst, some,
}
use chromium_media_lib.Prelude.Maps.{lookup, From, lookup_below}
use chromium_media_lib.MultiBuffer.{Entry, fill_loop}
use chromium_media_lib.MultiBuffer.Blocks.{Faithful, length-slice}

-- An entry of the map has the byte at position `q`.
abbrev pub Covers : {Byte : Type 0} → ℕ → List (ℕ × Entry Byte) → ℕ → Type 0
Covers block m q =
    (k : ℕ) × (e : Entry _) × (lookup k m ≡ some e)
    × (k * block ≤ q)
    × (q < k * block + e.data_size)

-- No entry of the map has it.
abbrev pub Gap : {Byte : Type 0} → ℕ → List (ℕ × Entry Byte) → ℕ → Type 0
Gap block m q =
    (k : ℕ) (e : Entry _) → lookup k m ≡ some e → k * block ≤ q → k * block + e.data_size ≤ q

-- The `n` bytes from `position` on are the longest run in the map, up to `size`.
abbrev pub Longest : {Byte : Type 0} → ℕ → List (ℕ × Entry Byte) → ℕ → ℕ → ℕ → Type 0
Longest block m position size n =
    (n ≤ size)
    × ((i : ℕ) → i < n → Covers block m (position + i))
    × ((n ≡ size) ⊎ Gap block m (position + n))

pub From-lookup :
    {V : Type 0} (k n : ℕ) (v : V) (m : List (ℕ × V)) → From n m → lookup k m ≡ some v → n ≤ k
From-lookup k n v m a h = elim (Bool-cases (ltb k n)) [
  | inl less ↦ absurd (ground (arith, lookup_below k n m a))
  | inr more ↦ ground arith
]

lookup_tail :
    {V : Type 0} (k j : ℕ) (v w : V) (m : List (ℕ × V))
    → From (suc j) m
    → lookup k m ≡ some v
    → lookup k ((j, w) ∷ m) ≡ some v
unfolding lookup
lookup_tail k j v w m a h = ground (arith, From-lookup k (suc j) v m a h)

pub block_after : (block k j q : ℕ) → suc j ≤ k → k * block ≤ q → j * block + block ≤ q
block_after block k j q h low = grind arith

pub From-Gap :
    {Byte : Type 0} (block j q : ℕ) (m : List (ℕ × Entry Byte))
    → From (suc j) m
    → q < j * block + block
    → Gap block m q
From-Gap block j q m a h k e there low =
    absurd (omega (arith, block_after block k j q (From-lookup k (suc j) e m a there) low))

-- A gap behind the first entry.
Gap-cons :
    {Byte : Type 0} (block j q : ℕ) (w : Entry Byte) (m : List (ℕ × Entry Byte))
    → j * block + w.data_size ≤ q
    → Gap block m q
    → Gap block ((j, w) ∷ m) q
unfolding lookup
Gap-cons block j q w m past g k e there low = elim (Bool-cases (k == j)) [
  | inl same ↦
      let key : k ≡ j = ground arith in let it : w ≡ e = ground arith in rw (key, ← it) past
  | inr other ↦ g k e (ground arith) low
]

fill_loop_zero :
    {Byte : Type 0} (block index position : ℕ) (m : List (ℕ × Entry Byte))
    → fill_loop block index position 0 m ≡ []
unfolding fill_loop
fill_loop_zero block index position [] = refl
fill_loop_zero block index position (x ∷ m) = refl

-- A round that stops before it copies is at a gap, or has nothing to copy.
stop-Longest :
    {Byte : Type 0} (block index position size k : ℕ) (e : Entry Byte)
    (rest : List (ℕ × Entry Byte))
    → e.data_size ≤ block
    → index ≤ k
    → From (suc k) rest
    → index * block ≤ position
    → position < index * block + block
    → (ltb 0 size && leb position (k * block + e.data_size) && (index == k)) ≡ false
    → Longest block ((k, e) ∷ rest) position size 0
stop-Longest block index position size k e rest fits le above low high stop = (
  omega arith,
  λ i h. absurd (omega arith),
  elim (Bool-cases (ltb 0 size)) [
    | inr none_left ↦ inl (ground arith)
    | inl left ↦ elim (Bool-cases (index == k)) [
      | inl same ↦
          let key : index ≡ k = ground arith in
          let past : k * block + e.data_size ≤ position = ground arith in
          inr (
            Gap-cons block k (position + 0) e rest (omega arith)
              (From-Gap block k (position + 0) rest above (rw (← key) (omega arith))))
      | inr other ↦
          let less : suc index ≤ k = ground arith in
          inr (From-Gap block index (position + 0) ((k, e) ∷ rest) (less, above) (omega arith))
    ]
  ],
)

-- One round and what the next ones copy.
round-Longest :
    {Byte : Type 0} (block position size k n : ℕ) (e : Entry Byte) (rest : List (ℕ × Entry Byte))
    → From (suc k) rest
    → k * block ≤ position
    → position ≤ k * block + e.data_size
    → let remain = min (e.data_size - (position - k * block)) size in
      (n ≡ 0) × ((remain ≡ size) ⊎ (e.data_size < block))
        ⊎ (k * block + e.data_size ≤ position + remain)
          × Longest block rest (position + remain) (size - remain) n
      → Longest block ((k, e) ∷ rest) position size (remain + n)
unfolding lookup
round-Longest block position size k n e rest above low high (inl (nothing, why)) =
    let remain = min (e.data_size - (position - k * block)) size in
    (
      omega arith,
      λ i h. (k, e, ground arith, omega arith, omega arith),
      elim (Bool-cases (remain == size)) [
        | inl all ↦ inl (let done : remain ≡ size = ground arith in omega arith)
        | inr some_left ↦
            let partial : e.data_size < block = ground arith in
            let at_end : position + (remain + n) ≡ k * block + e.data_size = ground arith in
            inr (
              Gap-cons block k (position + (remain + n)) e rest (omega arith)
                (From-Gap block k (position + (remain + n)) rest above (omega arith)))
      ],
    )
round-Longest block position size k n e rest above low high (inr (past, (bound, covers, end))) =
    let remain = min (e.data_size - (position - k * block)) size in
    let assoc : position + remain + n ≡ position + (remain + n) = omega arith in
    (
      omega arith,
      λ i h. elim (Bool-cases (ltb i remain)) [
        | inl here ↦ (k, e, ground arith, omega arith, ground arith)
        | inr later ↦
            let (j, w, there, from, to) = covers (i - remain) (ground arith) in
            let same : position + remain + (i - remain) ≡ position + i = ground arith in
            (j, w, lookup_tail j k w e rest above there, omega arith, omega arith)
      ],
      elim end [
        | inl done ↦ inl (omega arith)
        | inr gap ↦
            inr (Gap-cons block k (position + (remain + n)) e rest (omega arith) (rw (← assoc) gap))
      ],
    )

-- The loop copies the longest run from a position in its block.
pub fill_loop-Longest :
    {Byte : Type 0} (resource : ℕ → Byte) (block index position size : ℕ)
    (m : List (ℕ × Entry Byte))
    → From index m
    → All (Faithful resource block) m
    → index * block ≤ position
    → position < index * block + block
    → Longest block m position size (length (fill_loop block index position size m))
unfolding fill_loop lookup
fill_loop-Longest resource block index position size [] keyed good low high =
    (omega arith, λ i h. absurd (omega arith), inr (λ k e there from. absurd (cc)))
fill_loop-Longest resource block index position size ((k, e) ∷ rest) keyed good low high =
    let remain = min (e.data_size - (position - k * block)) size in
    elim (Bool-cases (ltb 0 size && leb position (k * block + e.data_size) && (index == k))) [
      | inr stop ↦
          rw stop
            (stop-Longest block index position size k e rest good.0.0 keyed.0 keyed.1 low high stop)
      | inl on ↦
          let key : index ≡ k = ground arith in
          let start : k * block ≤ position = rw (← key) low in
          let within : position ≤ k * block + e.data_size = ground arith in
          elim (Bool-cases (e.data_size == block)) [
            | inr partial ↦
                rw (on, partial, append-nil, length-slice)
                  (subst (Longest block ((k, e) ∷ rest) position size) (add-zero remain) (
                    round-Longest block position size k 0 e rest keyed.1 start within
                      (inl (refl, inr (ground arith)))))
            | inl whole ↦ elim (Bool-cases (remain == size)) [
              | inl all ↦
                  let none_left : size - remain ≡ 0 = ground arith in
                  rw
                    (
                      on,
                      whole,
                      none_left,
                      fill_loop_zero block (index + 1) (position + remain) rest,
                      append-nil,
                      length-slice,
                    )
                    (subst (Longest block ((k, e) ∷ rest) position size) (add-zero remain) (
                      round-Longest block position size k 0 e rest keyed.1 start within
                        (inl (refl, inl (ground arith)))))
              | inr left ↦
                  let full : e.data_size ≡ block = ground arith in
                  let at_end : position + remain ≡ k * block + e.data_size = ground arith in
                  let next : suc index * block ≡ index * block + block = suc-mul index block in
                  rw (on, whole, length-append, length-slice)
                    (round-Longest block position size k _ e rest keyed.1 start within (
                      inr (
                        omega arith,
                        fill_loop-Longest resource block (index + 1) (position + remain)
                            (size - remain) rest (ground arith) good.1 (ground arith)
                            (ground arith),
                      )))
            ]
          ]
    ]
