-- ===== src/MultiBuffer/Blocks.antt =====
-- The helpers of resource_multibuffer.cc: stores of bytes, and the step back from `upper_bound`.
use native.Mathlib.Nat.{suc-add}
use chromium_media_lib.Prelude.{
  List-cases, ℕ, zero, suc, ◌+◌, ◌*◌, ◌/◌, ◌%◌, ◌≤◌, ◌<◌, ◌≡◌, refl, ap, inl, inr, ◌⊎◌, Bool, false,
  some, none, List, [], ◌∷◌, ◌++◌, length, All, arith, ltb, ◌==◌, Bool-cases,
}
use chromium_media_lib.Prelude.Maps.{lookup, From, From-mono, lookup_below}
use chromium_media_lib.MultiBuffer.{Entry, MultiBuffer, block_size, slice, at_or_below}

-- An entry holds bytes of the resource from the start of its block on, and no more than a block.
abbrev pub Faithful : {Byte : Type 0} → (ℕ → Byte) → ℕ → ℕ × Entry Byte → Type 0
Faithful resource block e =
    (e.1.data_size ≤ block)
    × ((i : ℕ) → i < e.1.data_size → e.1.bytes i ≡ resource (e.0 * block + i))

-- Every cached byte is the byte of the resource at its position.
abbrev pub Holds : {Byte : Type 0} → (ℕ → Byte) → MultiBuffer Byte → Type 0
Holds resource b = All (Faithful resource (block_size b)) b.cache

pub length-slice : {Byte : Type 0} (f : ℕ → Byte) (start n : ℕ) → length (slice f start n) ≡ n
unfolding slice
length-slice f start zero = refl
length-slice f start (suc n) = ap suc (length-slice f (suc start) n)

pub slice-append :
    {Byte : Type 0} (f : ℕ → Byte) (start n m next : ℕ)
    → start + n ≡ next
    → slice f start n ++ slice f next m ≡ slice f start (n + m)
unfolding slice
slice-append f start zero m next e = ground arith
slice-append f start (suc n) m next e =
    rw suc-add (ap (◌∷◌ (f start)) (slice-append f (suc start) n m next (omega arith)))

-- Two stores that agree on a range have the same slice there.
pub slice-agree :
    {Byte : Type 0} (f g : ℕ → Byte) (s t n : ℕ)
    → ((i : ℕ) → i < n → f (s + i) ≡ g (t + i))
    → slice f s n ≡ slice g t n
unfolding slice
slice-agree f g s t zero h = refl
slice-agree f g s t (suc n) h =
    ground (arith, h 0, slice-agree f g (suc s) (suc t) n (λ i b. ground (arith, h (suc i))))

pub at_or_below_above :
    {V : Type 0} (id : ℕ) (m : List (ℕ × V)) → From (suc id) m → at_or_below id m ≡ []
unfolding at_or_below
at_or_below_above id [] a = refl
at_or_below_above id (e ∷ m) a =
    ground
      (arith, at_or_below_above id m (From-mono {n = suc id} {p = suc e.0} m (omega arith) a.1))

-- A key that is present is found, and larger ones follow.
pub at_or_below_present :
    {V : Type 0} (id n : ℕ) (v : V) (m : List (ℕ × V))
    → From n m
    → lookup id m ≡ some v
    → (r : List (ℕ × V)) × (at_or_below id m ≡ (id, v) ∷ r) × From (suc id) r
unfolding at_or_below lookup
at_or_below_present id n v [] a h = absurd (cc)
at_or_below_present id n v ((j, w) ∷ m) a h = elim (Bool-cases (id == j)) [
  | inl e ↦ (
    m,
    ground (arith, at_or_below_above id m),
    From-mono {n = suc id} {p = suc j} m (ground arith) a.1,
  )
  | inr e ↦
      let (r, found, above) = at_or_below_present id (suc j) v m a.1 (ground arith) in
      (r, ground (arith, lookup_below id (suc j) m a.1), above)
]

above-nil :
    {V : Type 0} (id n : ℕ) (m : List (ℕ × V)) → From n m → at_or_below id m ≡ [] → From (suc id) m
unfolding at_or_below
above-nil id n [] a e = tt
above-nil id n (x ∷ m) a e = ground (arith, From-mono {n = suc id} {p = suc x.0} m)

-- Where a key is missing, the entry found has a smaller one, and those behind it larger ones.
pub at_or_below_absent :
    {V : Type 0} (id n : ℕ) (m : List (ℕ × V))
    → From n m
    → lookup id m ≡ none
    → (at_or_below id m ≡ [])
      ⊎ ((e : ℕ × V) × (r : List (ℕ × V)) × (at_or_below id m ≡ e ∷ r)
          × (e.0 < id)
          × From (suc id) r)
unfolding at_or_below lookup
at_or_below_absent id n [] a h = inl refl
at_or_below_absent id n ((j, w) ∷ m) a h = elim (Bool-cases (ltb id j)) [
  | inl small ↦ inl (
      ground
        (arith, at_or_below_above id m (From-mono {n = suc id} {p = suc j} m (ground arith) a.1)))
  | inr large ↦ elim (at_or_below_absent id (suc j) m a.1 (ground arith)) [
    | inl e ↦ inr ((j, w), m, ground arith, ground arith, above-nil id (suc j) m a.1 e)
    | inr (x, r, found, less, above) ↦ inr (x, r, rw (found, at_or_below, large), less, above)
  ]
]

pub at_or_below-All :
    {V : Type 0} (P : ℕ × V → Type 0) (id : ℕ) (m : List (ℕ × V))
    → All P m
    → All P (at_or_below id m)
unfolding at_or_below
at_or_below-All P id [] a = tt
at_or_below-All P id (e ∷ m) a = ground (arith, at_or_below-All P id m a.1)

-- The entry found starts at or before the block.
pub at_or_below-le :
    {V : Type 0} (id : ℕ) (m r : List (ℕ × V)) (e : ℕ × V) → at_or_below id m ≡ e ∷ r → e.0 ≤ id
unfolding at_or_below
at_or_below-le id [] r e h = absurd (cc)
at_or_below-le id (x ∷ m) r e h = elim (List-cases (at_or_below id m)) [
  | inl none_below ↦ ground arith
  | inr (y, q, below) ↦ ground (arith, at_or_below-le id m q y below)
]

-- The byte at a position is in the cache.
unfoldable pub is_cached : {Byte : Type 0} → MultiBuffer Byte → ℕ → Bool
is_cached b position = elim (lookup (position / block_size b) b.cache) [
  | none ↦ false
  | some e ↦ ltb (position % block_size b) e.data_size
]
