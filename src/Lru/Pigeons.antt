-- ===== src/Lru/Pigeons.antt =====
-- A list of distinct numbers from a short range is short.
use chromium_media_lib.Prelude.{
  ℕ, zero, suc, ◌+◌, ◌≤◌, ◌<◌, ◌≡◌, ◌≢◌, refl, true, false, inl, inr, ◌⊎◌, List, [], ◌∷◌, ◌++◌,
  length, All, ◌==◌, if◌then◌else◌, arith,
}
use chromium_media_lib.Lru.Nodes.{member, without}
use chromium_media_lib.Lru.Laws.{Distinct}

member-without :
    (v w : ℕ) (xs : List ℕ)
    → Distinct xs
    → member w (without v xs) ≡ (if w == v then false else member w xs)
unfolding member without
member-without v w [] d = ground arith
member-without v w (x ∷ xs) d = ground (arith, member-without v w xs d.1)

without-Distinct : (v : ℕ) (xs : List ℕ) → Distinct xs → Distinct (without v xs)
unfolding member without
without-Distinct v [] d = tt
without-Distinct v (x ∷ xs) d = ground (arith, without-Distinct v xs d.1, member-without v x xs d.1)

length-without : (v : ℕ) (xs : List ℕ) → length xs ≤ suc (length (without v xs))
unfolding without
length-without v [] = omega arith
length-without v (x ∷ xs) = ground (arith, length-without v xs)

abbrev pub InRange : ℕ → ℕ → ℕ → Type 0
InRange low n x = (low ≤ x) × (x < low + n)

absent-InRange :
    (low n : ℕ) (xs : List ℕ)
    → member (low + n) xs ≡ false
    → All (InRange low (suc n)) xs
    → All (InRange low n) xs
unfolding member
absent-InRange low n [] m a = tt
absent-InRange low n (x ∷ xs) m a = ground (arith, absent-InRange low n xs)

without-InRange :
    (low n : ℕ) (xs : List ℕ)
    → Distinct xs
    → All (InRange low (suc n)) xs
    → All (InRange low n) (without (low + n) xs)
unfolding without
without-InRange low n [] d a = tt
without-InRange low n (x ∷ xs) d a =
    ground (arith, absent-InRange low n xs, without-InRange low n xs d.1 a.1)

pub length-le-range :
    (n low : ℕ) (xs : List ℕ) → Distinct xs → All (InRange low n) xs → length xs ≤ n
length-le-range zero low [] d a = omega arith
length-le-range zero low (x ∷ xs) d a = absurd (omega arith)
length-le-range (suc n) low xs d a =
    let top = low + n in
    omega (
      arith,
      length-without top xs,
      length-le-range n low (without top xs) (without-Distinct top xs d)
          (without-InRange low n xs d a),
    )

member-append_left : (v : ℕ) (xs ys : List ℕ) → member v (xs ++ ys) ≡ false → member v xs ≡ false
unfolding member
member-append_left v [] ys h = refl
member-append_left v (x ∷ xs) ys h = ground (arith, member-append_left v xs ys)

-- The last of a list is in it.
pub member-last : (v : ℕ) (xs : List ℕ) → member v (xs ++ v ∷ []) ≡ true
unfolding member
member-last v [] = ground arith
member-last v (x ∷ xs) = ground (arith, member-last v xs)

-- What stands in the middle of a list of distinct values is not its last.
pub middle-ne-last : (x y : ℕ) (xs ys : List ℕ) → Distinct (xs ++ x ∷ (ys ++ y ∷ [])) → x ≢ y
unfolding member
middle-ne-last x y [] ys d = λ e. ground (arith, member-last y ys)
middle-ne-last x y (z ∷ xs) ys d = middle-ne-last x y xs ys d.1

-- A list is empty or has a last element.
pub snoc-cases : (xs : List ℕ) → (xs ≡ []) ⊎ ((ys : List ℕ) × (y : ℕ) × (xs ≡ ys ++ y ∷ []))
snoc-cases [] = inl refl
snoc-cases (x ∷ xs) = elim (snoc-cases xs) [
  | inl e ↦ inr ([], x, ground arith)
  | inr (ys, y, e) ↦ inr (x ∷ ys, y, ground arith)
]

pub append-Distinct : (xs ys : List ℕ) → Distinct (xs ++ ys) → Distinct xs
append-Distinct [] ys d = tt
append-Distinct (x ∷ xs) ys d = (member-append_left x xs ys d.0, append-Distinct xs ys d.1)
