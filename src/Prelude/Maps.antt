-- ===== src/Prelude/Maps.antt =====
-- Finite maps keyed by numbers, as association lists in ascending order of the keys: the model of
-- the standard library's ordered maps and of its hash maps (whose order the program never reads).
use Prim.Native.Nat.{ℕ, suc, ◌≤◌, ◌<◌}
use mathlib.Core.List.{List, [], ◌∷◌}
use mathlib.Core.Option
use mathlib.Core.Option.{Option, none, some}
use mathlib.Core.Path.{◌≡◌, refl}
use native.Mathlib.Omega.{arith}
use chromium_media_lib.Prelude.Tests.{ltb, ◌==◌, is_some, if◌then◌else◌}
use chromium_media_lib.Prelude.Lists.{length, All}

-- The keys ascend, and none is below the bound.
abbrev pub From {ℓ} : {V : Type ℓ} → ℕ → List (ℕ × V) → Type 0
From n [] = Unit
From n (e ∷ m) = (n ≤ e.0) × From (suc e.0) m

module _ {ℓ} {V : Type ℓ} where
  unfoldable pub lookup : ℕ → List (ℕ × V) → Option V
  lookup k [] = none
  lookup k ((j, w) ∷ m) = if k == j then some w else lookup k m

  -- `m[k] = v`.
  unfoldable pub put : ℕ → V → List (ℕ × V) → List (ℕ × V)
  put k v [] = (k, v) ∷ []
  put k v ((j, w) ∷ m) =
      if ltb k j then (k, v) ∷ (j, w) ∷ m else if k == j then (k, v) ∷ m else (j, w) ∷ put k v m

  -- `m.erase(k)`.
  unfoldable pub remove : ℕ → List (ℕ × V) → List (ℕ × V)
  remove k [] = []
  remove k ((j, w) ∷ m) = if k == j then m else (j, w) ∷ remove k m

  -- A write through a pointer to the value of a key that is present.
  unfoldable pub modify : ℕ → (V → V) → List (ℕ × V) → List (ℕ × V)
  modify k f [] = []
  modify k f ((j, w) ∷ m) = if k == j then (j, f w) ∷ m else (j, w) ∷ modify k f m

  pub From-mono : {n p : ℕ} (m : List (ℕ × V)) → n ≤ p → From p m → From n m
  From-mono [] h a = tt
  From-mono (e ∷ m) h a = (omega arith, a.1)

  pub lookup_below : (k n : ℕ) (m : List (ℕ × V)) → From n m → k < n → lookup k m ≡ none
  unfolding lookup
  lookup_below k n [] a h = refl
  lookup_below k n ((j, w) ∷ m) a h = ground (arith, lookup_below k (suc j) m a.1)

  pub lookup-put :
      (k : ℕ) (v : V) (j : ℕ) (m : List (ℕ × V))
      → lookup j (put k v m) ≡ (if j == k then some v else lookup j m)
  unfolding lookup put
  lookup-put k v j [] = refl
  lookup-put k v j ((i, w) ∷ m) = ground (arith, lookup-put k v j m)

  pub lookup-remove :
      (k j n : ℕ) (m : List (ℕ × V))
      → From n m
      → lookup j (remove k m) ≡ (if j == k then none else lookup j m)
  unfolding lookup remove
  lookup-remove k j n [] a = ground arith
  lookup-remove k j n ((i, w) ∷ m) a =
      ground (arith, lookup-remove k j (suc i) m a.1, lookup_below k (suc i) m a.1)

  pub lookup-modify :
      (k : ℕ) (f : V → V) (j : ℕ) (m : List (ℕ × V))
      → lookup j (modify k f m) ≡ (if j == k then Option.map f (lookup j m) else lookup j m)
  unfolding lookup modify
  lookup-modify k f j [] = ground arith
  lookup-modify k f j ((i, w) ∷ m) = ground (arith, lookup-modify k f j m)

  pub is_some-lookup-modify :
      (k : ℕ) (f : V → V) (j : ℕ) (m : List (ℕ × V))
      → is_some (lookup j (modify k f m)) ≡ is_some (lookup j m)
  unfolding lookup modify
  is_some-lookup-modify k f j [] = refl
  is_some-lookup-modify k f j ((i, w) ∷ m) = ground (arith, is_some-lookup-modify k f j m)

  pub put-From : (k : ℕ) (v : V) (n : ℕ) (m : List (ℕ × V)) → From n m → n ≤ k → From n (put k v m)
  unfolding put
  put-From k v n [] a h = (h, tt)
  put-From k v n ((j, w) ∷ m) a h = ground (arith, put-From k v (suc j) m a.1)

  pub remove-From : (k n : ℕ) (m : List (ℕ × V)) → From n m → From n (remove k m)
  unfolding remove
  remove-From k n [] a = tt
  remove-From k n ((j, w) ∷ m) a =
      ground (arith, remove-From k (suc j) m a.1, From-mono {n = n} {p = suc j} m)

  pub modify-From :
      (k : ℕ) (f : V → V) (n : ℕ) (m : List (ℕ × V)) → From n m → From n (modify k f m)
  unfolding modify
  modify-From k f n [] a = tt
  modify-From k f n ((j, w) ∷ m) a = ground (arith, modify-From k f (suc j) m a.1)

  pub length-put :
      (k : ℕ) (v : V) (m : List (ℕ × V)) → lookup k m ≡ none → length (put k v m) ≡ suc (length m)
  unfolding lookup put
  length-put k v [] h = refl
  length-put k v ((j, w) ∷ m) h = ground (arith, length-put k v m)

  pub length-remove :
      (k : ℕ) (v : V) (m : List (ℕ × V))
      → lookup k m ≡ some v
      → suc (length (remove k m)) ≡ length m
  unfolding lookup remove
  length-remove k v [] h = cc
  length-remove k v ((j, w) ∷ m) h = ground (arith, length-remove k v m)

module _ {ℓ κ} {V : Type ℓ} (P : ℕ × V → Type κ) where
  pub All-put : (k : ℕ) (v : V) (m : List (ℕ × V)) → P (k, v) → All P m → All P (put k v m)
  unfolding put
  All-put k v [] h a = (h, tt)
  All-put k v ((j, w) ∷ m) h a = ground (arith, All-put k v m h a.1)

  pub All-remove : (k : ℕ) (m : List (ℕ × V)) → All P m → All P (remove k m)
  unfolding remove
  All-remove k [] a = tt
  All-remove k ((j, w) ∷ m) a = ground (arith, All-remove k m a.1)

  -- Where the key is present once, only its value has to be looked at.
  pub All-modify :
      (k : ℕ) (f : V → V) (m : List (ℕ × V))
      → ((v : V) → lookup k m ≡ some v → P (k, v) → P (k, f v))
      → All P m
      → All P (modify k f m)
  unfolding modify lookup
  All-modify k f [] h a = tt
  All-modify k f ((j, w) ∷ m) h a = ground (arith, h w, All-modify k f m)

  pub All-lookup : (k : ℕ) (v : V) (m : List (ℕ × V)) → All P m → lookup k m ≡ some v → P (k, v)
  unfolding lookup
  All-lookup k v [] a h = absurd (cc)
  All-lookup k v ((j, w) ∷ m) a h = ground (arith, All-lookup k v m a.1)

  -- A property of every entry that can be looked up holds of all the entries.
  pub All-of_lookup :
      (n : ℕ) (m : List (ℕ × V))
      → From n m
      → ((k : ℕ) (v : V) → lookup k m ≡ some v → P (k, v))
      → All P m
  unfolding lookup
  All-of_lookup n [] a h = tt
  All-of_lookup n ((j, w) ∷ m) a h = (
    h j w (ground arith),
    All-of_lookup (suc j) m a.1 (λ k v e. h k v (ground (arith, lookup_below k (suc j) m a.1))),
  )
