-- ===== src/MultiBuffer/Crowded.antt =====
-- Test data: caches with any number of empty blocks, before PurgeIfNecessary has run.
use chromium_media_lib.Prelude.{
  subst, sym, ℕ, zero, suc, ◌≡◌, refl, ◌∙◌, ap, false, some, none, List, [], ◌∷◌, arith, ltb,
}
use chromium_media_lib.Prelude.Maps.{put}
use chromium_media_lib.Lru.{Lru, empty_lru, insert, contains}
use chromium_media_lib.Lru.Nodes.{values, member, contains-member}
use chromium_media_lib.Lru.Laws.{insert_lem}
use chromium_media_lib.MultiBuffer.{MultiBuffer, new_multibuffer, new_entry}
use chromium_media_lib.MultiBuffer.Purge.{IsSound, with_blocks}
use chromium_media_lib.MultiBuffer.Touch.{inserted-IsSound}
use chromium_media_lib.MultiBuffer.Run.{new_multibuffer-IsFed}

abbrev pub no_bytes : ℕ → ℕ
no_bytes i = 0

-- Blocks 0 to n - 1, the last one used last.
pub crowd : ℕ → MultiBuffer ℕ
crowd zero = new_multibuffer 2
crowd (suc n) = elim (insert (crowd n).lru n) [
  | none ↦ crowd n
  | some l ↦ with_blocks (crowd n) (put n (new_entry no_bytes) (crowd n).cache) l
]

-- The numbers below n, the largest one first.
unfoldable pub down : ℕ → List ℕ
down zero = []
down (suc n) = n ∷ down n

member-down : (v n : ℕ) → member v (down n) ≡ ltb v n
unfolding member down
member-down v zero = ground arith
member-down v (suc n) = ground (arith, member-down v n)

crowd_step :
    (n : ℕ) (l : Lru)
    → insert (crowd n).lru n ≡ some l
    → crowd (suc n) ≡ with_blocks (crowd n) (put n (new_entry no_bytes) (crowd n).cache) l
unfolding crowd put
crowd_step n l e = rw (crowd, e) refl

pub crowd_lem : (n : ℕ) → IsSound (crowd n) × (values (crowd n).lru ≡ down n)
unfolding crowd down empty_lru new_multibuffer
crowd_lem zero = ((new_multibuffer-IsFed no_bytes 2).sound, refl)
crowd_lem (suc n) =
    let (sound, vs) = crowd_lem n in
    let absent : contains (crowd n).lru n ≡ false =
      contains-member (crowd n).lru n sound.valid
      ∙ ap (member n) vs
      ∙ member-down n n
      ∙ ground arith in
    let (l, inserted, valid, front, gains) = insert_lem (crowd n).lru n sound.valid absent in
    subst (λ b. IsSound b × (values b.lru ≡ down (suc n))) (sym (crowd_step n l inserted))
      (inserted-IsSound no_bytes n (crowd n) l sound valid gains, front ∙ ap (◌∷◌ n) vs)
