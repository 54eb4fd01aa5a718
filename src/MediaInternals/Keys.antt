-- ===== src/MediaInternals/Keys.antt =====
-- The keys that audio logs give to their updates.
use Prim.Native.Char.{Char}
use Prim.Native.String.{String, ◌++◌}
use text.Mathlib.TextLemmas.{nil-append, cons-append, head-eq_of_cons-eq, tail-eq_of_cons-eq}
use chromium_media_lib.Prelude.{
  ℕ, ◌+◌, ◌<◌, ◌==◌, if◌then◌else◌, ◌≡◌, ◌≢◌, refl, ◌∙◌, sym, subst, arith, some, List, [], ◌∷◌,
  ◌++◌ as append, All,
}
use chromium_media_lib.MediaInternals.{
  MediaInternals, AudioLog, Value, UpdateType, new_internals, create_audio_log, update_audio_log,
  format_cache_key,
}

-- A text without a colon.
abbrev pub NoColon : String → Type 0
NoColon String.[] = Unit
NoColon (String.◌∷◌ c s) = (◌≢◌ {A = Char} c ":") × NoColon s

-- A text up to its first colon, and what follows.
split_colon :
    (s t u v : String)
    → NoColon s
    → NoColon t
    → s ++ String.◌∷◌ ":" u ≡ t ++ String.◌∷◌ ":" v
    → (s ≡ t) × (u ≡ v)
split_colon String.[] String.[] u v a b e =
    let both = sym (nil-append _) ∙ e ∙ nil-append (String.◌∷◌ ":" v) in
    (refl, tail-eq_of_cons-eq both)
split_colon String.[] (String.◌∷◌ d t) u v a b e =
    let both = sym (nil-append _) ∙ e ∙ cons-append d t _ in
    absurd (b.0 (sym (head-eq_of_cons-eq both)))
split_colon (String.◌∷◌ c s) String.[] u v a b e =
    let both = sym (cons-append c s _) ∙ e ∙ nil-append (String.◌∷◌ ":" v) in
    absurd (a.0 (head-eq_of_cons-eq both))
split_colon (String.◌∷◌ c s) (String.◌∷◌ d t) u v a b e =
    let both = sym (cons-append c s _) ∙ e ∙ cons-append d t _ in
    let (front, back) = split_colon s t u v a.1 b.1 (tail-eq_of_cons-eq both) in
    let first = head-eq_of_cons-eq both in (cc, back)

-- No two logs of a list are equal.
abbrev Distinct : List AudioLog → Type 0
Distinct [] = Unit
Distinct (log ∷ logs) = All (λ l. l ≢ log) logs × Distinct logs

module _ {Real : Type 0} (component_max : ℕ) where
  -- The states that a new MediaInternals comes to, with the logs that it created, the last one first.
  pub data Reachable : MediaInternals Real → List AudioLog → Type 0 where
    at_first : Reachable new_internals []
    created :
        (m n : MediaInternals Real) (component : ℕ) (log : AudioLog) (logs : List AudioLog)
        → Reachable m logs
        → create_audio_log component_max component m ≡ some (log, n)
        → Reachable n (log ∷ logs)
    updated :
        (m : MediaInternals Real) (logs : List AudioLog) (update_type : UpdateType)
        (cache_key function : String) (value : List (String × Value Real))
        → Reachable m logs
        → Reachable (update_audio_log update_type cache_key function value m) logs

  abbrev Below : MediaInternals Real → List AudioLog → Type 0
  Below m logs = All (λ l. l.owner_id < m.owner_ids l.component) logs

  create_audio_log-gives :
      (m n : MediaInternals Real) (component : ℕ) (log : AudioLog)
      → create_audio_log component_max component m ≡ some (log, n)
      → (log ≡ record { owner_id = m.owner_ids component; component = component })
        × (n.owner_ids ≡ (λ c. if c == component then m.owner_ids component + 1 else m.owner_ids c))
  unfolding create_audio_log
  create_audio_log-gives m n component log e = ground arith

  Below-create_audio_log :
      (m n : MediaInternals Real) (component : ℕ) (log : AudioLog) (logs : List AudioLog)
      → create_audio_log component_max component m ≡ some (log, n)
      → Below m logs
      → Below n (log ∷ logs) × All (λ l. l ≢ log) logs
  Below-create_audio_log m n component log [] e below =
      let (same, ids) = create_audio_log-gives m n component log e in
      ((rw (ids, same) (ground arith), tt), tt)
  Below-create_audio_log m n component log (l ∷ logs) e below =
      let (same, ids) = create_audio_log-gives m n component log e in
      let (bounds, others) = Below-create_audio_log m n component log logs e below.1 in
      (
        (bounds.0, (rw ids (ground arith), bounds.1)),
        (
          λ again.
              let reused : m.owner_ids component < m.owner_ids component =
                subst (λ x. x.owner_id < m.owner_ids x.component) (again ∙ same) below.0 in
              absurd (omega arith),
          others,
        ),
      )

  Reachable-Distinct :
      (m : MediaInternals Real) (logs : List AudioLog)
      → Reachable m logs
      → Below m logs × Distinct logs
  unfolding update_audio_log
  Reachable-Distinct _ _ at_first = (tt, tt)
  Reachable-Distinct _ _ (created m n component log logs r e) =
      let (below, distinct) = Reachable-Distinct m logs r in
      let (below', others) = Below-create_audio_log m n component log logs e below in
      (below', (others, distinct))
  Reachable-Distinct _ _ (updated m logs _ _ _ _ r) = Reachable-Distinct m logs r

All-middle :
    (P : AudioLog → Type 0) (before : List AudioLog) (a : AudioLog) (after : List AudioLog)
    → All P (append before (a ∷ after))
    → P a
All-middle P [] a after h = h.0
All-middle P (x ∷ before) a after h = All-middle P before a after h.1

Distinct-ne :
    (before : List AudioLog) (a : AudioLog) (between : List AudioLog) (b : AudioLog)
    (after : List AudioLog)
    → Distinct (append before (a ∷ append between (b ∷ after)))
    → b ≢ a
Distinct-ne [] a between b after h = All-middle (λ l. l ≢ a) between b after h.0
Distinct-ne (x ∷ before) a between b after h = Distinct-ne before a between b after h.1

module _ (int_to_string : ℕ → String)
    (prints_apart : (i j : ℕ) → int_to_string i ≡ int_to_string j → i ≡ j)
    (prints_digits : (i : ℕ) → NoColon (int_to_string i)) where
  format_cache_key_inj :
      (a b : AudioLog) (i j : ℕ)
      → format_cache_key int_to_string a i ≡ format_cache_key int_to_string b j
      → (a ≡ b) × (i ≡ j)
  unfolding format_cache_key
  format_cache_key_inj a b i j e =
      let (owner, rest) =
        split_colon _ _ _ _ (prints_digits a.owner_id) (prints_digits b.owner_id) e in
      let (component, id) =
        split_colon _ _ _ _ (prints_digits a.component) (prints_digits b.component) rest in
      let same_owner = prints_apart a.owner_id b.owner_id owner in
      let same_component = prints_apart a.component b.component component in
      (ground arith, prints_apart i j id)

  module _ {Real : Type 0} (component_max : ℕ) (m : MediaInternals Real) (a b : AudioLog)
      (before between after : List AudioLog) (i j : ℕ)
      (r : Reachable component_max m (append before (a ∷ append between (b ∷ after)))) where
    -- If a printed number tells the number and has no colon: no two of the logs that a new
    -- MediaInternals creates, whatever updates they send, give the same cache key to two of their
    -- streams.
    pub Reachable-format_cache_key :
        format_cache_key int_to_string a i ≢ format_cache_key int_to_string b j
    Reachable-format_cache_key e =
        let (same, _) = format_cache_key_inj a b i j e in
        let (_, distinct) = Reachable-Distinct component_max m _ r in
        Distinct-ne before a between b after distinct (sym same)
