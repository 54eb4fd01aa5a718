-- ===== src/MediaInternals/Tests.antt =====
-- Examples: numbers printed as tallies, and two logs of one component.
use Prim.Native.Char.{Char, code}
use Prim.Native.String.{String}
use text.Mathlib.TextLemmas.{nil≢cons, cons≢nil, tail-eq_of_cons-eq}
use chromium_media_lib.Prelude.{
  ℕ, zero, suc, ◌==◌, if◌then◌else◌, ◌≡◌, ◌≢◌, refl, ap, arith, [], ◌∷◌,
}
use chromium_media_lib.MediaInternals.{
  MediaInternals, AudioLog, new_internals, create_audio_log, format_cache_key, effects_to_string,
  effect_names,
}
use chromium_media_lib.MediaInternals.Keys.{
  NoColon, Reachable, at_first, created, Reachable-format_cache_key,
}

tally : ℕ → String
tally zero = String.[]
tally (suc n) = String.◌∷◌ "1" (tally n)

tally_inj : (i j : ℕ) → tally i ≡ tally j → i ≡ j
unfolding tally
tally_inj zero zero e = refl
tally_inj zero (suc j) e = absurd (nil≢cons e)
tally_inj (suc i) zero e = absurd (cons≢nil e)
tally_inj (suc i) (suc j) e = ap suc (tally_inj i j (tail-eq_of_cons-eq e))

one_not_colon : ◌≢◌ {A = Char} "1" ":"
one_not_colon e = let same : code "1" ≡ code ":" = ap code e in absurd (omega arith)

tally-NoColon : (i : ℕ) → NoColon (tally i)
unfolding tally
tally-NoColon zero = tt
tally-NoColon (suc i) = (one_not_colon, tally-NoColon i)

abbrev first_log : AudioLog
first_log = record { owner_id = 0; component = 1 }

abbrev second_log : AudioLog
second_log = record { owner_id = 1; component = 1 }

abbrev one_log : MediaInternals ℕ
one_log = record { owner_ids = λ c. if c == 1 then 1 else 0; updates = [] }

abbrev two_logs : MediaInternals ℕ
two_logs = record { owner_ids = λ c. if c == 1 then 2 else if c == 1 then 1 else 0; updates = [] }

two_logs-Reachable : Reachable 3 two_logs (second_log ∷ first_log ∷ [])
unfolding create_audio_log new_internals
two_logs-Reachable =
    created one_log two_logs 1 second_log (first_log ∷ [])
      (created new_internals one_log 1 first_log [] at_first refl) refl

Reachable-format_cache_key_example :
    format_cache_key tally second_log 7 ≢ format_cache_key tally first_log 7
Reachable-format_cache_key_example =
    Reachable-format_cache_key tally tally_inj tally-NoColon 3 two_logs second_log first_log [] []
      [] 7 7 two_logs-Reachable

-- Two flags by name, and what is left as a number.
some_effects :
    effects_to_string tally (effect_names 1 2 4 8) 19
    ≡ "ECHO_CANCELLER | DUCKING | 1111111111111111"
unfolding effects_to_string tally
some_effects = refl

no_effects : effects_to_string tally (effect_names 1 2 4 8) 0 ≡ "NO_EFFECTS"
unfolding effects_to_string
no_effects = refl
