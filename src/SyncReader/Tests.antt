-- ===== src/SyncReader/Tests.antt =====
-- Examples: a reader that asked for its first buffer, and a renderer that is one value behind.
use chromium_media_lib.Prelude.{ℕ, ◌+◌, ◌≡◌, refl, arith, ◌↔◌, true, false, some, List, [], ◌∷◌}
use chromium_media_lib.SyncReader.{
  SyncReader, Receive, new_reader, request_more_data, read, wait_until_data_is_ready, wait_loop,
}
use chromium_media_lib.SyncReader.Waiting.{
  Arrives, at_first, after, requested, Counted, wait_until_data_is_ready-Arrives, Reachable-Counted,
  read-Arrives, read_late,
}

abbrev silence : List ℕ
silence = 0 ∷ 0 ∷ []

abbrev asked : SyncReader ℕ
asked = request_more_data silence false 50 60 0 (new_reader silence)

abbrev socket : List Receive
socket = (some 0, 15000) ∷ (some 1, 9000) ∷ []

wait_until_data_is_ready-Arrives_example :
    (wait_until_data_is_ready socket asked ≡ true)
    ↔ Arrives asked.buffer_index asked.maximum_wait_time socket
wait_until_data_is_ready-Arrives_example = wait_until_data_is_ready-Arrives socket asked

Reachable-Counted_example : Counted asked
Reachable-Counted_example = Reachable-Counted asked (
    after (new_reader silence) asked (at_first silence)
      (requested (new_reader silence) silence false 50 60 0))

read-Arrives_example :
    ((read silence socket asked).0 ≡ asked.buffer.audio)
    × ((read silence socket asked).1.trailing_renderer_missed_callback_count ≡ 0)
    × ((read silence socket asked).1.renderer_missed_callback_count
        ≡ asked.renderer_missed_callback_count)
unfolding wait_until_data_is_ready wait_loop request_more_data new_reader
read-Arrives_example =
    read-Arrives silence socket asked ((wait_until_data_is_ready-Arrives socket asked).0 refl)

nothing-Arrives : ¬ Arrives asked.buffer_index asked.maximum_wait_time []
unfolding wait_until_data_is_ready wait_loop
nothing-Arrives a =
    let ready = (wait_until_data_is_ready-Arrives [] asked).1 a in absurd (ground (arith, ready))

read_late_example :
    ((read silence [] asked).0 ≡ silence)
    × ((read silence [] asked).1.renderer_missed_callback_count
        ≡ asked.renderer_missed_callback_count + 1)
    × ((read silence [] asked).1.trailing_renderer_missed_callback_count
        ≡ asked.trailing_renderer_missed_callback_count + 1)
read_late_example = read_late silence [] asked nothing-Arrives
