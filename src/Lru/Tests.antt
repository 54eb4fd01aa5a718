-- ===== src/Lru/Tests.antt =====
-- Examples: calls on a new queue of block ids.
use chromium_media_lib.Prelude.{◌≡◌, refl, List, true, some, none, [], ◌∷◌}
use chromium_media_lib.Lru.{empty_lru}
use chromium_media_lib.Lru.Refine.{
  Op, insert_call, use_call, pop_call, size_call, erase_call, contains_call, value, test, done, run,
  run_list, step_list, unsnoc, run_refines,
}
use chromium_media_lib.Lru.Nodes.{member, without}

abbrev calls : List Op
calls = insert_call 7 ∷ insert_call 8 ∷ use_call 7 ∷ contains_call 8 ∷ pop_call ∷ size_call ∷ []

run_refines_example : run calls empty_lru ≡ run_list calls []
run_refines_example = run_refines calls

-- The id 7 was used again, so 8 is popped.
run_list-calls : run_list calls [] ≡ some (done ∷ done ∷ done ∷ test true ∷ value 8 ∷ value 1 ∷ [])
unfolding run_list step_list unsnoc member without
run_list-calls = refl

-- A value that is not there cannot be removed.
run_list-missing : run_list (insert_call 7 ∷ erase_call 8 ∷ []) [] ≡ none
unfolding run_list step_list member without
run_list-missing = refl
