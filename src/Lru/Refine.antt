-- ===== src/Lru/Refine.antt =====
-- LRU<T> refines a list of distinct values, the most recently used one first.
use chromium_media_lib.Prelude.{
  ℕ, ◌≡◌, refl, sym, ap, inl, inr, ◌∙◌, ◌⊎◌, Bool, true, false, Option, some, none, List, [], ◌∷◌,
  ◌++◌, arith, ◌==◌, if◌then◌else◌, ◌>>=◌, Bool-cases, Option-cases, List-cases, length,
}
use chromium_media_lib.Lru.{
  Lru, empty_lru, insert, erase, use_value, pop, peek, contains, size, is_empty, split_back,
}
use chromium_media_lib.Lru.Nodes.{
  IsValid, empty_lru-IsValid, values, without, member, contains-member, size-length,
  length-values_of,
}
use chromium_media_lib.Lru.Laws.{insert_lem, erase_lem, use_value_lem, pop_lem}

-- A call of the class, and what it gives.
pub data Op : Type 0 where
  insert_call erase_call use_call contains_call : ℕ → Op
  pop_call peek_call size_call is_empty_call : Op

pub data Result : Type 0 where
  done : Result
  value : ℕ → Result
  test : Bool → Result

unfoldable pub step : Op → Lru → Option (Result × Lru)
step (insert_call v) l = insert l v >>= λ l'. some (done, l')
step (erase_call v) l = erase l v >>= λ l'. some (done, l')
step (use_call v) l = use_value l v >>= λ l'. some (done, l')
step (contains_call v) l = some (test (contains l v), l)
step pop_call l = pop l >>= λ r. some (value r.0, r.1)
step peek_call l = peek l >>= λ v. some (value v, l)
step size_call l = some (value (size l), l)
step is_empty_call l = some (test (is_empty l), l)

-- All but the last item of a list, and the last one.
unfoldable pub unsnoc : List ℕ → Option (List ℕ × ℕ)
unsnoc [] = none
unsnoc (x ∷ xs) = elim (unsnoc xs) [ none ↦ some ([], x) | some (ys, y) ↦ some (x ∷ ys, y) ]

-- The specification: the same calls on the list of the values.
unfoldable pub step_list : Op → List ℕ → Option (Result × List ℕ)
step_list (insert_call v) xs = if member v xs then none else some (done, v ∷ xs)
step_list (erase_call v) xs = if member v xs then some (done, without v xs) else none
step_list (use_call v) xs = some (done, v ∷ without v xs)
step_list (contains_call v) xs = some (test (member v xs), xs)
step_list pop_call xs = unsnoc xs >>= λ r. some (value r.1, r.0)
step_list peek_call xs = unsnoc xs >>= λ r. some (value r.1, xs)
step_list size_call xs = some (value (length xs), xs)
step_list is_empty_call xs = some (test (length xs == 0), xs)

-- The results of a sequence of calls, `none` if one of them fails.
unfoldable pub run : List Op → Lru → Option (List Result)
run [] l = some []
run (o ∷ os) l = step o l >>= λ r. run os r.1 >>= λ out. some (r.0 ∷ out)

unfoldable pub run_list : List Op → List ℕ → Option (List Result)
run_list [] xs = some []
run_list (o ∷ os) xs = step_list o xs >>= λ r. run_list os r.1 >>= λ out. some (r.0 ∷ out)

unsnoc-none : (xs : List ℕ) → unsnoc xs ≡ none → xs ≡ []
unfolding unsnoc
unsnoc-none [] e = refl
unsnoc-none (x ∷ xs) e = elim (Option-cases (unsnoc xs)) [
  | inl nothing ↦ absurd (ground arith)
  | inr (r, found) ↦ absurd (ground arith)
]

unsnoc-some : (xs ys : List ℕ) (y : ℕ) → unsnoc xs ≡ some (ys, y) → xs ≡ ys ++ y ∷ []
unfolding unsnoc
unsnoc-some [] ys y e = absurd (cc)
unsnoc-some (x ∷ xs) ys y e = elim (Option-cases (unsnoc xs)) [
  | inl nothing ↦ ground (arith, unsnoc-none xs nothing)
  | inr ((zs, z), found) ↦ ground (arith, unsnoc-some xs zs z found)
]

-- A call behaves as its specification: both fail, or both give one result.
abbrev Agrees : Op → Lru → Type 0
Agrees o l =
    ((step o l ≡ none) × (step_list o (values l) ≡ none))
    ⊎ ((a : Result) × (l' : Lru) × (step o l ≡ some (a, l'))
        × IsValid l'
        × (step_list o (values l) ≡ some (a, values l')))

pop-none : (l : Lru) → values l ≡ [] → (pop l ≡ none) × (peek l ≡ none)
unfolding pop peek split_back
pop-none l e = elim (List-cases l.nodes) [
  | inl nothing ↦ (ground arith, ground arith)
  | inr (x, xs, found) ↦ absurd (ground arith)
]

peek-pop : (l l' : Lru) (x : ℕ) → pop l ≡ some (x, l') → peek l ≡ some x
unfolding pop peek
peek-pop l l' x e = ground arith

insert_there : (l : Lru) (v : ℕ) → contains l v ≡ true → insert l v ≡ none
unfolding insert
insert_there l v e = rw e refl

erase_missing : (l : Lru) (v : ℕ) → contains l v ≡ false → erase l v ≡ none
unfolding erase contains
erase_missing l v e = ground arith

is_empty_lem : (l : Lru) → is_empty l ≡ (length (values l) == 0)
unfolding is_empty
is_empty_lem l = rw (length-values_of l.nodes) refl

step-Agrees : (o : Op) (l : Lru) → IsValid l → Agrees o l
unfolding step step_list
step-Agrees (insert_call v) l h = elim (Bool-cases (contains l v)) [
  | inl there ↦
      let known = sym (contains-member l v h) ∙ there in
      inl (rw (insert_there l v there) refl, rw known refl)
  | inr absent ↦
      let (l', ran, valid, vals, _) = insert_lem l v h absent in
      let known = sym (contains-member l v h) ∙ absent in
      inr (done, l', rw ran refl, valid, rw (known, vals) refl)
]
step-Agrees (erase_call v) l h = elim (Bool-cases (contains l v)) [
  | inl there ↦
      let (l', ran, valid, vals) = erase_lem l v h there in
      let known = sym (contains-member l v h) ∙ there in
      inr (done, l', rw ran refl, valid, rw (known, vals) refl)
  | inr absent ↦
      let known = sym (contains-member l v h) ∙ absent in
      inl (rw (erase_missing l v absent) refl, rw known refl)
]
step-Agrees (use_call v) l h =
    let (l', ran, valid, vals, _) = use_value_lem l v h in
    inr (done, l', rw ran refl, valid, ap (λ xs. some (done, xs)) (sym vals))
step-Agrees (contains_call v) l h =
    inr (test (contains l v), l, refl, h, rw (contains-member l v h) refl)
step-Agrees pop_call l h = elim (Option-cases (unsnoc (values l))) [
  | inl nothing ↦ inl (rw (pop-none l (unsnoc-none (values l) nothing)).0 refl, rw nothing refl)
  | inr ((ys, y), found) ↦
      let (l', ran, valid, vals, _) = pop_lem l ys y h (unsnoc-some (values l) ys y found) in
      inr (value y, l', rw ran refl, valid, rw (found, vals) refl)
]
step-Agrees peek_call l h = elim (Option-cases (unsnoc (values l))) [
  | inl nothing ↦ inl (rw (pop-none l (unsnoc-none (values l) nothing)).1 refl, rw nothing refl)
  | inr ((ys, y), found) ↦
      let (l', ran, _, _, _) = pop_lem l ys y h (unsnoc-some (values l) ys y found) in
      inr (value y, l, rw (peek-pop l l' y ran) refl, h, rw found refl)
]
step-Agrees size_call l h = inr (value (size l), l, refl, h, rw (size-length l h) refl)
step-Agrees is_empty_call l h = inr (test (is_empty l), l, refl, h, rw (is_empty_lem l) refl)

run-values : (os : List Op) (l : Lru) → IsValid l → run os l ≡ run_list os (values l)
unfolding run run_list
run-values [] l h = refl
run-values (o ∷ os) l h = elim (step-Agrees o l h) [
  | inl (fails, fails_too) ↦ rw (fails, fails_too) refl
  | inr (a, l', ran, valid, ran_too) ↦ rw (ran, ran_too) (rw (run-values os l' valid) refl)
]

-- No sequence of calls tells a new LRU from a list of values, in which Insert puts a value in front
-- and fails if it is there, Remove takes one out and fails if it is not there, Use moves a value to
-- the front or puts it there, Pop and Peek give the last value and fail if there is none, and
-- Contains, Size and Empty say what the list does: both give the same results, or both fail.
pub run_refines : (os : List Op) → run os empty_lru ≡ run_list os []
unfolding empty_lru
run_refines os = run-values os empty_lru empty_lru-IsValid
