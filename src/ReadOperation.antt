-- ===== src/ReadOperation.antt =====
-- read_operation.h and read_operation.cc: one read that a demuxer has asked for, and the callback
-- that it is answered by. Narrowing of the 64-bit position to an `int` is here too.
use chromium_media_lib.Prelude.{ℕ, ◌+◌, ◌-◌, ◌%◌, ◌^◌, ◌<◌, ◌≡◌, List, ltb, if◌then◌else◌, arith}
use chromium_media_lib.Prelude.Int.{ℤ, pos, negsuc}

-- `callback` says which callback it is.
pub record ReadOperation : Type 0 where
  pub position : ℤ
  pub size : ℕ
  pub callback : ℕ

-- A callback that was run: the result, and the bytes that stand in the caller's buffer.
pub record Answer (Byte : Type 0) : Type 0 where
  pub callback : ℕ
  pub result : ℤ
  pub bytes : List Byte

-- `DataSource::kReadError`
abbrev pub read_error : ℤ
read_error = negsuc 0

-- ReadOperation::Run
unfoldable pub run : {Byte : Type 0} → ReadOperation → ℤ → List Byte → Answer Byte
run op result bytes = record { callback = op.callback; result = result; bytes = bytes }

abbrev int_mod : ℕ
int_mod = 2 ^ 32

abbrev int_limit : ℕ
int_limit = 2 ^ 31

-- The conversion of an int64_t argument to an `int` parameter.
unfoldable pub to_int : ℤ → ℤ
to_int (pos n) =
    if ltb (n % int_mod) int_limit then pos (n % int_mod) else negsuc (int_mod - n % int_mod - 1)
to_int (negsuc n) =
    if ltb (n % int_mod) int_limit then negsuc (n % int_mod) else pos (int_mod - n % int_mod - 1)

pub to_int-pos : (n : ℕ) → n < 2 ^ 31 → to_int (pos n) ≡ pos n
unfolding to_int
to_int-pos n h = ground arith

-- The conversion forgets multiples of 2^32.
pub to_int-wraps : (n : ℕ) → n < 2 ^ 31 → to_int (pos (n + 2 ^ 32)) ≡ pos n
unfolding to_int
to_int-wraps n h = ground arith
