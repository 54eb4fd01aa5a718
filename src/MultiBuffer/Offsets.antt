-- ===== src/MultiBuffer/Offsets.antt =====
-- Positions as a block and an offset in it.
use chromium_media_lib.Prelude.{ℕ, ◌+◌, ◌/◌, ◌%◌, ◌<◌, ◌≡◌, arith}

module _ (block p n : ℕ) (pos : 0 < block) where
  pub within_block :
      p % block + n < block → ((p + n) / block ≡ p / block) × ((p + n) % block ≡ p % block + n)
  within_block h = grind arith

  pub next_block : p % block + n ≡ block → ((p + n) / block ≡ p / block + 1) × ((p + n) % block ≡ 0)
  next_block h = grind arith
