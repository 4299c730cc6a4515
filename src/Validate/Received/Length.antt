-- ===== src/Validate/Received/Length.antt =====
-- How much of a text an error gives away.
use promptfoo_eval_harness.Prelude.{ℕ, ◌≤◌, ◌<◌, ◌≡◌, true, ◌++◌, Str, lit, length, all}
use promptfoo_eval_harness.Validate.Received.{Rules, is_token_char}

-- The text begins with letters, digits, `_` and `-`, at least so many.
abbrev BeginsRun : ℕ → Str → Type 0
BeginsRun least s =
    (run : Str) × (rest : Str) × (s ≡ run ++ rest)
    × (all is_token_char run ≡ true)
    × (least ≤ length run)

-- There are 20 letters, digits, `_` and `-` or more in a row.
abbrev pub HasRun : Str → Type 0
HasRun s =
    (before : Str) × (run : Str) × (after : Str) × (s ≡ before ++ (run ++ after))
    × (all is_token_char run ≡ true)
    × (20 ≤ length run)

abbrev pub IsSecret : Str → Type 0
IsSecret s = HasRun s × (30 < length s)

-- What is said of a text: nothing of one that looks like a secret, all of another one of at most 64
-- units, and the first 61 units, with dots behind them, of another one that is longer.
pub data Tells (rules : Rules) (s : Str) : Str → Type 0 where
  nothing : IsSecret s → Tells rules s (lit "[REDACTED]")
  everything : ¬ IsSecret s → length s ≤ 64 → Tells rules s (rules.quote s)
  beginning :
      (start rest : Str)
      → ¬ IsSecret s
      → 64 < length s
      → s ≡ start ++ rest
      → length start ≡ 61
      → Tells rules s (rules.quote (start ++ lit "..."))
