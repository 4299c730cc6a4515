-- ===== src/Invocation/Split.antt =====
-- `splitCommand`: a runner command line into words, with single and double quotes.
pub mod RoundTrip
use promptfoo_eval_harness.Prelude.{
  ℕ, Option, none, some, List, [], ◌∷◌, ◌++◌, Str, ◌==◌, ◌||◌, ◌&&◌, if◌then◌else◌, is_space,
}

-- `if (current) tokens.push(current);`
abbrev pub flush : List Str → Str → List Str
flush tokens [] = tokens
flush tokens (c ∷ current) = tokens ++ (c ∷ current) ∷ []

-- The loop over the characters left, with the open quote, `current` and `tokens`. `none` is the
-- throw on an unclosed quote.
unfoldable pub scan : Option ℕ → Str → List Str → Str → Option (List Str)
scan none current tokens [] = some (flush tokens current)
scan (some quote) current tokens [] = none
scan (some quote) current tokens (char ∷ []) =
    let closed = scan none current tokens [] in if char == quote then closed else none
scan (some quote) current tokens (char ∷ next ∷ rest) =
    let closed = scan none current tokens (next ∷ rest) in
    let escaped = scan (some quote) (current ++ next ∷ []) tokens rest in
    let plain = scan (some quote) (current ++ char ∷ []) tokens (next ∷ rest) in
    if char == quote then closed else if char == 92 && quote == 34 then escaped else plain
scan none current tokens (char ∷ rest) =
    let opened = scan (some char) current tokens rest in
    let broken = scan none [] (flush tokens current) rest in
    let plain = scan none (current ++ char ∷ []) tokens rest in
    if char == 34 || char == 39 then opened else if is_space char then broken else plain

unfoldable pub split_command : Str → Option (List Str)
unfolding scan is_space
split_command command = scan none [] [] command
