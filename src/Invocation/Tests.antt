-- ===== src/Invocation/Tests.antt =====
-- Runs of the invocation's operations, and the theorems at concrete inputs.
use promptfoo_eval_harness.Prelude.{
  ◌≡◌, refl, Str, lit, List, [], ◌∷◌, some, none, if◌then◌else◌, str_eq, All,
}
use promptfoo_eval_harness.Js.{Number, nan, integer, pos, str, lookup}
use promptfoo_eval_harness.Invocation.Split.{split_command}
use promptfoo_eval_harness.Invocation.Split.RoundTrip.{
  NonEmpty, quote_line, split_command-quote_line, split_command-NonEmpty,
}
use promptfoo_eval_harness.Invocation.Major.{Options, normalize_major, override_of}

-- A reader of numbers that knows two of them.
abbrev to_number : Str → Number
to_number s =
    if str_eq s (lit "1")
    then integer (pos 1)
    else if str_eq s (lit "2")
    then integer (pos 2)
    else nan

abbrev two_words : List Str
two_words = lit "my \"runner\"" ∷ lit "a\\b" ∷ []

two_words_full : All NonEmpty two_words
unfolding lit
two_words_full = (refl, (refl, tt))

split_command-quote_line_example : split_command (quote_line two_words) ≡ some two_words
split_command-quote_line_example = split_command-quote_line two_words two_words_full

drops_empty_word : split_command (lit "opencode '' run") ≡ some (lit "opencode" ∷ lit "run" ∷ [])
unfolding split_command lit
drops_empty_word = refl

split_command-NonEmpty_example : All NonEmpty (lit "opencode" ∷ lit "run" ∷ [])
split_command-NonEmpty_example =
    split_command-NonEmpty (lit "opencode '' run") (lit "opencode" ∷ lit "run" ∷ [])
      drops_empty_word

abbrev plain_options : Options
plain_options = record { runner_command = str (lit "opencode2"); env = [] }

no_override : override_of to_number plain_options ≡ none
unfolding override_of normalize_major lookup
no_override = refl
