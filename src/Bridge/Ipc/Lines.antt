-- ===== src/Bridge/Ipc/Lines.antt =====
-- Where the reader of chunks agrees with a reader of lines, and where it does not.
use promptfoo_eval_harness.Prelude.{
  ◌≡◌, refl, Bool, true, false, not, none, some, List, [], ◌∷◌, ◌++◌, arith, Str, ◌==◌, all,
  is_blank,
}
use promptfoo_eval_harness.Js.{Value}
use promptfoo_eval_harness.Bridge.Runtime.{Runtime}
use promptfoo_eval_harness.Bridge.Ipc.{
  Event, chunk, received, rejected, malformed, first_line, parse_line, settle,
}

abbrev pub one_line : Str → Bool
one_line = all (λ c. not (c == 10))

first_line-line : (line rest : Str) → one_line line ≡ true → first_line (line ++ (10 ∷ rest)) ≡ line
unfolding first_line
first_line-line [] rest h = refl
first_line-line (c ∷ line) rest h = ground (arith, first_line-line line rest)

first_line-part : (part : Str) → one_line part ≡ true → first_line part ≡ part
unfolding first_line
first_line-part [] h = refl
first_line-part (c ∷ part) h = ground (arith, first_line-part part)

module _ (rt : Runtime) (timeout : Value) where
  -- A reply that arrives as one chunk with its line break, not blank and valid JSON, is received as
  -- that JSON, whatever comes behind it in the chunk and after the chunk.
  pub settle-line :
      (line rest : Str) (events : List Event) (v : Value)
      → one_line line ≡ true
      → is_blank line ≡ false
      → rt.json_parse line ≡ some v
      → settle rt timeout (chunk (line ++ (10 ∷ rest)) ∷ events) ≡ some (received v)
  unfolding settle
  settle-line line rest events v h k e = rw (first_line-line line rest h, k, e, parse_line)

  -- A line that arrives in two chunks is not put together: where its first part has no line break,
  -- is not blank and is no JSON by itself, the call fails with a malformed reply, whatever the rest
  -- of the line is.
  pub settle-split :
      (part rest : Str) (events : List Event)
      → one_line part ≡ true
      → is_blank part ≡ false
      → rt.json_parse part ≡ none
      → settle rt timeout (chunk part ∷ chunk rest ∷ events) ≡ some (rejected (malformed part))
  unfolding settle
  settle-split part rest events h k e =
      rw (first_line-part part h, k, e, parse_line, first_line-part part h)
