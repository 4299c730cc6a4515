-- ===== src/OpenCodeCli/Tests.antt =====
-- Calls of the provider, and the theorems at concrete inputs.
use promptfoo_eval_harness.Prelude.{
  ℕ, zero, suc, ◌≡◌, refl, ap, false, List, [], ◌∷◌, some, Str, lit, str_eq, trim, trim_start,
  is_space, Result, ok, err,
}
use promptfoo_eval_harness.Js.{pos, nan, integer, Value, undefined, num, str, object, get, lookup}
use promptfoo_eval_harness.Invocation.Major.{no_output}
use promptfoo_eval_harness.OpenCodeCli.{
  Surroundings, normalize_retry_count, call_with_empty_output_retries,
}
use promptfoo_eval_harness.OpenCodeCli.Attempts.{
  Outcome, counting, call_with_empty_output_retries-Outcome,
}
use promptfoo_eval_harness.OpenCodeCli.Run.{
  out_chunk, err_chunk, aborted, closed, on_close, run_open_code,
}
use promptfoo_eval_harness.OpenCodeCli.Run.Settles.{run_open_code-settles}

abbrev around : Surroundings
around = record { eval_root = lit "/r"; env = []; to_number = λ s. nan; probe = no_output }

abbrev config : Value
config = object (
    (lit "agent", str (lit "a"))
    ∷ (lit "opencode_config", str (lit "opencode.json"))
    ∷ (lit "project_dir", str (lit "."))
    ∷ (lit "format", str (lit "json"))
    ∷ (lit "log_level", str (lit "INFO"))
    ∷ (lit "empty_output_retries", num (integer (pos 2)))
    ∷ [])

-- The first run prints a blank, the others a word.
abbrev answer : ℕ → Result Str Str
answer zero = ok (lit " ")
answer (suc runs) = ok (lit " word ")

two_retries : normalize_retry_count (get (lit "empty_output_retries") config) ≡ ok 2
unfolding normalize_retry_count get lookup str_eq lit
two_retries = refl

call_with_empty_output_retries-Outcome_example :
    Outcome answer around 0 3 3
      (call_with_empty_output_retries
        (counting answer around)
        around
        (lit "hi")
        config
        undefined
        []
        0).0
call_with_empty_output_retries-Outcome_example =
    call_with_empty_output_retries-Outcome answer around (lit "hi") config undefined [] 2
      two_retries

abbrev decode : List ℕ → Str
decode bytes = bytes

failed_exit : on_close decode (lit "part") (lit " no model\n") (some 1) ≡ err (lit "no model")
unfolding on_close trim trim_start is_space lit
failed_exit = refl

run_open_code-settles_example :
    (run_open_code decode false (
      out_chunk (lit "part")
      ∷ err_chunk (lit " no model\n")
      ∷ closed (some 1)
      ∷ aborted
      ∷ [])).settled
    ≡ some (err (lit "no model"))
unfolding trim trim_start is_space lit
run_open_code-settles_example =
    run_open_code-settles decode (out_chunk (lit "part") ∷ err_chunk (lit " no model\n") ∷ [])
      (closed (some 1)) (aborted ∷ []) (err (lit "no model")) refl (ap some failed_exit)
