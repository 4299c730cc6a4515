-- ===== src/Validate/Tests.antt =====
-- A package's configuration and a text that looks like a secret, and the theorems at concrete
-- inputs.
use promptfoo_eval_harness.Prelude.{Str, lit, none, [], ◌∷◌}
use promptfoo_eval_harness.Js.{Value, str, object, array}
use promptfoo_eval_harness.Validate.Received.{Rules, missing}

abbrev rules : Rules
rules = record {
  kind_registry =
      (lit "opencode_cli", object ((lit "mode", str (lit "inproc")) ∷ []))
      ∷ (lit "openhands_sdk", object ((lit "mode", str (lit "subprocess")) ∷ []))
      ∷ [];
  extra_kinds = lit "openhands_agent_server" ∷ [];
  eval_root = lit "/repo/evals";
  resolver = λ model. none;
  read = λ path. missing;
  quote = λ s. s;
  print = λ n. lit "1";
}

abbrev config : Value
config = object (
    (
      lit "tiers",
      object (
          (
            lit "light",
            object (
                (
                  lit "providers",
                  array (
                      object (
                        (lit "provider_kind", str (lit "openhands_sdk"))
                        ∷ (lit "model", str (lit "m1"))
                        ∷ [])
                      ∷ []),
                )
                ∷ (
                  lit "tests",
                  array (
                      object (
                        (
                          lit "vars",
                          object (
                              (lit "turns", array (str (lit "hello") ∷ str (lit "bye") ∷ [])) ∷ []),
                        )
                        ∷ [])
                      ∷ []),
                )
                ∷ []),
          )
          ∷ []),
    )
    ∷ [])

abbrev secret : Str
secret = lit "abcdefghijklmnopqrstuvwxyz0123456789"
