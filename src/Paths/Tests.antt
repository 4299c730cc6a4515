-- ===== src/Paths/Tests.antt =====
-- Runs of the path arithmetic, and its theorem at a concrete input.
use promptfoo_eval_harness.Prelude.{
  str_eq, starts_with, ◌≡◌, refl, ◌⊎◌, Str, lit, List, All, ok, ◌++◌, ◌∷◌, [],
}
use promptfoo_eval_harness.Paths.{render_root, resolve_root, resolve_within_root, resolve}
use promptfoo_eval_harness.Paths.Within.{IsPlain, resolve_within_root-IsPlain}

abbrev refusal : Unit {0}
refusal = tt

within :
    resolve_within_root (lit "/repo/evals") (lit "../src/./a.js") (lit "/repo") refusal
    ≡ ok (lit "/repo/src/a.js")
unfolding resolve_within_root resolve lit str_eq starts_with
within = refl

resolve_within_root-IsPlain_example :
    ((parts : List Str) × All IsPlain parts × (lit "/repo/src/a.js" ≡ render_root parts))
    × ((lit "/repo/src/a.js" ≡ resolve_root (lit "/repo"))
        ⊎ ((rest : Str) × (lit "/repo/src/a.js" ≡ (resolve_root (lit "/repo") ++ 47 ∷ []) ++ rest)))
resolve_within_root-IsPlain_example =
    resolve_within_root-IsPlain (lit "/repo/evals") (lit "../src/./a.js") (lit "/repo") refusal
      (lit "/repo/src/a.js") within
