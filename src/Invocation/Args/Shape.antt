-- ===== src/Invocation/Args/Shape.antt =====
-- The two command lines as the header of the source states them.
use promptfoo_eval_harness.Prelude.{
  ◌≡◌, refl, ap, ◌⊎◌, inl, inr, Bool, ◌&&◌, not, List, [], ◌∷◌, ◌++◌, Str, lit, arith, is_blank,
  trim, to_lower, if◌then◌else◌,
}
use promptfoo_eval_harness.Js.{Number, text, is_string, truthy}
use promptfoo_eval_harness.Invocation.Major.{Major, v1, v2}
use promptfoo_eval_harness.Invocation.Args.{
  RunSpec, is_text, log_level_of, major_of, build_run_args, resolve_spawn_cwd,
}

-- A flag with its value, or nothing.
abbrev flag : Bool → Str → Str → List Str
flag present name value = if present then name ∷ value ∷ [] else []

-- The flags that both generations take, in order.
abbrev pub common_flags : (Str → Str) → RunSpec → List Str
common_flags on_level spec =
    flag (is_text spec.format) (lit "--format") (text spec.format)
    ++ (flag (is_text spec.log_level) (lit "--log-level") (on_level (text spec.log_level))
        ++ (flag (is_string spec.model_override && not (is_blank (text spec.model_override)))
              (lit "--model") (trim (text spec.model_override))
            ++ (if truthy spec.print_logs then lit "--print-logs" ∷ [] else [])))

Major-cases : (m : Major) → (m ≡ v1) ⊎ (m ≡ v2)
Major-cases v1 = inl refl
Major-cases v2 = inr refl

-- The command line and the working directory of a run.
abbrev pub expected : Major → RunSpec → Str → List Str × Str
expected v1 spec eval_root = (
  (lit "run" ∷ lit "--agent" ∷ spec.agent ∷ lit "--dir" ∷ spec.project_dir ∷ [])
      ++ common_flags (λ s. s) spec,
  eval_root,
)
expected v2 spec eval_root = (
  (lit "run" ∷ lit "--standalone" ∷ lit "--agent" ∷ spec.agent ∷ []) ++ common_flags to_lower spec,
  spec.project_dir,
)

-- The first generation runs `run --agent a --dir d` from the evaluation root; the second runs
-- `run --standalone --agent a` from the project directory. Behind that both take the same flags in
-- the same order, each only when its value is present, and the second in lower case the level. So
-- the project directory is passed exactly one way: as `--dir` or as the working directory.
pub build_run_args_shape :
    (to_number : Str → Number) (spec : RunSpec) (eval_root : Str)
    → (
      build_run_args to_number spec,
      resolve_spawn_cwd to_number spec.major eval_root spec.project_dir,
    )
      ≡ expected (major_of to_number spec.major) spec eval_root
unfolding build_run_args resolve_spawn_cwd log_level_of
build_run_args_shape to_number spec eval_root = elim (Major-cases (major_of to_number spec.major)) [
  | inl h ↦ rw h (ap (λ args. (args, eval_root)) (ground arith))
  | inr h ↦ rw h (ap (λ args. (args, spec.project_dir)) (ground arith))
]
