-- ===== src/Invocation/Args.antt =====
-- `buildRunArgs` and `resolveSpawnCwd`: the command line of a run and where it is spawned.
pub mod Shape
use promptfoo_eval_harness.Prelude.{
  Bool, true, false, ◌&&◌, not, Option, some, none, List, [], ◌∷◌, ◌++◌, Str, lit, is_empty,
  is_blank, trim, to_lower, if◌then◌else◌,
}
use promptfoo_eval_harness.Js.{Number, Value, str, text, is_string, truthy}
use promptfoo_eval_harness.Invocation.Major.{Major, v1, v2, normalize_major, or_default}

-- `projectDir` and `agent` are given as strings by every caller.
pub record RunSpec : Type 0 where
  pub major : Value
  pub agent : Str
  pub project_dir : Str
  pub format : Value
  pub log_level : Value
  pub model_override : Value
  pub print_logs : Value

abbrev pub is_text : Value → Bool
is_text v = is_string v && not (is_empty (text v))

-- `args.push(...)` under a test
abbrev pub push_if : Bool → List Str → List Str → List Str
push_if test words args = if test then args ++ words else args

abbrev pub is_v1 : Major → Bool
is_v1 v1 = true
is_v1 v2 = false

unfoldable pub log_level_of : Major → Str → Str
log_level_of v1 level = level
log_level_of v2 level = to_lower level

module _ (to_number : Str → Number) where
  unfoldable pub major_of : Value → Major
  major_of v = or_default (normalize_major to_number v)

  unfoldable pub build_run_args : RunSpec → List Str
  build_run_args spec =
      let major = major_of spec.major in
      let args = lit "run" ∷ [] in
      let args = push_if (not (is_v1 major)) (lit "--standalone" ∷ []) args in
      let args = args ++ (lit "--agent" ∷ spec.agent ∷ []) in
      let args = push_if (is_v1 major) (lit "--dir" ∷ spec.project_dir ∷ []) args in
      let args = push_if (is_text spec.format) (lit "--format" ∷ text spec.format ∷ []) args in
      let args =
        push_if (is_text spec.log_level)
          (lit "--log-level" ∷ log_level_of major (text spec.log_level) ∷ []) args in
      let args =
        push_if (is_string spec.model_override && not (is_blank (text spec.model_override)))
          (lit "--model" ∷ trim (text spec.model_override) ∷ []) args in
      push_if (truthy spec.print_logs) (lit "--print-logs" ∷ []) args

  unfoldable pub resolve_spawn_cwd : Value → Str → Str → Str
  resolve_spawn_cwd major eval_root project_dir =
      if is_v1 (major_of major) then eval_root else project_dir
