-- ===== src/Migration/Tests.antt =====
-- A migration, and the theorems at concrete inputs.
use promptfoo_eval_harness.Prelude.{
  ◌≡◌, refl, sym, ap, ◌∙◌, subst, true, false, [], ◌∷◌, ◌++◌, none, Str, lit, str_eq, trim,
  trim_start, is_space, Bool-cases, inl, inr, if◌then◌else◌, Result, ok, err, ok-injective,
  err-ne-ok,
}
use promptfoo_eval_harness.Paths.{resolve}
use promptfoo_eval_harness.Js.{
  Value, null, str, object, array, get, lookup, put, omit, entries, truthy, is_object, is_plain,
  is_array, is_string, decimal,
}
use promptfoo_eval_harness.TierConfig.Shape.{
  parse_tier_config, is_v1_shape, is_v0_shape, normalize_tiers, normalize_v0_to_v1,
}
use promptfoo_eval_harness.Resolve.{Roots}
use promptfoo_eval_harness.Resolve.Entries.{own, resolve_multi_provider_config}
use promptfoo_eval_harness.Resolve.Entries.Cases.{id_of_run}
use promptfoo_eval_harness.Migration.{
  Error, missing_agent, build_tiers, build_v1, is_v1, is_v0, migrate, loaded, parsed, rewrite,
  serialize, write_back, replace_source, unified_diff, split_lines, join_lines, unchanged, Report,
  label_of,
}
use promptfoo_eval_harness.Migration.Accepted.{after_effects, migrate_twice}
use promptfoo_eval_harness.Migration.Emitted.{
  providers_with, resolve_multi_provider_config-build_v1,
}

abbrev old_config : Value
old_config = object (
    (lit "runtime", object ((lit "opencode_config", str (lit "opencode.json")) ∷ []))
    ∷ (lit "tiers", object ((lit "light", object ((lit "agent", str (lit "a")) ∷ [])) ∷ []))
    ∷ [])

abbrev tier_of : Value → Value
tier_of provider = object ((lit "providers", array (provider ∷ [])) ∷ [])

abbrev new_config : Value
new_config = object (
    (lit "version", str (lit "v1"))
    ∷ (
      lit "tiers",
      object (
          (
            lit "light",
            tier_of (
                object (
                  (lit "provider_kind", str (lit "opencode_cli"))
                  ∷ (lit "label", str (lit "a"))
                  ∷ (lit "agent_config", str (lit "opencode.json"))
                  ∷ [])),
          )
          ∷ []),
    )
    ∷ [])

abbrev normal_config : Value
normal_config = object (
    (lit "version", str (lit "v1-normalized"))
    ∷ (
      lit "tiers",
      object (
          (
            lit "light",
            tier_of (
                object (
                  (lit "provider_kind", str (lit "opencode_cli"))
                  ∷ (lit "label", str (lit "a"))
                  ∷ (lit "model", null)
                  ∷ (lit "agent_config", str (lit "opencode.json"))
                  ∷ [])),
          )
          ∷ []),
    )
    ∷ (lit "runtime", object ((lit "opencode_config", str (lit "opencode.json")) ∷ []))
    ∷ [])

is_old : is_v1_shape old_config ≡ false
unfolding is_v1_shape get lookup entries is_string is_object is_array truthy str_eq lit
is_old = refl

normalized : parse_tier_config old_config ≡ ok normal_config
unfolding parse_tier_config is_plain is_v1_shape is_v0_shape normalize_v0_to_v1 normalize_tiers get
    lookup entries put is_string is_object is_array truthy str_eq lit trim trim_start is_space
normalized = refl

built : build_v1 old_config ≡ ok new_config
unfolding build_v1 build_tiers get lookup entries put is_string is_object is_array truthy str_eq lit
built = refl

not_built_again : build_v1 new_config ≡ err (missing_agent (lit "light"))
unfolding build_v1 build_tiers get lookup entries put is_string is_object is_array truthy str_eq lit
not_built_again = refl

abbrev print : Value → Str
print v = []

abbrev roots : Roots
roots = record { eval_root = lit "/r"; framework_root = lit "/r/f" }

resolve_multi_provider_config-build_v1_example :
    ((resolve_multi_provider_config roots print old_config
        (object [] ∷ [])
        (lit "light")
        (lit "run")
        none
        []).0
      ≡ providers_with roots print
          (omit (lit "provider_id") (own (get (lit "runtime") old_config)))
          (entries (get (lit "tiers") new_config))
          (object [] ∷ [])
          (lit "light")
          (id_of_run (lit "run") none []))
    × ((resolve_multi_provider_config roots print new_config
          (object [] ∷ [])
          (lit "light")
          (lit "run")
          none
          []).0
        ≡ providers_with roots print []
            (entries (get (lit "tiers") new_config))
            (object [] ∷ [])
            (lit "light")
            (id_of_run (lit "run") none []))
resolve_multi_provider_config-build_v1_example =
    resolve_multi_provider_config-build_v1 roots print old_config normal_config new_config
      (object [] ∷ []) (lit "light") (lit "run") [] none is_old normalized built

abbrev parse : Str → Result Str Value
parse s = if str_eq s (lit "old") then ok old_config else ok new_config

abbrev stringify : Value → Result Str Str
stringify v = ok (lit "new")

reads_back :
    (source : Str) (raw v : Value) (s : Str)
    → parse source ≡ ok raw
    → build_v1 raw ≡ ok v
    → stringify v ≡ ok s
    → parse s ≡ ok v
unfolding str_eq lit
reads_back source raw v s p b w =
    subst (λ t. parse t ≡ ok v) (ok-injective {E = Str} w)
      (elim (Bool-cases (str_eq source (lit "old"))) [
        | inl is_first ↦
            let same : old_config ≡ raw = ok-injective {E = Str} (rw is_first at p) in
            ap ok
              (ok-injective {E = Error} (sym built ∙ subst (λ r. build_v1 r ≡ ok v) (sym same) b))
        | inr is_other ↦
            let same : new_config ≡ raw = ok-injective {E = Str} (rw is_other at p) in
            elim (err-ne-ok {e = missing_agent (lit "light")} {a = v}
              (sym not_built_again ∙ subst (λ r. build_v1 r ≡ ok v) (sym same) b)) [ ]
      ])

abbrev disk : Str → Str
disk path = lit "old"

abbrev read : Str → Result Str Str
read path = ok (disk path)

abbrev report : Report
report = record {
  changed = true;
  diff =
      unified_diff (lit "old") (lit "new")
        (label_of read parse stringify (lit "/r") (resolve (lit "/r") (lit "tiers.toml")));
  warnings = [];
}

migrated : (migrate read parse stringify (lit "/r") (lit "tiers.toml")).1 ≡ ok report
unfolding migrate loaded parsed rewrite write_back replace_source serialize is_v1 is_v0 build_v1
    build_tiers get lookup entries put is_string is_object is_array truthy str_eq lit
migrated = refl

migrate_twice_example :
    migrate
      (λ p.
        ok (after_effects (migrate read parse stringify (lit "/r") (lit "tiers.toml")).0 disk p))
      parse
      stringify
      (lit "/r")
      (lit "tiers.toml")
    ≡ ([], ok unchanged)
migrate_twice_example =
    migrate_twice parse stringify (lit "/r") reads_back (lit "tiers.toml") disk report migrated

-- The diff of two texts of one line each.
one_line :
    unified_diff (lit "old") (lit "new") (lit "t")
    ≡ lit "--- a/t"
      ++ (10
          ∷ (lit "+++ b/t"
              ++ (10 ∷ (lit "@@ -1,1 +1,1 @@" ++ (10 ∷ (lit "-old" ++ (10 ∷ lit "+new")))))))
unfolding unified_diff split_lines join_lines decimal str_eq lit
one_line = refl
