-- ===== src/Migration/Accepted.antt =====
-- What a migration writes is a configuration of the new version, which a second one leaves alone.
use promptfoo_eval_harness.Prelude.{
  ◌≡◌, refl, ap, sym, ◌∙◌, subst, Bool, true, false, List, [], ◌∷◌, Str, lit, str_eq, str_eq_refl,
  ◌++◌, All, Bool-cases, inl, inr, if◌then◌else◌, Result, ok, err, ◌>>=◌, each, each_iff,
  >>=-returned, Result-cases, ok-injective, err-ne-ok,
}
use promptfoo_eval_harness.Paths.{resolve}
use promptfoo_eval_harness.Js.{
  Value, str, object, array, get, lookup, put, entries, or_else, truthy, is_object, is_plain,
  is_array, is_string,
}
use promptfoo_eval_harness.Js.Laws.{fields-to_fields}
use promptfoo_eval_harness.TierConfig.Shape.{
  is_v1_shape, validate_provider, validate_tier, validate_v1_shape, parse_tier_config,
}
use promptfoo_eval_harness.Resolve.Entries.{own}
use promptfoo_eval_harness.Migration.{
  migrated_provider, build_tiers, with_concurrency, build_v1, is_v1, is_v0, rewrite, write_back,
  replace_source, parsed, loaded, migrate, not_parsed, unknown_version, not_serialized, unchanged,
  serialize, Effect, printed, written, Error, Report,
}

migrated-good :
    (name : Str) (agent runtime : Value)
    → validate_tier
        (name, object ((lit "providers", array (migrated_provider agent runtime ∷ [])) ∷ []))
      ≡ ok tt
unfolding validate_tier validate_provider is_object is_array is_string truthy get lookup str_eq lit
migrated-good name agent runtime = refl

put-All :
    (name : Str) (tier : Value) (done : List (Str × Value))
    → ((key : Str) → validate_tier (key, tier) ≡ ok tt)
    → All (λ t. validate_tier t ≡ ok tt) done
    → All (λ t. validate_tier t ≡ ok tt) (put name tier done)
unfolding put
put-All name tier [] h hs = (h name, tt)
put-All name tier ((k, v) ∷ done) h (g, gs) = elim (Bool-cases (str_eq k name)) [
  | inl same ↦ rw same (h k, gs)
  | inr other ↦ rw other (g, put-All name tier done h gs)
]

build_tiers-good :
    (runtime : Value) (done tiers built : List (Str × Value))
    → All (λ t. validate_tier t ≡ ok tt) done
    → build_tiers runtime done tiers ≡ ok built
    → All (λ t. validate_tier t ≡ ok tt) built
unfolding build_tiers
build_tiers-good runtime done [] built h e =
    subst (All (λ t. validate_tier t ≡ ok tt)) (ok-injective e) h
build_tiers-good runtime done ((name, tier) ∷ tiers) built h e =
    elim (Bool-cases (is_string (get (lit "agent") tier))) [
      | inl given ↦
          build_tiers-good runtime
            (put name
              (object (
                (lit "providers", array (migrated_provider (get (lit "agent") tier) runtime ∷ []))
                ∷ []))
              done)
            tiers built
            (put-All name _ done (λ key. migrated-good key (get (lit "agent") tier) runtime) h)
            (rw given at e)
      | inr absent ↦ elim (err-ne-ok (rw absent at e)) [ ]
    ]

abbrev migrated : List (Str × Value) → Value → Value
migrated tiers concurrency =
    object
      ((lit "version", str (lit "v1")) ∷ (lit "tiers", object tiers) ∷ with_concurrency concurrency)

migrated-validated :
    (tiers : List (Str × Value)) (concurrency : Value)
    → All (λ t. validate_tier t ≡ ok tt) tiers
    → validate_v1_shape (migrated tiers concurrency) ≡ ok tt
unfolding validate_v1_shape is_object get lookup entries str_eq lit
migrated-validated tiers concurrency h =
    ap (each validate_tier) (fields-to_fields tiers) ∙ (each_iff validate_tier tiers).1 h

migrated-accepted :
    (tiers : List (Str × Value)) (concurrency : Value)
    → All (λ t. validate_tier t ≡ ok tt) tiers
    → parse_tier_config (migrated tiers concurrency) ≡ ok (migrated tiers concurrency)
unfolding parse_tier_config is_v1_shape is_plain is_string get lookup entries put truthy str_eq lit
migrated-accepted tiers concurrency h =
    rw (migrated-validated tiers concurrency h)
      (elim (Bool-cases (is_object concurrency)) [ inl e ↦ rw e refl | inr e ↦ rw e refl ])

build_v1-migrated :
    (raw v : Value)
    → build_v1 raw ≡ ok v
    → (tiers : List (Str × Value)) × All (λ t. validate_tier t ≡ ok tt) tiers
      × (migrated tiers (get (lit "concurrency") raw) ≡ v)
unfolding build_v1
build_v1-migrated raw v h =
    let (tiers, built, e) =
      >>=-returned
        (build_tiers (get (lit "runtime") raw) []
          (own (or_else (get (lit "tiers") raw) (object []))))
        _ h in
    (tiers, build_tiers-good _ [] _ tiers tt built, ok-injective e)

-- What a migration builds is read as a configuration of the new version, just as it stands.
pub build_v1-accepted : (raw v : Value) → build_v1 raw ≡ ok v → parse_tier_config v ≡ ok v
build_v1-accepted raw v h =
    let (tiers, good, e) = build_v1-migrated raw v h in
    subst (λ w. parse_tier_config w ≡ ok w) e
      (migrated-accepted tiers (get (lit "concurrency") raw) good)

migrated-is_v1 :
    (tiers : List (Str × Value)) (concurrency : Value) → is_v1 (migrated tiers concurrency) ≡ true
unfolding is_v1 is_string get lookup str_eq lit
migrated-is_v1 tiers concurrency = refl

build_v1-is_v1 : (raw v : Value) → build_v1 raw ≡ ok v → is_v1 v ≡ true
build_v1-is_v1 raw v h =
    let (tiers, good, e) = build_v1-migrated raw v h in
    subst (λ w. is_v1 w ≡ true) e (migrated-is_v1 tiers (get (lit "concurrency") raw))

-- The text of the file at each path, after what a migration does.
abbrev pub after_effects : List Effect → (Str → Str) → Str → Str
after_effects [] disk path = disk path
after_effects (printed s ∷ effects) disk path = after_effects effects disk path
after_effects (written file s ∷ effects) disk path =
    after_effects effects (λ p. if str_eq file p then s else disk p) path

after_effects-written :
    (no_diff : Bool) (diff file s : Str) (disk : Str → Str)
    → after_effects ((if no_diff then [] else printed diff ∷ []) ++ written file s ∷ []) disk file
      ≡ s
after_effects-written true diff file s disk = rw (str_eq_refl file) refl
after_effects-written false diff file s disk = rw (str_eq_refl file) refl

module _ (parse : Str → Result Str Value) (stringify : Value → Result Str Str) (cwd : Str)
    (reads_back : (source : Str) (raw v : Value) (s : Str)
      → parse source ≡ ok raw
      → build_v1 raw ≡ ok v
      → stringify v ≡ ok s
      → parse s ≡ ok v) where
  -- The file is read as a configuration of the new version.
  abbrev IsMigrated : Str → Type 0
  IsMigrated s = (v : Value) × (parse s ≡ ok v) × (is_v1 v ≡ true)

  abbrev run : (Str → Str) → Str → List Effect × Result Error Report
  run disk path = migrate (λ p. ok (disk p)) parse stringify cwd path

  write_back-IsMigrated :
      (path source : Str) (disk : Str → Str) (r : Result Error Str) (report : Report)
      → ((s : Str) → r ≡ ok s → IsMigrated s)
      → (write_back (λ p. ok (disk p)) parse stringify cwd path source r).1 ≡ ok report
      → IsMigrated (
          after_effects
            (write_back (λ p. ok (disk p)) parse stringify cwd path source r).0
            disk
            path)
  unfolding write_back replace_source
  write_back-IsMigrated path source disk (err e) report h k = elim (err-ne-ok k) [ ]
  write_back-IsMigrated path source disk (ok s) report h k =
      subst IsMigrated (sym (after_effects-written _ _ path s disk)) (h s refl)

  serialize-ok :
      (read : Str → Result Str Str) (v : Value) (s : Str)
      → serialize read parse stringify cwd v ≡ ok s
      → stringify v ≡ ok s
  unfolding serialize
  serialize-ok read v s h = elim (Result-cases (stringify v)) [
    | inl (e, f) ↦ elim (err-ne-ok {e = not_serialized e} {a = s} (rw (serialize, f) at h)) [ ]
    | inr (t, f) ↦
        let same : t ≡ s = ok-injective {E = Error} (rw (serialize, f) at h) in f ∙ ap ok same
  ]

  serialize-IsMigrated :
      (source : Str) (raw : Value) (read : Str → Result Str Str) (s : Str)
      → parse source ≡ ok raw
      → (build_v1 raw >>= serialize read parse stringify cwd) ≡ ok s
      → IsMigrated s
  serialize-IsMigrated source raw read s p h =
      let (v, built, k) = >>=-returned (build_v1 raw) _ h in
      (v, reads_back source raw v s p built (serialize-ok read v s k), build_v1-is_v1 raw v built)

  rewrite-IsMigrated :
      (path : Str) (disk : Str → Str) (raw : Value) (report : Report)
      → parse (disk path) ≡ ok raw
      → (rewrite (λ p. ok (disk p)) parse stringify cwd path (disk path) raw).1 ≡ ok report
      → IsMigrated (
          after_effects
            (rewrite (λ p. ok (disk p)) parse stringify cwd path (disk path) raw).0
            disk
            path)
  unfolding rewrite
  rewrite-IsMigrated path disk raw report p h = elim (Bool-cases (is_v1 raw)) [
    | inl new ↦ unfold rewrite in rw new (raw, p, new)
    | inr old ↦ elim (Bool-cases (is_v0 raw)) [
      | inl known ↦
          unfold rewrite in
          rw (old, known)
            (write_back-IsMigrated path (disk path) disk _ report
              (λ s. serialize-IsMigrated (disk path) raw (λ q. ok (disk q)) s p)
              (rw (rewrite, old, known) at h))
      | inr unknown ↦
          elim (err-ne-ok {e = unknown_version path} {a = report}
            (rw (rewrite, old, unknown) at h)) [ ]
    ]
  ]

  migrate-IsMigrated :
      (path : Str) (disk : Str → Str) (report : Report)
      → (run disk path).1 ≡ ok report
      → IsMigrated (after_effects (run disk path).0 disk (resolve cwd path))
  unfolding migrate loaded
  migrate-IsMigrated path disk report h =
      let file = resolve cwd path in
      elim (Result-cases (parse (disk file))) [
        | inl (e, f) ↦
            elim (err-ne-ok {e = not_parsed file e} {a = report} (rw (parsed, f) at h)) [ ]
        | inr (raw, f) ↦
            rw (parsed, f) (rewrite-IsMigrated file disk raw report f (rw (parsed, f) at h))
      ]

  -- Where the TOML reader reads back what the writer makes of a migrated configuration: after a
  -- migration that did not throw, another one of the same file does nothing and reports that
  -- nothing changed.
  pub migrate_twice :
      (path : Str) (disk : Str → Str) (report : Report)
      → (run disk path).1 ≡ ok report
      → run (after_effects (run disk path).0 disk) path ≡ ([], ok unchanged)
  migrate_twice path disk report h =
      let (v, read, new) = migrate-IsMigrated path disk report h in
      unfold migrate loaded parsed rewrite in rw (parsed, read, rewrite, new) refl
