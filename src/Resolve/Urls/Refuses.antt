-- ===== src/Resolve/Urls/Refuses.antt =====
-- When a configuration is refused for its file references.
use promptfoo_eval_harness.Prelude.{
  ◌≡◌, refl, ap, sym, ◌∙◌, Bool, true, false, ◌&&◌, ◌||◌, Str, inl, inr, if◌then◌else◌, none, some,
  Result, ok, err, ◌>>=◌, ◌>>◌, all, all-append, Option-cases,
}
use promptfoo_eval_harness.Paths.{is_absolute, resolve, resolve_root, is_within, ensure_within_root}
use promptfoo_eval_harness.Js.{
  Value, undefined, null, bool, num, str, arr, obj, Items, nil, cons, Fields, end, field,
}
use promptfoo_eval_harness.Bridge.Runtime.Redaction.{texts, texts_items, texts_fields}
use promptfoo_eval_harness.Resolve.{Error}
use promptfoo_eval_harness.Resolve.Urls.{
  match_file_url, move, rewrite_url, rewrite_relative_file_urls, rewrite_items, rewrite_fields,
}

abbrev pub returns {ℓ κ} : {E : Type ℓ} {A : Type κ} → Result E A → Bool
returns (err e) = false
returns (ok a) = true

returns->>= {ℓ κ μ} :
    {E : Type ℓ} {A : Type κ} {B : Type μ} (call : Result E A) (next : A → Result E B) (b : Bool)
    → ((a : A) → returns (next a) ≡ b)
    → returns (call >>= next) ≡ (returns call && b)
returns->>= (err e) next b h = refl
returns->>= (ok a) next b h = h a

-- The text is no file reference, or it is an absolute one, or what it names lies in the root.
abbrev pub stays : Str → Str → Str → Bool
stays eval_root source_config_dir s = elim (match_file_url s) [
  | none ↦ true
  | some (file, suffix) ↦
      is_absolute file || is_within (resolve source_config_dir file) (resolve_root eval_root)
]

returns-guarded {ℓ} :
    {A : Type ℓ} (absolute inside : Bool) (e : Error) (a b : A)
    → returns (if absolute then ok a else ((if inside then ok tt else err e) >> ok b))
      ≡ (absolute || inside)
returns-guarded true inside e a b = refl
returns-guarded false true e a b = refl
returns-guarded false false e a b = refl

and_true : (b : Bool) → (b && true) ≡ b
and_true true = refl
and_true false = refl

module _ (root source target : Str) where
  rewrite_url-returns : (s : Str) → returns (rewrite_url root source target s) ≡ stays root source s
  unfolding rewrite_url move ensure_within_root
  rewrite_url-returns s = elim (Option-cases (match_file_url s)) [
    | inl e ↦ rw (returns, stays, e) refl
    | inr ((file, suffix), e) ↦
        rw (returns, stays, e)
          (returns-guarded (is_absolute file) (is_within (resolve source file) (resolve_root root))
            _ s _)
  ]

  mutual
    unfolding rewrite_relative_file_urls texts

    rewrite-returns_value :
        (v : Value)
        → returns (rewrite_relative_file_urls root source target v)
          ≡ all (stays root source) (texts v)
    rewrite-returns_value undefined = refl
    rewrite-returns_value null = refl
    rewrite-returns_value (bool b) = refl
    rewrite-returns_value (num n) = refl
    rewrite-returns_value (str s) =
        returns->>= (rewrite_url root source target s) _ true (λ t. refl)
        ∙ ap (λ b. b && true) (rewrite_url-returns s)
    rewrite-returns_value (arr vs) =
        returns->>= (rewrite_items root source target vs) _ true (λ t. refl)
        ∙ and_true _
        ∙ rewrite-returns_items vs
    rewrite-returns_value (obj fs) =
        returns->>= (rewrite_fields root source target fs) _ true (λ t. refl)
        ∙ and_true _
        ∙ rewrite-returns_fields fs

    rewrite-returns_items :
        (vs : Items)
        → returns (rewrite_items root source target vs) ≡ all (stays root source) (texts_items vs)
    rewrite-returns_items nil = refl
    rewrite-returns_items (cons v vs) =
        returns->>= (rewrite_relative_file_urls root source target v) _ _ (λ w.
          returns->>= (rewrite_items root source target vs) _ true (λ ws. refl)
          ∙ and_true _
          ∙ rewrite-returns_items vs)
        ∙ ap (λ b. b && all (stays root source) (texts_items vs)) (rewrite-returns_value v)
        ∙ sym (all-append (stays root source) (texts v) (texts_items vs))

    rewrite-returns_fields :
        (fs : Fields)
        → returns (rewrite_fields root source target fs) ≡ all (stays root source) (texts_fields fs)
    rewrite-returns_fields end = refl
    rewrite-returns_fields (field k v fs) =
        returns->>= (rewrite_relative_file_urls root source target v) _ _ (λ w.
          returns->>= (rewrite_fields root source target fs) _ true (λ ws. refl)
          ∙ and_true _
          ∙ rewrite-returns_fields fs)
        ∙ ap (λ b. b && all (stays root source) (texts_fields fs)) (rewrite-returns_value v)
        ∙ sym (all-append (stays root source) (texts v) (texts_fields fs))

  -- A configuration is rewritten, and not refused, exactly when each text in it, at any depth, is
  -- no file reference, or one by an absolute path, or one to a file in the evaluation root.
  pub rewrite_relative_file_urls-returns :
      (v : Value)
      → returns (rewrite_relative_file_urls root source target v)
        ≡ all (stays root source) (texts v)
  rewrite_relative_file_urls-returns v = rewrite-returns_value v
