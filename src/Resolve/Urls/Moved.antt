-- ===== src/Resolve/Urls/Moved.antt =====
-- What rewriting the file references of a configuration makes of it.
use promptfoo_eval_harness.Prelude.{
  ◌≡◌, sym, ◌⊎◌, inl, inr, true, false, ◌++◌, Str, none, some, Option-cases, Bool-cases, ok,
  >>=-returned, ok-injective,
}
use promptfoo_eval_harness.Paths.{is_absolute, resolve, resolve_root, is_within}
use promptfoo_eval_harness.Js.{
  Value, undefined, null, bool, num, str, arr, obj, Items, nil, cons, Fields, end, field,
}
use promptfoo_eval_harness.Resolve.Urls.{
  file_scheme, match_file_url, move, rewrite_url, rewrite_relative_file_urls, rewrite_items,
  rewrite_fields,
}
use promptfoo_eval_harness.Resolve.Urls.Target.{rewrite_url-target}

module _ (root source target : Str) where
  -- The text stays: it is no file reference, or one by an absolute path.
  abbrev pub IsFixed : Str → Type 0
  IsFixed s =
      (match_file_url s ≡ none)
      ⊎ ((file : Str) × (suffix : Str) × (match_file_url s ≡ some (file, suffix))
          × (is_absolute file ≡ true))

  -- Both are references by relative paths, with one suffix and to one file of the root, the first
  -- from the directory of the source and the second from that of the resolved configuration.
  abbrev pub IsMoved : Str → Str → Type 0
  IsMoved s t =
      (file : Str) × (suffix : Str) × (path : Str) × (match_file_url s ≡ some (file, suffix))
      × (is_absolute file ≡ false)
      × (t ≡ file_scheme ++ (path ++ suffix))
      × (resolve target path ≡ resolve source file)
      × (is_within (resolve source file) (resolve_root root) ≡ true)

  abbrev pub Leads : Str → Str → Type 0
  Leads s t = (IsFixed s × (t ≡ s)) ⊎ IsMoved s t

  -- The second value is the first one with the references in it moved, each in its place.
  unfoldable mutual
    pub Moved : Value → Value → Type 0
    Moved (str s) w = (t : Str) × (w ≡ str t) × Leads s t
    Moved (arr vs) w = (ws : Items) × (w ≡ arr ws) × MovedItems vs ws
    Moved (obj fs) w = (gs : Fields) × (w ≡ obj gs) × MovedFields fs gs
    Moved undefined w = w ≡ undefined
    Moved null w = w ≡ null
    Moved (bool b) w = w ≡ bool b
    Moved (num n) w = w ≡ num n

    pub MovedItems : Items → Items → Type 0
    MovedItems nil ws = ws ≡ nil
    MovedItems (cons v vs) us =
        (w : Value) × (ws : Items) × (us ≡ cons w ws) × Moved v w × MovedItems vs ws

    pub MovedFields : Fields → Fields → Type 0
    MovedFields end gs = gs ≡ end
    MovedFields (field k v fs) hs =
        (w : Value) × (gs : Fields) × (hs ≡ field k w gs) × Moved v w × MovedFields fs gs

  rewrite_url-Leads : (s t : Str) → rewrite_url root source target s ≡ ok t → Leads s t
  unfolding rewrite_url move
  rewrite_url-Leads s t h = elim (Option-cases (match_file_url s)) [
    | inl no_url ↦ inl (inl no_url, sym (ok-injective (rw (no_url, rewrite_url) at h)))
    | inr ((file, suffix), url) ↦ elim (Bool-cases (is_absolute file)) [
      | inl absolute ↦ inl (
        inr (file, suffix, url, absolute),
        sym (ok-injective (rw (url, absolute, rewrite_url, move) at h)),
      )
      | inr relative ↦
          let (path, e, same, inside) =
            rewrite_url-target root source target s file suffix t url relative h in
          inr (file, suffix, path, url, relative, e, same, inside)
    ]
  ]

  mutual
    unfolding rewrite_relative_file_urls Moved

    rewrite-Moved_value :
        (v w : Value) → rewrite_relative_file_urls root source target v ≡ ok w → Moved v w
    rewrite-Moved_value undefined w h = sym (ok-injective h)
    rewrite-Moved_value null w h = sym (ok-injective h)
    rewrite-Moved_value (bool b) w h = sym (ok-injective h)
    rewrite-Moved_value (num n) w h = sym (ok-injective h)
    rewrite-Moved_value (str s) w h =
        let (t, e, same) = >>=-returned (rewrite_url root source target s) _ h in
        (t, sym (ok-injective same), rewrite_url-Leads s t e)
    rewrite-Moved_value (arr vs) w h =
        let (ws, e, same) = >>=-returned (rewrite_items root source target vs) _ h in
        (ws, sym (ok-injective same), rewrite-Moved_items vs ws e)
    rewrite-Moved_value (obj fs) w h =
        let (gs, e, same) = >>=-returned (rewrite_fields root source target fs) _ h in
        (gs, sym (ok-injective same), rewrite-Moved_fields fs gs e)

    rewrite-Moved_items :
        (vs us : Items) → rewrite_items root source target vs ≡ ok us → MovedItems vs us
    rewrite-Moved_items nil us h = sym (ok-injective h)
    rewrite-Moved_items (cons v vs) us h =
        let (w, e, rest) = >>=-returned (rewrite_relative_file_urls root source target v) _ h in
        let (ws, f, same) = >>=-returned (rewrite_items root source target vs) _ rest in
        (w, ws, sym (ok-injective same), rewrite-Moved_value v w e, rewrite-Moved_items vs ws f)

    rewrite-Moved_fields :
        (fs hs : Fields) → rewrite_fields root source target fs ≡ ok hs → MovedFields fs hs
    rewrite-Moved_fields end hs h = sym (ok-injective h)
    rewrite-Moved_fields (field k v fs) hs h =
        let (w, e, rest) = >>=-returned (rewrite_relative_file_urls root source target v) _ h in
        let (gs, f, same) = >>=-returned (rewrite_fields root source target fs) _ rest in
        (w, gs, sym (ok-injective same), rewrite-Moved_value v w e, rewrite-Moved_fields fs gs f)

  -- A configuration that is rewritten keeps its nesting, its keys and its other leaves, and each
  -- text in it, at any depth, is replaced in its place: a reference to a file by a relative path
  -- keeps its suffix and leads, from the directory of the resolved configuration, to the same file,
  -- which is the evaluation root or lies below it; every other text stays as it was.
  pub rewrite_relative_file_urls-Moved :
      (v w : Value) → rewrite_relative_file_urls root source target v ≡ ok w → Moved v w
  rewrite_relative_file_urls-Moved v w h = rewrite-Moved_value v w h
