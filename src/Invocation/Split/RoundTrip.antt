-- ===== src/Invocation/Split/RoundTrip.antt =====
-- Quoting words and splitting the line gives the words back; no word is ever empty.
use promptfoo_eval_harness.Prelude.{
  ℕ, ◌≡◌, refl, ◌∙◌, ap, subst, false, Option, none, some, List, [], ◌∷◌, ◌++◌, arith, append_assoc,
  append-nil, Str, ◌==◌, ◌||◌, if◌then◌else◌, is_space, is_empty, All, All-append, inl, inr,
  Bool-cases,
}
use promptfoo_eval_harness.Invocation.Split.{flush, scan, split_command}

-- A word inside double quotes, with a backslash before each quote and backslash.
escape : Str → Str
escape [] = []
escape (c ∷ s) = let rest = escape s in if c == 34 || c == 92 then 92 ∷ c ∷ rest else c ∷ rest

pub quote_word : Str → Str
quote_word s = (34 ∷ escape s) ++ 34 ∷ []

-- The quoted words, each with a space behind it.
pub quote_line : List Str → Str
quote_line [] = []
quote_line (s ∷ words) = quote_word s ++ (32 ∷ quote_line words)

abbrev pub NonEmpty : Str → Type 0
NonEmpty s = is_empty s ≡ false

scan_plain :
    (current : Str) (tokens : List Str) (c : ℕ) (s : Str)
    → (c == 34) ≡ false
    → (c == 92) ≡ false
    → scan (some 34) current tokens (c ∷ s) ≡ scan (some 34) (current ++ c ∷ []) tokens s
unfolding scan
scan_plain current tokens c [] h k = rw h
scan_plain current tokens c (d ∷ s) h k = rw (h, k)

scan-escape :
    (s : Str) (current : Str) (tokens : List Str) (rest : Str)
    → scan (some 34) current tokens (escape s ++ (34 ∷ rest)) ≡ scan none (current ++ s) tokens rest
unfolding scan escape
scan-escape [] current tokens [] = rw append-nil
scan-escape [] current tokens (d ∷ rest) = rw append-nil
scan-escape (c ∷ s) current tokens rest =
    let tail = escape s ++ (34 ∷ rest) in
    let ih = scan-escape s (current ++ c ∷ []) tokens rest in
    let joined = ih ∙ ap (λ t. scan none t tokens rest) (append_assoc current (c ∷ []) s) in
    elim (Bool-cases (c == 34 || c == 92)) [
      | inl special ↦ rw special joined
      | inr plain ↦ rw plain (
          scan_plain current tokens c (escape s ++ (34 ∷ rest)) (ground arith) (ground arith)
          ∙ joined)
    ]

scan_word :
    (s : Str) (tokens : List Str) (rest : Str)
    → NonEmpty s
    → scan none [] tokens (quote_word s ++ (32 ∷ rest)) ≡ scan none [] (tokens ++ s ∷ []) rest
unfolding scan quote_word is_space
scan_word [] tokens rest h = cc
scan_word (c ∷ s) tokens rest h =
    ap (scan (some 34) [] tokens) (append_assoc (escape (c ∷ s)) (34 ∷ []) (32 ∷ rest))
    ∙ scan-escape (c ∷ s) [] tokens (32 ∷ rest)

scan_line :
    (words tokens : List Str)
    → All NonEmpty words
    → scan none [] tokens (quote_line words) ≡ some (tokens ++ words)
unfolding scan quote_line
scan_line [] tokens h = rw append-nil
scan_line (s ∷ words) tokens (h, hs) =
    scan_word s tokens (quote_line words) h
    ∙ scan_line words (tokens ++ s ∷ []) hs
    ∙ ap some (append_assoc tokens (s ∷ []) words)

-- Splitting a line of words, each in double quotes with its quotes and backslashes escaped and a
-- space behind it, gives those words back in order, provided that none of them is empty.
pub split_command-quote_line :
    (words : List Str) → All NonEmpty words → split_command (quote_line words) ≡ some words
unfolding split_command
split_command-quote_line words h = scan_line words [] h

flush-NonEmpty :
    (tokens : List Str) (current : Str) → All NonEmpty tokens → All NonEmpty (flush tokens current)
flush-NonEmpty tokens [] h = h
flush-NonEmpty tokens (c ∷ s) h = All-append NonEmpty tokens _ h (refl, tt)

-- What a scan returns, when it returns, holds no empty word.
abbrev AllFull : Option (List Str) → Type 0
AllFull none = Unit
AllFull (some words) = All NonEmpty words

scan-AllFull :
    (command : Str) (quote : Option ℕ) (current : Str) (tokens : List Str)
    → All NonEmpty tokens
    → AllFull (scan quote current tokens command)
unfolding scan
scan-AllFull [] none current tokens h = flush-NonEmpty tokens current h
scan-AllFull [] (some q) current tokens h = tt
scan-AllFull (c ∷ []) (some q) current tokens h = ground (arith, flush-NonEmpty tokens current h)
scan-AllFull (c ∷ d ∷ s) (some q) current tokens h = ground (
  arith,
  scan-AllFull (d ∷ s) none current tokens h,
  scan-AllFull s (some q) (current ++ d ∷ []) tokens h,
  scan-AllFull (d ∷ s) (some q) (current ++ c ∷ []) tokens h,
)
scan-AllFull (c ∷ s) none current tokens h = ground (
  arith,
  scan-AllFull s (some c) current tokens h,
  scan-AllFull s none [] (flush tokens current) (flush-NonEmpty tokens current h),
  scan-AllFull s none (current ++ c ∷ []) tokens h,
)

-- Every word that splitting returns has at least one character: an empty quoted word is dropped.
pub split_command-NonEmpty :
    (command : Str) (words : List Str) → split_command command ≡ some words → All NonEmpty words
unfolding split_command
split_command-NonEmpty command words e = subst AllFull e (scan-AllFull command none [] [] tt)
