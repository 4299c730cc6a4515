-- ===== src/OpenCodeCli/Run/Settles.antt =====
-- The event that settles a run.
use promptfoo_eval_harness.Prelude.{
  ℕ, ◌≡◌, refl, ◌∙◌, Bool, true, false, Option, none, some, List, [], ◌∷◌, ◌++◌, append_assoc,
  append-nil, Str, lit, Result, err, all,
}
use promptfoo_eval_harness.OpenCodeCli.Run.{
  Event, out_chunk, err_chunk, failed, aborted, closed, on_close, listen, run_open_code,
}

abbrev pub is_chunk : Event → Bool
is_chunk (out_chunk chunk) = true
is_chunk (err_chunk chunk) = true
is_chunk _ = false

-- What the chunks of a stream bring.
abbrev pub stdout_of : List Event → List ℕ
stdout_of [] = []
stdout_of (out_chunk chunk ∷ events) = chunk ++ stdout_of events
stdout_of (event ∷ events) = stdout_of events

abbrev pub stderr_of : List Event → List ℕ
stderr_of [] = []
stderr_of (err_chunk chunk ∷ events) = chunk ++ stderr_of events
stderr_of (event ∷ events) = stderr_of events

module _ (decode : List ℕ → Str) where
  -- What an event makes of a run, with what the streams brought before it.
  abbrev pub verdict : List ℕ → List ℕ → Event → Option (Result Str Str)
  verdict stdout stderr (out_chunk chunk) = none
  verdict stdout stderr (err_chunk chunk) = none
  verdict stdout stderr (failed message) = some (err message)
  verdict stdout stderr aborted = some (err (lit "OpenCode CLI call aborted"))
  verdict stdout stderr (closed code) = some (on_close decode stdout stderr code)

  listen-settled :
      (stdout stderr : List ℕ) (result : Result Str Str) (killed : Bool) (events : List Event)
      → (listen decode stdout stderr (some result) killed events).settled ≡ some result
  unfolding listen
  listen-settled stdout stderr result killed [] = refl
  listen-settled stdout stderr result killed (out_chunk c ∷ events) =
      listen-settled _ _ result killed events
  listen-settled stdout stderr result killed (err_chunk c ∷ events) =
      listen-settled _ _ result killed events
  listen-settled stdout stderr result killed (failed m ∷ events) =
      listen-settled _ _ result killed events
  listen-settled stdout stderr result killed (aborted ∷ events) =
      listen-settled _ _ result true events
  listen-settled stdout stderr result killed (closed c ∷ events) = refl

  listen-last :
      (stdout stderr : List ℕ) (last : Event) (rest : List Event) (result : Result Str Str)
      → verdict stdout stderr last ≡ some result
      → (listen decode stdout stderr none false (last ∷ rest)).settled ≡ some result
  unfolding listen
  listen-last stdout stderr (out_chunk c) rest result h = cc
  listen-last stdout stderr (err_chunk c) rest result h = cc
  listen-last stdout stderr (failed m) rest result h = listen-settled _ _ _ false rest ∙ h
  listen-last stdout stderr aborted rest result h = listen-settled _ _ _ true rest ∙ h
  listen-last stdout stderr (closed c) rest result h = h

  listen-chunks :
      (stdout stderr : List ℕ) (chunks : List Event) (last : Event) (rest : List Event)
      (result : Result Str Str)
      → all is_chunk chunks ≡ true
      → verdict (stdout ++ stdout_of chunks) (stderr ++ stderr_of chunks) last ≡ some result
      → (listen decode stdout stderr none false (chunks ++ last ∷ rest)).settled ≡ some result
  unfolding listen
  listen-chunks stdout stderr [] last rest result h v =
      listen-last stdout stderr last rest result (rw (append-nil stdout, append-nil stderr) at v)
  listen-chunks stdout stderr (out_chunk c ∷ chunks) last rest result h v =
      listen-chunks (stdout ++ c) stderr chunks last rest result h
        (rw (append_assoc stdout c (stdout_of chunks)) v)
  listen-chunks stdout stderr (err_chunk c ∷ chunks) last rest result h v =
      listen-chunks stdout (stderr ++ c) chunks last rest result h
        (rw (append_assoc stderr c (stderr_of chunks)) v)
  listen-chunks stdout stderr (failed m ∷ chunks) last rest result h v = cc
  listen-chunks stdout stderr (aborted ∷ chunks) last rest result h v = cc
  listen-chunks stdout stderr (closed c ∷ chunks) last rest result h v = cc

  -- A run settles as soon as its process cannot be started, is aborted or closes, with what that
  -- event and the chunks before it give, in order; whatever comes later changes nothing.
  pub run_open_code-settles :
      (chunks : List Event) (last : Event) (rest : List Event) (result : Result Str Str)
      → all is_chunk chunks ≡ true
      → verdict (stdout_of chunks) (stderr_of chunks) last ≡ some result
      → (run_open_code decode false (chunks ++ last ∷ rest)).settled ≡ some result
  unfolding run_open_code
  run_open_code-settles chunks last rest result h v =
      listen-chunks [] [] chunks last rest result h v
