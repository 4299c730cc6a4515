-- ===== src/Invocation/Major/Cache.antt =====
-- What `resolveMajor` answers: the override first, one probe for each runner, v1 by default.
use promptfoo_eval_harness.Prelude.{◌≡◌, false, none, some, arith, Str, str_eq_refl}
use promptfoo_eval_harness.Js.{Number}
use promptfoo_eval_harness.Invocation.Major.{
  Major, Probe, Cache, cached, Options, runner_of, resolve_major, override_of, answer,
}

module _ (to_number : Str → Number) where
  answer_cached :
      (runner : Str) (cache : Cache) (probe : Probe) (m : Major)
      → cached runner cache ≡ some m
      → answer to_number none runner cache probe
        ≡ record { major = m; cache = cache; probed = false }
  unfolding answer
  answer_cached runner cache probe m k = rw (k, answer)

  cached_after :
      (runner : Str) (cache : Cache) (probe : Probe)
      → let r = answer to_number none runner cache probe in cached runner r.cache ≡ some r.major
  unfolding answer cached
  cached_after runner cache probe = ground (arith, str_eq_refl runner)

  -- With no usable override, a call that follows another for the same runner gives the same
  -- generation, does not probe again, and leaves the cache alone, whatever a second probe would
  -- have answered.
  pub resolve_major_twice :
      (first second : Options) (cache : Cache) (probe later : Probe)
      → override_of to_number first ≡ none
      → override_of to_number second ≡ none
      → runner_of first.runner_command ≡ runner_of second.runner_command
      → let r = resolve_major to_number first cache probe in
        resolve_major to_number second r.cache later
        ≡ record { major = r.major; cache = r.cache; probed = false }
  unfolding resolve_major
  resolve_major_twice first second cache probe later h k e =
      rw (h, k, ← e)
        (answer_cached _ _ later _ (cached_after (runner_of first.runner_command) cache probe))
