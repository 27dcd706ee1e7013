-- ===== src/Server/Shutdown.antt =====
-- internal/server/shutdown.go: the hooks, and cmd/ssh-idlefarmer/main.go from the signal on. `W` is what
-- the hooks act on, and `E` is what they answer where they fail.
use ssh_idlefarmer.Prelude.{
  inr, inl, pos, ◌∷◌, [], some, none, Option, List, Bool, ◌++◌, ◌≡◌, Option-cases, ℤ, if◌then◌else◌,
  arith,
}

abbrev pub Hook : Type 0 → Type 0 → Type 0
Hook E W = W → Option E × W

module _ {E W : Type 0} where
  -- `RegisterShutdownHook`
  abbrev pub register_hook : Hook E W → List (Hook E W) → List (Hook E W)
  register_hook h hooks = hooks ++ h ∷ []

  -- `RunShutdownHooks`: the first that fails ends it.
  unfoldable pub run_hooks : List (Hook E W) → W → Option E × W
  run_hooks [] w = (none, w)
  run_hooks (h ∷ hooks) w =
      let (e, w') = h w in elim e [ some x ↦ (some x, w') | none ↦ run_hooks hooks w' ]

  -- The end of `main`: a hook that fails is only logged. `stop` is the server's `Shutdown`, which answers
  -- whether it failed, and `close` is the deferred `Close` of the store, which `os.Exit` skips.
  unfoldable pub finish : List (Hook E W) → (W → Bool × W) → (W → W) → W → ℤ × W
  unfolding run_hooks
  finish hooks stop close w =
      let (failed, w') = stop (run_hooks hooks w).1 in
      if failed then (pos 1, w') else (pos 0, close w')

  -- A hook that is registered runs after those that were registered before it, and only where none of
  -- them fails; its answer is then the answer.
  run_hooks-register_hook :
      (h : Hook E W) (hooks : List (Hook E W)) (w : W)
      → run_hooks (register_hook h hooks) w
        ≡ elim (run_hooks hooks w).0 as (λ (e : Option E). Option E × W) [
          | some x ↦ (some x, (run_hooks hooks w).1)
          | none ↦ h (run_hooks hooks w).1
        ]
  unfolding run_hooks
  run_hooks-register_hook h [] w = elim (Option-cases (h w).0) [
    | inl e ↦ ground (arith, e)
    | inr (x, e) ↦ ground (arith, e)
  ]
  run_hooks-register_hook h (g ∷ hooks) w = elim (Option-cases (g w).0) [
    | inl e ↦ ground (arith, e, run_hooks-register_hook h hooks (g w).1)
    | inr (x, e) ↦ ground (arith, e)
  ]
