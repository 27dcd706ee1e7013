-- ===== src/Game/Actor.antt =====
-- internal/game: the save that an actor owns, and what runs on its goroutine: the render tick, the
-- intents, and the writes to the store.
use ssh_idlefarmer.Game.Intents.{Intent, apply}
use ssh_idlefarmer.Content.{Content}
use ssh_idlefarmer.Sim.State.{State}
use ssh_idlefarmer.Prelude.{
  pos, pos, false, true, [], some, none, Bool, Option, ℤ, ℕ, if◌then◌else◌, not, List, ltb_ℤ,
  String,
}
use ssh_idlefarmer.Sim.Events.{Events}
use ssh_idlefarmer.Sim.Outcome.{Error}
use ssh_idlefarmer.Sim.Arrivals.{check_achievements}
use ssh_idlefarmer.Sim.Advance.{advance}

pub record Save : Type 0 where
  pub state : State
  pub dirty : Bool

-- `ev = sim.Advance(…); if ev.Elapsed > 0 { dirty = true }`, in `Attach`, `Advance` and `intent`.
unfoldable pub tick : Content → ℤ → Save → Events × Save
tick c now v =
    let (s, ev) = advance v.state c now in
    (ev, record { state = s; dirty = if ltb_ℤ (pos 0) ev.elapsed then true else v.dirty })

-- The result of `intent`: the error, and the achievements that are newly earned.
pub record Reply : Type 0 where
  pub error : Option Error
  pub newly : List String

-- The end of the closure in `intent`: only an intent that was accepted checks the achievements.
unfoldable pub settle : Content → ℤ → Save → Option Error × State → Reply × Save
settle c now v (some e, s) = (record { error = some e; newly = [] }, record v { state = s })
settle c now v (none, s) =
    let (newly, s') = check_achievements s c now in
    (record { error = none; newly = newly }, record { state = s'; dirty = true })

unfoldable pub intent : (ℕ → ℕ) → Content → ℤ → Intent → Save → Reply × Save
intent float_sqrt c now i v =
    let v' = (tick c now v).1 in settle c now v' (apply float_sqrt c now i v'.state)

-- `persist`: a clean save is not written; a failed write leaves it dirty. `written` says whether
-- the store took the payload; the result holds the state that was handed over, if any.
unfoldable pub persist : Bool → Save → Option State × Save
persist written v =
    if not v.dirty
    then (none, v)
    else if written
    then (some v.state, record v { dirty = false })
    else (none, v)
