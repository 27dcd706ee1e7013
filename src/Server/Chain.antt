-- ===== src/Server/Chain.antt =====
-- internal/server: the middlewares that `New` chains, for one connection, with the calls that they defer,
-- and the start of its UI. What logging and the rate limiter do is left out. A key is what `Fingerprint`
-- and `MarshalAuthorizedKey` make of it. The UI is a parameter: it may do anything to the manager, and
-- it returns or panics.
use ssh_idlefarmer.Server.Limits.{Limits, acquire, release}
use ssh_idlefarmer.Game.Registry.{
  Manager, Codec, AttachLuck, AttachError, Attached, Attempt, attached, turned_away, shutting_down,
  save_busy, account_error, load_error, decode_error, attach, detach,
}
use ssh_idlefarmer.Identity.Slots.{resolve_slot}
use ssh_idlefarmer.Prelude.{
  pos, ◌∷◌, [], some, none, List, ℤ, ℕ, String, Option, if◌then◌else◌, ◌++◌, Bool,
}
use ssh_idlefarmer.Content.{Content}
use ssh_idlefarmer.Game.Actor.{Save}
use ssh_idlefarmer.Store.Rows.{SaveKey}
use ssh_idlefarmer.Tui.Model.{Ui, new_game}

-- What a client may be told in place of the game.
pub data Line : Type 0 where
  key_required : Line
  too_many_sessions : ℤ → ℤ → Line
  terminal_required farm_open farm_unavailable : Line

pub record World : Type 0 where
  pub limits : Limits
  pub games : Manager
  pub sent : List Line
  pub status : Option ℤ  -- of `Exit`

pub data Ending : Type 0 where
  returned panicked : Ending

abbrev pub Handler : Type 0
Handler = World → Ending × World

-- `io.WriteString`, `Exit` and the return.
abbrev pub turn_away : Line → ℤ → Handler
turn_away line code w = (returned, record w { sent = w.sent ++ line ∷ []; status = some code })

-- A deferred call runs however the handler ends.
abbrev pub deferred : (World → World) → Ending × World → Ending × World
deferred f (e, w) = (e, f w)

pub record PublicKey : Type 0 where
  pub fingerprint : String
  pub marshalled : String

-- `ssh.Session`
pub record Client : Type 0 where
  pub key : Option PublicKey
  pub user : List ℕ
  pub pty : Option (ℤ × ℤ)

abbrev pub release_of : String → World → World
release_of fingerprint w = record w { limits = release w.limits fingerprint }

-- `SessionLimits.Middleware`
unfoldable pub limit_middleware : Client → Handler → Handler
limit_middleware client next w = elim client.key [
  | none ↦ turn_away key_required (pos 1) w
  | some key ↦
      let (granted, l) = acquire w.limits key.fingerprint in
      let w' = record w { limits = l } in
      if granted
      then deferred (release_of key.fingerprint) (next w')
      else turn_away (too_many_sessions w.limits.max_global w.limits.max_per_key) (pos 1) w'
]

unfoldable pub require_pty : Client → Handler → Handler
require_pty client next w = elim client.pty [
  | none ↦ turn_away terminal_required (pos 0) w
  | some size ↦ next w
]

-- `FromSession`, and the key that `attachSave` hands to `Attach`.
abbrev pub fingerprint_of : Client → String
fingerprint_of client = elim client.key [ none ↦ "" | some key ↦ key.fingerprint ]

abbrev pub marshalled_key : Client → String
marshalled_key client = elim client.key [ none ↦ "" | some key ↦ key.marshalled ]

unfoldable pub from_session : (ℕ → ℕ) → List ℕ → Client → SaveKey
from_session to_lower default_slot client = record {
  fingerprint = fingerprint_of client;
  slot = resolve_slot to_lower client.user default_slot;
}

abbrev pub apology : AttachError → Line
apology save_busy = farm_open
apology shutting_down = farm_unavailable
apology (account_error e) = farm_unavailable
apology (load_error e) = farm_unavailable
apology (decode_error e) = farm_unavailable

module _ (cd : Codec) (c : Content) (to_lower : ℕ → ℕ) (default_slot : List ℕ) where
  -- What the clock, the store and the random source give to one connection.
  pub record Luck : Type 0 where
    pub attaching : AttachLuck
    pub now : ℤ
    pub written : Bool
    pub again : Bool

  abbrev pub detach_of : Luck → Attached → World → World
  detach_of luck a w = record w { games = detach cd luck.written luck.again a.handle w.games }

  abbrev pub attach_of : Luck → Client → Manager → Attempt × Manager
  attach_of luck client m =
      attach cd c luck.attaching (from_session to_lower default_slot client) (marshalled_key client)
        luck.now m

  unfoldable pub attach_save : Luck → Client → (Attached → Handler) → Handler
  attach_save luck client next w =
      let (attempt, m) = attach_of luck client w.games in
      let w' = record w { games = m } in
      elim attempt [
        | turned_away e ↦ turn_away (apology e) (pos 1) w'
        | attached a ↦ deferred (detach_of luck a) (next a w')
      ]

  -- The chain of `New`: caps, terminal, save, UI.
  unfoldable pub serve : Luck → Client → (Attached → Handler) → Handler
  unfolding limit_middleware require_pty attach_save
  serve luck client ui = limit_middleware client (require_pty client (attach_save luck client ui))

-- `teaHandler`: the size of the terminal, or 80 by 24; none is the error screen. `v` is the save of the
-- session that `attachSave` put into the context.
unfoldable pub tea_handler : Content → Client → Option (Save × Attached) → ℤ → ℤ → Option Ui
tea_handler c client none now idle_timeout = none
tea_handler c client (some (v, a)) now idle_timeout =
    let (width, height) : ℤ × ℤ = elim client.pty [ none ↦ (pos 80, pos 24) | some size ↦ size ] in
    some (new_game c v a.created a.away width height now idle_timeout)
