-- ===== src/Game/Registry.antt =====
-- internal/game/manager.go and actor.go: the registry of active saves. An actor's goroutine runs one
-- closure at a time, and `Attach` and `detach` hold the manager's mutex, so each function here is one
-- step. A session keeps a pointer to its actor; here an actor has a number, `uid`, and a session is
-- served while the actor of its key has its number.
use ssh_idlefarmer.Prelude.Tables.{string_key, nat_key, Table, put, find, drop_key}
use ssh_idlefarmer.Store.Rows.{
  save_key, SaveKey, Answer, StoreError, Store, Payload, got, SaveRow, fault,
}
use ssh_idlefarmer.Prelude.{
  false, false, true, suc, ◌∷◌, [], some, none, String, Option, Bool, ℕ, length, str_eq, List, ℤ,
  if◌then◌else◌, ◌==◌, not, ◌&&◌,
}
use ssh_idlefarmer.Content.{Content}
use ssh_idlefarmer.Sim.Events.{Events}
use ssh_idlefarmer.Sim.State.{State, DecodeError, Decoded, refused, decode_state, decoded}
use ssh_idlefarmer.Game.Actor.{Save, tick, intent, persist, Reply}
use ssh_idlefarmer.Store.Saves.{Weather, persist_save, load_or_create, touch_account}
use ssh_idlefarmer.Sim.State.{new}
use ssh_idlefarmer.Game.Intents.{Intent}

-- `Encode`, and the JSON part of `DecodeState`.
pub record Codec : Type 0 where
  pub encode : State → Payload
  pub parse : Payload → Option State

pub record Actor : Type 0 where
  pub uid : ℕ
  pub save : Save
  pub session : Option ℕ

-- `Session`: its own number and its actor.
pub record Handle : Type 0 where
  pub id : ℕ
  pub key : SaveKey
  pub uid : ℕ

-- The reasons that `deliverKick` gets; `signed_off` is the empty one of `Detach`.
pub data Kick : Type 0 where
  taken_over maintenance signed_off : Kick

pub record Manager : Type 0 where
  pub store : Store
  pub refuses : Bool  -- PolicyRefuse
  pub actors : Table SaveKey Actor
  pub closing : Bool
  pub next_id : ℕ
  pub next_uid : ℕ
  pub kicks : Table ℕ Kick  -- what each session was told first
  pub pending : List (SaveKey × ℕ)  -- the actors that Shutdown has still to stop
  pub warned : Bool  -- whether it has kicked the session of the first of them

-- `NewManager`: any policy but PolicyRefuse is PolicyTakeover.
unfoldable pub new_manager : String → Store → Manager
new_manager policy st = record {
  store = st;
  refuses = str_eq policy "refuse";
  actors = [];
  closing = false;
  next_id = 0;
  next_uid = 0;
  kicks = [];
  pending = [];
  warned = false;
}

-- `deliverKick`, which acts once for each session.
unfoldable pub deliver_kick : ℕ → Kick → Table ℕ Kick → Table ℕ Kick
deliver_kick id reason kicks = elim (find id kicks) [ none ↦ put id reason kicks | some r ↦ kicks ]

unfoldable pub kick_session : Option ℕ → Kick → Table ℕ Kick → Table ℕ Kick
unfolding deliver_kick
kick_session none reason kicks = kicks
kick_session (some id) reason kicks = deliver_kick id reason kicks

-- `do`: the actor of a key, if it is the one that is meant and still runs.
unfoldable pub live_actor : SaveKey → ℕ → Manager → Option Actor
live_actor k uid m = elim (find k m.actors) [
  | none ↦ none
  | some a ↦ if a.uid == uid then some a else none
]

abbrev pub is_got : {A : Type 0} → Answer A → Bool
is_got (got a) = true
is_got (fault e) = false

-- `persist`, on the store: a dirty save is encoded and written.
unfoldable pub flush : Codec → Bool → SaveKey → Save → Store → Save × Store
flush cd written k v st =
    let (answer, st') =
      persist_save written k (cd.encode v.state) v.state.version v.state.updated_at st in
    if v.dirty then ((persist (is_got answer) v).1, st') else (v, st)

-- What a call of `Attach` finds: the statements of the store, and the random seed.
pub record AttachLuck : Type 0 where
  pub touches : Bool
  pub weather : Weather
  pub seed : ℕ

pub data AttachError : Type 0 where
  shutting_down save_busy : AttachError
  account_error load_error : StoreError → AttachError
  decode_error : DecodeError → AttachError

-- `AttachResult`
pub record Attached : Type 0 where
  pub handle : Handle
  pub away : Events
  pub created : Bool

pub data Attempt : Type 0 where
  attached : Attached → Attempt
  turned_away : AttachError → Attempt

-- `a.session != nil`, and `a.session == s`
abbrev pub is_held : Option ℕ → Bool
is_held none = false
is_held (some id) = true

abbrev pub holds : ℕ → Option ℕ → Bool
holds id none = false
holds id (some own) = own == id

-- The end of `Attach`: the policy, then the session on the actor and the catch-up.
unfoldable pub join : Content → SaveKey → ℤ → Actor → Bool → Manager → Attempt × Manager
join c k now a created m =
    let id = suc m.next_id in
    let (away, v) = tick c now a.save in
    let m' = record m { next_id = id } in
    if m.refuses && is_held a.session then (turned_away save_busy, m') else (
      attached (record {
        handle = record { id = id; key = k; uid = a.uid };
        away = away;
        created = created;
      }),
      record m' {
        actors = put k (record a { session = some id; save = v }) m.actors;
        kicks = kick_session a.session taken_over m.kicks;
      },
    )

-- A save that was loaded gets an actor, unless it does not decode.
unfoldable pub join_new : Content → SaveKey → ℤ → Bool → Decoded → Manager → Attempt × Manager
unfolding join
join_new c k now created (refused e) m = (turned_away (decode_error e), m)
join_new c k now created (decoded s) m =
    let a : Actor = record {
      uid = m.next_uid;
      save = record { state = s; dirty = false };
      session = none;
    } in
    join c k now a created (record m { actors = put k a m.actors; next_uid = suc m.next_uid })

-- What `LoadOrCreateSave` answered.
unfoldable pub join_loaded :
    Codec → Content → SaveKey → ℤ → Answer (SaveRow × Bool) → Manager → Attempt × Manager
unfolding join_new
join_loaded cd c k now (fault e) m = (turned_away (load_error e), m)
join_loaded cd c k now (got (row, created)) m =
    join_new c k now created (decode_state (cd.parse row.payload)) m

-- `sim.New` and `Encode`, for a save that is not there.
unfoldable pub fresh_save : Codec → Content → ℕ → ℤ → Payload × ℤ
fresh_save cd c seed now = let s = new c seed now in (cd.encode s, s.version)

unfoldable pub load_and_join :
    Codec → Content → AttachLuck → SaveKey → ℤ → Manager → Attempt × Manager
unfolding join_loaded
load_and_join cd c luck k now m =
    let (answer, st) =
      load_or_create luck.weather k now (some (fresh_save cd c luck.seed now)) m.store in
    join_loaded cd c k now answer (record m { store = st })

unfoldable pub attach :
    Codec → Content → AttachLuck → SaveKey → String → ℤ → Manager → Attempt × Manager
unfolding load_and_join
attach cd c luck k public_key now m =
    let (answer, st) = touch_account luck.touches k.fingerprint public_key now m.store in
    let m' = record m { store = st } in
    if m.closing then (turned_away shutting_down, m) else elim answer [
      | fault e ↦ (turned_away (account_error e), m')
      | got u ↦ elim (find k m.actors) [
        | none ↦ load_and_join cd c luck k now m'
        | some a ↦ join c k now a false m'
      ]
    ]

-- `stopActorLocked`: the final flush, and the actor leaves the registry.
unfoldable pub stop_actor : Codec → Bool → SaveKey → Actor → Manager → Manager
stop_actor cd written k a m =
    let (v, st) = flush cd written k a.save m.store in
    record m { store = st; actors = drop_key k m.actors }

-- `detach`, of a session whose actor runs: a write, then a stop if the session was the actor's. The two
-- Booleans say whether the store takes the write of each.
unfoldable pub release_actor : Codec → Bool → Bool → Handle → Actor → Manager → Manager
unfolding stop_actor
release_actor cd written again h a m =
    let (v, st) = flush cd written h.key a.save m.store in
    let m' = record m { store = st } in
    if holds h.id a.session
    then stop_actor cd again h.key (record a { save = v; session = none }) m'
    else record m' { actors = put h.key (record a { save = v }) m.actors }

-- `Session.Detach`
unfoldable pub detach : Codec → Bool → Bool → Handle → Manager → Manager
unfolding release_actor
detach cd written again h m =
    let m' : Manager = elim (live_actor h.key h.uid m) [
      | none ↦ m
      | some a ↦ release_actor cd written again h a m
    ] in
    record m' { kicks = deliver_kick h.id signed_off m'.kicks }

-- `Session.Advance`; none is ErrSessionClosed.
unfoldable pub session_advance : Content → ℤ → Handle → Manager → Option Events × Manager
session_advance c now h m = elim (live_actor h.key h.uid m) [
  | none ↦ (none, m)
  | some a ↦
      let (ev, v) = tick c now a.save in
      (some ev, record m { actors = put h.key (record a { save = v }) m.actors })
]

-- `Session.intent`, behind each intent of the session.
unfoldable pub session_intent :
    (ℕ → ℕ) → Content → ℤ → Intent → Handle → Manager → Option Reply × Manager
session_intent float_sqrt c now i h m = elim (live_actor h.key h.uid m) [
  | none ↦ (none, m)
  | some a ↦
      let (r, v) = intent float_sqrt c now i a.save in
      (some r, record m { actors = put h.key (record a { save = v }) m.actors })
]

-- The ticker of `run`.
unfoldable pub autosave : Codec → Bool → SaveKey → Manager → Manager
autosave cd written k m = elim (find k m.actors) [
  | none ↦ m
  | some a ↦
      let (v, st) = flush cd written k a.save m.store in
      record m { store = st; actors = put k (record a { save = v }) m.actors }
]

-- The actors of the registry, as `Shutdown` collects them.
unfoldable pub running : Table SaveKey Actor → List (SaveKey × ℕ)
running [] = []
running ((k, a) ∷ rows) = (k, a.uid) ∷ running rows

-- `Shutdown` up to its unlock.
unfoldable pub begin_shutdown : Manager → Manager
begin_shutdown m = record m { closing = true; pending = running m.actors; warned = false }

-- The closure that it runs on the next actor.
unfoldable pub warn_next : Manager → Manager
warn_next m = elim m.pending [
  | [] ↦ m
  | ◌∷◌ (k, uid) rest ↦ elim (live_actor k uid m) [
    | none ↦ record m { warned = true }
    | some a ↦ record m {
      warned = true;
      kicks = kick_session a.session maintenance m.kicks;
      actors = put k (record a { session = none }) m.actors;
    }
  ]
]

-- Then it stops that actor.
unfoldable pub stop_next : Codec → Bool → Manager → Manager
unfolding stop_actor
stop_next cd written m = if not m.warned then m else elim m.pending [
  | [] ↦ m
  | ◌∷◌ (k, uid) rest ↦
      let m' = record m { pending = rest; warned = false } in
      elim (live_actor k uid m) [ none ↦ m' | some a ↦ stop_actor cd written k a m' ]
]

-- `ActiveSaves`
unfoldable pub active_saves : Manager → ℕ
active_saves m = length m.actors
