-- ===== src/Game/Effects.antt =====
-- The state after each step of internal/game's manager, by the cases that its code distinguishes.
use ssh_idlefarmer.Store.Rows.{save_key, SaveKey}
use ssh_idlefarmer.Prelude.Tables.{string_key, nat_key, put, drop_key, find}
use ssh_idlefarmer.Prelude.{
  false, true, suc, ◌∷◌, [], some, none, Bool, ℕ, ℤ, List, ◌≡◌, ◌&&◌, arith,
}
use ssh_idlefarmer.Game.Registry.{
  Codec, Actor, Manager, live_actor, warn_next, Handle, flush, stop_next, join, autosave,
  kick_session, session_advance, detach, deliver_kick, stop_actor, maintenance, session_intent,
  taken_over, is_held, release_actor, signed_off, holds, attached, turned_away, save_busy,
}
use ssh_idlefarmer.Content.{Content}
use ssh_idlefarmer.Game.Actor.{Save, tick, intent}
use ssh_idlefarmer.Game.Intents.{Intent}

pub live_actor-find :
    (k : SaveKey) (uid : ℕ) (m : Manager) {a : Actor}
    → live_actor k uid m ≡ some a
    → find k m.actors ≡ some a
unfolding live_actor
live_actor-find k uid m h = ground (arith, h)

-- The actor of a key with another save or session.
abbrev pub with_actor : SaveKey → Actor → Manager → Manager
with_actor k a m = record m { actors = put k a m.actors }

abbrev pub with_save : Actor → Save → Actor
with_save a v = record a { save = v }

module _ (c : Content) (now : ℤ) (h : Handle) (m : Manager) where
  pub advance_closed : live_actor h.key h.uid m ≡ none → (session_advance c now h m).1 ≡ m
  unfolding session_advance
  advance_closed e = ground (arith, e)

  pub advance_live :
      {a : Actor}
      → live_actor h.key h.uid m ≡ some a
      → (session_advance c now h m).1 ≡ with_actor h.key (with_save a (tick c now a.save).1) m
  unfolding session_advance
  advance_live e = ground (arith, e)

  module _ (float_sqrt : ℕ → ℕ) (i : Intent) where
    pub intent_closed :
        live_actor h.key h.uid m ≡ none → (session_intent float_sqrt c now i h m).1 ≡ m
    unfolding session_intent
    intent_closed e = ground (arith, e)

    pub intent_live :
        {a : Actor}
        → live_actor h.key h.uid m ≡ some a
        → (session_intent float_sqrt c now i h m).1
          ≡ with_actor h.key (with_save a (intent float_sqrt c now i a.save).1) m
    unfolding session_intent
    intent_live e = ground (arith, e)

module _ (cd : Codec) (written : Bool) (k : SaveKey) (m : Manager) where
  -- The store and the actor after a flush.
  abbrev pub flushed : Actor → Manager
  flushed a =
      let (v, st) = flush cd written k a.save m.store in
      record m { store = st; actors = put k (with_save a v) m.actors }

  abbrev pub stopped : Actor → Manager
  stopped a =
      let (v, st) = flush cd written k a.save m.store in
      record m { store = st; actors = drop_key k m.actors }

  pub autosave_closed : find k m.actors ≡ none → autosave cd written k m ≡ m
  unfolding autosave
  autosave_closed e = ground (arith, e)

  pub autosave_live : {a : Actor} → find k m.actors ≡ some a → autosave cd written k m ≡ flushed a
  unfolding autosave
  autosave_live e = ground (arith, e)

module _ (cd : Codec) (written again : Bool) (h : Handle) (m : Manager) where
  abbrev pub signed_off_after : Manager → Manager
  signed_off_after n = record n { kicks = deliver_kick h.id signed_off n.kicks }

  pub detach_closed :
      live_actor h.key h.uid m ≡ none → detach cd written again h m ≡ signed_off_after m
  unfolding detach
  detach_closed e = ground (arith, e)

  -- A session that is no longer the actor's only writes.
  pub detach_other :
      {a : Actor}
      → live_actor h.key h.uid m ≡ some a
      → holds h.id a.session ≡ false
      → detach cd written again h m ≡ signed_off_after (flushed cd written h.key m a)
  unfolding detach release_actor
  detach_other e f = ground (arith, e, f)

  -- The actor's own session stops it.
  pub detach_own :
      {a : Actor}
      → live_actor h.key h.uid m ≡ some a
      → holds h.id a.session ≡ true
      → detach cd written again h m
        ≡ signed_off_after (
            let (v, st) = flush cd written h.key a.save m.store in
            stopped cd again h.key
              (record m { store = st })
              (record a { save = v; session = none }))
  unfolding detach release_actor stop_actor
  detach_own e f = ground (arith, e, f)

module _ (m : Manager) where
  pub warn_idle : m.pending ≡ [] → warn_next m ≡ m
  unfolding warn_next
  warn_idle e = ground (arith, e)

  pub warn_gone :
      {k : SaveKey} {uid : ℕ} {rest : List (SaveKey × ℕ)}
      → m.pending ≡ (k, uid) ∷ rest
      → live_actor k uid m ≡ none
      → warn_next m ≡ record m { warned = true }
  unfolding warn_next
  warn_gone e f = ground (arith, e, f)

  pub warn_live :
      {k : SaveKey} {uid : ℕ} {rest : List (SaveKey × ℕ)} {a : Actor}
      → m.pending ≡ (k, uid) ∷ rest
      → live_actor k uid m ≡ some a
      → warn_next m ≡ record m {
        warned = true;
        kicks = kick_session a.session maintenance m.kicks;
        actors = put k (record a { session = none }) m.actors;
      }
  unfolding warn_next
  warn_live e f = ground (arith, e, f)

  module _ (cd : Codec) (written : Bool) where
    pub stop_unwarned : m.warned ≡ false → stop_next cd written m ≡ m
    unfolding stop_next
    stop_unwarned e = ground (arith, e)

    pub stop_idle : m.pending ≡ [] → stop_next cd written m ≡ m
    unfolding stop_next
    stop_idle e = ground (arith, e)

    pub stop_gone :
        {k : SaveKey} {uid : ℕ} {rest : List (SaveKey × ℕ)}
        → m.warned ≡ true
        → m.pending ≡ (k, uid) ∷ rest
        → live_actor k uid m ≡ none
        → stop_next cd written m ≡ record m { pending = rest; warned = false }
    unfolding stop_next live_actor
    stop_gone w e f = ground (arith, w, e, f)

    pub stop_live :
        {k : SaveKey} {uid : ℕ} {rest : List (SaveKey × ℕ)} {a : Actor}
        → m.warned ≡ true
        → m.pending ≡ (k, uid) ∷ rest
        → live_actor k uid m ≡ some a
        → stop_next cd written m
          ≡ stopped cd written k (record m { pending = rest; warned = false }) a
    unfolding stop_next live_actor stop_actor
    stop_live w e f = ground (arith, w, e, f)

module _ (c : Content) (k : SaveKey) (now : ℤ) (a : Actor) (created : Bool) (m : Manager) where
  abbrev pub joined : Manager
  joined = record m {
    next_id = suc m.next_id;
    actors =
        put k (record a { session = some (suc m.next_id); save = (tick c now a.save).1 }) m.actors;
    kicks = kick_session a.session taken_over m.kicks;
  }

  pub join_refused :
      (m.refuses && is_held a.session) ≡ true
      → join c k now a created m ≡ (turned_away save_busy, record m { next_id = suc m.next_id })
  unfolding join
  join_refused e = ground (arith, e)

  pub join_done :
      (m.refuses && is_held a.session) ≡ false
      → join c k now a created m ≡ (
        attached (record {
          handle = record { id = suc m.next_id; key = k; uid = a.uid };
          away = (tick c now a.save).0;
          created = created;
        }),
        joined,
      )
  unfolding join
  join_done e = ground (arith, e)
