-- ===== src/Tui/Model.antt =====
-- internal/tui/game.go: the model of the terminal program, and its calls of the session. Indices are
-- natural numbers, since each decrement is guarded. A session is the save of its actor while that runs.
use ssh_idlefarmer.Prelude.{
  pos, suc, zero, some, [], ◌∷◌, Option, String, ℤ, ℕ, ◌++◌, Bool, List, ◌⊕◌, if◌then◌else◌, not,
  ltb, ltb_ℤ, length, ◌-◌, ◌||◌, ◌&&◌,
}
use ssh_idlefarmer.Sim.State.{State, new}
use ssh_idlefarmer.Content.{Content}
use ssh_idlefarmer.Game.Actor.{Save}
use ssh_idlefarmer.Sim.Outcome.{Error}
use ssh_idlefarmer.Sim.Events.{Events, is_uneventful, no_events}

pub data Screen : Type 0 where
  farm market land rebirth_hall progress stats help : Screen

pub data Overlay : Type 0 where
  no_overlay onboarding away_summary picker upgrade_menu rebirth_confirm name_editor kicked :
      Overlay

-- The texts of notices, as values that hold what is filled in.
pub data Text : Type 0 where
  refused_with : Error → Text
  shooed : String → ℤ → Text
  still_growing : ℤ → Text
  planted planted_free bought achieved : String → Text
  auto_harvests auto_sows : ℕ → Text
  tilled : ℤ → Text
  needs_earnings : ℤ → ℤ → Text
  now_level : String → ℤ → Text
  reborn : ℤ → Text
  finds_enabled finds_disabled nothing_ready gift_waits session_closed : Text
  called : List ℕ → Text
  parcel_starseeds parcel_coins : ℤ → Text
  golden_harvest : String → ℤ → Text
  failed_harvest : String → ℤ → String → Text
  harvested : String → ℤ → ℤ → Text
  harvested_plots : ℕ → ℤ → Text
  ready failed_away : String → ℤ → Text
  auto_gathered golden_count : ℤ → Text
  event_news : String → String → Text
  visited : String → Text

pub record Notice : Type 0 where
  pub text : Text
  pub expires : ℤ

pub data KickReason : Type 0 where
  no_reason drifted_off : KickReason
  told : String → KickReason

-- `Game`. Of the snapshot the state is kept.
pub record Ui : Type 0 where
  pub session : Option Save
  pub snap : State
  pub now : ℤ
  pub width : ℤ
  pub height : ℤ
  pub scr : Screen
  pub overlay : Overlay
  pub cursor : ℕ
  pub picker_idx : ℕ
  pub market_idx : ℕ
  pub upgrade_idx : ℕ
  pub progress_idx : ℕ
  pub help_page : ℕ
  pub help_scroll : ℕ
  pub name_input : List ℕ
  pub notices : List Notice
  pub away : Events
  pub kick_reason : KickReason
  pub quit_at : ℤ
  pub idle_timeout : ℤ
  pub last_input : ℤ

-- What `Update` asks of the program: nothing, to quit, or another tick in a second.
pub data Cmd : Type 0 where
  idle quit tick_again : Cmd

-- `NewGame`, for an attach that made the session `v`.
unfoldable pub new_game : Content → Save → Bool → Events → ℤ → ℤ → ℤ → ℤ → Ui
new_game c v created away width height now idle_timeout =
    let overlay =
      if created
      then onboarding
      else if not (is_uneventful away) || ltb_ℤ (pos 60) away.elapsed
      then away_summary
      else no_overlay in
    let shown = not created && (not (is_uneventful away) || ltb_ℤ (pos 60) away.elapsed) in
    record {
      session = some v;
      snap = new c 0 now;
      now = now;
      width = if ltb_ℤ width (pos 1) then pos 1 else width;
      height = if ltb_ℤ height (pos 1) then pos 1 else height;
      scr = farm;
      overlay = overlay;
      cursor = 0;
      picker_idx = 0;
      market_idx = 0;
      upgrade_idx = 0;
      progress_idx = 0;
      help_page = 0;
      help_scroll = 0;
      name_input = [];
      notices = [];
      away = if shown then away else no_events;
      kick_reason = no_reason;
      quit_at = pos 0;
      idle_timeout = idle_timeout;
      last_input = now;
    }

abbrev pub drop : {A : Type 0} → ℕ → List A → List A
drop zero xs = xs
drop (suc n) [] = []
drop (suc n) (x ∷ xs) = drop n xs

-- `addNotice`: the last four notices stay.
unfoldable pub add_notice : Text → Ui → Ui
add_notice t u =
    let ns = u.notices ++ record { text = t; expires = u.now ⊕ pos 6 } ∷ [] in
    record u { notices = if ltb 4 (length ns) then drop (length ns - 4) ns else ns }

-- `pruneNotices`
abbrev pub unexpired : ℤ → List Notice → List Notice
unexpired now [] = []
unexpired now (n ∷ ns) =
    let rest = unexpired now ns in if ltb_ℤ now n.expires then n ∷ rest else rest

unfoldable pub prune_notices : Ui → Ui
prune_notices u = record u { notices = unexpired u.now u.notices }

-- The snapshot that a call of the session hands back.
abbrev pub with_session : Save → Ui → Ui
with_session v u = record u { session = some v; snap = v.state }
