-- ===== src/Tui/Keys.antt =====
-- internal/tui/game.go: the keys of each screen and overlay. A key has the name that the terminal
-- library gives it, and the code points of that name. What `unicode.IsPrint` says is a parameter.
use ssh_idlefarmer.Prelude.{
  pos, suc, zero, none, some, [], ◌∷◌, String, ℕ, List, ◌⊘◌, ℤ, map, if◌then◌else◌, Bool, not, ltb,
  ltb_ℤ, get_elem?, length, any, str_eq, ◌⊖◌, pos_part, ◌⊕◌, ◌++◌, leb, ◌||◌, ◌⊗◌, ◌-◌, ◌+◌, Option,
}
use ssh_idlefarmer.Game.Intents.{Intent}
use ssh_idlefarmer.Sim.Gifts
use ssh_idlefarmer.Sim.Shop
use ssh_idlefarmer.Content.{Content, Multiplier, SeedUpgrade, Zone, crop_by_id}
use ssh_idlefarmer.Tui.Model.{
  Ui, no_overlay, bought, now_level, picker, auto_harvests, tilled, shooed, add_notice,
  rebirth_confirm, auto_sows, reborn, needs_earnings, planted_free, planted, upgrade_menu,
  still_growing,
}
use ssh_idlefarmer.Tui.Notices.{act, do_harvest, harvest_all_ready, act_then, result_of, advanced}
use ssh_idlefarmer.Sim.Unlocks.{visible_crops}
use ssh_idlefarmer.Sim.Prices.{can_rebirth}
use ssh_idlefarmer.Sim.State.{upgrade_level}
use ssh_idlefarmer.Sim.Bonus.{plot_ready, mercy_plant_eligible, grow_seconds}

abbrev pub is_key : List String → String → Bool
is_key names key = any (str_eq key) names

abbrev pub confirms : List String
confirms = "enter" ∷ "space" ∷ " " ∷ []

abbrev pub buys : List String
buys = "enter" ∷ "space" ∷ " " ∷ "b" ∷ []

abbrev pub ups : List String
ups = "up" ∷ "k" ∷ []

abbrev pub downs : List String
downs = "down" ∷ "j" ∷ []

-- `if i > 0 { i-- }` and `if i < n-1 { i++ }`
abbrev pub one_up : ℕ → ℕ
one_up zero = zero
one_up (suc i) = i

abbrev pub one_down : ℕ → ℕ → ℕ
one_down n i = if ltb (suc i) n then suc i else i

-- `marketItem`, without what only the views read.
pub data ItemKind : Type 0 where
  multiplier strain zone : ItemKind

pub record MarketItem : Type 0 where
  pub kind : ItemKind
  pub id : String
  pub name : String

unfoldable pub market_items : Content → List MarketItem
market_items c =
    map (λ (m : Multiplier). record { kind = multiplier; id = m.id; name = m.name }) c.multipliers
    ++ map (λ (s : SeedUpgrade). record { kind = strain; id = s.id; name = s.name }) c.seed_upgrades
    ++ map (λ (z : Zone). record { kind = zone; id = z.id; name = z.name }) c.zones

abbrev pub purchase : MarketItem → Intent
purchase it = elim it.kind [
  | zone ↦ Intent.buy_zone it.id
  | multiplier ↦ Intent.buy_multiplier it.id
  | strain ↦ Intent.buy_seed_upgrade it.id
]

-- `contentWidth`, `contentHeight`, `compactFarm` and `farmColumns`
unfoldable pub content_width : Ui → ℤ
content_width u = (if ltb_ℤ u.width (pos 100) then u.width else pos 100) ⊖ pos 6

unfoldable pub content_height : Ui → ℤ
content_height u = (if ltb_ℤ u.height (pos 38) then u.height else pos 38) ⊖ pos 2

unfoldable pub compact_farm : Ui → Bool
unfolding content_width content_height
compact_farm u =
    let cw = content_width u in
    let per_row = cw ⊘ pos 22 in
    let rows =
      (pos (length u.snap.plots) ⊕ per_row ⊖ pos 1)
      ⊘ (if ltb_ℤ per_row (pos 1) then pos 1 else per_row) in
    ltb_ℤ cw (pos 66) || ltb_ℤ (content_height u) (rows ⊗ pos 3 ⊕ pos 10)

unfoldable pub farm_columns : Ui → ℕ
unfolding compact_farm content_width
farm_columns u =
    let cols = content_width u ⊘ pos 22 in
    if compact_farm u
    then 1
    else if ltb_ℤ cols (pos 1)
    then 1
    else if ltb_ℤ (pos 6) cols
    then 6
    else pos_part cols

module _ (float_sqrt : ℕ → ℕ) (c : Content) where
  abbrev pub or_0 : Option ℤ → ℤ
  or_0 none = pos 0
  or_0 (some x) = x

  -- What the session hands back beside the error: the reward, the price and the gain.
  abbrev pub shoo_reward : Ui → ℤ
  shoo_reward u = or_0 (result_of (Gifts.shoo_critter (advanced float_sqrt c u) c (pos u.cursor)))

  abbrev pub plot_price : Ui → ℤ
  plot_price u = or_0 (result_of (Shop.buy_plot (advanced float_sqrt c u) c))

  abbrev pub rebirth_gain : Ui → ℤ
  rebirth_gain u = or_0 (result_of (Gifts.rebirth float_sqrt (advanced float_sqrt c u) c u.now))

  -- The key x on a plot with a critter.
  unfoldable pub shoo : Ui → Ui
  unfolding act_then
  shoo u = elim (get_elem? u.snap.plots u.cursor) [
    | none ↦ u
    | some plot ↦
        if str_eq plot.critter ""
        then u
        else act_then float_sqrt c (Intent.shoo_critter (pos u.cursor))
            (λ u'. shooed plot.critter (shoo_reward u)) u
  ]

  -- Enter on a plot.
  unfoldable pub use_plot : Ui → Ui
  unfolding do_harvest
  use_plot u = elim (get_elem? u.snap.plots u.cursor) [
    | none ↦ u
    | some plot ↦
        if str_eq plot.crop ""
        then record u { picker_idx = 0; overlay = picker }
        else if plot_ready u.snap c (pos u.cursor) u.now
        then do_harvest float_sqrt c u.cursor u
        else elim (crop_by_id c plot.crop) [
          | none ↦ u
          | some crop ↦
              add_notice (still_growing (plot.planted_at ⊕ grow_seconds u.snap c crop ⊖ u.now)) u
        ]
  ]

  unfoldable pub handle_farm_key : String → Ui → Ui
  unfolding shoo use_plot harvest_all_ready farm_columns
  handle_farm_key key u =
      let cols = farm_columns u in
      let plots = length u.snap.plots in
      if str_eq key "left"
      then record u { cursor = one_up u.cursor }
      else if str_eq key "right"
      then record u { cursor = one_down plots u.cursor }
      else if str_eq key "up"
      then if leb cols u.cursor then record u { cursor = u.cursor - cols } else u
      else if str_eq key "down"
      then if ltb (u.cursor + cols) plots then record u { cursor = u.cursor + cols } else u
      else if str_eq key "u"
      then record u { upgrade_idx = u.cursor; overlay = upgrade_menu }
      else if str_eq key "x"
      then shoo u
      else if is_key confirms key
      then use_plot u
      else if str_eq key "a"
      then harvest_all_ready float_sqrt c u
      else u

  -- The choice of a crop.
  unfoldable pub plant_chosen : Ui → Ui
  unfolding act
  plant_chosen u = elim (get_elem? (visible_crops u.snap c.crops) u.picker_idx) [
    | none ↦ u
    | some crop ↦
        let (fine, u') = act float_sqrt c (Intent.plant (pos u.cursor) crop.id) u in
        if fine
        then add_notice
            (if mercy_plant_eligible u.snap c crop.id
              then planted_free crop.name
              else planted crop.name)
            (record u' { overlay = no_overlay })
        else u'
  ]

  unfoldable pub handle_picker_key : String → Ui → Ui
  unfolding plant_chosen
  handle_picker_key key u =
      if is_key ("esc" ∷ "q" ∷ []) key
      then record u { overlay = no_overlay }
      else if is_key ups key
      then record u { picker_idx = one_up u.picker_idx }
      else if is_key downs key
      then record u { picker_idx = one_down (length (visible_crops u.snap c.crops)) u.picker_idx }
      else if is_key confirms key
      then plant_chosen u
      else u

  unfoldable pub handle_upgrade_key : String → Ui → Ui
  unfolding act_then
  handle_upgrade_key key u =
      let i = u.upgrade_idx in
      if is_key ("esc" ∷ "q" ∷ []) key
      then record u { overlay = no_overlay }
      else if is_key ups key
      then record u { upgrade_idx = one_up i }
      else if is_key downs key
      then record u { upgrade_idx = one_down (length u.snap.plots) i }
      else if str_eq key "1"
      then act_then float_sqrt c (Intent.upgrade_plot_auto (pos i) "harvest")
          (λ u'. auto_harvests (suc i)) u
      else if str_eq key "2"
      then act_then float_sqrt c (Intent.upgrade_plot_auto (pos i) "sow") (λ u'. auto_sows (suc i))
          u
      else u

  unfoldable pub handle_market_key : String → Ui → Ui
  unfolding act_then
  handle_market_key key u =
      let items = market_items c in
      if is_key ups key
      then record u { market_idx = one_up u.market_idx }
      else if is_key downs key
      then record u { market_idx = one_down (length items) u.market_idx }
      else if is_key buys key
      then elim (get_elem? items u.market_idx) [
        | none ↦ u
        | some it ↦ act_then float_sqrt c (purchase it) (λ u'. bought it.name) u
      ]
      else u

  unfoldable pub handle_land_key : String → Ui → Ui
  unfolding act_then
  handle_land_key key u =
      if is_key buys key
      then act_then float_sqrt c Intent.buy_plot (λ u'. tilled (plot_price u)) u
      else u

  unfoldable pub handle_rebirth_key : String → Ui → Ui
  handle_rebirth_key key u =
      if not (str_eq key "R")
      then u
      else if can_rebirth float_sqrt u.snap c
      then record u { overlay = rebirth_confirm }
      else add_notice (needs_earnings c.prestige.min_earnings u.snap.run_earnings) u

  unfoldable pub handle_progress_key : String → Ui → Ui
  unfolding act_then
  handle_progress_key key u =
      if ltb_ℤ u.snap.rebirths (pos 1)
      then u
      else if is_key ups key
      then record u { progress_idx = one_up u.progress_idx }
      else if is_key downs key
      then record u { progress_idx = one_down (length c.upgrades) u.progress_idx }
      else if is_key buys key
      then elim (get_elem? c.upgrades u.progress_idx) [
        | none ↦ u
        | some up ↦
            act_then float_sqrt c (Intent.buy_upgrade up.id)
              (λ u'. now_level up.name (upgrade_level u'.snap up.id)) u
      ]
      else u

  unfoldable pub handle_rebirth_confirm_key : String → Ui → Ui
  unfolding act
  handle_rebirth_confirm_key key u =
      let (fine, u') = act float_sqrt c Intent.rebirth u in
      let closed = record u' { overlay = no_overlay } in
      if is_key ("y" ∷ "Y" ∷ []) key
      then if fine
        then add_notice (reborn (rebirth_gain u)) (record closed { cursor = 0 })
        else closed
      else if is_key ("n" ∷ "N" ∷ "esc" ∷ "q" ∷ []) key
      then record u { overlay = no_overlay }
      else u
