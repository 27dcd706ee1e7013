-- ===== src/Config/Accepted.antt =====
-- What holds of the settings that `Load` of internal/config/config.go accepts.
use mathlib.Core.Path.{subst}
use ssh_idlefarmer.Config.Load.{
  Host, check_service, check_limits, Config, second, valid, is_empty, load, read_config, refuse_if,
  Setting, ◌>>◌, invalid, bad_slot, ConfigError,
}
use ssh_idlefarmer.Prelude.{
  inr, inr, inl, refl, refl, pos, false, ◌∷◌, [], pos, true, ℕ, List, Bool, All, ◌≤ℤ◌, ◌≡◌, ◌⊎◌,
  all_runes, not, ◌↔◌, arith, ◌≢◌, eq_iff, List-cases, sym, ◌∙◌, ap, String,
}
use ssh_idlefarmer.Store.Saves.{slot_matches, valid_keys}
use ssh_idlefarmer.Identity.Sanitized.{
  IsSlot, sanitize_slot_twice, sanitize_slot-IsSlot, resolve_slot-IsSlot,
}
use ssh_idlefarmer.Identity.Slots.{sanitize_slot, is_slot_rune, resolve_slot}

module _ {F : Type 0} (host : Host F) where
  abbrev pub WithinLimits : Config F → Type 0
  WithinLimits cfg =
      (pos 1 ≤ℤ cfg.listen_port)
      × (cfg.listen_port ≤ℤ pos 65535)
      × (pos 1 ≤ℤ cfg.max_sessions_per_key)
      × (pos 1 ≤ℤ cfg.max_connections)
      × (host.at_most_0 cfg.rate_limit_per_second ≡ false)
      × (pos 1 ≤ℤ cfg.rate_limit_burst)
      × (pos 0 ≤ℤ cfg.idle_timeout)

  abbrev pub IsServiceable : Config F → Type 0
  IsServiceable cfg =
      (pos second ≤ℤ cfg.autosave_interval)
      × ((cfg.session_policy ≡ "takeover") ⊎ (cfg.session_policy ≡ "refuse"))
      × (cfg.db_path ≢ "")

  -- The settings are within the ranges that the errors of `Load` name.
  abbrev pub IsAcceptable : Config F → Type 0
  IsAcceptable cfg = WithinLimits cfg × (slot_matches cfg.default_slot ≡ true) × IsServiceable cfg

  -- The settings as read, with the slot that is sanitised.
  abbrev pub with_slot : Config F → Config F
  with_slot raw = record raw { default_slot = sanitize_slot host.to_lower raw.default_slot }

  check_limits-Within : (cfg : Config F) → (check_limits host cfg ≡ valid tt) ↔ WithinLimits cfg
  unfolding check_limits
  check_limits-Within cfg = ground arith

  check_service-Is : (cfg : Config F) → (check_service host cfg ≡ valid tt) ↔ IsServiceable cfg
  unfolding check_service
  check_service-Is cfg = ground (
    arith,
    eq_iff cfg.session_policy "takeover",
    eq_iff cfg.session_policy "refuse",
    eq_iff cfg.db_path "",
  )

all_runes-All : (p : ℕ → Bool) (rs : List ℕ) → All (λ r. p r ≡ true) rs → all_runes p rs ≡ true
all_runes-All p [] h = refl
all_runes-All p (r ∷ rs) h = ground (arith, h.0, all_runes-All p rs h.1)

slot_matches-IsSlot : (rs : List ℕ) → IsSlot rs → slot_matches rs ≡ not (is_empty rs)
unfolding slot_matches
slot_matches-IsSlot [] h = ground arith
slot_matches-IsSlot (r ∷ rs) h = ground (arith, h.1, all_runes-All is_slot_rune (r ∷ rs) h.0)

resolve_slot-sanitized :
    (to_lower : ℕ → ℕ) (username raw : List ℕ)
    → ((r : ℕ) → is_slot_rune r ≡ true → to_lower r ≡ r)
    → is_empty (sanitize_slot to_lower raw) ≡ false
    → is_empty (resolve_slot to_lower username (sanitize_slot to_lower raw)) ≡ false
unfolding resolve_slot
resolve_slot-sanitized to_lower username raw fixed h =
    elim (List-cases (sanitize_slot to_lower username)) [
      | inl e ↦ ground (arith, e, sanitize_slot_twice to_lower fixed raw, h)
      | inr (r, rs, e) ↦ ground (arith, e)
    ]

-- A check and what comes after it succeed when both do.
valid_after :
    {B : Type 0} (m : Setting (Unit {0})) (k : Setting B) (b : B)
    → ((m >> k) ≡ valid b) ↔ ((m ≡ valid tt) × (k ≡ valid b))
valid_after (valid u) k b = ground arith
valid_after (invalid e) k b = ground arith

load_steps :
    {F : Type 0} (host : Host F) (raw : Config F)
    → read_config host ≡ valid raw
    → let cfg = with_slot host raw in
      load host ≡ (
        check_limits host raw
        >> (refuse_if (is_empty cfg.default_slot) bad_slot
            >> (check_service host cfg >> valid cfg)))
unfolding load
load_steps host raw h = rw h refl

slot_check :
    {F : Type 0} (host : Host F) (raw : Config F)
    → let slot = sanitize_slot host.to_lower raw.default_slot in
      (refuse_if (is_empty slot) bad_slot ≡ valid tt) ↔ (slot_matches slot ≡ true)
slot_check host raw =
    let slot = sanitize_slot host.to_lower raw.default_slot in
    ground (arith, slot_matches-IsSlot slot (sanitize_slot-IsSlot host.to_lower raw.default_slot))

-- When all variables can be read, Load accepts the settings, with the slot sanitised, exactly when
-- the port is between 1 and 65535, the sessions per key, the connections and the burst are at
-- least 1, the rate is not at most 0, the idle timeout is not negative, the sanitised slot matches
-- the pattern of the store, the autosave interval is at least a second, the policy is takeover or
-- refuse, and the database path is not empty.
pub load_iff_IsAcceptable :
    {F : Type 0} (host : Host F) (raw : Config F)
    → read_config host ≡ valid raw
    → (load host ≡ valid (with_slot host raw)) ↔ IsAcceptable host (with_slot host raw)
load_iff_IsAcceptable host raw h =
    let cfg = with_slot host raw in
    let service = check_service host cfg >> valid cfg in
    let named = refuse_if (is_empty cfg.default_slot) bad_slot >> service in
    let a = valid_after (check_limits host raw) named cfg in
    let b = valid_after (refuse_if (is_empty cfg.default_slot) bad_slot) service cfg in
    let d = valid_after (check_service host cfg) (valid cfg) cfg in
    let limits = check_limits-Within host raw in
    let slot = slot_check host raw in
    let serves = check_service-Is host cfg in
    (
      λ e.
          let (l, e1) = a.0 (sym (load_steps host raw h) ∙ e) in
          let (s, e2) = b.0 e1 in (limits.0 l, slot.0 s, serves.0 (d.0 e2).0),
      λ (l, s, v). load_steps host raw h ∙ a.1 (limits.1 l, b.1 (slot.1 s, d.1 (serves.1 v, refl))),
    )

Setting-cases :
    {A : Type 0} (m : Setting A) → ((a : A) × (m ≡ valid a)) ⊎ ((e : ConfigError) × (m ≡ invalid e))
Setting-cases (valid a) = inl (a, refl)
Setting-cases (invalid e) = inr (e, refl)

-- What `Load` answers is what was read, with the slot that is sanitised.
load-read :
    {F : Type 0} (host : Host F) {cfg : Config F}
    → load host ≡ valid cfg
    → (raw : Config F) × (read_config host ≡ valid raw) × (cfg ≡ with_slot host raw)
load-read host {cfg} e = elim (Setting-cases (read_config host)) [
  | inl (raw, r) ↦
      let t = with_slot host raw in
      let service = check_service host t >> valid t in
      let named = refuse_if (is_empty t.default_slot) bad_slot >> service in
      let (l, e1) =
        (valid_after (check_limits host raw) named cfg).0 (sym (load_steps host raw r) ∙ e) in
      let (s, e2) = (valid_after (refuse_if (is_empty t.default_slot) bad_slot) service cfg).0 e1 in
      let (v, e3) = (valid_after (check_service host t) (valid t) cfg).0 e2 in (raw, r, cc)
  | inr (bad, r) ↦ absurd (unfold load in ground (arith, r, e))
]

-- x
pub load-IsAcceptable :
    {F : Type 0} (host : Host F) {cfg : Config F} → load host ≡ valid cfg → IsAcceptable host cfg
load-IsAcceptable host {cfg} e =
    let (raw, r, same) = load-read host e in
    subst (IsAcceptable host) (sym same) ((load_iff_IsAcceptable host raw r).0 (e ∙ ap valid same))

-- With settings that Load accepts, and where lower-casing leaves the letters a to z, the digits,
-- the dash and the underscore as they are, the slot that ResolveSlot makes of any user name passes
-- the key validation of the store under any fingerprint that is not empty.
pub valid_keys-resolve_slot :
    {F : Type 0} (host : Host F) {cfg : Config F} (fingerprint : String) (username : List ℕ)
    → load host ≡ valid cfg
    → ((r : ℕ) → is_slot_rune r ≡ true → host.to_lower r ≡ r)
    → fingerprint ≢ ""
    → valid_keys (record {
      fingerprint = fingerprint;
      slot = resolve_slot host.to_lower username cfg.default_slot;
    })
      ≡ true
unfolding valid_keys
valid_keys-resolve_slot host {cfg} fingerprint username e fixed named =
    let (raw, r, same) = load-read host e in
    let (l, slot, v) = load-IsAcceptable host e in
    let slot_of = sanitize_slot host.to_lower raw.default_slot in
    let chosen = resolve_slot host.to_lower username cfg.default_slot in
    let d : cfg.default_slot ≡ slot_of = ap (λ (c : Config _). c.default_slot) same in
    let full : is_empty slot_of ≡ false = ground (
      arith,
      slot,
      d,
      slot_matches-IsSlot slot_of (sanitize_slot-IsSlot host.to_lower raw.default_slot),
    ) in
    let more : is_empty chosen ≡ false =
      rw d (resolve_slot-sanitized host.to_lower username raw.default_slot fixed full) in
    let kept =
      slot_matches-IsSlot chosen (resolve_slot-IsSlot host.to_lower username cfg.default_slot) in
    ground (arith, eq_iff fingerprint "", named, kept, more)
