-- ===== src/Server/Doors.antt =====
-- The doors of the chain of internal/server, and the counters of its limits.
use ssh_idlefarmer.Server.Sessions.{
  Server, Reachable, connect, connects, disconnects, next, remove_one, count_key,
}
use ssh_idlefarmer.Server.Invariant.{Reachable-Inv}
use ssh_idlefarmer.Prelude.{
  inr, inr, inl, refl, false, true, ◌∷◌, some, none, Option, ℤ, Bool, ◌≡◌, InRange, ℕ, String, List,
  ◌⊎◌, arith, eq_iff, ltb_ℤ, ◌&&◌, ◌<◌, Option-cases, ◌∙◌, sym, Bool-cases,
}
use ssh_idlefarmer.Game.Registry.{Attempt, Codec, Attached, attached, turned_away, AttachError}
use ssh_idlefarmer.Server.Limits.{Limits, acquire, sessions_of, release}
use ssh_idlefarmer.Content.{Content}
use ssh_idlefarmer.Server.Chain.{
  Luck, serve, limit_middleware, Client, World, require_pty, attach_save, Handler, attach_of,
}
use mathlib.Core.Path.{subst}

abbrev pub is_attached : Attempt → Bool
is_attached (attached a) = true
is_attached (turned_away e) = false

abbrev pub has_size : Option (ℤ × ℤ) → Bool
has_size none = false
has_size (some size) = true

Attempt-cases :
    (r : Attempt) → ((a : Attached) × (r ≡ attached a)) ⊎ ((e : AttachError) × (r ≡ turned_away e))
Attempt-cases (attached a) = inl (a, refl)
Attempt-cases (turned_away e) = inr (e, refl)

-- The counters of two limits are the same.
abbrev pub SameCounts : Limits → Limits → Type 0
SameCounts l l' = (l'.global ≡ l.global) × ((k : String) → sessions_of l' k ≡ sessions_of l k)

refused_limits : (l : Limits) (k : String) → (acquire l k).0 ≡ false → (acquire l k).1 ≡ l
unfolding acquire
refused_limits l k h = ground arith

module _ (max_global max_per_key : ℤ) (gr : InRange max_global) (kr : InRange max_per_key) where
  acquired_and_released :
      {v : Server} (k : String)
      → Reachable max_global max_per_key v
      → (acquire v.limits k).0 ≡ true
      → SameCounts v.limits (release (acquire v.limits k).1 k)
  unfolding connect remove_one
  acquired_and_released {v} k r granted =
      let l = (acquire v.limits k).1 in
      let during : Server = record { limits = l; running = k ∷ v.running } in
      let after : Server = record { limits = release l k; running = v.running } in
      let came : (connect v (some k)).1 ≡ during = ground (arith, granted) in
      let r' : Reachable max_global max_per_key during =
        subst (Reachable max_global max_per_key) came (next r (connects v (some k))) in
      let gone : remove_one k (k ∷ v.running) ≡ v.running = ground (arith, eq_iff k k) in
      let held : 0 < count_key k during.running = ground (arith, eq_iff k k) in
      let left : Reachable max_global max_per_key after =
        subst
          (λ ks. Reachable max_global max_per_key (record { limits = release l k; running = ks }))
          gone (next r' (disconnects during k held)) in
      let i = Reachable-Inv max_global max_per_key gr kr r in
      let j = Reachable-Inv max_global max_per_key gr kr left in
      (j.global_counts ∙ sym i.global_counts, λ q. j.key_counts q ∙ sym (i.key_counts q))

module _ (cd : Codec) (c : Content) (to_lower : ℕ → ℕ) (default_slot : List ℕ) where
  -- Whether a client passes every door.
  abbrev pub admits : Luck cd c to_lower default_slot → Client → World → Bool
  admits luck client w = elim client.key [
    | none ↦ false
    | some key ↦
        ltb_ℤ w.limits.global w.limits.max_global
        && ltb_ℤ (sessions_of w.limits key.fingerprint) w.limits.max_per_key
        && has_size client.pty
        && is_attached (attach_of cd c to_lower default_slot luck client w.games).0
  ]

  -- The UI has no effect on a client that does not pass every door: it has a key, the caps leave
  -- room for it, it has a terminal, and its save is attached.
  pub serve-apart :
      (luck : Luck cd c to_lower default_slot) (client : Client) (ui ui' : Attached → Handler)
      (w : World)
      → admits luck client w ≡ false
      → serve cd c to_lower default_slot luck client ui w
        ≡ serve cd c to_lower default_slot luck client ui' w
  unfolding serve limit_middleware require_pty attach_save acquire
  serve-apart luck client ui ui' w h = elim (Option-cases client.key) [
    | inl e ↦ ground (arith, e)
    | inr (key, e) ↦ elim (Option-cases client.pty) [
      | inl e' ↦ ground (arith, e, e')
      | inr (size, e') ↦
          elim (Attempt-cases (attach_of cd c to_lower default_slot luck client w.games).0) [
            | inl (a, e'') ↦ ground (arith, e, e', e'', h)
            | inr (x, e'') ↦ ground (arith, e, e', e'', h)
          ]
    ]
  ]

  inner_limits :
      (luck : Luck cd c to_lower default_slot) (client : Client) (ui : Attached → Handler)
      (t : World)
      → ((a : Attached) (t' : World) → (ui a t').1.limits ≡ t'.limits)
      → (require_pty client (attach_save cd c to_lower default_slot luck client ui) t).1.limits
        ≡ t.limits
  unfolding require_pty attach_save
  inner_limits luck client ui t same = elim (Option-cases client.pty) [
    | inl e ↦ ground (arith, e)
    | inr (size, e) ↦
        let (attempt, m) = attach_of cd c to_lower default_slot luck client t.games in
        elim (Attempt-cases attempt) [
          | inl (a, e') ↦ ground (arith, e, e', same a (record t { games = m }))
          | inr (x, e') ↦ ground (arith, e, e')
        ]
  ]

  -- With int64 caps, and limits that a server can reach: where the UI leaves the limits alone, the
  -- handler of a connection gives back what it took, whichever door refuses the client, whether
  -- its UI returns or panics: the global counter and the counter of every key are as before.
  pub serve-SameCounts :
      (max_global max_per_key : ℤ)
      → InRange max_global
      → InRange max_per_key
      → {v : Server} → Reachable max_global max_per_key v
      → (luck : Luck cd c to_lower default_slot) (client : Client) (ui : Attached → Handler)
        (w : World)
      → w.limits ≡ v.limits
      → ((a : Attached) (t : World) → (ui a t).1.limits ≡ t.limits)
      → SameCounts v.limits (serve cd c to_lower default_slot luck client ui w).1.limits
  unfolding serve limit_middleware
  serve-SameCounts mg mk gr kr {v} r luck client ui w e same = elim (Option-cases client.key) [
    | inl e₁ ↦ subst (SameCounts v.limits) (ground (arith, e, e₁)) (refl, λ k. refl)
    | inr (key, e₁) ↦
        let k = key.fingerprint in
        let t = record w { limits = (acquire w.limits k).1 } in
        let kept = inner_limits luck client ui t same in
        elim (Bool-cases (acquire v.limits k).0) [
          | inl granted ↦
              subst (SameCounts v.limits) (ground (arith, e, e₁, granted, kept))
                (acquired_and_released mg mk gr kr k r granted)
          | inr full ↦
              subst (SameCounts v.limits) (ground (arith, e, e₁, full, refused_limits v.limits k))
                (refl, λ j. refl)
        ]
  ]
