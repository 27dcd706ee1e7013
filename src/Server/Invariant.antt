-- ===== src/Server/Invariant.antt =====
-- The counters of internal/server/limits.go count the sessions that run, and stay within the caps.
use ssh_idlefarmer.Server.Limits.{Limits, new, sessions_of, acquire, release}
use ssh_idlefarmer.Server.Sessions.{
  Server, Step, connects, disconnects, Reachable, start, next, connect, remove_one, count_key,
  served,
}
use ssh_idlefarmer.Prelude.{
  inr, false, inr, inl, [], none, ℤ, String, InRange, ◌≡◌, List, ◌<◌, pos, ◌⊕◌, Option,
  if◌then◌else◌, length, str_eq, ◌≤◌, some, ◌+◌, ◌-◌, ◌∷◌, pos_part, arith, eq_iff, Bool-cases, ◌↔◌,
  ◌⊖◌, lookup_or-insert, lookup_or, lookup_or-erase, lookup, ◌<ℤ◌,
}

pub record Inv (max_global max_per_key : ℤ) (v : Server) : Type 0 where
  pub global_counts : v.limits.global ≡ pos (length v.running)
  pub key_counts : (k : String) → sessions_of v.limits k ≡ pos (count_key k v.running)
  pub global_cap : v.limits.max_global ≡ max_global
  pub key_cap : v.limits.max_per_key ≡ max_per_key
  pub global_fits : length v.running ≤ pos_part max_global
  pub key_fits : (k : String) → count_key k v.running ≤ pos_part max_per_key

length-remove_one :
    (k : String) (js : List String) → 0 < count_key k js → length (remove_one k js) + 1 ≡ length js
unfolding remove_one
length-remove_one k [] h = elim h [ ]
length-remove_one k (j ∷ js) h = ground (arith, length-remove_one k js)

count_key-remove_one :
    (k i : String) (js : List String)
    → 0 < count_key k js
    → count_key i (remove_one k js) ≡ (if str_eq k i then count_key i js - 1 else count_key i js)
unfolding remove_one
count_key-remove_one k i [] h = elim h [ ]
count_key-remove_one k i (j ∷ js) h =
    ground (arith, count_key-remove_one k i js, eq_iff j k, eq_iff j i, eq_iff k i)

-- A refused session changes nothing.
acquire_refused : (l : Limits) (k : String) → (acquire l k).0 ≡ false → (acquire l k).1 ≡ l
unfolding acquire
acquire_refused l k h = ground arith

module _ (max_global max_per_key : ℤ) (gr : InRange max_global) (kr : InRange max_per_key) where
  connect-Inv :
      (v : Server) (key : Option String)
      → Inv max_global max_per_key v
      → Inv max_global max_per_key (connect v key).1
  unfolding connect
  connect-Inv v none h = h
  connect-Inv v (some k) h = elim (Bool-cases (acquire v.limits k).0) [
    | inl granted ↦ rw granted (record {
      global_counts = unfold acquire ◌⊕◌ in ground (arith, h.global_counts, h.global_fits);
      key_counts = λ j.
          unfold acquire ◌⊕◌ sessions_of in
          ground (
            arith,
            lookup_or-insert (pos 0) k j (sessions_of v.limits k ⊕ pos 1) v.limits.per_key,
            h.key_counts k,
            h.key_counts j,
            h.key_fits k,
            eq_iff k j,
          );
      global_cap = unfold acquire in ground arith;
      key_cap = unfold acquire in ground arith;
      global_fits = unfold acquire in ground (arith, h.global_counts);
      key_fits = λ j. unfold acquire in ground (arith, h.key_counts k, h.key_fits j, eq_iff k j);
    })
    | inr turned_away ↦ rw turned_away (rw (acquire_refused v.limits k turned_away) h)
  ]

  release-Inv :
      (v : Server) (k : String)
      → 0 < count_key k v.running
      → Inv max_global max_per_key v
      → Inv max_global max_per_key
          (record { limits = release v.limits k; running = remove_one k v.running })
  unfolding release ◌⊖◌
  release-Inv v k p h = record {
    global_counts = ground (arith, h.global_counts, h.global_fits, length-remove_one k v.running p);
    key_counts = λ j.
        unfold sessions_of in
        ground (
          arith,
          lookup_or-insert (pos 0) k j (sessions_of v.limits k ⊖ pos 1) v.limits.per_key,
          lookup_or-erase (pos 0) k j v.limits.per_key,
          h.key_counts k,
          h.key_counts j,
          h.key_fits k,
          eq_iff k j,
          count_key-remove_one k j v.running p,
        );
    global_cap = ground arith;
    key_cap = ground arith;
    global_fits = omega (arith, h.global_fits, length-remove_one k v.running p);
    key_fits = λ j. ground (arith, h.key_fits j, count_key-remove_one k j v.running p);
  }

  Step-Inv : {v w : Server} → Step v w → Inv max_global max_per_key v → Inv max_global max_per_key w
  Step-Inv (connects v key) h = connect-Inv v key h
  Step-Inv (disconnects v k p) h = release-Inv v k p h

  start-Inv :
      Inv max_global max_per_key (record { limits = new max_global max_per_key; running = [] })
  unfolding new sessions_of lookup_or lookup
  start-Inv = ground arith

-- With int64 caps, in every state that a server reaches by connections and disconnections in any
-- order, the global counter and the counter of each key are the numbers of sessions that run, the
-- caps are those it was started with, and neither number is above its cap (0 for a negative one).
pub Reachable-Inv :
    (max_global max_per_key : ℤ)
    → InRange max_global
    → InRange max_per_key
    → {v : Server} → Reachable max_global max_per_key v
    → Inv max_global max_per_key v
Reachable-Inv mg mk gr kr start = start-Inv mg mk gr kr
Reachable-Inv mg mk gr kr (next r st) = Step-Inv mg mk gr kr st (Reachable-Inv mg mk gr kr r)

-- With int64 caps, in every reachable state a connection with a key is served exactly when both
-- the number of running sessions and the key's number are below their caps.
acquire-granted_iff :
    (max_global max_per_key : ℤ)
    → InRange max_global
    → InRange max_per_key
    → {v : Server} → Reachable max_global max_per_key v
    → (k : String)
    → ((connect v (some k)).0 ≡ served)
      ↔ ((pos (length v.running) <ℤ max_global) × (pos (count_key k v.running) <ℤ max_per_key))
unfolding connect acquire
acquire-granted_iff mg mk gr kr {v} r k =
    let h = Reachable-Inv mg mk gr kr r in
    ground (arith, h.global_counts, h.key_counts k, h.global_cap, h.key_cap)
