-- ===== src/Server/Limits.antt =====
-- internal/server/limits.go: `SessionLimits`. Each method holds the mutex throughout, so it is one step.
use ssh_idlefarmer.Prelude.{
  String, Bool, true, false, Dict, insert, erase, lookup_or, if◌then◌else◌, ℤ, pos, ◌⊕◌, ◌⊖◌, ltb_ℤ,
  leb_ℤ, eqb_ℤ, [],
}

pub record Limits : Type 0 where
  pub global : ℤ
  pub per_key : Dict ℤ
  pub max_global : ℤ
  pub max_per_key : ℤ

-- `NewSessionLimits`
unfoldable pub new : ℤ → ℤ → Limits
new max_global max_per_key = record {
  global = pos 0;
  per_key = [];
  max_global = max_global;
  max_per_key = max_per_key;
}

-- `l.perKey[fingerprint]`
unfoldable pub sessions_of : Limits → String → ℤ
sessions_of l fingerprint = lookup_or (pos 0) fingerprint l.per_key

unfoldable pub acquire : Limits → String → Bool × Limits
acquire l fingerprint =
    if leb_ℤ l.max_global l.global
    then (false, l)
    else if leb_ℤ l.max_per_key (sessions_of l fingerprint)
    then (false, l)
    else (
      true,
      record l {
        global = l.global ⊕ pos 1;
        per_key = insert fingerprint (sessions_of l fingerprint ⊕ pos 1) l.per_key;
      },
    )

unfoldable pub release : Limits → String → Limits
release l fingerprint =
    let held = sessions_of l fingerprint in
    let l' = record l { global = l.global ⊖ pos 1 } in
    if ltb_ℤ (pos 0) held
    then if eqb_ℤ (held ⊖ pos 1) (pos 0)
      then record l' { per_key = erase fingerprint l.per_key }
      else record l' { per_key = insert fingerprint (held ⊖ pos 1) l.per_key }
    else l'
