-- ===== src/Vault/Expiry.antt =====
-- The ages of credentials: listExpired, deleteExpired and listExpiringSoon, and that they agree with what
-- is served.
use vouchr.Base.{
  ℕ, ◌+◌, ◌<◌, min, String, ◌≡◌, refl, ◌↔◌, Bool, true, false, ◌&&◌, ◌||◌, List, [], ◌∷◌, map,
  Option, none, some, get_or, is_some, arith, leb, ltb, not, if◌then◌else◌,
}
use vouchr.Base.Table.{select_all, delete, changes}
use vouchr.Owner.{Owner}
use vouchr.Vault.{
  Row, Connections, Tables, TtlPolicy, past, is_expired, is_expired_row, is_owned, clear_satellites,
}

-- expiredPredicate: no clause where the policy sets none
abbrev pub has_clauses : TtlPolicy → Bool
has_clauses ttl = is_some ttl.idle_ms || is_some ttl.max_age_ms

abbrev pub owner_of : Row → Owner
owner_of r = record {
  team_id = r.team_id;
  kind = r.owner_kind;
  id = r.owner_id;
  enterprise_id = none;
}

unfoldable pub list_expired : TtlPolicy → ℕ → Connections → List (Owner × String)
list_expired ttl now t =
    if has_clauses ttl
    then map (λ (r : Row). (owner_of r, r.provider)) (select_all (is_expired_row ttl now) t)
    else []

unfoldable pub delete_expired : TtlPolicy → ℕ → ℕ → Owner → String → Tables → Bool × Tables
delete_expired ttl now now_us o provider s =
    if not (has_clauses ttl)
    then (false, s)
    else if ltb 0 (changes (λ r. is_owned o provider r && is_expired_row ttl now r) s.connections)
    then (
      true,
      clear_satellites o provider now_us (record s {
        connections = delete (λ r. is_owned o provider r && is_expired_row ttl now r) s.connections;
      }),
    )
    else (false, s)

-- A dimension longer than the window is one to warn about.
abbrev pub warns : ℕ → Option ℕ → Bool
warns within none = false
warns within (some ms) = ltb within ms

abbrev pub past_if : Bool → Option ℕ → ℕ → ℕ → Bool
past_if b o since at = b && past o since at

-- The least of the ceilings.
abbrev pub ceiling : Option ℕ → Option ℕ → ℕ → ℕ → Option ℕ
ceiling none none used created = none
ceiling (some i) none used created = some (used + i)
ceiling none (some m) used created = some (created + m)
ceiling (some i) (some m) used created = some (min (used + i) (created + m))

abbrev pub ceiling_of : TtlPolicy → Row → Option ℕ
ceiling_of ttl r =
    ceiling ttl.idle_ms ttl.max_age_ms (get_or r.last_used_at r.created_at) r.created_at

abbrev pub is_near : TtlPolicy → ℕ → ℕ → Row → Bool
is_near ttl within now r =
    past_if (warns within ttl.idle_ms) ttl.idle_ms (get_or r.last_used_at r.created_at)
      (now + within)
    || past_if (warns within ttl.max_age_ms) ttl.max_age_ms r.created_at (now + within)

pub soon_of : ℕ → Row → Option ℕ → List (Owner × String × ℕ) → List (Owner × String × ℕ)
soon_of now r none rest = rest
soon_of now r (some at) rest =
    if leb at now
    then rest
    else (
      record {
        team_id = r.team_id;
        kind = r.owner_kind;
        id = r.owner_id;
        enterprise_id = r.enterprise_id;
      },
      r.provider,
      at,
    )
      ∷ rest

pub soon_from : TtlPolicy → ℕ → Connections → List (Owner × String × ℕ)
unfolding soon_of
soon_from ttl now [] = []
soon_from ttl now (r ∷ t) = soon_of now r (ceiling_of ttl r) (soon_from ttl now t)

unfoldable pub list_expiring_soon : TtlPolicy → ℕ → ℕ → Connections → List (Owner × String × ℕ)
unfolding soon_from
list_expiring_soon ttl within now t =
    if warns within ttl.idle_ms || warns within ttl.max_age_ms
    then soon_from ttl now (select_all (is_near ttl within now) t)
    else []

-- The ceiling is the last time at which a credential is live.
pub is_expired_iff :
    (ttl : TtlPolicy) (r : Row) (now : ℕ)
    → (is_expired_row ttl now r ≡ true) ↔ ((at : ℕ) × (ceiling_of ttl r ≡ some at) × (at < now))
unfolding is_expired
is_expired_iff ttl r now = cases ttl.idle_ms ttl.max_age_ms (get_or r.last_used_at r.created_at)
  where
    cases :
        (idle age : Option ℕ) (used : ℕ)
        → ((past idle used now || past age r.created_at now) ≡ true)
          ↔ ((at : ℕ) × (ceiling idle age used r.created_at ≡ some at) × (at < now))
    cases none none used = ((λ e. absurd (ground arith)), (λ h. absurd (ground (arith, h.1))))
    cases (some i) none used =
        ((λ e. (used + i, refl, ground arith)), (λ h. ground (arith, h.1, h.2)))
    cases none (some m) used =
        ((λ e. (r.created_at + m, refl, ground arith)), (λ h. ground (arith, h.1, h.2)))
    cases (some i) (some m) used = (
      (λ e. (min (used + i) (r.created_at + m), refl, ground arith)),
      (λ h. ground (arith, h.1, h.2)),
    )
