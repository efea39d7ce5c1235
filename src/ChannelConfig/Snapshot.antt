-- ===== src/ChannelConfig/Snapshot.antt =====
-- The batch read of a channel's identities against the read of one, and eligibility.
use text.Mathlib.TextEquality.{eq_iff}
use vouchr.Base.{
  String, ◌≡◌, refl, ap, ◌↔◌, inl, inr, false, List, [], ◌∷◌, Option, none, some, arith, get_or,
  Bool-cases,
}
use vouchr.Base.Eq.{◌==◌, string_eq}
use vouchr.Base.Assoc.{lookup, insert, lookup-insert}
use vouchr.Tools.{key, key_eq, key_beq_iff}
use vouchr.ChannelConfig.{
  ChannelIdentity, person, Identities, ChannelInfo, channel_ineligible_reason, get_identity,
  identity_rows, map_of, identity_snapshot,
}

-- A table has at most one row for a key.
abbrev pub IsTable : Identities → Type 0
IsTable [] = Unit {0}
IsTable ((k, i) ∷ t) = (lookup k t ≡ none) × IsTable t

module _ (team_id chan p : String) where
  lookup-map_of-none :
      (t : Identities) (m : List (String × ChannelIdentity))
      → lookup (key team_id chan p) t ≡ none
      → lookup p (map_of m (identity_rows team_id chan t)) ≡ lookup p m
  unfolding map_of identity_rows lookup
  lookup-map_of-none [] m e = refl
  lookup-map_of-none ((k, i) ∷ t) m e = ground (
    arith,
    lookup-map_of-none t m,
    lookup-map_of-none t (insert k.provider i m),
    lookup-insert k.provider p i m,
    key_beq_iff k (key team_id chan p),
    eq_iff k.team_id team_id,
    eq_iff k.channel chan,
    eq_iff k.provider p,
  )

  lookup-map_of :
      (t : Identities) (m : List (String × ChannelIdentity))
      → IsTable t
      → lookup p m ≡ none
      → lookup p (map_of m (identity_rows team_id chan t)) ≡ lookup (key team_id chan p) t
  unfolding map_of identity_rows lookup
  lookup-map_of [] m d e = e
  lookup-map_of ((k, i) ∷ t) m (d, ds) e = elim (Bool-cases (k == key team_id chan p)) [
    | inl same ↦
        let at : lookup (key team_id chan p) t ≡ none =
          rw ((key_beq_iff k (key team_id chan p)).0 same) at d in
        ground (
          arith,
          lookup-map_of-none t (insert k.provider i m) at,
          lookup-insert k.provider p i m,
          key_beq_iff k (key team_id chan p),
          eq_iff k.team_id team_id,
          eq_iff k.channel chan,
          eq_iff k.provider p,
        )
    | inr other ↦ ground (
      arith,
      lookup-map_of t m ds e,
      lookup-map_of t (insert k.provider i m) ds,
      lookup-insert k.provider p i m,
      key_beq_iff k (key team_id chan p),
      eq_iff k.team_id team_id,
      eq_iff k.channel chan,
      eq_iff k.provider p,
    )
  ]

  -- Where the table has at most one row for a key, the batch read of a channel's identities answers for
  -- a provider as the read of that provider alone.
  pub identity_snapshot-get_identity :
      (t : Identities)
      → IsTable t
      → identity_snapshot team_id chan t p ≡ get_identity team_id chan p t
  unfolding identity_snapshot get_identity lookup
  identity_snapshot-get_identity t d = ap (λ o. get_or o person) (lookup-map_of t [] d refl)

-- A channel may own a credential exactly if its facts were read, and it is not shared outside the
-- organization nor about to be, no direct message of either kind, and not archived.
pub eligible_iff :
    (info : Option ChannelInfo)
    → (channel_ineligible_reason info ≡ none) ↔ (
        (i : ChannelInfo) × (info ≡ some i)
        × (i.is_ext_shared ≡ false)
        × (i.is_shared ≡ false)
        × (i.is_pending_ext_shared ≡ false)
        × (i.is_im ≡ false)
        × (i.is_mpim ≡ false)
        × (i.is_archived ≡ false))
unfolding channel_ineligible_reason
eligible_iff none = (λ e. cc, λ h. absurd (ground (arith, h.1)))
eligible_iff (some i) = (
  λ e.
      (i, refl, ground arith, ground arith, ground arith, ground arith, ground arith, ground arith),
  λ (j, e, a, b, c, d, f, g). ground arith,
)
