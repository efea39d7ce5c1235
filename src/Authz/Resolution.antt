-- ===== src/Authz/Resolution.antt =====
-- Whose credential a request resolves to.
use vouchr.Base.{
  String, ◌≡◌, refl, ◌≢◌, ◌↔◌, ◌⊎◌, inl, inr, Bool, true, false, Option, none, some, arith,
  Bool-cases,
}
use text.Mathlib.TextEquality.{eq_iff}
use vouchr.Base.Eq.{string_eq}
use vouchr.Owner.{SlackIdentity, Owner, user_owner, channel_owner}
use vouchr.ChannelConfig.{ChannelIdentity}
use vouchr.Authz.{
  OwnerInputs, resolved, user_path, channel_path, CredentialPath, resolve_credential_owner,
  resolve_on, resolve_channel, channel_of, is_true, is_false,
}

-- When a request may use an owner's credential: the person's own, unless it is known that there is
-- none, or a channel's, where the channel is known to be eligible and is configured to own one.
abbrev pub MayUse : OwnerInputs → Owner → Type 0
MayUse i o =
    ((i.path ≡ user_path) × (i.has_user_credential ≢ some false) × (o ≡ user_owner i.principal))
    ⊎ ((c : String) × (i.path ≡ channel_path)
        × (i.eligible ≡ some true)
        × (i.identity ≡ ChannelIdentity.channel)
        × (i.channel ≡ some c)
        × (c ≢ "")
        × (o ≡ channel_owner i.principal.team_id c))

channel_of_iff :
    (d : ChannelIdentity) (channel : Option String) (c : String)
    → (channel_of d channel ≡ some c)
      ↔ ((d ≡ ChannelIdentity.channel) × (channel ≡ some c) × (c ≢ ""))
unfolding channel_of
channel_of_iff ChannelIdentity.person none c = ground arith
channel_of_iff ChannelIdentity.person (some b) c = ground arith
channel_of_iff ChannelIdentity.channel none c = ground arith
channel_of_iff ChannelIdentity.channel (some b) c = ground (arith, eq_iff b "")

is_true_iff : (b : Option Bool) → (is_true b ≡ true) ↔ (b ≡ some true)
is_true_iff none = ground arith
is_true_iff (some true) = ground arith
is_true_iff (some false) = ground arith

is_false_iff : (b : Option Bool) → (is_false b ≡ false) ↔ (b ≢ some false)
is_false_iff none = ground arith
is_false_iff (some true) = ground arith
is_false_iff (some false) = ground arith

resolve_channel_iff :
    (p : SlackIdentity) (channel : Option String) (o : Owner) (acting : SlackIdentity)
    → (resolve_channel p channel ≡ resolved o acting)
      ↔ ((c : String) × (channel ≡ some c) × (o ≡ channel_owner p.team_id c) × (acting ≡ p))
unfolding resolve_channel
resolve_channel_iff p none o acting =
    ((λ e. absurd (ground arith)), (λ h. absurd (ground (arith, h.1))))
resolve_channel_iff p (some c) o acting =
    (λ e. (c, refl, cc, cc), λ h. let same : some c ≡ some h.0 = h.1 in cc)

-- A request resolves to an owner exactly if it may use that owner's credential, and then acts as
-- the person who made it, whoever the owner is.
pub resolve_iff :
    (i : OwnerInputs) (o : Owner) (acting : SlackIdentity)
    → (resolve_credential_owner i ≡ resolved o acting) ↔ ((acting ≡ i.principal) × MayUse i o)
unfolding resolve_credential_owner resolve_on
resolve_iff i o acting = go i.path refl
  where
    go :
        (q : CredentialPath)
        → i.path ≡ q
        → (resolve_on q i ≡ resolved o acting) ↔ ((acting ≡ i.principal) × MayUse i o)
    go user_path p = elim (Bool-cases (is_false i.has_user_credential)) [
      | inl lost ↦ rw lost (
        λ e. absurd (ground arith),
        λ (a, h). elim h [
          | inl u ↦ absurd (ground (arith, is_false_iff i.has_user_credential, u.1))
          | inr u ↦ absurd (ground (arith, p, u.1))
        ],
      )
      | inr held ↦ rw held (
        λ e. (cc, inl (p, (is_false_iff i.has_user_credential).0 held, cc)),
        λ (a, h). elim h [ inl u ↦ cc | inr u ↦ absurd (ground (arith, p, u.1)) ],
      )
    ]
    go channel_path p = elim (Bool-cases (is_true i.eligible)) [
      | inl fit ↦ rw fit (
        λ e.
            let r =
              (resolve_channel_iff i.principal (channel_of i.identity i.channel) o acting).0 e in
            let s = (channel_of_iff i.identity i.channel r.0).0 r.1 in
            (r.3, inr (r.0, p, (is_true_iff i.eligible).0 fit, s.0, s.1, s.2, r.2)),
        λ (a, h). elim h [
          | inl u ↦ absurd (ground (arith, p, u.0))
          | inr u ↦
              (resolve_channel_iff i.principal (channel_of i.identity i.channel) o acting).1
                (u.0, (channel_of_iff i.identity i.channel u.0).1 (u.3, u.4, u.5), u.6, a)
        ],
      )
      | inr unfit ↦ rw unfit (
        λ e. absurd (ground arith),
        λ (a, h). elim h [
          | inl u ↦ absurd (ground (arith, p, u.0))
          | inr u ↦ absurd (ground (arith, is_true_iff i.eligible, u.2))
        ],
      )
    ]
