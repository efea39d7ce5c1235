-- ===== src/Tools/Effect.antt =====
-- What a channel's configuration means, and what a change of it changes.
use text.Mathlib.TextEquality.{eq_iff}
use vouchr.Base.{
  String, ◌≡◌, refl, sym, ap, ◌∙◌, ◌≢◌, ◌⊎◌, inl, inr, Bool, false, List, [], ◌∷◌, ◌++◌, none, some,
  arith, is_some, get_or, map, if◌then◌else◌, Bool-cases,
}
use vouchr.Base.Eq.{◌==◌, string_eq}
use vouchr.Base.Assoc.{lookup, lookup-insert}
use vouchr.Tools.{
  Key, key_eq, key_beq_iff, Table, key, is_configured, is_enabled, channel_rows, is_on,
  enabled_snapshot, desired, insert_absent, materialize, upsert_all, apply_wanted,
  apply_channel_tools_enabled,
}

-- A table has at most one row for a key.
abbrev pub IsTable : Table → Type 0
IsTable [] = Unit {0}
IsTable ((k, on) ∷ t) = (lookup k t ≡ none) × IsTable t

lookup-insert_absent :
    (k j : Key) (v : Bool) (t : Table)
    → lookup j (insert_absent k v t)
      ≡ (if is_some (lookup k t) then lookup j t else if k == j then some v else lookup j t)
unfolding insert_absent
lookup-insert_absent k j v t = ground (arith, lookup-insert k j v t)

module _ (team_id channel : String) where
  lookup-unconfigured :
      (p : String) (t : Table)
      → is_configured team_id channel t ≡ false
      → lookup (key team_id channel p) t ≡ none
  unfolding is_configured lookup
  lookup-unconfigured p [] e = refl
  lookup-unconfigured p ((k, on) ∷ t) e = ground (
    arith,
    lookup-unconfigured p t,
    key_beq_iff k (key team_id channel p),
    eq_iff k.team_id team_id,
    eq_iff k.channel channel,
  )

  -- The test whether the channel is configured makes no difference to the answer.
  is_enabled_lem :
      (p : String) (t : Table)
      → is_enabled team_id channel p t ≡ get_or (lookup (key team_id channel p) t) false
  unfolding is_enabled
  is_enabled_lem p t = ground (arith, lookup-unconfigured p t)

  lookup-materialize :
      (wanted : List (String × Bool)) (p : String) (ps : List String) (t : Table)
      → lookup (key team_id channel p) t ≡ none
      → lookup p wanted ≡ none
      → get_or (lookup (key team_id channel p) (materialize team_id channel wanted ps t)) false
        ≡ false
  unfolding materialize
  lookup-materialize wanted p [] t e w = rw e
  lookup-materialize wanted p (q ∷ ps) t e w = ground (
    arith,
    lookup-materialize wanted p ps t e w,
    lookup-insert_absent (key team_id channel q) (key team_id channel p)
        (get_or (lookup q wanted) false) (materialize team_id channel wanted ps t),
    key_beq_iff (key team_id channel q) (key team_id channel p),
  )

  lookup-upsert_all :
      (p : String) (m : List (String × Bool)) (t : Table)
      → lookup (key team_id channel p) (upsert_all team_id channel m t)
        ≡ elim (lookup p m) [ none ↦ lookup (key team_id channel p) t | some on ↦ some on ]
  unfolding upsert_all lookup
  lookup-upsert_all p [] t = refl
  lookup-upsert_all p ((q, on) ∷ m) t = ground (
    arith,
    lookup-insert (key team_id channel q) (key team_id channel p) on
        (upsert_all team_id channel m t),
    key_beq_iff (key team_id channel q) (key team_id channel p),
    eq_iff q p,
    lookup-upsert_all p m t,
  )

  is_enabled-apply_wanted :
      (wanted : List (String × Bool)) (all_providers : List String) (t : Table) (p : String)
      → is_enabled team_id channel p (apply_wanted team_id channel wanted all_providers t)
        ≡ get_or (lookup p wanted) (is_enabled team_id channel p t)
  unfolding apply_wanted
  is_enabled-apply_wanted wanted all_providers t p =
      let full = all_providers ++ map (λ (r : String × Bool). r.0) wanted in
      let base =
        if is_configured team_id channel t then t else materialize team_id channel wanted full t in
      is_enabled_lem p (upsert_all team_id channel wanted base)
      ∙ ground (
        arith,
        is_enabled_lem p t,
        lookup-upsert_all p wanted base,
        lookup-unconfigured p t,
        lookup-materialize wanted p full t,
      )

-- After a batch of changes a provider is enabled in the channel as the batch's last entry for it
-- says, and as before where the batch has none; this holds for the first batch too, which also
-- writes rows for every provider that nobody asked about.
pub is_enabled-apply :
    (team_id channel : String) (changes : List (String × Bool)) (all_providers : List String)
    (t : Table) (p : String)
    → is_enabled team_id channel p
        (apply_channel_tools_enabled team_id channel changes all_providers t)
      ≡ get_or (lookup p (desired changes)) (is_enabled team_id channel p t)
unfolding apply_channel_tools_enabled desired lookup
is_enabled-apply team_id channel [] all_providers t p = refl
is_enabled-apply team_id channel (c ∷ cs) all_providers t p =
    is_enabled-apply_wanted team_id channel (desired (c ∷ cs)) all_providers t p

-- Two keys of different channels or workspaces.
abbrev pub Elsewhere : String → String → Key → Type 0
Elsewhere team_id channel k = (k.team_id ≢ team_id) ⊎ (k.channel ≢ channel)

module _ (team_id channel : String) (k : Key) (away : Elsewhere team_id channel k) where
  lookup-materialize_other :
      (wanted : List (String × Bool)) (ps : List String) (t : Table)
      → lookup k (materialize team_id channel wanted ps t) ≡ lookup k t
  unfolding materialize
  lookup-materialize_other wanted [] t = refl
  lookup-materialize_other wanted (q ∷ ps) t = ground (
    arith,
    lookup-materialize_other wanted ps t,
    lookup-insert_absent (key team_id channel q) k (get_or (lookup q wanted) false)
        (materialize team_id channel wanted ps t),
    key_beq_iff (key team_id channel q) k,
  )

  lookup-upsert_all_other :
      (m : List (String × Bool)) (t : Table)
      → lookup k (upsert_all team_id channel m t) ≡ lookup k t
  unfolding upsert_all
  lookup-upsert_all_other [] t = refl
  lookup-upsert_all_other ((q, on) ∷ m) t = ground (
    arith,
    lookup-upsert_all_other m t,
    lookup-insert (key team_id channel q) k on (upsert_all team_id channel m t),
    key_beq_iff (key team_id channel q) k,
  )

  lookup-apply_wanted :
      (wanted : List (String × Bool)) (all_providers : List String) (t : Table)
      → lookup k (apply_wanted team_id channel wanted all_providers t) ≡ lookup k t
  unfolding apply_wanted
  lookup-apply_wanted wanted all_providers t =
      let full = all_providers ++ map (λ (r : String × Bool). r.0) wanted in
      lookup-upsert_all_other wanted
        (if is_configured team_id channel t then t else materialize team_id channel wanted full t)
      ∙ ground (arith, lookup-materialize_other wanted full t)

-- A change in one channel changes nothing in another one, nor in another workspace.
pub is_enabled-apply_other :
    (team_id channel : String) (changes : List (String × Bool)) (all_providers : List String)
    (t : Table) (other_team other_channel p : String)
    → (other_team ≢ team_id) ⊎ (other_channel ≢ channel)
    → is_enabled other_team other_channel p
        (apply_channel_tools_enabled team_id channel changes all_providers t)
      ≡ is_enabled other_team other_channel p t
unfolding apply_channel_tools_enabled
is_enabled-apply_other team_id channel [] all_providers t ot oc p away = refl
is_enabled-apply_other team_id channel (c ∷ cs) all_providers t ot oc p away =
    is_enabled_lem ot oc p _
    ∙ ap (λ o. get_or o false)
        (lookup-apply_wanted team_id channel (key ot oc p) away (desired (c ∷ cs)) all_providers t)
    ∙ sym (is_enabled_lem ot oc p t)

module _ (team_id channel p : String) where
  is_on-none :
      (t : Table)
      → lookup (key team_id channel p) t ≡ none
      → is_on p (channel_rows team_id channel t) ≡ false
  unfolding is_on channel_rows lookup
  is_on-none [] e = refl
  is_on-none ((k, on) ∷ t) e = ground (
    arith,
    is_on-none t,
    key_beq_iff k (key team_id channel p),
    eq_iff k.team_id team_id,
    eq_iff k.channel channel,
    eq_iff k.provider p,
  )

  is_on-lookup :
      (t : Table)
      → IsTable t
      → is_on p (channel_rows team_id channel t) ≡ get_or (lookup (key team_id channel p) t) false
  unfolding is_on channel_rows lookup
  is_on-lookup [] d = refl
  is_on-lookup ((k, on) ∷ t) (d, ds) = elim (Bool-cases (k == key team_id channel p)) [
    | inl same ↦
        let at : lookup (key team_id channel p) t ≡ none =
          rw ((key_beq_iff k (key team_id channel p)).0 same) at d in
        ground (
          arith,
          is_on-none t at,
          key_beq_iff k (key team_id channel p),
          eq_iff k.team_id team_id,
          eq_iff k.channel channel,
          eq_iff k.provider p,
        )
    | inr other ↦ ground (
      arith,
      is_on-lookup t ds,
      key_beq_iff k (key team_id channel p),
      eq_iff k.team_id team_id,
      eq_iff k.channel channel,
      eq_iff k.provider p,
    )
  ]

snapshot-is_on :
    (team_id channel p : String) (t : Table)
    → enabled_snapshot team_id channel t p ≡ is_on p (channel_rows team_id channel t)
unfolding enabled_snapshot is_on
snapshot-is_on team_id channel p t = go (channel_rows team_id channel t)
  where
    go :
        (rows : List (String × Bool))
        → elim rows [ [] ↦ false | r ∷ rest ↦ is_on p (r ∷ rest) ] ≡ is_on p rows
    go [] = refl
    go (r ∷ rest) = refl

-- Where the table has at most one row for a key, the batch read of a channel answers for a provider
-- as the read of that provider alone.
pub enabled_snapshot-is_enabled :
    (team_id channel p : String) (t : Table)
    → IsTable t
    → enabled_snapshot team_id channel t p ≡ is_enabled team_id channel p t
enabled_snapshot-is_enabled team_id channel p t d =
    snapshot-is_on team_id channel p t
    ∙ is_on-lookup team_id channel p t d
    ∙ sym (is_enabled_lem team_id channel p t)
