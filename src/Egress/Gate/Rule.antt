-- ===== src/Egress/Gate/Rule.antt =====
-- When the gate lets a request pass, and when it asks a person.
use text.Mathlib.TextEquality.{eq_iff}
use vouchr.Base.{
  ◌≤◌, String, ◌≡◌, refl, inl, inr, ◌⊎◌, ◌≢◌, ◌↔◌, Bool, true, false, ◌&&◌, ◌||◌, List, [], ◌∷◌,
  Option, none, some, arith, ltb, not, Bool-cases,
}
use vouchr.Base.Eq.{◌==◌, string_eq}
use vouchr.Base.Lists.{any, length, Any}
use vouchr.Base.Text.{code_points}
use vouchr.Egress.Gate.{
  Url, Provider, max_url_hostname_length, is_loopback_host, path_allowed, is_ambiguous, Reason,
  Gate, allowed, denied, invalid_url, refuse_if, gate_validator, gate_methods, gate_paths,
  egress_gate,
}

module _ {A : Type 0} (p : A → Bool) (Q : A → Type 0) (iff : (x : A) → (p x ≡ true) ↔ Q x) where
  pub any_iff : (xs : List A) → (any p xs ≡ true) ↔ Any Q xs
  any_iff [] = ((λ e. absurd (ground arith)), (λ h. elim h [ ]))
  any_iff (x ∷ xs) = (
    λ e. elim (Bool-cases (p x)) [
      | inl hit ↦ inl ((iff x).0 hit)
      | inr miss ↦ inr ((any_iff xs).0 (ground arith))
    ],
    λ h. elim h [
      | inl q ↦ rw ((iff x).1 q) refl
      | inr q ↦ let rest = (any_iff xs).1 q in ground arith
    ],
  )

pub any_eq : (s : String) (xs : List String) → (any (λ x. x == s) xs ≡ true) ↔ Any (λ x. x ≡ s) xs
any_eq s xs = any_iff (λ x. x == s) (λ x. x ≡ s) (λ x. eq_iff x s) xs

-- What each check of the gate asks.
pub record Passes (p : Provider) (u : Url) (method : String) : Type 0 where
  pub bounded : length (code_points u.hostname) ≤ max_url_hostname_length
  pub username : u.username ≡ ""
  pub password : u.password ≡ ""
  pub host : Any (λ h. h ≡ u.hostname) p.egress_allow
  pub port : (u.port ≡ "") ⊎ (is_loopback_host u.hostname ≡ true)
  pub scheme : (u.protocol ≡ "https:") ⊎ (is_loopback_host u.hostname ≡ true)
  pub path :
      (ps : List String)
      → p.egress_paths ≡ some ps
      → (is_ambiguous u.pathname ≡ false) × Any (λ a. path_allowed u.pathname a ≡ true) ps
  pub methods : (ms : List String) → p.egress_methods ≡ some ms → Any (λ m. m ≡ method) ms
  pub validator : (v : Url → String → Bool) → p.egress_validate ≡ some v → v u method ≡ true

refuse_if_iff :
    (b : Bool) (r k : Gate)
    → r ≢ allowed
    → (refuse_if b r k ≡ allowed) ↔ ((b ≡ false) × (k ≡ allowed))
refuse_if_iff true r k n = ((λ e. absurd (n e)), (λ h. absurd (ground (arith, h.0))))
refuse_if_iff false r k n = ((λ e. (refl, e)), (λ h. h.1))

denied-ne : (r : Reason) → denied r ≢ allowed
denied-ne r e = absurd (ground arith)

invalid-ne : invalid_url ≢ allowed
invalid-ne e = absurd (ground arith)

module _ (p : Provider) (u : Url) (method : String) where
  abbrev ValidatorPasses : Option (Url → String → Bool) → Type 0
  ValidatorPasses o = (v : Url → String → Bool) → o ≡ some v → v u method ≡ true

  gate_validator_iff :
      (o : Option (Url → String → Bool)) → (gate_validator o u method ≡ allowed) ↔ ValidatorPasses o
  unfolding gate_validator
  gate_validator_iff none = ((λ e v q. absurd (ground arith)), (λ h. refl))
  gate_validator_iff (some v) = (
    λ e w q.
        let on =
          ((refuse_if_iff (not (v u method)) (denied Reason.by_validator) allowed
              (denied-ne Reason.by_validator)).0
            e).0 in
        let same : v ≡ w = ground arith in rw (← same) (ground (arith, on)),
    λ h. let on = h v refl in rw on refl,
  )

  abbrev MethodPasses : Option (List String) → Type 0
  MethodPasses o = (ms : List String) → o ≡ some ms → Any (λ m. m ≡ method) ms

  gate_methods_iff :
      (o : Option (List String))
      → (gate_methods p u method o ≡ allowed) ↔ (MethodPasses o × ValidatorPasses p.egress_validate)
  unfolding gate_methods
  gate_methods_iff none = (
    λ e. ((λ ms q. absurd (ground arith)), (gate_validator_iff p.egress_validate).0 e),
    λ h. (gate_validator_iff p.egress_validate).1 h.1,
  )
  gate_methods_iff (some ms) = (
    λ e.
        let r =
          (refuse_if_iff (not (any (λ m. m == method) ms)) (denied Reason.by_method) _
              (denied-ne Reason.by_method)).0
            e in
        (
          (λ ns q.
              let same : ms ≡ ns = ground arith in
              rw (← same) ((any_eq method ms).0 (ground (arith, r.0)))),
          (gate_validator_iff p.egress_validate).0 r.1,
        ),
    λ h.
        let on = (any_eq method ms).1 (h.0 ms refl) in
        rw on ((gate_validator_iff p.egress_validate).1 h.1),
  )

  abbrev PathPasses : Option (List String) → Type 0
  PathPasses o =
      (ps : List String)
      → o ≡ some ps
      → (is_ambiguous u.pathname ≡ false) × Any (λ a. path_allowed u.pathname a ≡ true) ps

  gate_paths_iff :
      (o : Option (List String))
      → (gate_paths p u method o ≡ allowed)
        ↔ (PathPasses o × MethodPasses p.egress_methods × ValidatorPasses p.egress_validate)
  unfolding gate_paths
  gate_paths_iff none = (
    λ e.
        let r = (gate_methods_iff p.egress_methods).0 e in
        ((λ ps q. absurd (ground arith)), r.0, r.1),
    λ h. (gate_methods_iff p.egress_methods).1 (h.1, h.2),
  )
  gate_paths_iff (some ps) = (
    λ e.
        let r =
          (refuse_if_iff (is_ambiguous u.pathname) (denied Reason.by_path) _
              (denied-ne Reason.by_path)).0
            e in
        let t =
          (refuse_if_iff (not (any (λ a. path_allowed u.pathname a) ps)) (denied Reason.by_path) _
              (denied-ne Reason.by_path)).0
            r.1 in
        let rest = (gate_methods_iff p.egress_methods).0 t.1 in
        (
          (λ qs q.
              let same : ps ≡ qs = ground arith in
              rw (← same) (r.0, (path-any ps).0 (ground (arith, t.0)))),
          rest.0,
          rest.1,
        ),
    λ h.
        let on = h.0 ps refl in
        rw (on.0, (path-any ps).1 on.1) ((gate_methods_iff p.egress_methods).1 (h.1, h.2)),
  )
    where
      path-any :
          (qs : List String)
          → (any (λ a. path_allowed u.pathname a) qs ≡ true)
            ↔ Any (λ a. path_allowed u.pathname a ≡ true) qs
      path-any qs =
          any_iff (λ a. path_allowed u.pathname a) (λ a. path_allowed u.pathname a ≡ true)
            (λ a. ((λ e. e), (λ e. e))) qs

  unless_iff :
      (s t : String) (b : Bool) → ((not (s == t) && not b) ≡ false) ↔ ((s ≡ t) ⊎ (b ≡ true))
  unless_iff s t true = ((λ e. inr refl), (λ h. ground arith))
  unless_iff s t false = (
    λ e. inl (ground (arith, eq_iff s t)),
    λ h. elim h [ inl e ↦ ground (arith, eq_iff s t) | inr e ↦ absurd (ground arith) ],
  )

  no_user_iff :
      ((not (u.username == "") || not (u.password == "")) ≡ false)
      ↔ ((u.username ≡ "") × (u.password ≡ ""))
  no_user_iff = (
    λ e. (ground (arith, eq_iff u.username ""), ground (arith, eq_iff u.password "")),
    λ h. ground (arith, eq_iff u.username "", eq_iff u.password ""),
  )

  -- A request passes the gate exactly if its URL's host has at most 253 characters and is in the
  -- allowlist, with no user information, on the default port over https unless the host is local, its
  -- path is unambiguous and under an allowed path where the provider locks paths, its method is one
  -- that the provider allows, and the provider's own validator accepts it.
  pub egress_gate_iff : (egress_gate p u method ≡ allowed) ↔ Passes p u method
  unfolding egress_gate
  egress_gate_iff = (
    λ e.
        let a =
          (refuse_if_iff (ltb max_url_hostname_length (length (code_points u.hostname))) invalid_url
              _ invalid-ne).0
            e in
        let b =
          (refuse_if_iff (not (u.username == "") || not (u.password == "")) (denied Reason.by_host)
              _ (denied-ne Reason.by_host)).0
            a.1 in
        let c =
          (refuse_if_iff (not (any (λ h. h == u.hostname) p.egress_allow)) (denied Reason.by_host) _
              (denied-ne Reason.by_host)).0
            b.1 in
        let d =
          (refuse_if_iff (not (u.port == "") && not (is_loopback_host u.hostname))
              (denied Reason.by_host) _ (denied-ne Reason.by_host)).0
            c.1 in
        let f =
          (refuse_if_iff (not (u.protocol == "https:") && not (is_loopback_host u.hostname))
              (denied Reason.by_host) _ (denied-ne Reason.by_host)).0
            d.1 in
        let rest = (gate_paths_iff p.egress_paths).0 f.1 in
        record {
          bounded = ground (arith, a.0);
          username = (no_user_iff.0 b.0).0;
          password = (no_user_iff.0 b.0).1;
          host = (any_eq u.hostname p.egress_allow).0 (ground (arith, c.0));
          port = (unless_iff u.port "" (is_loopback_host u.hostname)).0 d.0;
          scheme = (unless_iff u.protocol "https:" (is_loopback_host u.hostname)).0 f.0;
          path = rest.0;
          methods = rest.1;
          validator = rest.2;
        },
    λ v.
        (refuse_if_iff (ltb max_url_hostname_length (length (code_points u.hostname))) invalid_url _
            invalid-ne).1
          (
            ground (arith, v.bounded),
            (refuse_if_iff (not (u.username == "") || not (u.password == ""))
                  (denied Reason.by_host) _ (denied-ne Reason.by_host)).1
                (
                  no_user_iff.1 (v.username, v.password),
                  (refuse_if_iff (not (any (λ h. h == u.hostname) p.egress_allow))
                        (denied Reason.by_host) _ (denied-ne Reason.by_host)).1
                      (
                        rw ((any_eq u.hostname p.egress_allow).1 v.host) refl,
                        (refuse_if_iff (not (u.port == "") && not (is_loopback_host u.hostname))
                              (denied Reason.by_host) _ (denied-ne Reason.by_host)).1
                            (
                              (unless_iff u.port "" (is_loopback_host u.hostname)).1 v.port,
                              (refuse_if_iff
                                    (not (u.protocol == "https:")
                                      && not (is_loopback_host u.hostname))
                                    (denied Reason.by_host) _ (denied-ne Reason.by_host)).1
                                  (
                                    (unless_iff u.protocol "https:" (is_loopback_host u.hostname)).1
                                        v.scheme,
                                    (gate_paths_iff p.egress_paths).1
                                        (v.path, v.methods, v.validator),
                                  ),
                            ),
                      ),
                ),
          ),
  )
