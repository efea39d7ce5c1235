-- ===== src/Consent/Sweep.antt =====
-- sweepStale of the class Consent: the retention of rows, in batches. A batch deletes the first rows
-- that are stale; the program's ORDER BY only says which are the first. Rows that another transaction
-- has locked are left out of the table.
use vouchr.Base.{
  ℕ, zero, suc, ◌+◌, ◌*◌, ◌≤◌, ◌<◌, ◌≡◌, refl, ap, ◌∙◌, inl, inr, Bool, false, [], ◌∷◌, Option,
  none, some, ltb, arith, if◌then◌else◌, Bool-cases, if-cases, ltb→lt,
}
use vouchr.Base.Table.{delete, changes}
use vouchr.Consent.{Row, Table}

abbrev pub state_recovery_retention_us : ℕ
state_recovery_retention_us = 24 * 60 * 60 * 1000000

abbrev pub max_consent_sweep_batch : ℕ
max_consent_sweep_batch = 1000

-- created_at < now - retention
abbrev pub is_stale : ℕ → Row → Bool
is_stale now r = ltb (r.created_at + state_recovery_retention_us) now

-- CONSENT_SWEEP_BATCH_SQL, with its limit
unfoldable pub sweep_batch : ℕ → ℕ → Table → ℕ × Table
sweep_batch now zero t = (0, t)
sweep_batch now (suc n) [] = (0, [])
sweep_batch now (suc n) (r ∷ t) =
    let gone = sweep_batch now n t in
    let kept = sweep_batch now (suc n) t in
    if is_stale now r then (suc gone.0, gone.1) else (kept.0, r ∷ kept.1)

-- The loop, with the batch's size, the rounds that are left and the total so far.
pub sweep_rounds : ℕ → ℕ → ℕ → ℕ → Table → Option (ℕ × Table)
sweep_rounds size now zero total t = none
sweep_rounds size now (suc fuel) total t =
    let b = sweep_batch now size t in
    let rest = sweep_rounds size now fuel (total + b.0) b.1 in
    if ltb b.0 size then some (total + b.0, b.1) else rest

unfoldable pub sweep_stale : ℕ → ℕ → Table → Option (ℕ × Table)
sweep_stale fuel now t = sweep_rounds max_consent_sweep_batch now fuel 0 t

-- A batch deletes as many stale rows as there are, up to its size; what it leaves is stale as before.
sweep_batch_lem :
    (now n : ℕ) (t : Table)
    → ((sweep_batch now n t).0 + changes (is_stale now) (sweep_batch now n t).1
        ≡ changes (is_stale now) t)
      × (delete (is_stale now) (sweep_batch now n t).1 ≡ delete (is_stale now) t)
      × ((sweep_batch now n t).0 ≤ n)
      × ((sweep_batch now n t).0 < n → (sweep_batch now n t).1 ≡ delete (is_stale now) t)
unfolding sweep_batch changes delete
sweep_batch_lem now zero t = (omega arith, refl, omega arith, λ h. absurd (omega arith))
sweep_batch_lem now (suc n) [] = (omega arith, refl, omega arith, λ h. refl)
sweep_batch_lem now (suc n) (r ∷ t) = elim (Bool-cases (is_stale now r)) [
  | inl old ↦
      let ih = sweep_batch_lem now n t in
      rw old (omega (arith, ih.0), ih.1, omega (arith, ih.2), λ h. ih.3 (omega arith))
  | inr young ↦
      let ih = sweep_batch_lem now (suc n) t in
      rw young
        (rw young (omega (arith, ih.0), ap (λ l. r ∷ l) ih.1, ih.2, λ h. ap (λ l. r ∷ l) (ih.3 h)))
]

changes-delete : (now : ℕ) (t : Table) → changes (is_stale now) (delete (is_stale now) t) ≡ 0
unfolding changes delete
changes-delete now [] = refl
changes-delete now (r ∷ t) = elim (Bool-cases (is_stale now r)) [
  | inl old ↦ rw old (changes-delete now t)
  | inr young ↦ rw young (rw young (changes-delete now t))
]

sweep_rounds_total :
    (size now fuel total : ℕ) (t : Table)
    → 0 < size
    → changes (is_stale now) t < fuel
    → sweep_rounds size now fuel total t
      ≡ some (total + changes (is_stale now) t, delete (is_stale now) t)
unfolding sweep_rounds
sweep_rounds_total size now zero total t pos h = absurd (omega arith)
sweep_rounds_total size now (suc fuel) total t pos h =
    let b = sweep_batch now size t in
    let lem = sweep_batch_lem now size t in
    if-cases
      (λ (o : Option (ℕ × Table)).
        o ≡ some (total + changes (is_stale now) t, delete (is_stale now) t))
      (ltb b.0 size) _ _
      (λ short.
        let gone = lem.3 (ltb→lt b.0 size short) in
        let none_left = ap (changes (is_stale now)) gone ∙ changes-delete now t in
        ap some (pair (omega (arith, lem.0, none_left)) gone))
      (λ full.
        sweep_rounds_total size now fuel (total + b.0) b.1 pos
          (omega (arith, lem.0, at_least full lem.2))
        ∙ ap some (pair (omega (arith, lem.0)) lem.1))
  where
    pair : {a c : ℕ} {x y : Table} → a ≡ c → x ≡ y → ◌≡◌ {A = ℕ × Table} (a, x) (c, y)
    pair p q = rw (p, q) refl

    at_least : {a : ℕ} → ltb a size ≡ false → a ≤ size → a ≡ size
    at_least f le = ground arith

-- The sweep ends: more rounds than there are stale rows are enough, and then it has deleted every row
-- past the retention and no other, and its count is theirs.
pub sweep_stale_total :
    (fuel now : ℕ) (t : Table)
    → changes (is_stale now) t < fuel
    → sweep_stale fuel now t ≡ some (changes (is_stale now) t, delete (is_stale now) t)
unfolding sweep_stale
sweep_stale_total fuel now t h =
    let none_before : 0 + changes (is_stale now) t ≡ changes (is_stale now) t = omega arith in
    sweep_rounds_total max_consent_sweep_batch now fuel 0 t (omega arith) h
    ∙ ap (λ (n : ℕ). some (n, delete (is_stale now) t)) none_before
