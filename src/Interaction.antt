-- ===== src/Interaction.antt =====
-- src/core/interaction.ts: the ids of interactions, and the lifetimes of a worker's session.
use vouchr.Base.{
  ℕ, ◌*◌, String, Bool, true, false, ◌&&◌, ◌||◌, List, [], ◌∷◌, zero, suc, leb, nat_beq,
}
use vouchr.Base.Text.{code_points}

abbrev pub worker_session_idle_ttl_us : ℕ
worker_session_idle_ttl_us = 30 * 60 * 1000000

abbrev pub worker_session_max_ttl_us : ℕ
worker_session_max_ttl_us = 8 * 60 * 60 * 1000000

-- One place of the pattern: [0-9a-f] with the flag i, '-', '4', and [89ab] with the flag i.
pub data Place : Type 0 where
  hex dash version variant : Place

abbrev pub fits : Place → ℕ → Bool
fits hex c = (leb 48 c && leb c 57) || (leb 97 c && leb c 102) || (leb 65 c && leb c 70)
fits dash c = nat_beq c 45
fits version c = nat_beq c 52
fits variant c =
    nat_beq c 56 || nat_beq c 57 || nat_beq c 97 || nat_beq c 98 || nat_beq c 65 || nat_beq c 66

pub times : ℕ → Place → List Place → List Place
times zero p rest = rest
times (suc n) p rest = p ∷ times n p rest

pub matches : List Place → List ℕ → Bool
matches [] [] = true
matches (p ∷ ps) (c ∷ cs) = fits p c && matches ps cs
matches _ _ = false

pub uuid_pattern : List Place
unfolding times
uuid_pattern = times 8 hex (
    dash
    ∷ times 4 hex
        (dash ∷ version ∷ times 3 hex (dash ∷ variant ∷ times 3 hex (dash ∷ times 12 hex []))))

unfoldable pub is_interaction_id : String → Bool
unfolding matches uuid_pattern
is_interaction_id value = matches uuid_pattern (code_points value)
