-- ===== src/Inflight.antt =====
-- src/core/inflight.ts: the per-process cap on concurrent requests, global and per provider. A
-- releaser is the index of its slot; its `released` flag is the one that its closure keeps.
pub mod Counts
pub mod Tests
use vouchr.Base.{
  ℕ, ◌+◌, ◌-◌, String, ◌≡◌, Bool, true, false, List, [], ◌∷◌, ◌++◌, Option, none, some, ltb, leb,
  if◌then◌else◌, get_or,
}
use vouchr.Base.Eq.{◌==◌, string_eq}
use vouchr.Base.Lists.{length, get_elem?, set}
use vouchr.Base.Assoc.{lookup, insert, erase}

pub data Scope : Type 0 where
  global : Scope
  provider : String → Scope

pub record Slot : Type 0 where
  pub scope : Scope
  pub released : Bool

pub record Limiter : Type 0 where
  pub global_max : ℕ
  pub provider_max : ℕ
  pub retry_after_ms : ℕ
  pub global_count : ℕ
  pub per_provider : List (String × ℕ)
  pub slots : List Slot

pub data ScopeKind : Type 0 where
  global_kind provider_kind : ScopeKind

pub data Entered : Type 0 where
  -- OverloadedError with its scope and retryAfterMs
  overloaded : ScopeKind → ℕ → Entered
  -- the releaser's slot, and the limiter that it releases
  entered : ℕ → Limiter → Entered

abbrev pub max_timer_ms : ℕ
max_timer_ms = 2147483647

abbrev pub max_safe_integer : ℕ
max_safe_integer = 9007199254740991

pub data LimitError : Type 0 where
  bad_global bad_provider provider_above_global bad_retry : LimitError

is_positive_safe : ℕ → Bool
is_positive_safe n = if leb n max_safe_integer then ltb 0 n else false

-- The numbers are those of a caller's natural number arguments.
pub assert_inflight_limits : ℕ → ℕ → Option LimitError
unfolding is_positive_safe
assert_inflight_limits global_max provider_max =
    if is_positive_safe global_max
    then (if is_positive_safe provider_max
        then (if ltb global_max provider_max then some provider_above_global else none)
        else some bad_provider)
    else some bad_global

pub data Built : Type 0 where
  refused : LimitError → Built
  built : Limiter → Built

-- the constructor
pub make : ℕ → ℕ → ℕ → Built
unfolding assert_inflight_limits
make global_max provider_max retry_after_ms =
    elim (assert_inflight_limits global_max provider_max) [
      | some e ↦ refused e
      | none ↦
          if (if is_positive_safe retry_after_ms then leb retry_after_ms max_timer_ms else false)
          then built (record {
            global_max = global_max;
            provider_max = provider_max;
            retry_after_ms = retry_after_ms;
            global_count = 0;
            per_provider = [];
            slots = [];
          })
          else refused bad_retry
    ]

abbrev pub fresh_slot : Scope → List Slot
fresh_slot s = record { scope = s; released = false } ∷ []

pub enter : Limiter → Entered
enter l =
    if leb l.global_max l.global_count
    then overloaded global_kind l.retry_after_ms
    else entered (length l.slots)
        (record l { global_count = l.global_count + 1; slots = l.slots ++ fresh_slot global })

pub enter_provider : String → Limiter → Entered
enter_provider p l =
    let cur = get_or (lookup p l.per_provider) 0 in
    if leb l.provider_max cur
    then overloaded provider_kind l.retry_after_ms
    else entered (length l.slots) (record l {
      per_provider = insert p (cur + 1) l.per_provider;
      slots = l.slots ++ fresh_slot (provider p);
    })

pub in_flight : Limiter → ℕ
in_flight l = l.global_count

-- The closure that decrements. A count of 0 stays 0 here, where the source would go below: the
-- invariant of Counts shows that the closure never runs on one.
pub decrement : Scope → Limiter → Limiter
decrement global l = record l { global_count = l.global_count - 1 }
decrement (provider p) l =
    let n = get_or (lookup p l.per_provider) 1 - 1 in
    record l {
      per_provider = if leb n 0 then erase p l.per_provider else insert p n l.per_provider;
    }

release_slot : Limiter → ℕ → Option Slot → Limiter
unfolding decrement
release_slot l i none = l
release_slot l i (some s) =
    if s.released
    then l
    else decrement s.scope (record l { slots = set l.slots i (record s { released = true }) })

pub release : ℕ → Limiter → Limiter
unfolding release_slot
release i l = release_slot l i (get_elem? l.slots i)

pub data Call : Type 0 where
  enters : Call
  enters_provider : String → Call
  releases : ℕ → Call

-- A refused entry throws and leaves the limiter as it was.
abbrev pub after : Limiter → Entered → Limiter
after l (overloaded _ _) = l
after l (entered _ m) = m

pub step : Limiter → Call → Limiter
step l enters = after l (enter l)
step l (enters_provider p) = after l (enter_provider p l)
step l (releases i) = release i l

pub run : Limiter → List Call → Limiter
run l [] = l
run l (c ∷ cs) = run (step l c) cs
