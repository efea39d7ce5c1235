-- ===== src/Approval/Tests.antt =====
-- One request that is approved and used, and the theorems at it.
use vouchr.Base.{◌<◌, String, ◌≡◌, refl, true, false, List, [], ◌∷◌, none, some, arith}
use text.Mathlib.TextEquality.{eq_iff}
use vouchr.Base.Lists.{Any}
use vouchr.Base.Table.{select, update, delete}
use vouchr.Owner.{user, channel}
use vouchr.Approval.{Columns, Row, Table, once, thread}
use vouchr.Approval.Who.{Asked}
use vouchr.Approval.Request.{Inserted, insert_request, fresh_row}
use vouchr.Approval.Decision.{approve, authorization_status, refused, deny, grant_row}
use vouchr.Approval.Grant.{consume_id, consume_on, live_grant}
use vouchr.Approval.Grant.Exact.{Covers, IsExact, consume_on-Covers}
use vouchr.Approval.Run.{Step, inserts, approves, sweeps, run, apply}
use vouchr.Approval.Run.Once.{NotReissued, consume-once}
use vouchr.Approval.Run.Granted.{IsApproval, consume-approved}

abbrev columns : Columns
columns = record {
  team_id = "T1";
  user_id = "U1";
  owner_kind = user;
  owner_id = "U1";
  credential_id = "K1";
  provider = "github";
  method = "POST";
  origin = "https://api.github.com";
  host = "api.github.com";
  path = "/repos";
  query_hash = "";
  grant = once;
  channel = "C1";
  thread = "";
  governable_channel = "C1";
  delegated = false;
}

abbrev action : Inserted
action = record {
  id = "A1";
  action_key = "key";
  columns = columns;
  statement = record { reason = none; link = none };
  backchannel = false;
}

abbrev row : Row
row = grant_row "U1" 1000000 20 (fresh_row action 10)

abbrev table : Table
table = row ∷ []

abbrev steps : List Step
steps = inserts action 10 ∷ approves "A1" "U1" 1000 20 ∷ []

bodies : Unit {0}
unfolding run apply insert_request approve consume_id consume_on live_grant deny
    authorization_status select update delete
bodies = tt

ran : run steps [] ≡ table
unfolding bodies
ran = refl

spends : (consume_id "A1" once 30 table).0 ≡ some row
unfolding bodies
spends = refl

spends_run : (consume_id "A1" once 30 (run steps [])).0 ≡ some row
unfolding bodies
spends_run = refl

too_late : (consume_id "A1" once 1000020 table).0 ≡ none
unfolding bodies
too_late = refl

denial_seen :
    authorization_status "A1" "T1" "U1" 50 (deny "A1" none 40 (fresh_row action 10 ∷ [])).1
    ≡ some refused
unfolding bodies
denial_seen = refl

abbrev after : List Step
after = sweeps 40 ∷ inserts (record action { id = "A2" }) 50 ∷ []

after-NotReissued : NotReissued "A1" after
after-NotReissued = (ground (arith, eq_iff "A2" "A1"), tt)

consume-once_example :
    (consume_id "A1" thread 60 (run after (consume_id "A1" once 30 table).1)).0 ≡ none
consume-once_example =
    consume-once "A1" 30 table row (tt, tt) spends after after-NotReissued thread 60

consume-approved_example :
    (row.id ≡ "A1")
    × (30 < row.expires_at)
    × ((by : String) × (row.approved_by ≡ some by) × Any (IsApproval "A1" by) steps)
consume-approved_example = consume-approved steps "A1" once 30 row spends_run

spends_on : (consume_on "key" columns 25 30 table).0 ≡ some row
unfolding bodies
spends_on = refl

consume_on-Covers_example :
    Covers row.columns columns × (columns.grant ≡ once → IsExact row.columns columns)
consume_on-Covers_example = consume_on-Covers "key" columns 25 30 table row (tt, tt) spends_on

abbrev worker : Asked
worker = record {
  delegated = true;
  owner_kind = user;
  owner_id = "U2";
  user_id = "W1";
  governable_channel = some "C1";
}

abbrev asked : Table
asked = fresh_row action 10 ∷ []
