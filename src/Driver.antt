-- ===== src/Driver.antt =====
-- goframe/native_sql.go: the database/sql driver over the embedded Core: its connections and
-- transactions, Exec, and rows. An operation takes what Core would answer, and returns the
-- connection behind it with its result.
pub mod Statements
pub mod Sessions
pub mod Outcomes
pub mod Rows
mod Decided
mod Texts
pub mod Grammar
mod Tests
use talon_sdk_go.Base.{
  ℕ, zero, suc, ◌+◌, ◌*◌, ◌^◌, Bool, true, false, not, ◌&&◌, ◌||◌, Option, none, some, List, [],
  ◌∷◌, ◌++◌, drop, Bytes, Error, ErrorCode, TalonError, talon, new_error, Result, ok, err, plain,
  guard, ◌>>=◌, ◌>>◌, ltb, leb, ◌==◌, if◌then◌else◌, length, codes, bytes_equal,
}

-- What went to Core, and whether it failed there; `closed` is nativeQueryDB.Close.
pub data Called : Type 0 where
  executed : Bytes → Bool → Called
  queried : Bytes → Bool → Called
  rolled_back : Bool → Called
  closed : Called

-- nativeConn, with the calls of its database, the last one first.
pub record Conn : Type 0 where
  pub invalid : Bool
  pub history : List Called

-- The part of talon.SQLResult that Exec reads.
pub record SqlResult : Type 0 where
  pub affected_rows : Option ℕ
  pub last_insert_id : Option ℕ

-- What Core answers to one call: nativeQueryDB.
pub record Core : Type 0 where
  pub query : Bytes → Result SqlResult
  pub execute : Bytes → Result (Unit {0})
  pub rollback : Result (Unit {0})
  pub capability : Result (Unit {0})

-- strings.ToUpper, TrimSpace and Fields, and convertParams on the arguments of a call.
pub record Library : Type 0 where
  pub to_upper : Bytes → Bytes
  pub trim_space : Bytes → Bytes
  pub fields : Bytes → List Bytes

abbrev pub has_failed {ℓ} : {A : Type ℓ} → Result A → Bool
has_failed (ok _) = false
has_failed (err _) = true

-- nativeConn.Close
unfoldable pub close : Conn → Conn
close conn = record { invalid = true; history = closed ∷ conn.history }

unfoldable pub is_valid : Conn → Bool
is_valid conn = not conn.invalid

unfoldable pub call_execute : Core → Bytes → Conn → Conn
call_execute core statement conn = record {
  invalid = conn.invalid;
  history = executed statement (has_failed (core.execute statement)) ∷ conn.history;
}

unfoldable pub call_query : Core → Bytes → Conn → Conn
call_query core statement conn = record {
  invalid = conn.invalid;
  history = queried statement (has_failed (core.query statement)) ∷ conn.history;
}

unfoldable pub call_rollback : Core → Conn → Conn
call_rollback core conn = record {
  invalid = conn.invalid;
  history = rolled_back (has_failed core.rollback) ∷ conn.history;
}

-- A control statement that failed closes the connection.
unfoldable pub closing {ℓ} : {A : Type ℓ} → Conn → Result A → Conn
closing conn (ok _) = conn
closing conn (err _) = close conn

-- mutationOutcomeError
unfoldable pub is_protocol_violation : ErrorCode → Bool
is_protocol_violation ErrorCode.protocol_violation = true
is_protocol_violation _ = false

unfoldable pub outcome_error : Error → Error
outcome_error plain = plain
outcome_error (talon e) =
    if is_protocol_violation e.code
    then talon (record {
      code = ErrorCode.result_indeterminate;
      native_code = e.native_code;
      term = none;
      leader_hint = none;
    })
    else talon e

unfoldable pub mutation_outcome {ℓ} : {A : Type ℓ} → Result A → Result A
mutation_outcome (ok a) = ok a
mutation_outcome (err e) = err (outcome_error e)

-- The checks of BeginTx in front of the statement: the context, the options and the capability.
unfoldable pub check_begin : Core → Bool → Bool → Result (Unit {0})
check_begin core live plain_options = do
  guard live plain
  guard plain_options plain
  core.capability

abbrev pub begin_text : Bytes
begin_text = codes "BEGIN"

abbrev pub commit_text : Bytes
commit_text = codes "COMMIT"

unfoldable pub begin_checked : Core → Result (Unit {0}) → Conn → Conn × Result (Unit {0})
begin_checked core (err e) conn = (conn, err e)
begin_checked core (ok _) conn =
    (closing (call_execute core begin_text conn) (core.execute begin_text), core.execute begin_text)

-- nativeConn.BeginTx, nativeTx.Commit and nativeTx.Rollback
unfoldable pub begin_tx : Core → Bool → Bool → Conn → Conn × Result (Unit {0})
begin_tx core live plain_options conn =
    begin_checked core (check_begin core live plain_options) conn

unfoldable pub commit : Core → Conn → Conn × Result (Unit {0})
commit core conn = (
  closing (call_execute core commit_text conn) (core.execute commit_text),
  mutation_outcome (core.execute commit_text),
)

unfoldable pub roll_back : Core → Conn → Conn × Result (Unit {0})
roll_back core conn = (closing (call_rollback core conn) core.rollback, core.rollback)

-- nativeConn.Ping; QueryContext has the same calls of Core behind its parameters.
unfoldable pub ping : Core → Bool → Conn → Conn × Result (Unit {0})
ping core live conn =
    if live
    then (
      call_query core (codes "SHOW TABLES") conn,
      (core.query (codes "SHOW TABLES") >>= λ _. ok tt),
    )
    else (conn, err plain)

unfoldable pub query_context : Core → Result (Unit {0}) → Bytes → Conn → Conn × Result SqlResult
query_context core (err e) statement conn = (conn, err e)
query_context core (ok _) statement conn = (call_query core statement conn, core.query statement)
