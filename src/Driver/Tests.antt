-- ===== src/Driver/Tests.antt =====
-- goframe/native_sql.go: witnesses and runs at fixed inputs.
use talon_sdk_go.Base.{
  ℕ, ◌≡◌, refl, true, false, not, none, some, [], ◌∷◌, Result, ok, err, plain, codes,
}
use talon_sdk_go.Driver.{
  Conn, Core, Library, SqlResult, is_valid, begin_tx, commit, call_execute, closing, close,
}
use talon_sdk_go.Driver.Statements.{exec_context}
use talon_sdk_go.Driver.Sessions.{
  fresh, begins, commits, Reach, here, there, some_ends, is_valid-some_ends,
}
use talon_sdk_go.Driver.Outcomes.{IsExec, exec_context-IsSettled}
use talon_sdk_go.Driver.Rows.{end_of_rows, convert_row, AllConvert, drain, drain-AllConvert}

abbrev library : Library
library = record {
  to_upper = λ text. text;
  trim_space = λ text. text;
  fields = λ text. text ∷ text ∷ text ∷ [];
}

abbrev one_row : SqlResult
one_row = record { affected_rows = some 1; last_insert_id = none }

-- A Core that takes everything, and one that fails.
abbrev willing : Core
willing = record {
  query = λ sql. ok one_row;
  execute = λ sql. ok tt;
  rollback = ok tt;
  capability = ok tt;
}

abbrev broken : Core
broken = record {
  query = λ sql. err plain;
  execute = λ sql. err plain;
  rollback = err plain;
  capability = ok tt;
}

abbrev opened_tx : Conn
opened_tx = (begin_tx willing true true fresh).0

abbrev lost_tx : Conn
lost_tx = (commit broken opened_tx).0

lost_tx-Reach : Reach library fresh lost_tx
lost_tx-Reach =
    there (there (here fresh) (begins willing true true fresh)) (commits broken opened_tx)

is_valid-some_ends_example : is_valid lost_tx ≡ not (some_ends lost_tx.history)
is_valid-some_ends_example = is_valid-some_ends library lost_tx lost_tx-Reach

-- A commit that fails leaves the connection invalid.
lost_tx_invalid : is_valid lost_tx ≡ false
unfolding is_valid commit call_execute closing close
lost_tx_invalid = refl

exec_context-IsSettled_example :
    IsExec library willing true
      (codes "UPDATE")
      (ok tt)
      fresh
      (exec_context library willing true (codes "UPDATE") (ok tt) fresh)
exec_context-IsSettled_example =
    exec_context-IsSettled library willing true (codes "UPDATE") (ok tt) fresh

abbrev same : ℕ → Result ℕ
same n = ok n

two_convert : AllConvert same ((1 ∷ []) ∷ (2 ∷ []) ∷ []) ((1 ∷ []) ∷ (2 ∷ []) ∷ [])
unfolding AllConvert convert_row
two_convert = (refl, (refl, tt))

drain-AllConvert_example :
    drain same 3 (record { columns = codes "n" ∷ []; rows = (1 ∷ []) ∷ (2 ∷ []) ∷ []; next = 0 })
    ≡ ((1 ∷ []) ∷ (2 ∷ []) ∷ [], some end_of_rows)
drain-AllConvert_example =
    drain-AllConvert same (codes "n" ∷ []) ((1 ∷ []) ∷ (2 ∷ []) ∷ []) ((1 ∷ []) ∷ (2 ∷ []) ∷ [])
      two_convert
