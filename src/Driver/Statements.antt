-- ===== src/Driver/Statements.antt =====
-- goframe/native_sql.go: the statements that Exec takes, and ExecContext.
use talon_sdk_go.Base.{
  ℕ, ◌^◌, Bool, true, false, not, ◌&&◌, ◌||◌, Option, none, some, List, [], ◌∷◌, ◌++◌, drop, Bytes,
  Error, ErrorCode, new_error, Result, ok, err, plain, guard, ◌>>=◌, ◌>>◌, ltb, leb, ◌==◌,
  if◌then◌else◌, length, codes, bytes_equal,
}
use talon_sdk_go.Driver.{
  Conn, Core, Library, SqlResult, call_query, mutation_outcome, outcome_error,
}

-- strings.HasPrefix, Contains and TrimSuffix
unfoldable pub has_prefix : Bytes → Bytes → Bool
has_prefix [] text = true
has_prefix (p ∷ ps) [] = false
has_prefix (p ∷ ps) (c ∷ cs) = (p == c) && has_prefix ps cs

unfoldable pub contains_text : Bytes → Bytes → Bool
contains_text wanted [] = length wanted == 0
contains_text wanted (c ∷ cs) = has_prefix wanted (c ∷ cs) || contains_text wanted cs

unfoldable pub trim_semicolon : Bytes → Bytes
trim_semicolon [] = []
trim_semicolon (c ∷ []) = if c == 59 then [] else c ∷ []
trim_semicolon (c ∷ d ∷ cs) = c ∷ trim_semicolon (d ∷ cs)

unfoldable pub has_prefix_of : List Bytes → Bytes → Bool
has_prefix_of [] text = false
has_prefix_of (p ∷ ps) text = has_prefix p text || has_prefix_of ps text

abbrev pub excluded : List Bytes
excluded =
    codes "SELECT "
    ∷ codes "SHOW "
    ∷ codes "DESCRIBE "
    ∷ codes "EXPLAIN "
    ∷ codes "WITH "
    ∷ codes "BEGIN"
    ∷ codes "COMMIT"
    ∷ codes "ROLLBACK"
    ∷ []

abbrev pub violation : Error
violation = new_error ErrorCode.protocol_violation

-- What is made of the answer to a mutation.
unfoldable pub affected_of : Option ℕ → SqlResult → Result SqlResult
affected_of none result = err (outcome_error violation)
affected_of (some n) result = if ltb n (2 ^ 63) then ok result else err (outcome_error violation)

unfoldable pub affected : SqlResult → Result SqlResult
affected result = affected_of result.affected_rows result

module _ (library : Library) where
  -- normalizeMutationSQL
  unfoldable pub normalize_mutation_sql : Bytes → Bytes
  normalize_mutation_sql statement =
      let trimmed = library.trim_space statement in
      let upper = library.to_upper trimmed in
      if has_prefix (codes "INSERT IGNORE INTO ") upper
      then codes "INSERT OR IGNORE INTO " ++ drop 19 trimmed
      else if has_prefix (codes "REPLACE INTO ") upper
      then codes "INSERT OR REPLACE INTO " ++ drop 13 trimmed
      else trimmed

  -- The switch of mutationKind over the first field, where there are three.
  unfoldable pub kind_of_verb : Bytes → Bytes → Bool
  kind_of_verb verb upper =
      (bytes_equal verb (codes "INSERT") && not (contains_text (codes " ON DUPLICATE ") upper))
      || bytes_equal verb (codes "UPDATE")
      || bytes_equal verb (codes "DELETE")

  unfoldable pub kind_of_fields : List Bytes → Bytes → Bool
  kind_of_fields [] upper = false
  kind_of_fields (verb ∷ others) upper =
      leb 2 (length others) && kind_of_verb (library.to_upper verb) upper

  -- mutationKind
  unfoldable pub is_mutation : Bytes → Bool
  is_mutation statement =
      let sql = library.trim_space (trim_semicolon (library.trim_space statement)) in
      not
        (contains_text (codes ";") sql || contains_text (codes "RETURNING") (library.to_upper sql))
      && kind_of_fields (library.fields sql) (library.to_upper sql)

  unfoldable pub is_definition : List Bytes → Bool
  is_definition [] = false
  is_definition (field ∷ _) =
      let verb = library.to_upper field in
      bytes_equal verb (codes "CREATE")
      || bytes_equal verb (codes "ALTER")
      || bytes_equal verb (codes "DROP")
      || bytes_equal verb (codes "TRUNCATE")

  -- The checks of ExecContext in front of the parameters.
  unfoldable pub check_exec : Bool → Bytes → Result (Unit {0})
  check_exec live statement = do
    guard live plain
    guard (not (has_prefix_of excluded (library.to_upper (library.trim_space statement)))) plain
    guard
        (not (contains_text (codes "RETURNING") (library.to_upper (library.trim_space statement))))
        plain

  unfoldable pub check_definition : Bytes → Result (Unit {0})
  check_definition statement = do
    guard (is_definition (library.fields statement)) plain
    guard
        (not (
          contains_text (codes ";")
            (library.trim_space (trim_semicolon (library.trim_space statement)))))
        plain

  unfoldable pub exec_definition : Core → Bytes → Result (Unit {0}) → Conn → Conn × Result SqlResult
  exec_definition core statement (err e) conn = (conn, err e)
  exec_definition core statement (ok _) conn = (
    call_query core statement conn,
    (mutation_outcome (core.query statement) >>= λ _.
        ok (record { affected_rows = some 0; last_insert_id = none })),
  )

  unfoldable pub exec_checked : Core → Bytes → Result (Unit {0}) → Conn → Conn × Result SqlResult
  exec_checked core statement (err e) conn = (conn, err e)
  exec_checked core statement (ok _) conn =
      let sql = normalize_mutation_sql statement in
      if is_mutation sql
      then (call_query core sql conn, (mutation_outcome (core.query sql) >>= affected))
      else exec_definition core statement (check_definition statement) conn

  -- nativeConn.ExecContext; the parameters convert or do not.
  unfoldable pub exec_context :
      Core → Bool → Bytes → Result (Unit {0}) → Conn → Conn × Result SqlResult
  exec_context core live statement params conn =
      exec_checked core statement (check_exec live statement >> params) conn
