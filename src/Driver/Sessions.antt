-- ===== src/Driver/Sessions.antt =====
-- goframe/native_sql.go: the life of a connection, as steps.
use talon_sdk_go.Base.{
  ◌≡◌, inl, inr, refl, sym, ap, ◌∙◌, Bool, true, false, not, ◌||◌, List, [], ◌∷◌, Bytes, Result, ok,
  err, ◌>>◌, codes, Bool-cases,
}
use talon_sdk_go.Driver.{
  Called, executed, queried, rolled_back, closed, Conn, Core, Library, has_failed, close, is_valid,
  call_execute, call_query, call_rollback, closing, check_begin, begin_text, commit_text,
  begin_checked, begin_tx, commit, roll_back, ping, query_context,
}
use talon_sdk_go.Driver.Statements.{
  check_definition, is_mutation, normalize_mutation_sql, check_exec, exec_definition, exec_checked,
  exec_context,
}

-- A new connection.
abbrev pub fresh : Conn
fresh = record { invalid = false; history = [] }

-- One operation of database/sql on the connection, whatever Core answers.
pub data Operation (library : Library) : Conn → Conn → Type 0 where
  begins :
      (core : Core) (live plain_options : Bool) (conn : Conn)
      → Operation library conn (begin_tx core live plain_options conn).0
  commits : (core : Core) (conn : Conn) → Operation library conn (commit core conn).0
  rolls_back : (core : Core) (conn : Conn) → Operation library conn (roll_back core conn).0
  pings : (core : Core) (live : Bool) (conn : Conn) → Operation library conn (ping core live conn).0
  queries :
      (core : Core) (params : Result (Unit {0})) (statement : Bytes) (conn : Conn)
      → Operation library conn (query_context core params statement conn).0
  executes :
      (core : Core) (live : Bool) (statement : Bytes) (params : Result (Unit {0})) (conn : Conn)
      → Operation library conn (exec_context library core live statement params conn).0
  closes : (conn : Conn) → Operation library conn (close conn)

pub data Reach (library : Library) : Conn → Conn → Type 0 where
  here : (conn : Conn) → Reach library conn conn
  there : {a b c : Conn} → Reach library a b → Operation library b c → Reach library a c

-- The call ends the session: it closed it, or it was a failed transaction statement.
unfoldable pub ends_session : Called → Bool
ends_session (executed _ failed) = failed
ends_session (queried _ failed) = false
ends_session (rolled_back failed) = failed
ends_session closed = true

unfoldable pub some_ends : List Called → Bool
some_ends [] = false
some_ends (c ∷ cs) = ends_session c || some_ends cs

-- The mark of a connection says whether a call has ended its session.
abbrev IsMarked : Conn → Type 0
IsMarked conn = conn.invalid ≡ some_ends conn.history

closing-IsMarked :
    {A : Type 0} (result : Result A) (conn : Conn) (call : Called)
    → IsMarked conn
    → ends_session call ≡ has_failed result
    → IsMarked (closing (record { invalid = conn.invalid; history = call ∷ conn.history }) result)
unfolding closing close some_ends ends_session
closing-IsMarked (ok a) conn call h e = h ∙ sym (ap (λ b. b || some_ends conn.history) e)
closing-IsMarked (err f) conn call h e = refl

begin-IsMarked :
    (core : Core) (checked : Result (Unit {0})) (conn : Conn)
    → IsMarked conn
    → IsMarked (begin_checked core checked conn).0
unfolding begin_checked call_execute ends_session
begin-IsMarked core (err e) conn h = h
begin-IsMarked core (ok _) conn h = closing-IsMarked (core.execute begin_text) conn _ h refl

query-IsMarked :
    (core : Core) (statement : Bytes) (conn : Conn)
    → IsMarked conn
    → IsMarked (call_query core statement conn)
unfolding call_query some_ends ends_session
query-IsMarked core statement conn h = h

definition-IsMarked :
    (library : Library) (core : Core) (statement : Bytes) (checked : Result (Unit {0}))
    (conn : Conn)
    → IsMarked conn
    → IsMarked (exec_definition library core statement checked conn).0
unfolding exec_definition
definition-IsMarked library core statement (err e) conn h = h
definition-IsMarked library core statement (ok _) conn h = query-IsMarked core statement conn h

exec-IsMarked :
    (library : Library) (core : Core) (statement : Bytes) (checked : Result (Unit {0}))
    (conn : Conn)
    → IsMarked conn
    → IsMarked (exec_checked library core statement checked conn).0
unfolding exec_checked
exec-IsMarked library core statement (err e) conn h = h
exec-IsMarked library core statement (ok _) conn h =
    elim (Bool-cases (is_mutation library (normalize_mutation_sql library statement))) [
      | inl yes_mutation ↦
          rw yes_mutation (query-IsMarked core (normalize_mutation_sql library statement) conn h)
      | inr other ↦
          rw other
            (definition-IsMarked library core statement (check_definition library statement) conn h)
    ]

Operation-IsMarked :
    (library : Library) {b c : Conn} → Operation library b c → IsMarked b → IsMarked c
unfolding begin_tx commit roll_back ping query_context exec_context close call_execute call_rollback
    ends_session some_ends
Operation-IsMarked library (begins core live plain_options conn) h =
    begin-IsMarked core (check_begin core live plain_options) conn h
Operation-IsMarked library (commits core conn) h =
    closing-IsMarked (core.execute commit_text) conn _ h refl
Operation-IsMarked library (rolls_back core conn) h = closing-IsMarked core.rollback conn _ h refl
Operation-IsMarked library (pings core true conn) h =
    query-IsMarked core (codes "SHOW TABLES") conn h
Operation-IsMarked library (pings core false conn) h = h
Operation-IsMarked library (queries core (ok _) statement conn) h =
    query-IsMarked core statement conn h
Operation-IsMarked library (queries core (err e) statement conn) h = h
Operation-IsMarked library (executes core live statement params conn) h =
    exec-IsMarked library core statement (check_exec library live statement >> params) conn h
Operation-IsMarked library (closes conn) h = refl

Reach-IsMarked : (library : Library) {a b : Conn} → Reach library a b → IsMarked a → IsMarked b
Reach-IsMarked library (here conn) h = h
Reach-IsMarked library (there before step) h =
    Operation-IsMarked library step (Reach-IsMarked library before h)

-- A connection that was reached from a new one is valid exactly where no call has ended its session:
-- it was not closed, and no BEGIN, COMMIT or ROLLBACK that the driver's own transaction operations sent
-- has failed. A statement that is sent as a query does not count, whatever its text.
pub is_valid-some_ends :
    (library : Library) (conn : Conn)
    → Reach library fresh conn
    → is_valid conn ≡ not (some_ends conn.history)
unfolding is_valid some_ends
is_valid-some_ends library conn reach = ap not (Reach-IsMarked library reach refl)
