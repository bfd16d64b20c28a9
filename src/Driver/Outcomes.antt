-- ===== src/Driver/Outcomes.antt =====
-- goframe/native_sql.go: what Exec sends, and what its result says.
use talon_sdk_go.Base.{
  true, sym, ap, subst, ◌∙◌, if◌then◌else◌, ℕ, ◌^◌, ◌<◌, ◌≡◌, ◌⊎◌, inl, inr, refl, Bool, false,
  Option, none, some, ◌∷◌, Bytes, Error, talon, Result, ok, err, plain, ◌>>=◌, ◌>>◌, then_ok,
  Bool-cases, ltb, ltb→lt, arith,
}
use talon_sdk_go.Driver.Grammar.{
  IsMutation, IsDefinition, IsNormal, IsAllowed, is_mutation-iff-IsMutation,
  check_definition-iff-IsDefinition, check_exec-iff-IsAllowed, normalize_mutation_sql-IsNormal,
  IsNormal-normalize_mutation_sql,
}
use talon_sdk_go.Driver.{
  has_failed, queried, Conn, Core, Library, SqlResult, call_query, is_protocol_violation,
  outcome_error, mutation_outcome,
}
use talon_sdk_go.Driver.Statements.{
  violation, is_mutation, normalize_mutation_sql, check_exec, affected, affected_of,
  check_definition, exec_definition, exec_checked, exec_context,
}

unfoldable pub violates : Error → Bool
violates plain = false
violates (talon e) = is_protocol_violation e.code

-- The answer of Core counts the rows: an int64.
unfoldable pub IsCounted : Result SqlResult → SqlResult → Type 0
IsCounted answer result =
    (answer ≡ ok result) × (n : ℕ) × (result.affected_rows ≡ some n) × (n < 2 ^ 63)

-- The result of a mutation by the answer of Core: the answer where it counts the rows, and else an error
-- that is not a violation of the protocol.
unfoldable pub IsMutated : Result SqlResult → Result SqlResult → Type 0
IsMutated answer (ok result) = IsCounted answer result
IsMutated answer (err e) =
    ((result : SqlResult) → IsCounted answer result → ⊥) × (violates e ≡ false)

-- The result of a definition by the answer of Core: no rows where it succeeds, and else an error that is
-- not a violation of the protocol.
unfoldable pub IsDefined : Result SqlResult → Result SqlResult → Type 0
IsDefined answer (ok result) =
    ((given : SqlResult) × (answer ≡ ok given)) × (result.affected_rows ≡ some 0)
IsDefined answer (err e) = ((f : Error) × (answer ≡ err f)) × (violates e ≡ false)

outcome_error-violates : (e : Error) → violates (outcome_error e) ≡ false
unfolding violates outcome_error is_protocol_violation
outcome_error-violates plain = refl
outcome_error-violates (talon e) = elim (Bool-cases (is_protocol_violation e.code)) [
  | inl bad ↦ rw bad refl
  | inr clean ↦ rw clean clean
]

not_counted :
    (result : SqlResult) (answer : SqlResult)
    → ((n : ℕ) → result.affected_rows ≡ some n → n < 2 ^ 63 → ⊥)
    → IsCounted (ok result) answer
    → ⊥
unfolding IsCounted
not_counted result answer never (same, n, given, small) =
    let equal : result ≡ answer = cc in never n (ap (λ r. r.affected_rows) equal ∙ given) small

affected_of-IsMutated :
    (n : Option ℕ) (result : SqlResult)
    → result.affected_rows ≡ n
    → IsMutated (ok result) (affected_of n result)
unfolding affected_of IsMutated IsCounted
affected_of-IsMutated none result e = (
  λ answer. not_counted result answer (λ n given small. cc (e, given)),
  outcome_error-violates violation,
)
affected_of-IsMutated (some n) result e = elim (Bool-cases (ltb n (2 ^ 63))) [
  | inl small ↦ rw small (refl, n, e, ltb→lt n (2 ^ 63) small)
  | inr large ↦ rw large (
    λ answer. not_counted result answer (λ m given small.
        let same : n ≡ m = cc in
        let impossible : ltb n (2 ^ 63) ≡ true = ground (arith, same, small) in cc),
    outcome_error-violates violation,
  )
]

mutation-IsMutated :
    (answer : Result SqlResult) → IsMutated answer (mutation_outcome answer >>= affected)
unfolding mutation_outcome affected
mutation-IsMutated (ok result) = affected_of-IsMutated result.affected_rows result refl
mutation-IsMutated (err e) =
    unfold IsMutated IsCounted in ((λ result (same, _, _, _). cc), outcome_error-violates e)

definition-IsDefined :
    (answer : Result SqlResult)
    → IsDefined answer (
        mutation_outcome answer >>= λ _.
        ok (record { affected_rows = some 0; last_insert_id = none }))
unfolding mutation_outcome IsDefined
definition-IsDefined (ok result) = ((result, refl), refl)
definition-IsDefined (err e) = ((e, refl), outcome_error-violates e)

-- The statement is sent as a mutation, in its normal form, or as a definition, as it is, where its normal
-- form is no mutation.
unfoldable pub IsMutationOf : Library → Bytes → Bytes → Type 0
IsMutationOf library statement sql = IsNormal library statement sql × IsMutation library sql

unfoldable pub IsDefinitionOf : Library → Bytes → Bytes → Type 0
IsDefinitionOf library statement sql =
    (sql ≡ statement)
    × ((other : Bytes) → IsMutationOf library statement other → ⊥)
    × IsDefinition library statement

-- What may be executed, and as which text.
abbrev pub IsTaken : Library → Bool → Bytes → Result (Unit {0}) → Bytes → Type 0
IsTaken library live statement params sql =
    IsAllowed library live statement
    × (params ≡ ok tt)
    × (IsMutationOf library statement sql ⊎ IsDefinitionOf library statement sql)

-- Nothing was sent, since nothing may be, or the one statement that may be was.
abbrev pub IsExec :
    Library → Core → Bool → Bytes → Result (Unit {0}) → Conn → Conn × Result SqlResult → Type 0
IsExec library core live statement params conn after =
    ((after.0 ≡ conn)
      × ((e : Error) × (after.1 ≡ err e))
      × ((sql : Bytes) → IsTaken library live statement params sql → ⊥))
    ⊎ ((sql : Bytes) × IsTaken library live statement params sql
        × (after.0.invalid ≡ conn.invalid)
        × (after.0.history ≡ queried sql (has_failed (core.query sql)) ∷ conn.history)
        × ((IsMutationOf library statement sql × IsMutated (core.query sql) after.1)
            ⊎ (IsDefinitionOf library statement sql × IsDefined (core.query sql) after.1)))

module _ (library : Library) (core : Core) (live : Bool) (statement : Bytes) (conn : Conn) where
  no_mutation :
      is_mutation library (normalize_mutation_sql library statement) ≡ false
      → (other : Bytes) → IsMutationOf library statement other
      → ⊥
  unfolding IsMutationOf
  no_mutation differs other (normal, mutation) =
      let same = IsNormal-normalize_mutation_sql library statement other normal in
      let held =
        ap (is_mutation library) (sym same)
        ∙ (is_mutation-iff-IsMutation library other).1 mutation in
      cc (held, differs)

  exec_definition-IsExec :
      IsAllowed library live statement
      → ((other : Bytes) → IsMutationOf library statement other → ⊥)
      → (checked : Result (Unit {0})) → check_definition library statement ≡ checked
      → IsExec library core live statement
          (ok tt)
          conn
          (exec_definition library core statement checked conn)
  unfolding exec_definition call_query IsDefinitionOf
  exec_definition-IsExec allowed none_fits (err e) h = inl (
    refl,
    (e, refl),
    λ sql (_, _, kind). elim kind [
      | inl mutation ↦ none_fits sql mutation
      | inr definition ↦
          let passed = (check_definition-iff-IsDefinition library statement).1 definition.2 in
          cc (passed, h)
    ],
  )
  exec_definition-IsExec allowed none_fits (ok _) h =
      let definition : IsDefinitionOf library statement statement =
        (refl, none_fits, (check_definition-iff-IsDefinition library statement).0 h) in
      inr (
        statement,
        (allowed, refl, inr definition),
        refl,
        refl,
        inr (definition, definition-IsDefined (core.query statement)),
      )

  exec_checked-IsExec :
      (params checked : Result (Unit {0}))
      → (check_exec library live statement >> params) ≡ checked
      → IsExec library core live statement params conn
          (exec_checked library core statement checked conn)
  unfolding exec_checked call_query
  exec_checked-IsExec params (err e) h = inl (
    refl,
    (e, refl),
    λ sql (allowed, converted, _).
        let passed = (check_exec-iff-IsAllowed library live statement).1 allowed in
        let both : (check_exec library live statement >> params) ≡ ok tt = rw passed converted in
        cc (both, h),
  )
  exec_checked-IsExec params (ok _) h =
      let sql = normalize_mutation_sql library statement in
      let (passed, converted) = then_ok (check_exec library live statement) params h in
      let allowed = (check_exec-iff-IsAllowed library live statement).0 passed in
      elim (Bool-cases (is_mutation library sql)) [
        | inl mutation ↦
            let kind : IsMutationOf library statement sql =
              unfold IsMutationOf in
              (
                normalize_mutation_sql-IsNormal library statement,
                (is_mutation-iff-IsMutation library sql).0 mutation,
              ) in
            rw mutation (
              inr (
                sql,
                (allowed, converted, inl kind),
                refl,
                refl,
                inl (kind, mutation-IsMutated (core.query sql)),
              ))
        | inr other ↦
            subst
              (λ p. IsExec library core live statement p conn (
                if is_mutation library sql
                then (call_query core sql conn, (mutation_outcome (core.query sql) >>= affected))
                else exec_definition library core statement (check_definition library statement)
                    conn))
              (sym converted)
              (rw other (
                exec_definition-IsExec allowed (no_mutation other)
                  (check_definition library statement) refl))
      ]

-- Exec sends one statement just where the context lives, the parameters convert, the statement is no
-- query, no transaction statement and has no RETURNING, and either its normal form is one counted
-- mutation (INSERT, UPDATE, DELETE), which is sent, or it is one definition (CREATE, ALTER, DROP,
-- TRUNCATE), which is sent as it is. It keeps the mark of the connection. For a mutation it returns the
-- answer of Core that counts the rows as an int64, for a definition no rows where Core succeeds, and else
-- an error that is not a violation of the protocol. Where nothing may be sent, the connection is left as
-- it is and the call fails.
pub exec_context-IsSettled :
    (library : Library) (core : Core) (live : Bool) (statement : Bytes) (params : Result (Unit {0}))
    (conn : Conn)
    → IsExec library core live statement params conn
        (exec_context library core live statement params conn)
unfolding exec_context
exec_context-IsSettled library core live statement params conn =
    exec_checked-IsExec library core live statement conn params
      (check_exec library live statement >> params) refl
