-- ===== src/Driver/Grammar.antt =====
-- goframe/native_sql.go: the statements that Exec takes, described by their texts, apart from the tests
-- of the code, and the tests decide these descriptions.
use talon_sdk_go.Base.{
  ℕ, ◌≤◌, ◌≡◌, ◌⊎◌, ◌↔◌, inl, inr, refl, ap, ◌∙◌, Bool, true, false, List, [], ◌∷◌, ◌++◌, drop,
  Bytes, ok, plain, guard, ◌>>◌, leb, length, codes, Bool-cases, arith,
}
use talon_sdk_go.Driver.{Library}
use talon_sdk_go.Driver.Statements.{
  has_prefix, trim_semicolon, normalize_mutation_sql, kind_of_verb, kind_of_fields, is_mutation,
  is_definition, check_exec, check_definition,
}
use talon_sdk_go.Driver.Decided.{
  decided_false, or_iff, and_iff, or3_iff, or4_iff, not_iff, bytes_equal_iff,
}
use talon_sdk_go.Driver.Texts.{
  Starts, Contains, IsQuery, has_prefix-iff-Starts, contains_text-iff-Contains,
  has_prefix_of-iff-IsQuery,
}

-- The body of a statement: without a semicolon at its end.
abbrev pub body_of : Library → Bytes → Bytes
body_of library statement = library.trim_space (trim_semicolon (library.trim_space statement))

-- A mutation whose rows are counted: one statement without RETURNING, of three fields at least, an
-- INSERT without ON DUPLICATE, an UPDATE or a DELETE.
unfoldable pub IsMutation : Library → Bytes → Type 0
IsMutation library sql =
    let body = body_of library sql in
    ((Contains (codes ";") body ⊎ Contains (codes "RETURNING") (library.to_upper body)) → ⊥)
    × (verb : Bytes) × (others : List Bytes) × (library.fields body ≡ verb ∷ others)
    × (2 ≤ length others)
    × (((library.to_upper verb ≡ codes "INSERT")
          × (Contains (codes " ON DUPLICATE ") (library.to_upper body) → ⊥))
        ⊎ (library.to_upper verb ≡ codes "UPDATE")
        ⊎ (library.to_upper verb ≡ codes "DELETE"))

-- A definition: one statement that begins with CREATE, ALTER, DROP or TRUNCATE.
unfoldable pub IsDefinition : Library → Bytes → Type 0
IsDefinition library statement =
    ((verb : Bytes) × (others : List Bytes) × (library.fields statement ≡ verb ∷ others)
      × ((library.to_upper verb ≡ codes "CREATE")
          ⊎ (library.to_upper verb ≡ codes "ALTER")
          ⊎ (library.to_upper verb ≡ codes "DROP")
          ⊎ (library.to_upper verb ≡ codes "TRUNCATE")))
    × (Contains (codes ";") (body_of library statement) → ⊥)

-- The statement as it is sent where it is a mutation, with the dialect's INSERT IGNORE and REPLACE
-- written in Core's words.
unfoldable pub IsNormal : Library → Bytes → Bytes → Type 0
IsNormal library statement sql =
    let trimmed = library.trim_space statement in
    let upper = library.to_upper trimmed in
    (Starts (codes "INSERT IGNORE INTO ") upper
      × (sql ≡ codes "INSERT OR IGNORE INTO " ++ drop 19 trimmed))
    ⊎ ((Starts (codes "INSERT IGNORE INTO ") upper → ⊥)
        × Starts (codes "REPLACE INTO ") upper
        × (sql ≡ codes "INSERT OR REPLACE INTO " ++ drop 13 trimmed))
    ⊎ ((Starts (codes "INSERT IGNORE INTO ") upper → ⊥)
        × (Starts (codes "REPLACE INTO ") upper → ⊥)
        × (sql ≡ trimmed))

-- The statement may be executed: a live context, no query, no transaction statement, no RETURNING.
unfoldable pub IsAllowed : Library → Bool → Bytes → Type 0
IsAllowed library live statement =
    let upper = library.to_upper (library.trim_space statement) in
    (live ≡ true) × (IsQuery upper → ⊥) × (Contains (codes "RETURNING") upper → ⊥)

module _ (library : Library) where
  -- The verb of a mutation, and that of a definition.
  abbrev IsVerb : Bytes → Bytes → Type 0
  IsVerb verb upper =
      ((library.to_upper verb ≡ codes "INSERT") × (Contains (codes " ON DUPLICATE ") upper → ⊥))
      ⊎ (library.to_upper verb ≡ codes "UPDATE")
      ⊎ (library.to_upper verb ≡ codes "DELETE")

  kind_of_verb_iff :
      (verb upper : Bytes)
      → (kind_of_verb library (library.to_upper verb) upper ≡ true) ↔ IsVerb verb upper
  unfolding kind_of_verb
  kind_of_verb_iff verb upper =
      let name = library.to_upper verb in
      or3_iff _ _ _
        (and_iff _ _ (bytes_equal_iff name (codes "INSERT"))
          (not_iff _ (contains_text-iff-Contains (codes " ON DUPLICATE ") upper)))
        (bytes_equal_iff name (codes "UPDATE")) (bytes_equal_iff name (codes "DELETE"))

  leb_iff : (m n : ℕ) → (leb m n ≡ true) ↔ (m ≤ n)
  leb_iff m n = ground arith

  kind_of_fields_iff :
      (fields : List Bytes) (upper : Bytes)
      → (kind_of_fields library fields upper ≡ true) ↔ (
          (verb : Bytes) × (others : List Bytes) × (fields ≡ verb ∷ others)
          × (2 ≤ length others)
          × IsVerb verb upper)
  unfolding kind_of_fields
  kind_of_fields_iff [] upper = (λ h. cc, λ (verb, others, e, _, _). cc)
  kind_of_fields_iff (verb ∷ others) upper = (
    λ h.
        let (many, kind) =
          (and_iff _ _ (leb_iff 2 (length others)) (kind_of_verb_iff verb upper)).0 h in
        (verb, others, refl, many, kind),
    λ (other_verb, other_fields, e, many, kind).
        ap (λ fields. kind_of_fields library fields upper) e
        ∙ (and_iff _ _ (leb_iff 2 (length other_fields)) (kind_of_verb_iff other_verb upper)).1
            (many, kind),
  )

  pub is_mutation-iff-IsMutation :
      (sql : Bytes) → (is_mutation library sql ≡ true) ↔ IsMutation library sql
  unfolding is_mutation IsMutation
  is_mutation-iff-IsMutation sql =
      let body = body_of library sql in
      let upper = library.to_upper body in
      let (to, back) =
        and_iff _ _
          (not_iff _ (
            or_iff _ _ (contains_text-iff-Contains (codes ";") body)
              (contains_text-iff-Contains (codes "RETURNING") upper)))
          (kind_of_fields_iff (library.fields body) upper) in
      (
        λ h. let (plain_body, kind) = to h in (plain_body, kind.0, kind.1, kind.2, kind.3, kind.4),
        λ (plain_body, verb, others, e, many, kind).
            back (plain_body, (verb, others, e, many, kind)),
      )

  abbrev IsDefinitionVerb : Bytes → Type 0
  IsDefinitionVerb verb =
      (library.to_upper verb ≡ codes "CREATE")
      ⊎ (library.to_upper verb ≡ codes "ALTER")
      ⊎ (library.to_upper verb ≡ codes "DROP")
      ⊎ (library.to_upper verb ≡ codes "TRUNCATE")

  verb_iff :
      (verb : Bytes) (others : List Bytes)
      → (is_definition library (verb ∷ others) ≡ true) ↔ IsDefinitionVerb verb
  unfolding is_definition
  verb_iff verb others =
      let name = library.to_upper verb in
      or4_iff _ _ _ _ (bytes_equal_iff name (codes "CREATE")) (bytes_equal_iff name (codes "ALTER"))
        (bytes_equal_iff name (codes "DROP")) (bytes_equal_iff name (codes "TRUNCATE"))

  is_definition_iff :
      (fields : List Bytes)
      → (is_definition library fields ≡ true) ↔ (
          (verb : Bytes) × (others : List Bytes) × (fields ≡ verb ∷ others) × IsDefinitionVerb verb)
  is_definition_iff [] = (λ h. unfold is_definition in cc h, λ (verb, others, e, _). cc)
  is_definition_iff (verb ∷ others) = (
    λ h. (verb, others, refl, (verb_iff verb others).0 h),
    λ (other_verb, other_fields, e, kind).
        ap (is_definition library) e ∙ (verb_iff other_verb other_fields).1 kind,
  )

  guards_iff :
      {P Q : Type 0} (a b : Bool)
      → ((a ≡ true) ↔ P)
      → ((b ≡ true) ↔ Q)
      → ((guard a plain >> guard b plain) ≡ ok tt) ↔ (P × Q)
  guards_iff true true p q = (λ h. (p.0 refl, q.0 refl), λ s. refl)
  guards_iff true false p q = (λ h. cc, λ (x, y). cc (q.1 y))
  guards_iff false b p q = (λ h. cc, λ (x, y). cc (p.1 x))

  pub check_definition-iff-IsDefinition :
      (statement : Bytes)
      → (check_definition library statement ≡ ok tt) ↔ IsDefinition library statement
  unfolding check_definition IsDefinition
  check_definition-iff-IsDefinition statement =
      guards_iff _ _ (is_definition_iff (library.fields statement))
        (not_iff _ (contains_text-iff-Contains (codes ";") (body_of library statement)))

  pub check_exec-iff-IsAllowed :
      (live : Bool) (statement : Bytes)
      → (check_exec library live statement ≡ ok tt) ↔ IsAllowed library live statement
  unfolding check_exec IsAllowed
  check_exec-iff-IsAllowed false statement = (λ h. cc, λ (alive, _, _). cc)
  check_exec-iff-IsAllowed true statement =
      let upper = library.to_upper (library.trim_space statement) in
      let (to, back) =
        guards_iff _ _ (not_iff _ (has_prefix_of-iff-IsQuery upper))
          (not_iff _ (contains_text-iff-Contains (codes "RETURNING") upper)) in
      (λ h. let (a, b) = to h in (refl, a, b), λ (_, a, b). back (a, b))

  pub normalize_mutation_sql-IsNormal :
      (statement : Bytes) → IsNormal library statement (normalize_mutation_sql library statement)
  unfolding normalize_mutation_sql IsNormal
  normalize_mutation_sql-IsNormal statement =
      let upper = library.to_upper (library.trim_space statement) in
      let ignore = has_prefix-iff-Starts (codes "INSERT IGNORE INTO ") upper in
      let replace = has_prefix-iff-Starts (codes "REPLACE INTO ") upper in
      elim (Bool-cases (has_prefix (codes "INSERT IGNORE INTO ") upper)) [
        | inl ignores ↦ rw ignores (inl (ignore.0 ignores, refl))
        | inr keeps ↦
            let never = (decided_false _ ignore).0 keeps in
            elim (Bool-cases (has_prefix (codes "REPLACE INTO ") upper)) [
              | inl replaces ↦ rw keeps (rw replaces (inr (inl (never, replace.0 replaces, refl))))
              | inr other ↦
                  rw keeps (rw other (inr (inr (never, (decided_false _ replace).0 other, refl))))
            ]
      ]

  -- A statement has one normal form.
  pub IsNormal-normalize_mutation_sql :
      (statement sql : Bytes)
      → IsNormal library statement sql
      → sql ≡ normalize_mutation_sql library statement
  unfolding normalize_mutation_sql IsNormal
  IsNormal-normalize_mutation_sql statement sql h =
      let upper = library.to_upper (library.trim_space statement) in
      let ignore = has_prefix-iff-Starts (codes "INSERT IGNORE INTO ") upper in
      let replace = has_prefix-iff-Starts (codes "REPLACE INTO ") upper in
      elim h [
        | inl (starts, e) ↦ rw (ignore.1 starts) e
        | inr (inl (never, starts, e)) ↦
            rw ((decided_false _ ignore).1 never) (rw (replace.1 starts) e)
        | inr (inr (never, neither, e)) ↦
            rw ((decided_false _ ignore).1 never) (rw ((decided_false _ replace).1 neither) e)
      ]
