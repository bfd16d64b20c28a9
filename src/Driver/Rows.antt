-- ===== src/Driver/Rows.antt =====
-- goframe/native_sql.go: the rows of a query (QueryContext behind Core, and nativeRows.Next).
use talon_sdk_go.Base.{
  ℕ, zero, suc, ◌+◌, ◌<◌, ◌≡◌, refl, ap, ◌∙◌, subst, Bool, true, ◌&&◌, Option, none, some, List, [],
  ◌∷◌, ◌++◌, append_assoc, get_elem?, length, length-append, Bytes, Error, Result, ok, err, plain,
  ◌>>=◌, ◌==◌, if◌then◌else◌, arith,
}

-- nativeRows
pub record Rows (V : Type 0) : Type 0 where
  pub columns : List Bytes
  pub rows : List (List V)
  pub next : ℕ

-- What Next leaves: io.EOF, an error, or the values of one row.
pub data Fetched (D : Type 0) : Type 0 where
  end_of_rows : Fetched D
  conversion_failed : Error → Fetched D
  row : List D → Fetched D

unfoldable pub same_widths : {V : Type 0} → ℕ → List (List V) → Bool
same_widths width [] = true
same_widths width (r ∷ rs) = (length r == width) && same_widths width rs

-- QueryContext behind the answer of Core.
unfoldable pub query_rows : {V : Type 0} → List Bytes → List (List V) → Result (Rows V)
query_rows columns rows =
    if same_widths (length columns) rows
    then ok (record { columns = columns; rows = rows; next = 0 })
    else err plain

module _ {V D : Type 0} (sql_value : V → Result D) where
  -- The loop of Next over the columns.
  unfoldable pub convert_row : List V → Result (List D)
  convert_row [] = ok []
  convert_row (v ∷ vs) = do converted ← sql_value v; rest ← convert_row vs; ok (converted ∷ rest)

  unfoldable pub fetched : Rows V → Result (List D) → Rows V × Fetched D
  fetched r (err e) = (r, conversion_failed e)
  fetched r (ok values) =
      (record { columns = r.columns; rows = r.rows; next = r.next + 1 }, row values)

  unfoldable pub fetch : Rows V → Option (List V) → Rows V × Fetched D
  fetch r none = (r, end_of_rows)
  fetch r (some values) = fetched r (convert_row values)

  -- nativeRows.Next
  unfoldable pub next_row : Rows V → Rows V × Fetched D
  next_row r = fetch r (get_elem? r.rows r.next)

  -- The calls of Next until one does not return a row, at most `fuel` of them: the rows, and how the
  -- last call ended; `none` is that the fuel has run out.
  unfoldable pub collect :
      Fetched D → List (List D) × Option (Fetched D) → List (List D) × Option (Fetched D)
  collect end_of_rows later = ([], some end_of_rows)
  collect (conversion_failed e) later = ([], some (conversion_failed e))
  collect (row values) later = (values ∷ later.0, later.1)

  unfoldable pub drain : ℕ → Rows V → List (List D) × Option (Fetched D)
  drain zero r = ([], none)
  drain (suc fuel) r = let now = next_row r in collect now.1 (drain fuel now.0)

  -- The rows convert to the values.
  unfoldable pub AllConvert : List (List V) → List (List D) → Type 0
  AllConvert [] [] = Unit
  AllConvert [] (_ ∷ _) = ⊥
  AllConvert (_ ∷ _) [] = ⊥
  AllConvert (r ∷ rs) (d ∷ ds) = (convert_row r ≡ ok d) × AllConvert rs ds

  at_end : (before : List (List V)) → get_elem? (before ++ []) (length before) ≡ none
  at_end [] = refl
  at_end (b ∷ before) = at_end before

  at_next :
      (before : List (List V)) (r : List V) (rs : List (List V))
      → get_elem? (before ++ r ∷ rs) (length before) ≡ some r
  at_next [] r rs = refl
  at_next (b ∷ before) r rs = at_next before r rs

  next_found :
      (columns : List Bytes) (rows : List (List V)) (at : ℕ) (r : List V) (d : List D)
      → get_elem? rows at ≡ some r
      → convert_row r ≡ ok d
      → next_row (record { columns = columns; rows = rows; next = at })
        ≡ (record { columns = columns; rows = rows; next = at + 1 }, row d)
  unfolding next_row fetch fetched
  next_found columns rows at r d found converted = rw found (rw converted refl)

  collected :
      (d : List D) (ds : List (List D))
      → collect (row d) (ds, some end_of_rows) ≡ (d ∷ ds, some end_of_rows)
  unfolding collect
  collected d ds = refl

  drain_from :
      (columns : List Bytes) (before rs : List (List V)) (ds : List (List D)) (fuel at : ℕ)
      → at ≡ length before
      → length rs < fuel
      → AllConvert rs ds
      → drain fuel (record { columns = columns; rows = before ++ rs; next = at })
        ≡ (ds, some end_of_rows)
  unfolding drain next_row AllConvert
  drain_from columns before rs ds zero at e h all =
      let absurd : ⊥ = omega (arith, h) in elim absurd [ ]
  drain_from columns before [] [] (suc fuel) at e h all =
      let missing : get_elem? (before ++ []) at ≡ none =
        ap (get_elem? (before ++ [])) e ∙ at_end before in
      unfold fetch collect in rw missing refl
  drain_from columns before [] (_ ∷ _) (suc fuel) at e h all = elim all [ ]
  drain_from columns before (_ ∷ _) [] (suc fuel) at e h all = elim all [ ]
  drain_from columns before (r ∷ rs) (d ∷ ds) (suc fuel) at e h all =
      let found : get_elem? (before ++ r ∷ rs) at ≡ some r =
        ap (get_elem? (before ++ r ∷ rs)) e ∙ at_next before r rs in
      let step = next_found columns (before ++ r ∷ rs) at r d found all.0 in
      let index : at + 1 ≡ length (before ++ r ∷ []) =
        omega (arith, e, length-append before (r ∷ [])) in
      let later =
        drain_from columns (before ++ r ∷ []) rs ds fuel (at + 1) index (omega (arith, h)) all.1 in
      let whole : (before ++ r ∷ []) ++ rs ≡ before ++ r ∷ rs = append_assoc before (r ∷ []) rs in
      let rest =
        subst
          (λ l.
            drain fuel (record { columns = columns; rows = l; next = at + 1 })
            ≡ (ds, some end_of_rows))
          whole later in
      ap (λ (now : Rows V × Fetched D). collect now.1 (drain fuel now.0)) step
      ∙ ap (collect (row d)) rest
      ∙ collected d ds

  -- Where every row of a result converts: Next returns the converted rows in their order, and then
  -- io.EOF, within one call more than there are rows.
  pub drain-AllConvert :
      (columns : List Bytes) (rows : List (List V)) (values : List (List D))
      → AllConvert rows values
      → drain (suc (length rows)) (record { columns = columns; rows = rows; next = 0 })
        ≡ (values, some end_of_rows)
  drain-AllConvert columns rows values all =
      drain_from columns [] rows values (suc (length rows)) 0 refl (omega arith) all
