-- ===== src/Wire/Rows.antt =====
-- talon_query.go: whole parameter blocks and row sets, `encodeParameters` and `decodeRows`.
use talon_sdk_go.Base.{
  ℕ, suc, ◌*◌, ◌/◌, ◌^◌, ◌≤◌, ◌<◌, ◌≡◌, refl, sym, ap, subst, ◌∙◌, Bool, true, List, [], ◌∷◌, ◌++◌,
  append_assoc, append-nil, Bytes, ok, plain, guard, ◌>>=◌, ◌>>◌, All, length, length-append, take,
  drop, take-append_at, drop-append_at, arith, ltb-false,
}
use native.Mathlib.Nat.{le-div_iff_mul-le}
use talon_sdk_go.Base.Words.{get_le, put_le, length-put_le, get_le-put_le}
use talon_sdk_go.Wire.{
  max_uint32, encode_parameters, Value, kind, payload, append_wire_value, append_values,
}
use talon_sdk_go.Wire.Decode.{
  decode_wire_value, read_row, read_rows, valid_counts, decode_rows, finish_rows, max_wire_items,
}
use talon_sdk_go.Wire.Stored.{IsStored}
use talon_sdk_go.Wire.Values.{read_value-payload}

abbrev pub concat : List (List Value) → List Value
concat [] = []
concat (row ∷ rows) = row ++ concat rows

-- Every row has that many cells, all stored.
abbrev pub IsTable : ℕ → List (List Value) → Type 0
IsTable columns = All (λ row. (length row ≡ columns) × All IsStored row)

module _ (sj : Bytes → Bool) where
  append_values_cons :
      (v : Value) (vs : List Value) (buffer bytes : Bytes)
      → append_values sj buffer (v ∷ vs) ≡ ok bytes
      → (p : Bytes) × (payload sj v ≡ ok p)
        × (append_values sj (buffer ++ kind v ∷ p) vs ≡ ok bytes)
  unfolding append_values append_wire_value
  append_values_cons v vs buffer bytes e = ground arith

  read_row_cons :
      (v : Value) (vs : List Value) (n : ℕ) (p body rest : Bytes)
      → IsStored v
      → payload sj v ≡ ok p
      → read_row sj n (body ++ rest) ≡ ok (vs, rest)
      → read_row sj (suc n) ((kind v ∷ (p ++ body)) ++ rest) ≡ ok (v ∷ vs, rest)
  unfolding read_row decode_wire_value
  read_row_cons v vs n p body rest h written reads =
      rw (append_assoc p body rest)
        (rw (read_value-payload sj p (body ++ rest) v h written) (rw reads))

  -- What the loop appended reads as the values, in order.
  append_values_read :
      (vs : List Value) (buffer bytes : Bytes)
      → All IsStored vs
      → append_values sj buffer vs ≡ ok bytes
      → (body : Bytes) × (bytes ≡ buffer ++ body)
        × (length vs ≤ length body)
        × ((rest : Bytes) → read_row sj (length vs) (body ++ rest) ≡ ok (vs, rest))
  append_values_read [] buffer bytes h e = (
    [],
    unfold append_values in ground (arith, append-nil buffer),
    omega arith,
    λ rest. unfold read_row in refl,
  )
  append_values_read (v ∷ vs) buffer bytes h e =
      let (p, written, more) = append_values_cons v vs buffer bytes e in
      let (body, joined, count, reads) =
        append_values_read vs (buffer ++ kind v ∷ p) bytes h.1 more in
      (
        kind v ∷ (p ++ body),
        joined ∙ append_assoc buffer (kind v ∷ p) body,
        omega (arith, length-append p body),
        λ rest. read_row_cons v vs (length vs) p body rest h.0 written (reads rest),
      )

  append_values_step :
      (v : Value) (vs : List Value) (buffer p : Bytes)
      → payload sj v ≡ ok p
      → append_values sj buffer (v ∷ vs) ≡ append_values sj (buffer ++ kind v ∷ p) vs
  unfolding append_values append_wire_value
  append_values_step v vs buffer p e = ground arith

  append_values-append :
      (xs ys : List Value) (buffer bytes : Bytes)
      → append_values sj buffer (xs ++ ys) ≡ ok bytes
      → (middle : Bytes) × (append_values sj buffer xs ≡ ok middle)
        × (append_values sj middle ys ≡ ok bytes)
  append_values-append [] ys buffer bytes e = (buffer, unfold append_values in refl, e)
  append_values-append (x ∷ xs) ys buffer bytes e =
      let (p, written, more) = append_values_cons x (xs ++ ys) buffer bytes e in
      let (middle, first, last) = append_values-append xs ys (buffer ++ kind x ∷ p) bytes more in
      (middle, append_values_step x xs buffer p written ∙ first, last)

  read_rows_cons :
      (row : List Value) (rows : List (List Value)) (columns n : ℕ) (body body' rest : Bytes)
      → length row ≡ columns
      → ((after : Bytes) → read_row sj (length row) (body ++ after) ≡ ok (row, after))
      → read_rows sj n columns (body' ++ rest) ≡ ok (rows, rest)
      → read_rows sj (suc n) columns ((body ++ body') ++ rest) ≡ ok (row ∷ rows, rest)
  unfolding read_rows
  read_rows_cons row rows columns n body body' rest e reads more =
      rw (append_assoc body body' rest) (
        rw
          (subst (λ c. read_row sj c (body ++ (body' ++ rest)) ≡ ok (row, body' ++ rest)) e
            (reads (body' ++ rest)))
          (rw more))

  -- A table reads row by row.
  append_table_read :
      (columns : ℕ) (rows : List (List Value)) (buffer bytes : Bytes)
      → IsTable columns rows
      → append_values sj buffer (concat rows) ≡ ok bytes
      → (body : Bytes) × (bytes ≡ buffer ++ body)
        × (length rows * columns ≤ length body)
        × ((rest : Bytes) → read_rows sj (length rows) columns (body ++ rest) ≡ ok (rows, rest))
  append_table_read columns [] buffer bytes h e = (
    [],
    unfold append_values in ground (arith, append-nil buffer),
    omega arith,
    λ rest. unfold read_rows in refl,
  )
  append_table_read columns (row ∷ rows) buffer bytes h e =
      let (middle, first, last) = append_values-append row (concat rows) buffer bytes e in
      let (body, joined, count, reads) = append_values_read row buffer middle h.0.1 first in
      let (body', joined', count', reads') = append_table_read columns rows middle bytes h.1 last in
      (
        body ++ body',
        joined' ∙ (ap (λ b. b ++ body') joined ∙ append_assoc buffer body body'),
        omega (arith, length-append body body', h.0.0),
        λ rest.
            read_rows_cons row rows columns (length rows) body body' rest h.0.0 reads (reads' rest),
      )

-- The header of a row set, and the whole of it.
module _ (rows columns : ℕ) (body : Bytes) where
  abbrev header : Bytes
  header = put_le 4 rows ++ put_le 4 columns

  length-header : length header ≡ 8
  length-header = omega (
    arith,
    length-append (put_le 4 rows) (put_le 4 columns),
    length-put_le 4 rows,
    length-put_le 4 columns,
  )

  take-header : take 4 (header ++ body) ≡ put_le 4 rows
  take-header =
      ap (take 4) (append_assoc (put_le 4 rows) (put_le 4 columns) body)
      ∙ take-append_at (put_le 4 rows) (put_le 4 columns ++ body) 4 (length-put_le 4 rows)

  drop-header : take 4 (drop 4 (header ++ body)) ≡ put_le 4 columns
  drop-header =
      ap (λ w. take 4 (drop 4 w)) (append_assoc (put_le 4 rows) (put_le 4 columns) body)
      ∙ (ap (take 4)
            (drop-append_at (put_le 4 rows) (put_le 4 columns ++ body) 4 (length-put_le 4 rows))
          ∙ take-append_at (put_le 4 columns) body 4 (length-put_le 4 columns))

  decode_rows-header :
      (sj : Bytes → Bool)
      → rows < 2 ^ 32
      → columns < 2 ^ 32
      → decode_rows sj (header ++ body) ≡ (
          guard (valid_counts rows columns (length body)) plain
          >> (read_rows sj rows columns body >>= finish_rows))
  unfolding decode_rows
  decode_rows-header sj h k =
      rw
        (ltb-false (length (header ++ body)) 8
          (omega (arith, length-append header body, length-header)))
        (rw take-header (
          rw drop-header (
            rw (drop-append_at header body 8 length-header)
              (rw (get_le-put_le 4 rows h) (rw (get_le-put_le 4 columns k))))))

-- The counts of a table that fits the bounds pass the tests.
valid_counts_of :
    (rows columns size : ℕ)
    → rows * columns ≤ max_wire_items
    → 1 ≤ rows
    → 1 ≤ columns
    → rows * columns ≤ size
    → valid_counts rows columns size ≡ true
unfolding valid_counts
valid_counts_of rows columns size h r c b =
    let few : rows ≤ max_wire_items = grind arith in
    let narrow : columns ≤ max_wire_items = grind arith in
    let fits : columns ≤ max_wire_items / rows = (le-div_iff_mul-le r).1 (omega arith) in
    ground arith

module _ (sj : Bytes → Bool) where
  decode_rows_finish :
      (n columns : ℕ) (body : Bytes) (rows : List (List Value))
      → valid_counts n columns (length body) ≡ true
      → read_rows sj n columns body ≡ ok (rows, [])
      → (guard (valid_counts n columns (length body)) plain
          >> (read_rows sj n columns body >>= finish_rows))
        ≡ ok rows
  unfolding finish_rows
  decode_rows_finish n columns body rows v e = rw v (rw e)

  -- A table of stored values, with a row and a column at least and 2^20 cells at most, that the
  -- encoder of the values wrote behind the two counts is decoded to that table.
  pub decode_rows-append_values :
      (columns : ℕ) (rows : List (List Value)) (wire : Bytes)
      → IsTable columns rows
      → 1 ≤ length rows
      → 1 ≤ columns
      → length rows * columns ≤ max_wire_items
      → append_values sj (put_le 4 (length rows) ++ put_le 4 columns) (concat rows) ≡ ok wire
      → decode_rows sj wire ≡ ok rows
  decode_rows-append_values columns rows wire h r c b e =
      let n = length rows in
      let (body, joined, count, reads) =
        append_table_read sj columns rows (header n columns []) wire h e in
      let whole : read_rows sj n columns body ≡ ok (rows, []) =
        ap (read_rows sj n columns) (sym (append-nil body)) ∙ reads [] in
      ap (decode_rows sj) joined
      ∙ (decode_rows-header n columns body sj (grind arith) (grind arith)
          ∙ decode_rows_finish n columns body rows
              (valid_counts_of n columns (length body) b r c count) whole)

  encode_parameters_tests :
      (params : List Value) (wire : Bytes)
      → encode_parameters sj params ≡ ok wire
      → (length params ≤ max_uint32)
        × (append_values sj (put_le 4 (length params)) params ≡ ok wire)
  unfolding encode_parameters
  encode_parameters_tests params wire e = ground (arith, e)

  -- A parameter block of stored values starts with their number, and behind it the decoder of values
  -- reads the same values in order, with nothing left.
  pub read_row-encode_parameters :
      (params : List Value) (wire : Bytes)
      → All IsStored params
      → encode_parameters sj params ≡ ok wire
      → (get_le (take 4 wire) ≡ length params)
        × (read_row sj (length params) (drop 4 wire) ≡ ok (params, []))
  read_row-encode_parameters params wire h e =
      let count = put_le 4 (length params) in
      let size = length-put_le 4 (length params) in
      let (few, written) = encode_parameters_tests params wire e in
      let (body, joined, _, reads) = append_values_read sj params count wire h written in
      (
        ap (λ w. get_le (take 4 w)) joined
            ∙ (ap get_le (take-append_at count body 4 size)
                ∙ get_le-put_le 4 (length params) (omega (arith, few))),
        ap (λ w. read_row sj (length params) (drop 4 w)) joined
            ∙ (ap (read_row sj (length params))
                  (drop-append_at count body 4 size ∙ sym (append-nil body))
                ∙ reads []),
      )
