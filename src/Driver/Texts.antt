-- ===== src/Driver/Texts.antt =====
-- goframe/native_sql.go: the tests on the text of a statement, and what they decide.
use talon_sdk_go.Base.{
  ℕ, ◌≡◌, ◌⊎◌, ◌↔◌, inl, inr, refl, ap, true, [], ◌∷◌, ◌++◌, Bytes, ◌==◌, ==_iff, codes, Bool-cases,
  both_true, arith,
}
use talon_sdk_go.Driver.Statements.{excluded, has_prefix, contains_text, has_prefix_of}
use talon_sdk_go.Driver.Decided.{or_iff, last_iff}

-- A text starts with another, and contains it.
abbrev pub Starts : Bytes → Bytes → Type 0
Starts wanted text = (rest : Bytes) × (text ≡ wanted ++ rest)

abbrev pub Contains : Bytes → Bytes → Type 0
Contains wanted text = (before : Bytes) × (after : Bytes) × (text ≡ before ++ (wanted ++ after))

-- The statement begins as a query or as a transaction statement.
abbrev pub IsQuery : Bytes → Type 0
IsQuery upper =
    Starts (codes "SELECT ") upper
    ⊎ Starts (codes "SHOW ") upper
    ⊎ Starts (codes "DESCRIBE ") upper
    ⊎ Starts (codes "EXPLAIN ") upper
    ⊎ Starts (codes "WITH ") upper
    ⊎ Starts (codes "BEGIN") upper
    ⊎ Starts (codes "COMMIT") upper
    ⊎ Starts (codes "ROLLBACK") upper

pub has_prefix-iff-Starts :
    (wanted text : Bytes) → (has_prefix wanted text ≡ true) ↔ Starts wanted text
unfolding has_prefix
has_prefix-iff-Starts [] text = (λ h. (text, refl), λ s. refl)
has_prefix-iff-Starts (p ∷ ps) [] = (λ h. cc, λ (rest, e). cc)
has_prefix-iff-Starts (p ∷ ps) (c ∷ cs) =
    let (to, back) = has_prefix-iff-Starts ps cs in
    (
      λ h.
          let (first, others) = both_true (p == c) (has_prefix ps cs) h in
          let (rest, e) = to others in (rest, cc ((==_iff p c).0 first, e)),
      λ (rest, e).
          let head : p ≡ c = cc in
          let tail : cs ≡ ps ++ rest = cc in
          let equal = (==_iff p c).1 head in rw equal (back (rest, tail)),
    )

found_later :
    (wanted : Bytes) (c : ℕ) (cs : Bytes) (before after : Bytes)
    → (Contains wanted cs → contains_text wanted cs ≡ true)
    → c ∷ cs ≡ before ++ (wanted ++ after)
    → contains_text wanted (c ∷ cs) ≡ true
unfolding contains_text
found_later wanted c cs [] after back e =
    rw ((has_prefix-iff-Starts wanted (c ∷ cs)).1 (after, e)) refl
found_later wanted c cs (b ∷ bs) after back e =
    let tail : cs ≡ bs ++ (wanted ++ after) = cc in
    let later = back (bs, after, tail) in ground (arith, later)

nothing_contained :
    (w : ℕ) (ws : Bytes) (before after : Bytes) → [] ≡ before ++ (w ∷ ws ++ after) → ⊥
nothing_contained w ws [] after e = cc
nothing_contained w ws (b ∷ bs) after e = cc

pub contains_text-iff-Contains :
    (wanted text : Bytes) → (contains_text wanted text ≡ true) ↔ Contains wanted text
unfolding contains_text
contains_text-iff-Contains [] [] = (λ h. ([], [], refl), λ s. refl)
contains_text-iff-Contains (w ∷ ws) [] =
    (λ h. ground arith, λ (before, after, e). absurd (nothing_contained w ws before after e))
contains_text-iff-Contains wanted (c ∷ cs) =
    let (to, back) = contains_text-iff-Contains wanted cs in
    (
      λ h. elim (Bool-cases (has_prefix wanted (c ∷ cs))) [
        | inl here ↦ let (rest, e) = (has_prefix-iff-Starts wanted (c ∷ cs)).0 here in ([], rest, e)
        | inr other ↦
            let (before, after, e) = to (rw other at h) in (c ∷ before, after, ap (λ l. c ∷ l) e)
      ],
      λ (before, after, e). found_later wanted c cs before after back e,
    )

pub has_prefix_of-iff-IsQuery :
    (upper : Bytes) → (has_prefix_of excluded upper ≡ true) ↔ IsQuery upper
unfolding has_prefix_of
has_prefix_of-iff-IsQuery upper =
    let starts = λ (wanted : Bytes). has_prefix-iff-Starts wanted upper in
    or_iff _ _ (starts (codes "SELECT ")) (
      or_iff _ _ (starts (codes "SHOW ")) (
        or_iff _ _ (starts (codes "DESCRIBE ")) (
          or_iff _ _ (starts (codes "EXPLAIN ")) (
            or_iff _ _ (starts (codes "WITH ")) (
              or_iff _ _ (starts (codes "BEGIN")) (
                or_iff _ _ (starts (codes "COMMIT"))
                  (last_iff (has_prefix (codes "ROLLBACK") upper) (starts (codes "ROLLBACK")))))))))
