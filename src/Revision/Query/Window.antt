-- ===== src/Revision/Query/Window.antt =====
-- revision_stream.go: the window of a query and its proof points.
use talon_sdk_go.Base.{
  ℕ, ◌+◌, ◌-◌, ◌%◌, ◌^◌, ◌≤◌, ◌<◌, ◌≡◌, inl, inr, refl, sym, ◌∙◌, subst, true, false, not, ◌&&◌,
  Option, none, some, ok, plain, guarded_ok, guard_ok, both_true, leb, leb→le, ◌==◌, ==_iff,
  Bool-cases, arith,
}
use talon_sdk_go.Base.Int.{ℤ, ltb_ℤ, ◌≤ℤ◌}
use talon_sdk_go.Revision.Query.{ProofPoint, QueryProof, QueryRequest}
use talon_sdk_go.Revision.Query.Checks.{
  is_some, in_time, in_window, lower_end, upper_end, end_point, empty_between, ends_before,
  starts_behind, check_window,
}

early_times :
    (r s from until : ℤ)
    → r ≤ℤ s
    → ltb_ℤ s from ≡ true
    → (not (ltb_ℤ r from) && ltb_ℤ r until) ≡ false
early_times r s from until order h = ground (arith, order, h)

late_times :
    (r s from until : ℤ)
    → s ≤ℤ r
    → not (ltb_ℤ s until) ≡ true
    → (not (ltb_ℤ r from) && ltb_ℤ r until) ≡ false
late_times r s from until order h = ground (arith, order, h)

within_times :
    (a r b from until : ℤ)
    → a ≤ℤ r
    → r ≤ℤ b
    → (not (ltb_ℤ a from) && ltb_ℤ a until) ≡ true
    → (not (ltb_ℤ b from) && ltb_ℤ b until) ≡ true
    → (not (ltb_ℤ r from) && ltb_ℤ r until) ≡ true
within_times a r b from until low high h k = ground (arith, low, high, h, k)

module _ (times : ℕ → ℤ) (ascending : (a b : ℕ) → a ≤ b → times a ≤ℤ times b) (pinned : ℕ)
    (word : pinned < 2 ^ 64) where
  -- The point has the time of its revision, which is one of the stream's.
  unfoldable pub IsPoint : Option ProofPoint → Type 0
  IsPoint none = Unit
  IsPoint (some p) = (p.occurred_at ≡ times p.revision) × (1 ≤ p.revision) × (p.revision ≤ pinned)

  early :
      (request : QueryRequest) (r s : ℕ) (t : ℤ)
      → t ≡ times s
      → r ≤ s
      → ltb_ℤ t request.from_occurred_at ≡ true
      → in_time request (times r) ≡ false
  unfolding in_time
  early request r s t e le h =
      let order = ascending r s le in
      let at = subst (λ z. ltb_ℤ z request.from_occurred_at ≡ true) e h in
      early_times (times r) (times s) request.from_occurred_at request.until_occurred_at order at

  late :
      (request : QueryRequest) (r s : ℕ) (t : ℤ)
      → t ≡ times s
      → s ≤ r
      → not (ltb_ℤ t request.until_occurred_at) ≡ true
      → in_time request (times r) ≡ false
  unfolding in_time
  late request r s t e le h =
      let order = ascending s r le in
      let at = subst (λ z. not (ltb_ℤ z request.until_occurred_at) ≡ true) e h in
      late_times (times r) (times s) request.from_occurred_at request.until_occurred_at order at

  within :
      (request : QueryRequest) (a r b : ℕ) (s t : ℤ)
      → s ≡ times a
      → t ≡ times b
      → a ≤ r
      → r ≤ b
      → in_time request s ≡ true
      → in_time request t ≡ true
      → in_time request (times r) ≡ true
  unfolding in_time
  within request a r b s t e f le le' h k =
      let low = subst (λ z. in_time request z ≡ true) e h in
      let high = subst (λ z. in_time request z ≡ true) f k in
      within_times (times a) (times r) (times b) request.from_occurred_at request.until_occurred_at
        (ascending a r le) (ascending r b le') low high

  end_time :
      (request : QueryRequest) (r : ℕ) (p : Option ProofPoint)
      → IsPoint p
      → end_point request r p ≡ true
      → (in_time request (times r) ≡ true) × (r ≤ pinned)
  unfolding IsPoint end_point
  end_time request r none point h = cc
  end_time request r (some p) point h =
      let (same, time) = both_true (p.revision == r) (in_time request p.occurred_at) h in
      let at : p.revision ≡ r = (==_iff p.revision r).0 same in
      (
        subst (λ z. in_time request (times z) ≡ true) at
            (subst (λ t. in_time request t ≡ true) point.0 time),
        subst (λ z. z ≤ pinned) at point.2,
      )

  below_window :
      (request : QueryRequest) (first r : ℕ) (p : Option ProofPoint)
      → IsPoint p
      → lower_end request first p ≡ true
      → first ≤ pinned
      → 1 ≤ r
      → r < first
      → in_time request (times r) ≡ false
  unfolding IsPoint lower_end
  below_window request first r none point h most one lt =
      let absurd : ⊥ = ground arith in elim absurd [ ]
  below_window request first r (some p) point h most one lt =
      let (ends, time) =
        both_true (not (first == 1) && (p.revision == (first + 2 ^ 64 - 1) % 2 ^ 64))
          (ltb_ℤ p.occurred_at request.from_occurred_at) h in
      let le : r ≤ p.revision = ground (arith, ends, word, most) in
      early request r p.revision p.occurred_at point.0 le time

  above_window :
      (request : QueryRequest) (last r : ℕ) (p : Option ProofPoint)
      → IsPoint p
      → upper_end request pinned last p ≡ true
      → r ≤ pinned
      → last ≤ pinned
      → last < r
      → in_time request (times r) ≡ false
  unfolding IsPoint upper_end
  above_window request last r none point h top le lt =
      let absurd : ⊥ = ground arith in elim absurd [ ]
  above_window request last r (some p) point h top le lt =
      let (ends, time) =
        both_true (not (last == pinned) && (p.revision == (last + 1) % 2 ^ 64))
          (not (ltb_ℤ p.occurred_at request.until_occurred_at)) h in
      let below : p.revision ≤ r = ground (arith, ends, word) in
      late request r p.revision p.occurred_at point.0 below time

  empty_window :
      (request : QueryRequest) (r : ℕ) (p s : Option ProofPoint)
      → IsPoint p
      → IsPoint s
      → ends_before request p ≡ true
      → starts_behind request s ≡ true
      → empty_between pinned p s ≡ true
      → 1 ≤ r
      → r ≤ pinned
      → in_time request (times r) ≡ false
  unfolding IsPoint ends_before starts_behind empty_between
  empty_window request r none none pp sp b h e one top = cc
  empty_window request r none (some s) pp sp b h e one top =
      let le : s.revision ≤ r = ground (arith, e) in
      late request r s.revision s.occurred_at sp.0 le h
  empty_window request r (some p) none pp sp b h e one top =
      let le : r ≤ p.revision = ground (arith, e) in
      early request r p.revision p.occurred_at pp.0 le b
  empty_window request r (some p) (some s) pp sp b h e one top =
      elim (Bool-cases (leb r p.revision)) [
        | inl low ↦ early request r p.revision p.occurred_at pp.0 (leb→le r p.revision low) b
        | inr high ↦
            let bound = pp.2 in
            let le : s.revision ≤ r = ground (arith, e, word, bound, high) in
            late request r s.revision s.occurred_at sp.0 le h
      ]

  -- Where the times of a stream ascend with its revisions, the last of them fits 64 bits, and each
  -- point has the time of its revision, which is one of the stream's: the window that the check
  -- accepts holds exactly the revisions of the stream whose time is in the time window asked for,
  -- and none at all where it is empty.
  pub check_window-in_window :
      (request : QueryRequest) (proof : QueryProof) (first last : Option ℕ) (r : ℕ)
      → IsPoint proof.window_predecessor
      → IsPoint proof.window_first
      → IsPoint proof.window_last
      → IsPoint proof.window_successor
      → check_window request pinned proof first last ≡ ok tt
      → 1 ≤ r
      → r ≤ pinned
      → in_time request (times r) ≡ in_window first last r
  unfolding check_window in_window
  check_window-in_window request proof none none r pp pf pl ps h one top =
      let (_, h1) =
        guarded_ok (not (is_some proof.window_first) && not (is_some proof.window_last)) plain _
          h in
      let (low, h2) = guarded_ok (ends_before request proof.window_predecessor) plain _ h1 in
      let (high, h3) = guarded_ok (starts_behind request proof.window_successor) plain _ h2 in
      let between =
        guard_ok (empty_between pinned proof.window_predecessor proof.window_successor) plain h3 in
      empty_window request r proof.window_predecessor proof.window_successor pp ps low high between
        one top
  check_window-in_window request proof none (some l) r pp pf pl ps h one top = cc
  check_window-in_window request proof (some f) none r pp pf pl ps h one top = cc
  check_window-in_window request proof (some f) (some l) r pp pf pl ps h one top =
      let (both, h1) =
        guarded_ok (end_point request f proof.window_first && end_point request l proof.window_last)
          plain _ h in
      let (lower, h2) = guarded_ok (lower_end request f proof.window_predecessor) plain _ h1 in
      let upper = guard_ok (upper_end request pinned l proof.window_successor) plain h2 in
      let (at_first, at_last) =
        both_true (end_point request f proof.window_first) (end_point request l proof.window_last)
          both in
      let (first_in, first_low) = end_time request f proof.window_first pf at_first in
      let (last_in, last_low) = end_time request l proof.window_last pl at_last in
      elim (Bool-cases (leb f r)) [
        | inl from ↦ elim (Bool-cases (leb r l)) [
          | inl to ↦
              within request f r l (times f) (times l) refl refl (leb→le f r from) (leb→le r l to)
                first_in last_in
              ∙ sym (rw from to)
          | inr beyond ↦
              above_window request l r proof.window_successor ps upper top last_low
                (ground (arith, beyond))
              ∙ sym (rw from beyond)
        ]
        | inr short ↦
            below_window request f r proof.window_predecessor pp lower first_low one
              (ground (arith, short))
            ∙ sym (rw short refl)
      ]
