-- ===== src/Driver/Decided.antt =====
-- Boolean tests and the propositions that they decide.
use talon_sdk_go.Base.{
  ◌≡◌, ◌⊎◌, ◌↔◌, inl, inr, refl, sym, ap, ◌∙◌, Bool, true, false, not, ◌&&◌, ◌||◌, Bytes,
  bytes_equal, bytes_equal→eq, bytes_equal_refl, Bool-cases,
}

-- A test that decides a proposition is false just when that does not hold.
pub decided_false : {P : Type 0} (b : Bool) → ((b ≡ true) ↔ P) → (b ≡ false) ↔ (P → ⊥)
decided_false b (to, back) = (
  λ differs p. cc (back p, differs),
  λ never. elim (Bool-cases b) [ inl held ↦ absurd (never (to held)) | inr other ↦ other ],
)

pub or_iff :
    {P Q : Type 0} (a b : Bool) → ((a ≡ true) ↔ P) → ((b ≡ true) ↔ Q) → ((a || b) ≡ true) ↔ (P ⊎ Q)
or_iff true b (to, back) (to', back') = (λ h. inl (to refl), λ s. refl)
or_iff false b (to, back) (to', back') =
    (λ h. inr (to' h), λ s. elim s [ inl p ↦ cc (back p) | inr q ↦ back' q ])

pub and_iff :
    {P Q : Type 0} (a b : Bool) → ((a ≡ true) ↔ P) → ((b ≡ true) ↔ Q) → ((a && b) ≡ true) ↔ (P × Q)
and_iff true b (to, back) (to', back') = (λ h. (to refl, to' h), λ (p, q). back' q)
and_iff false b (to, back) (to', back') = (λ h. cc, λ (p, q). cc (back p))

pub or3_iff :
    {P Q R : Type 0} (a b c : Bool)
    → ((a ≡ true) ↔ P)
    → ((b ≡ true) ↔ Q)
    → ((c ≡ true) ↔ R)
    → ((a || b || c) ≡ true) ↔ (P ⊎ Q ⊎ R)
or3_iff true b c p q r = (λ h. inl (p.0 refl), λ s. refl)
or3_iff false b c p q r =
    let (to, back) = or_iff b c q r in
    (λ h. inr (to h), λ s. elim s [ inl x ↦ cc (p.1 x) | inr others ↦ back others ])

pub or4_iff :
    {P Q R S : Type 0} (a b c d : Bool)
    → ((a ≡ true) ↔ P)
    → ((b ≡ true) ↔ Q)
    → ((c ≡ true) ↔ R)
    → ((d ≡ true) ↔ S)
    → ((a || b || c || d) ≡ true) ↔ (P ⊎ Q ⊎ R ⊎ S)
or4_iff true b c d p q r s = (λ h. inl (p.0 refl), λ x. refl)
or4_iff false b c d p q r s =
    let (to, back) = or3_iff b c d q r s in
    (λ h. inr (to h), λ x. elim x [ inl here ↦ cc (p.1 here) | inr others ↦ back others ])

pub not_iff : {P : Type 0} (b : Bool) → ((b ≡ true) ↔ P) → (not b ≡ true) ↔ (P → ⊥)
not_iff true (to, back) = (λ h. cc, λ never. absurd (never (to refl)))
not_iff false (to, back) = (λ h p. cc (back p), λ never. refl)

pub bytes_equal_iff : (a b : Bytes) → (bytes_equal a b ≡ true) ↔ (a ≡ b)
bytes_equal_iff a b = (bytes_equal→eq a b, λ e. ap (bytes_equal a) (sym e) ∙ bytes_equal_refl a)

pub last_iff : {P : Type 0} (a : Bool) → ((a ≡ true) ↔ P) → ((a || false) ≡ true) ↔ P
last_iff true both = both
last_iff false both = both
