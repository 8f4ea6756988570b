-- ===== src/Checks.antt =====
-- The shape that every `validate` of the program has: a list of tests, each with the message that
-- ends the check where it holds.
use vpn_bridge.Io.{Result, err, ok, other}
use vpn_bridge.Prelude.{
  Bool, List, [], arith, false, if◌then◌else◌, is_empty, length, ltb, not, refl, true, ℕ, ◌&&◌, ◌<◌,
  ◌==◌, ◌↔◌, ◌∷◌, ◌≡◌, ◌≤◌, ◌⊎◌,
}

abbrev pub bail : {A : Type 0} → List ℕ → Result A
bail message = err (record { kind = other; message = message })

-- `if test { bail!(message); }` in front of the rest of the checks.
abbrev pub refuse_if : Bool → List ℕ → Result (Unit {0}) → Result (Unit {0})
refuse_if test message rest = if test then bail message else rest

-- A check is passed exactly when its test fails and the rest is passed.
refuse_if_iff :
    (test : Bool) (message : List ℕ) (rest : Result (Unit {0}))
    → (refuse_if test message rest ≡ ok tt) ↔ ((test ≡ false) × (rest ≡ ok tt))
refuse_if_iff true message rest = ground arith
refuse_if_iff false message rest = ground arith

-- Two checks in a row are passed where what they test for, `P` and `Q`, holds.
pub refuse_if-and :
    {P Q : Type 0} (test : Bool) (message : List ℕ) (rest : Result (Unit {0}))
    → ((test ≡ false) ↔ P)
    → ((rest ≡ ok tt) ↔ Q)
    → (refuse_if test message rest ≡ ok tt) ↔ (P × Q)
refuse_if-and test message rest p q =
    let here = refuse_if_iff test message rest in
    (λ h. (p.0 (here.0 h).0, q.0 (here.0 h).1), λ (hp, hq). here.1 (p.1 hp, q.1 hq))

pub refuse_if-last :
    {P : Type 0} (test : Bool) (message : List ℕ)
    → ((test ≡ false) ↔ P)
    → (refuse_if test message (ok tt) ≡ ok tt) ↔ P
refuse_if-last test message p =
    let here = refuse_if_iff test message (ok tt) in
    (λ h. p.0 (here.0 h).0, λ hp. here.1 (p.1 hp, refl))

-- What the tests of the program test for.
pub not_zero_iff : (n : ℕ) → ((n == 0) ≡ false) ↔ (0 < n)
not_zero_iff n = ground arith

pub not_empty_iff : {A : Type 0} (xs : List A) → (is_empty xs ≡ false) ↔ (0 < length xs)
not_empty_iff [] = ground arith
not_empty_iff (x ∷ xs) = ground arith

pub not_long_iff : {A : Type 0} (xs : List A) → (ltb 255 (length xs) ≡ false) ↔ (length xs < 256)
not_long_iff xs = ground arith

pub either_iff : (a b : Bool) → ((not a && not b) ≡ false) ↔ ((a ≡ true) ⊎ (b ≡ true))
either_iff a b = ground arith

pub same_iff : (test : Bool) → (test ≡ false) ↔ (test ≡ false)
same_iff test = (λ h. h, λ h. h)

pub not_below_iff : (n bound : ℕ) → (ltb n bound ≡ false) ↔ (bound ≤ n)
not_below_iff n bound = ground arith
