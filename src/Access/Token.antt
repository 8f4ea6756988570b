-- ===== src/Access/Token.antt =====
-- `token_matches`: a comparison that looks at every byte of the longer token.
use vpn_bridge.Prelude.{
  List, [], ap₂, arith, bit_or, bit_xor, get_or, inl, inr, le-or-lt, length, max, refl, same_bytes,
  same_bytes_iff, suc, zero, ℕ, ◌%◌, ◌+◌, ◌<◌, ◌==◌, ◌^◌, ◌↔◌, ◌∷◌, ◌≡◌, ◌≤◌,
}
use vpn_bridge.Prelude.Bits.{bit_or-zero, bit_xor-eq, bit_xor-lt, bit_xor_self}

-- `for i in i..i + n { diff |= a.get(i).unwrap_or(0) ^ b.get(i).unwrap_or(0) }`
unfoldable pub difference_loop : ℕ → ℕ → ℕ → List ℕ → List ℕ → ℕ
difference_loop zero i diff a b = diff
difference_loop (suc n) i diff a b =
    difference_loop n (suc i) (bit_or diff (bit_xor (get_or a i 0) (get_or b i 0))) a b

-- The difference starts as the lowest 8 bits of `a.len() ^ b.len()`.
unfoldable pub token_difference : List ℕ → List ℕ → ℕ
unfolding difference_loop
token_difference a b =
    difference_loop (max (length a) (length b)) 0 (bit_xor (length a) (length b) % 2 ^ 8) a b

-- The bytes from `i` to `j` agree.
abbrev Agree : ℕ → ℕ → List ℕ → List ℕ → Type 0
Agree i k a b = (j : ℕ) → i ≤ j → j < k → get_or a j 0 ≡ get_or b j 0

Agree-first :
    (i n : ℕ) (a b : List ℕ)
    → get_or a i 0 ≡ get_or b i 0
    → Agree (suc i) (suc i + n) a b
    → Agree i (i + suc n) a b
Agree-first i n a b e h j lo hi = elim (le-or-lt (suc i) j) [
  | inl later ↦ h j later (omega arith)
  | inr first ↦ let now : j ≡ i = omega arith in rw now e
]

difference_loop-zero :
    (n i diff : ℕ) (a b : List ℕ)
    → difference_loop n i diff a b ≡ 0
    → (diff ≡ 0) × Agree i (i + n) a b
unfolding difference_loop
difference_loop-zero zero i diff a b h = (h, λ j lo hi. absurd (omega arith))
difference_loop-zero (suc n) i diff a b h =
    let byte = bit_xor (get_or a i 0) (get_or b i 0) in
    let (now, later) = difference_loop-zero n (suc i) (bit_or diff byte) a b h in
    let (none_before, none_here) = bit_or-zero diff byte now in
    (none_before, Agree-first i n a b (bit_xor-eq _ _ none_here) later)

difference_loop_self : (n i : ℕ) (a : List ℕ) → difference_loop n i 0 a a ≡ 0
unfolding difference_loop
difference_loop_self zero i a = refl
difference_loop_self (suc n) i a = rw bit_xor_self (difference_loop_self n (suc i) a)

eq_of_get_or :
    (a b : List ℕ)
    → length a ≡ length b
    → ((j : ℕ) → j < length a → get_or a j 0 ≡ get_or b j 0)
    → a ≡ b
eq_of_get_or [] [] len h = refl
eq_of_get_or [] (y ∷ b) len h = absurd (omega arith)
eq_of_get_or (x ∷ a) [] len h = absurd (omega arith)
eq_of_get_or (x ∷ a) (y ∷ b) len h =
    ap₂ (λ u v. u ∷ v) (h 0 (omega arith))
      (eq_of_get_or a b (omega arith) (λ j lt. h (suc j) (omega arith)))

lengths_eq : (m n : ℕ) → m < 256 → n < 256 → bit_xor m n % 2 ^ 8 ≡ 0 → m ≡ n
lengths_eq m n hm hn h =
    bit_xor-eq m n (omega (arith, bit_xor-lt 8 m n (omega arith) (omega arith)))

token_difference-eq :
    (a b : List ℕ) → length a < 256 → length b < 256 → token_difference a b ≡ 0 → a ≡ b
unfolding token_difference
token_difference-eq a b ha hb h =
    let zero_at =
      difference_loop-zero (max (length a) (length b)) 0 (bit_xor (length a) (length b) % 2 ^ 8) a b
        h in
    eq_of_get_or a b (lengths_eq (length a) (length b) ha hb zero_at.0)
      (λ j lt. zero_at.1 j (omega arith) (omega arith))

token_difference_self : (a : List ℕ) → token_difference a a ≡ 0
unfolding token_difference
token_difference_self a =
    rw (bit_xor_self (length a)) (difference_loop_self (max (length a) (length a)) 0 a)

-- Tokens of at most 255 bytes have no difference exactly when they are equal.
pub token_difference_iff :
    (a b : List ℕ) → length a < 256 → length b < 256 → (token_difference a b ≡ 0) ↔ (a ≡ b)
token_difference_iff a b ha hb =
    (token_difference-eq a b ha hb, λ e. rw (← e) (token_difference_self a))

-- The same as a Boolean test.
pub token_difference-same :
    (expected got : List ℕ)
    → length expected < 256
    → length got < 256
    → (token_difference expected got == 0) ≡ same_bytes expected got
token_difference-same expected got he hg =
    ground (arith, token_difference_iff expected got he hg, same_bytes_iff expected got)
