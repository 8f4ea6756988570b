-- ===== src/Io/Defs.antt =====
-- `std::io::ErrorKind`, `Error` and `Result`, and `do` blocks over a stream's state.
use vpn_bridge.Prelude.{ℕ, ◌<◌, ◌≡◌, refl, List}

-- The kinds that the program makes or tests; every other kind is `other`.
pub data ErrorKind : Type 0 where
  unexpected_eof broken_pipe connection_reset connection_aborted not_connected timed_out : ErrorKind
  invalid_data invalid_input other : ErrorKind

-- A message is its UTF-8 bytes.
pub record Error : Type 0 where
  pub kind : ErrorKind
  pub message : List ℕ

pub data Result {ℓ} (A : Type ℓ) : Type ℓ where
  ok : A → Result A
  err : Error → Result A

abbrev pub IsByte : ℕ → Type 0
IsByte b = b < 256

-- An action on a stream with state `S`: a value with the state after it, or an error.
abbrev pub Action : Type 0 → Type 0 → Type 0
Action S A = S → Result (A × S)

module _ {S : Type 0} where
  abbrev pub pure : {A : Type 0} → A → Action S A
  pure a s = ok (a, s)

  abbrev pub fail : {A : Type 0} → Error → Action S A
  fail e s = err e

  infixl 5 ◌>>=◌ ◌>>◌
  abbrev pub ◌>>=◌ : {A B : Type 0} → Action S A → (A → Action S B) → Action S B
  ◌>>=◌ m f s = elim (m s) [ ok (a, s') ↦ f a s' | err e ↦ err e ]

  abbrev pub ◌>>◌ : {B : Type 0} → Action S (Unit {0}) → Action S B → Action S B
  m >> k = m >>= λ _. k

  bind-eq-ok :
      {A B : Type 0} (r : Result (A × S)) (f : A → Action S B) {b : B} {s' : S}
      → (elim r [ ok (a, t) ↦ f a t | err e ↦ err e ]) ≡ ok (b, s')
      → (a : A) × (t : S) × (r ≡ ok (a, t)) × (f a t ≡ ok (b, s'))
  bind-eq-ok (ok (a, t)) f h = (a, t, refl, h)
  bind-eq-ok (err e) f h = cc

  -- A bind that succeeds ran both of its parts.
  pub >>=-eq-ok :
      {A B : Type 0} (m : Action S A) (f : A → Action S B) (s : S) {b : B} {s' : S}
      → (m >>= f) s ≡ ok (b, s')
      → (a : A) × (t : S) × (m s ≡ ok (a, t)) × (f a t ≡ ok (b, s'))
  >>=-eq-ok m f s h = bind-eq-ok (m s) f h
