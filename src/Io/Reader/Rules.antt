-- ===== src/Io/Reader/Rules.antt =====
-- Rules for code that reads from a stream: what it delivers from given bytes, how it fails on them,
-- and what a read that succeeded tells of the bytes that it consumed.
use vpn_bridge.Io.{◌>>=◌}
use vpn_bridge.Io.Defs.{Action, Error, err, ok, pure}
use vpn_bridge.Io.Reader.Defs.{IsReader, Reader, eof}
use vpn_bridge.Prelude.{
  List, [], ap, arith, drop, drop-append, inl, inr, le-or-lt, length, length-append, length-take,
  refl, sym, take, take-append, take-append-drop, ℕ, ◌*◌, ◌++◌, ◌+◌, ◌<◌, ◌∙◌, ◌∷◌, ◌≡◌,
}

module _ {R : Reader} (L : IsReader R) where
  open L use {
    pending, read_u8_some, read_u8_eof, read_u16_some, read_u16_eof, read_exact_some,
    read_exact_eof,
  }

  -- From the pending bytes `bs`, `m` delivers `a` and leaves `rest`.
  abbrev pub Reads : {A : Type 0} → Action R.State A → List ℕ → A → List ℕ → Type 0
  Reads m bs a rest =
      (s : R.State) → pending s ≡ bs → (t : R.State) × (m s ≡ ok (a, t)) × (pending t ≡ rest)

  -- On the pending bytes `bs`, `m` fails with `e`.
  abbrev pub Fails : {A : Type 0} → Action R.State A → List ℕ → Error → Type 0
  Fails m bs e = (s : R.State) → pending s ≡ bs → m s ≡ err e

  pub Reads-pure : {A : Type 0} (a : A) (bs : List ℕ) → Reads (pure a) bs a bs
  Reads-pure a bs s p = (s, refl, p)

  pub Reads-bind :
      {A B : Type 0} (m : Action R.State A) (f : A → Action R.State B) {a : A} {b : B}
      {bs mid rest : List ℕ}
      → Reads m bs a mid
      → Reads (f a) mid b rest
      → Reads (m >>= f) bs b rest
  Reads-bind m f h k s p =
      let (t, e, q) = h s p in let (u, e', q') = k t q in (u, rw (e, ◌>>=◌) e', q')

  pub Fails-bind_first :
      {A B : Type 0} (m : Action R.State A) (f : A → Action R.State B) {bs : List ℕ} {e : Error}
      → Fails m bs e
      → Fails (m >>= f) bs e
  Fails-bind_first m f h s p = rw (h s p, ◌>>=◌)

  pub Fails-bind :
      {A B : Type 0} (m : Action R.State A) (f : A → Action R.State B) {a : A} {bs mid : List ℕ}
      {e : Error}
      → Reads m bs a mid
      → Fails (f a) mid e
      → Fails (m >>= f) bs e
  Fails-bind m f h k s p = let (t, e, q) = h s p in rw (e, ◌>>=◌) (k t q)

  pub Reads-u8 : (b : ℕ) (rest : List ℕ) → Reads R.read_u8 (b ∷ rest) b rest
  Reads-u8 b rest s p = read_u8_some s b rest p

  pub Reads-u16 :
      (hi lo : ℕ) (rest : List ℕ) → Reads R.read_u16 (hi ∷ lo ∷ rest) (hi * 256 + lo) rest
  Reads-u16 hi lo rest s p = read_u16_some s hi lo rest p

  pub Reads-exact :
      (n : ℕ) (bs rest : List ℕ) → length bs ≡ n → Reads (R.read_exact n) (bs ++ rest) bs rest
  Reads-exact n bs rest len s p =
      let (t, e, q) = read_exact_some n s (omega (arith, ap length p, length-append bs rest)) in
      (
        t,
        e ∙ ap (λ l. ok (l, t)) (ap (take n) p ∙ rw (← len) (take-append bs rest)),
        q ∙ ap (drop n) p ∙ rw (← len) (drop-append bs rest),
      )

  pub Fails-exact : (n : ℕ) (bs : List ℕ) → length bs < n → Fails (R.read_exact n) bs eof
  Fails-exact n bs h s p = read_exact_eof n s (omega (arith, ap length p))

  pub Fails-u16 : (bs : List ℕ) → length bs < 2 → Fails R.read_u16 bs eof
  Fails-u16 bs h s p = read_u16_eof s (omega (arith, ap length p))

  u8_from :
      (s : R.State) (l : List ℕ) {b : ℕ} {t : R.State}
      → pending s ≡ l
      → R.read_u8 s ≡ ok (b, t)
      → pending s ≡ b ∷ pending t
  u8_from s [] p h = cc (read_u8_eof s p)
  u8_from s (x ∷ l) p h = let (u, e, q) = read_u8_some s x l p in cc

  -- A byte that was read stood at the front.
  pub read_u8_inv :
      (s : R.State) {b : ℕ} {t : R.State} → R.read_u8 s ≡ ok (b, t) → pending s ≡ b ∷ pending t
  read_u8_inv s h = u8_from s (pending s) refl h

  u16_from :
      (s : R.State) (l : List ℕ) {v : ℕ} {t : R.State}
      → pending s ≡ l
      → R.read_u16 s ≡ ok (v, t)
      → (hi : ℕ) × (lo : ℕ) × (pending s ≡ hi ∷ lo ∷ pending t) × (v ≡ hi * 256 + lo)
  u16_from s [] p h = cc (read_u16_eof s (omega (arith, ap length p)))
  u16_from s (x ∷ []) p h = cc (read_u16_eof s (omega (arith, ap length p)))
  u16_from s (x ∷ y ∷ l) p h = let (u, e, q) = read_u16_some s x y l p in (x, y, cc, cc)

  pub read_u16_inv :
      (s : R.State) {v : ℕ} {t : R.State}
      → R.read_u16 s ≡ ok (v, t)
      → (hi : ℕ) × (lo : ℕ) × (pending s ≡ hi ∷ lo ∷ pending t) × (v ≡ hi * 256 + lo)
  read_u16_inv s h = u16_from s (pending s) refl h

  -- What filled a buffer stood at the front, and is as long as the buffer.
  pub read_exact_inv :
      (n : ℕ) (s : R.State) {bs : List ℕ} {t : R.State}
      → R.read_exact n s ≡ ok (bs, t)
      → (pending s ≡ bs ++ pending t) × (length bs ≡ n)
  read_exact_inv n s {bs} {t} h = elim (le-or-lt n (length (pending s))) [
    | inl le ↦
        let (u, e, q) = read_exact_some n s le in
        let bs≡ : bs ≡ take n (pending s) = cc in
        let rest≡ : pending t ≡ drop n (pending s) = cc in
        (
          rw (bs≡, rest≡) (sym (take-append-drop n (pending s))),
          rw bs≡ (length-take n (pending s) ∙ omega arith),
        )
    | inr lt ↦ cc (read_exact_eof n s lt)
  ]
