-- ===== src/Proto/Soundness.antt =====
-- The readers accept nothing but what the writers produce: the bytes consumed by a successful read
-- are the encoding of its result. So the encoding of a message is unique.
use vpn_bridge.Prelude.{
  ℕ, ◌+◌, ◌*◌, ◌/◌, ◌%◌, ◌<◌, ◌≡◌, refl, sym, ap, subst, subst₂, ◌∙◌, inl, inr, true, false, Bool,
  Option, some, none, List, [], ◌∷◌, ◌++◌, append_assoc, length, take_all, All, All-of_append,
  arith, same_bytes, same_bytes_iff, ◌==◌, ==_iff, Bool-cases,
}
use vpn_bridge.Net.{v4, v6}
use vpn_bridge.Io.{ok, Action, IsByte, >>=-eq-ok, pure, ◌>>=◌, ◌>>◌}
use vpn_bridge.Io.Text.{text, is_utf8, show_u8}
use vpn_bridge.Io.Reader.{Reader, IsReader, read_u8_inv, read_u16_inv, read_exact_inv}
use vpn_bridge.Proto.Types.{
  magic, version, atyp_ipv4, atyp_domain, atyp_ipv6, Cmd, cmd_code, cmd_from_u8, Address, ip,
  domain, Request,
}
use vpn_bridge.Proto.Encode.{to_be_bytes, request_bytes}
use vpn_bridge.Proto.Decode.{
  ensure, or_fail, read_domain, read_address_of, read_address, read_request, read_request_body,
  read_request_rest, read_request_version,
}
use vpn_bridge.Proto.Wire.{on_wire, address_layout, request_layout}
use vpn_bridge.Proto.RoundTrip.{cmd_from_u8_iff}

to_be_bytes_lem :
    (hi lo v : ℕ) → hi < 256 → lo < 256 → v ≡ hi * 256 + lo → to_be_bytes v ≡ hi ∷ lo ∷ []
to_be_bytes_lem hi lo v h l e =
    let e1 : v / 256 % 256 ≡ hi = omega arith in let e2 : v % 256 ≡ lo = omega arith in rw (e1, e2)

module _ {R : Reader} (L : IsReader R) where
  open L use {pending}

  -- The bytes read make up `bs`, and only bytes are left.
  abbrev Took : R.State → List ℕ → R.State → Type 0
  Took s bs t = (pending s ≡ bs ++ pending t) × All IsByte (pending t)

  Took-u8 :
      {s t : R.State} {b : ℕ}
      → R.read_u8 s ≡ ok (b, t)
      → All IsByte (pending s)
      → Took s (b ∷ []) t × IsByte b
  Took-u8 {s} h bytes =
      let e = read_u8_inv L s h in let all = subst (All IsByte) e bytes in ((e, all.1), all.0)

  Took-u16 :
      {s t : R.State} {v : ℕ}
      → R.read_u16 s ≡ ok (v, t)
      → All IsByte (pending s)
      → Took s (to_be_bytes v) t
  Took-u16 {s} {t} {v} h bytes =
      let (hi, lo, e, value) = read_u16_inv L s h in
      let all = subst (All IsByte) e bytes in
      (e ∙ ap (λ l. l ++ pending t) (sym (to_be_bytes_lem hi lo v all.0 all.1.0 value)), all.1.1)

  Took-exact :
      {s t : R.State} {n : ℕ} {bs : List ℕ}
      → R.read_exact n s ≡ ok (bs, t)
      → All IsByte (pending s)
      → Took s bs t × (length bs ≡ n)
  Took-exact {s} {n = n} {bs} h bytes =
      let (e, len) = read_exact_inv L n s h in
      ((e, (All-of_append IsByte bs _ (subst (All IsByte) e bytes)).1), len)

  Took-append : (s t u : R.State) (xs ys : List ℕ) → Took s xs t → Took t ys u → Took s (xs ++ ys) u
  Took-append s t u xs ys (e, h) (e', h') =
      (e ∙ ap (λ l. xs ++ l) e' ∙ sym (append_assoc xs ys _), h')

  -- A successful `do` block, step by step: each rule hands on what its first action consumed.
  module _ {A P : Type 0} (s t : R.State) (a : A) (bytes : All IsByte (pending s)) where
    after_u8 :
        (f : ℕ → Action R.State A)
        → (R.read_u8 >>= f) s ≡ ok (a, t)
        → ((b : ℕ) (u : R.State) → Took s (b ∷ []) u → b < 256 → f b u ≡ ok (a, t) → P)
        → P
    after_u8 f h k =
        let (b, u, e, rest) = >>=-eq-ok R.read_u8 f s h in
        let (took, byte) = Took-u8 e bytes in k b u took byte rest

    after_u16 :
        (f : ℕ → Action R.State A)
        → (R.read_u16 >>= f) s ≡ ok (a, t)
        → ((v : ℕ) (u : R.State) → Took s (to_be_bytes v) u → f v u ≡ ok (a, t) → P)
        → P
    after_u16 f h k =
        let (v, u, e, rest) = >>=-eq-ok R.read_u16 f s h in k v u (Took-u16 e bytes) rest

    after_exact :
        (n : ℕ) (f : List ℕ → Action R.State A)
        → (R.read_exact n >>= f) s ≡ ok (a, t)
        → ((bs : List ℕ) (u : R.State) → Took s bs u → length bs ≡ n → f bs u ≡ ok (a, t) → P)
        → P
    after_exact n f h k =
        let (bs, u, e, rest) = >>=-eq-ok (R.read_exact n) f s h in
        let (took, len) = Took-exact e bytes in k bs u took len rest

  after_ensure :
      {A : Type 0} (test : Bool) (message : List ℕ) (f : Action R.State A) (s t : R.State) (a : A)
      → (ensure test message >> f) s ≡ ok (a, t)
      → (test ≡ true) × (f s ≡ ok (a, t))
  after_ensure true message f s t a h = (refl, h)
  after_ensure false message f s t a h = cc

  after_or_fail :
      {A B : Type 0} (o : Option B) (message : List ℕ) (f : B → Action R.State A) (s t : R.State)
      (a : A)
      → (or_fail o message >>= f) s ≡ ok (a, t)
      → (b : B) × (o ≡ some b) × (f b s ≡ ok (a, t))
  after_or_fail none message f s t a h = cc
  after_or_fail (some b) message f s t a h = (b, refl, h)

  -- From `s` to `t`, all of the address `a` was consumed, and it is in the form that travels.
  abbrev TookAddress : R.State → Address → R.State → Type 0
  TookAddress s a t = Took s (address_layout a) t × (on_wire a ≡ a)

  ends_with :
      {A : Type 0} (Q : A → R.State → Type 0) (u t : R.State) (a b : A)
      → pure b u ≡ ok (a, t)
      → Q b u
      → Q a t
  ends_with Q u t a b e h = let a≡ : b ≡ a = cc in let t≡ : u ≡ t = cc in subst₂ Q a≡ t≡ h

  read_ip_sound :
      (n : ℕ) (make : List ℕ → ℕ → Address) (atyp : ℕ)
      → ((o : List ℕ) (p : ℕ) → address_layout (make o p) ≡ atyp ∷ (o ++ to_be_bytes p))
      → ((o : List ℕ) (p : ℕ) → on_wire (make o p) ≡ make o p)
      → (s₀ s t : R.State) (a : Address) → Took s₀ (atyp ∷ []) s
      → (R.read_exact n >>= λ o. R.read_u16 >>= λ p. pure (make o p)) s ≡ ok (a, t)
      → TookAddress s₀ a t
  read_ip_sound n make atyp layout wire s₀ s t a start h =
      after_exact s t a start.1 n _ h λ o u took len k. after_u16 u t a took.1 _ k λ p v took' e.
        ends_with (TookAddress s₀) v t a (make o p) e (
          rw layout (Took-append s₀ s v (atyp ∷ []) _ start (Took-append s u v o _ took took')),
          wire o p,
        )

  read_domain_sound :
      (s₀ s t : R.State) (a : Address)
      → Took s₀ (atyp_domain ∷ []) s
      → read_domain R s ≡ ok (a, t)
      → TookAddress s₀ a t
  unfolding read_domain
  read_domain_sound s₀ s t a start h = after_u8 s t a start.1 _ h λ n u one byte k.
      after_exact u t a one.1 n _ k λ buf v two len k'. after_u16 v t a two.1 _ k' λ p w three k''.
        let (utf8, e) =
          after_ensure (is_utf8 buf) (text "domain is not valid utf-8") (pure (domain buf p)) w t a
            k'' in
        let head = Took-append s₀ s u (atyp_domain ∷ []) (n ∷ []) start one in
        let tail = Took-append u v w buf _ two three in
        let whole = Took-append s₀ u w (atyp_domain ∷ n ∷ []) _ head tail in
        ends_with (TookAddress s₀) w t a (domain buf p) e
          (rw len whole, ap (λ host. domain host p) (take_all 255 buf (omega arith)))

  read_address_of_sound :
      (s₀ s t : R.State) (atyp : ℕ) (a : Address)
      → Took s₀ (atyp ∷ []) s
      → read_address_of R atyp s ≡ ok (a, t)
      → TookAddress s₀ a t
  unfolding read_address_of
  read_address_of_sound s₀ s t atyp a start h = elim (Bool-cases (atyp == atyp_ipv4)) [
    | inl is4 ↦
        read_ip_sound 4 (λ o p. ip (v4 o p)) atyp_ipv4 (λ o p. refl) (λ o p. refl) s₀ s t a
          (at_type atyp_ipv4 is4) (rw is4 at h)
    | inr not4 ↦ elim (Bool-cases (atyp == atyp_ipv6)) [
      | inl is6 ↦
          read_ip_sound 16 (λ o p. ip (v6 o p 0 0)) atyp_ipv6 (λ o p. refl) (λ o p. refl) s₀ s t a
            (at_type atyp_ipv6 is6) (rw (not4, is6) at h)
      | inr not6 ↦ elim (Bool-cases (atyp == atyp_domain)) [
        | inl is_domain ↦
            read_domain_sound s₀ s t a (at_type atyp_domain is_domain)
              (rw (not4, not6, is_domain) at h)
        | inr other ↦ cc (rw (not4, not6, other) at h)
      ]
    ]
  ]
    where
      at_type : (n : ℕ) → (atyp == n) ≡ true → Took s₀ (n ∷ []) s
      at_type n e = subst (λ k. Took s₀ (k ∷ []) s) ((==_iff atyp n).0 e) start

  read_address_sound :
      (s t : R.State) (a : Address)
      → All IsByte (pending s)
      → read_address R s ≡ ok (a, t)
      → TookAddress s a t
  unfolding read_address
  read_address_sound s t a bytes h =
      after_u8 s t a bytes _ h λ atyp u took byte k. read_address_of_sound s u t atyp a took k

  -- What is known of an accepted request: its bytes from `s` on, and its parts.
  abbrev pub Accepted : R.State → Request → R.State → Type 0
  Accepted s r t =
      (pending s ≡ request_bytes r ++ pending t)
      × (length r.token < 256)
      × (is_utf8 r.token ≡ true)
      × (on_wire r.target ≡ r.target)

  read_request_rest_sound :
      (s₀ s t : R.State) (cmd : Cmd) (r : Request)
      → Took s₀ (magic ++ (version ∷ cmd_code cmd ∷ [])) s
      → read_request_rest R cmd s ≡ ok (r, t)
      → Accepted s₀ r t
  unfolding read_request_rest
  read_request_rest_sound s₀ s t cmd r start h = after_u8 s t r start.1 _ h λ n u one short k.
      after_exact u t r one.1 n _ k λ token v two len k'.
        let request = λ (target : Address).
          let q : Request = record { cmd = cmd; token = token; target = target } in q in
        let (utf8, k'') =
          after_ensure (is_utf8 token) (text "token is not valid utf-8")
            (read_address R >>= λ target. pure (request target)) v t r k' in
        let (target, w, e, last) = >>=-eq-ok (read_address R) _ v k'' in
        let (three, wire) = read_address_sound v w target two.1 e in
        let up_to =
          Took-append s₀ s u (magic ++ (version ∷ cmd_code cmd ∷ [])) (n ∷ []) start one in
        let tail = Took-append u v w token _ two three in
        let whole = Took-append s₀ u w (magic ++ (version ∷ cmd_code cmd ∷ n ∷ [])) _ up_to tail in
        let fits : length token < 256 = omega arith in
        let layout : request_bytes (request target)
            ≡ magic ++ (version ∷ cmd_code cmd ∷ n ∷ (token ++ address_layout target)) =
          request_layout (request target) fits ∙ rw (len, wire) in
        ends_with (Accepted s₀) w t r (request target) last (rw layout whole.0, fits, utf8, wire)

  read_request_body_sound :
      (s₀ s t : R.State) (r : Request)
      → Took s₀ (magic ++ (version ∷ [])) s
      → read_request_body R s ≡ ok (r, t)
      → Accepted s₀ r t
  unfolding read_request_body
  read_request_body_sound s₀ s t r start h = after_u8 s t r start.1 _ h λ code u one byte k.
      let (cmd, named, k') =
        after_or_fail (cmd_from_u8 code) (text "unknown command") (read_request_rest R) u t r k in
      let known : code ≡ cmd_code cmd = (cmd_from_u8_iff code cmd).0 named in
      let up_to = Took-append s₀ s u (magic ++ (version ∷ [])) (code ∷ []) start one in
      read_request_rest_sound s₀ u t cmd r
        (subst (λ c. Took s₀ (magic ++ (version ∷ c ∷ [])) u) known up_to) k'

  -- Whatever request the server accepts, the bytes that it consumed are the encoding of it: the token
  -- fits its length byte and is UTF-8, and the target is in the form that travels.
  -- Conditions: the stream holds bytes, and the read succeeds.
  pub read_request_sound :
      (s t : R.State) (r : Request)
      → All IsByte (pending s)
      → read_request R s ≡ ok (r, t)
      → Accepted s r t
  unfolding read_request
  read_request_sound s t r bytes h = after_exact s t r bytes 4 _ h λ got u first len k.
      let (same, k') =
        after_ensure (same_bytes got magic) (text "bad magic") (read_request_version R) u t r k in
      after_u8 u t r first.1 _ k' λ v w next byte k''.
        let (known, last) =
          after_ensure (v == version) (text "unsupported protocol version " ++ show_u8 v)
            (read_request_body R) w t r k'' in
        let head : got ≡ magic = (same_bytes_iff got magic).0 same in
        let value : v ≡ version = (==_iff v version).0 known in
        read_request_body_sound s w t r
          (subst₂ (λ g c. Took s (g ++ (c ∷ [])) w) head value (Took-append s u w got _ first next))
          last
