-- ===== src/Server/Certificate.antt =====
-- crates/proxy-server/src/certificate.rs: `ensure_exists` and `write_private_key`, over a file system
-- that is an interface.
use vpn_bridge.Checks.{bail}
use vpn_bridge.Io.{Result, err, ok}
use vpn_bridge.Io.Text.{text}
use vpn_bridge.Prelude.{Bool, List, false, inl, inr, refl, true, ℕ, ◌≡◌, ◌⊎◌}

pub record Files : Type 1 where
  pub Disk : Type 0
  pub exists : List ℕ → Disk → Bool
  -- `create_dir_all` of the parent of a path, if it has one.
  pub create_parent : List ℕ → Disk → Disk × Result (Unit {0})
  pub write : List ℕ → List ℕ → Disk → Disk × Result (Unit {0})
  -- `OpenOptions` with `create_new`, and `write_all` of the contents.
  pub create_new : List ℕ → List ℕ → Disk → Disk × Result (Unit {0})

-- A file that was written is there, and writing one takes no other away.
pub record IsFiles (F : Files) : Type 0 where
  pub write_exists :
      (path contents : List ℕ) (d : F.Disk)
      → (F.write path contents d).1 ≡ ok tt
      → F.exists path (F.write path contents d).0 ≡ true
  pub create_new_exists :
      (path contents : List ℕ) (d : F.Disk)
      → (F.create_new path contents d).1 ≡ ok tt
      → F.exists path (F.create_new path contents d).0 ≡ true
  pub create_new_keeps :
      (path kept contents : List ℕ) (d : F.Disk)
      → F.exists kept d ≡ true
      → F.exists kept (F.create_new path contents d).0 ≡ true

-- The certificate and the private key that rcgen makes for a name, as PEM, or its failure.
abbrev pub Generated : Type 0
Generated = Result (List ℕ × List ℕ)

module _ (F : Files) where
  -- The disk after a step, whether or not the step succeeded, with the outcome.
  abbrev pub Stepped : Type 0
  Stepped = F.Disk × Result (Unit {0})

  -- What follows a `?`.
  abbrev pub and_then : Stepped → (F.Disk → Stepped) → Stepped
  and_then (d, ok _) next = next d
  and_then (d, err e) next = (d, err e)

  unfoldable pub write_private_key : List ℕ → List ℕ → F.Disk → Stepped
  write_private_key path contents d = F.create_new path contents d

  unfoldable pub write_identity : (certificate private_key : List ℕ) → Generated → F.Disk → Stepped
  unfolding write_private_key
  write_identity certificate private_key (err e) d = (d, err e)
  write_identity certificate private_key (ok (cert_pem, key_pem)) d =
      and_then (F.create_parent certificate d) λ d1. and_then (F.create_parent private_key d1) λ d2.
        and_then (F.write certificate cert_pem d2) λ d3. write_private_key private_key key_pem d3

  unfoldable pub ensure_with :
      (certificate private_key : List ℕ) → Generated → F.Disk → (there key_there : Bool) → Stepped
  unfolding write_identity
  ensure_with certificate private_key made d true true = (d, ok tt)
  ensure_with certificate private_key made d true false =
      (d, bail (text "certificate and private key must either both exist or both be absent"))
  ensure_with certificate private_key made d false true =
      (d, bail (text "certificate and private key must either both exist or both be absent"))
  ensure_with certificate private_key made d false false =
      write_identity certificate private_key made d

  unfoldable pub ensure_exists : (certificate private_key : List ℕ) → Generated → F.Disk → Stepped
  unfolding ensure_with
  ensure_exists certificate private_key made d =
      ensure_with certificate private_key made d (F.exists certificate d) (F.exists private_key d)

module _ {F : Files} (L : IsFiles F) (certificate private_key : List ℕ) where
  open L use {write_exists, create_new_exists, create_new_keeps}

  -- A success means that both files are there.
  abbrev BothIfOk : Stepped F → Type 0
  BothIfOk m = m.1 ≡ ok tt → (F.exists certificate m.0 ≡ true) × (F.exists private_key m.0 ≡ true)

  step_passed :
      (m : Stepped F) (next : F.Disk → Stepped F)
      → (m.1 ≡ ok tt → BothIfOk (next m.0))
      → BothIfOk (and_then F m next)
  step_passed (d, ok _) next k h = k refl h
  step_passed (d, err e) next k h = cc

  identity_written :
      (made : Generated) (d : F.Disk) → BothIfOk (write_identity F certificate private_key made d)
  unfolding write_identity write_private_key
  identity_written (err e) d h = cc
  identity_written (ok (cert_pem, key_pem)) d h =
      let d1 = (F.create_parent certificate d).0 in
      let d2 = (F.create_parent private_key d1).0 in
      let d3 = (F.write certificate cert_pem d2).0 in
      let key = λ (e : F.Disk). write_private_key F private_key key_pem e in
      let cert = λ (e : F.Disk). and_then F (F.write certificate cert_pem e) key in
      step_passed (F.create_parent certificate d)
        (λ e. and_then F (F.create_parent private_key e) cert)
        (λ _. step_passed (F.create_parent private_key d1) cert (λ _.
          step_passed (F.write certificate cert_pem d2) key (λ wrote created. (
            create_new_keeps private_key certificate key_pem d3
                (write_exists certificate cert_pem d2 wrote),
            create_new_exists private_key key_pem d3 created,
          ))))
        h

  ensured :
      (made : Generated) (d : F.Disk) (there key_there : Bool)
      → F.exists certificate d ≡ there
      → F.exists private_key d ≡ key_there
      → BothIfOk (ensure_with F certificate private_key made d there key_there)
  unfolding ensure_with
  ensured made d true true c k h = (c, k)
  ensured made d true false c k h = cc
  ensured made d false true c k h = cc
  ensured made d false false c k h = identity_written made d h

  untouched :
      (made : Generated) (d : F.Disk) (there key_there : Bool)
      → (there ≡ true) ⊎ (key_there ≡ true)
      → (ensure_with F certificate private_key made d there key_there).0 ≡ d
  unfolding ensure_with
  untouched made d true true h = refl
  untouched made d true false h = refl
  untouched made d false true h = refl
  untouched made d false false (inl h) = cc
  untouched made d false false (inr h) = cc

  -- Where `ensure_exists` succeeds, both files are there; and where one of them was there before,
  -- nothing is written, so no certificate or key is replaced.
  pub ensure_exists-both :
      (made : Generated) (d : F.Disk)
      → ((ensure_exists F certificate private_key made d).1 ≡ ok tt
          → (F.exists certificate (ensure_exists F certificate private_key made d).0 ≡ true)
            × (F.exists private_key (ensure_exists F certificate private_key made d).0 ≡ true))
        × ((F.exists certificate d ≡ true) ⊎ (F.exists private_key d ≡ true)
            → (ensure_exists F certificate private_key made d).0 ≡ d)
  unfolding ensure_exists
  ensure_exists-both made d = (
    ensured made d (F.exists certificate d) (F.exists private_key d) refl refl,
    untouched made d (F.exists certificate d) (F.exists private_key d),
  )
