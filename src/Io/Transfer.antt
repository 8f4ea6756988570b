-- ===== src/Io/Transfer.antt =====
-- The loop that reads a stream block by block into a buffer and hands each block on, with the three
-- ways in which it ends. The copying and framing tasks of the programs are this loop with what each
-- does at its end.
use vpn_bridge.Io.Defs.{Action, Error, Result, err, ok}
use vpn_bridge.Io.Source.{IsSound, IsSource, Source}
use vpn_bridge.Prelude.{
  All, List, Option, [], ap, append_assoc, arith, length, length-append, none, refl, some, subst,
  suc, sym, zero, ℕ, ◌++◌, ◌<◌, ◌∙◌, ◌∷◌, ◌≡◌, ◌≤◌,
}

-- The stream ended, the block could not be handed on, or the stream failed.
pub data Ending {ℓ} (S T : Type ℓ) : Type ℓ where
  finished : S → T → Ending S T
  stopped : Error → Ending S T
  broken : Error → T → Ending S T

module _ (S : Source) {T : Type 0} (room : ℕ) (hand_on : List ℕ → Action T (Unit {0})) where
  abbrev pub block_sent :
      (S.State → T → Option (Ending S.State T))
      → S.State
      → Result (Unit {0} × T)
      → Option (Ending S.State T)
  block_sent more s (ok (_, t)) = more s t
  block_sent more s (err e) = some (stopped e)

  abbrev pub block_read :
      (S.State → T → Option (Ending S.State T))
      → T
      → Result (List ℕ × S.State)
      → Option (Ending S.State T)
  block_read more t (ok ([], s)) = some (finished s t)
  block_read more t (ok (b ∷ bs, s)) = block_sent more s (hand_on (b ∷ bs) t)
  block_read more t (err e) = some (broken e t)

  -- On fuel; `none` means that it ran out.
  unfoldable pub transfer : ℕ → S.State → T → Option (Ending S.State T)
  transfer zero s t = none
  transfer (suc fuel) s t = block_read (transfer fuel) t (S.read room s)

abbrev pub IsBlock : ℕ → List ℕ → Type 0
IsBlock room block = (0 < length block) × (length block ≤ room)

abbrev pub join_blocks : List (List ℕ) → List ℕ
join_blocks [] = []
join_blocks (block ∷ blocks) = block ++ join_blocks blocks

module _ {T : Type 0} (hand_on : List ℕ → Action T (Unit {0})) where
  -- The blocks are handed on one after the other, and all of them are taken.
  abbrev pub HandedOn : T → List (List ℕ) → T → Type 0
  HandedOn t [] u = t ≡ u
  HandedOn t (block ∷ blocks) u = (t' : T) × (hand_on block t ≡ ok (tt, t')) × HandedOn t' blocks u

  -- Every block is taken.
  abbrev pub Takes : Type 0
  Takes = (block : List ℕ) (t : T) → (u : T) × (hand_on block t ≡ ok (tt, u))

module _ {S : Source} (L : IsSource S) {T : Type 0} (room : ℕ)
    (hand_on : List ℕ → Action T (Unit {0})) where
  -- The stream's bytes up to `rest`, cut into blocks and handed on in order.
  abbrev pub Passed : S.State → T → List ℕ → T → Type 0
  Passed s t rest u =
      (blocks : List (List ℕ)) × HandedOn hand_on t blocks u
      × All (IsBlock room) blocks
      × (L.pending s ≡ join_blocks blocks ++ rest)

  -- All bytes were passed on where the loop finished, and the front of them where it did not.
  abbrev pub Carried : S.State → T → Ending S.State T → Type 0
  Carried s t (finished s' t') = Passed s t [] t'
  Carried s t (broken e t') = (rest : List ℕ) × Passed s t rest t'
  Carried s t (stopped e) =
      (rest : List ℕ) × (u : T) × Passed s t rest u × ((block : List ℕ) × (hand_on block u ≡ err e))

  Passed-block :
      (s s' : S.State) (t t' u : T) (block rest : List ℕ)
      → IsBlock room block
      → hand_on block t ≡ ok (tt, t')
      → L.pending s ≡ block ++ L.pending s'
      → Passed s' t' rest u
      → Passed s t rest u
  Passed-block s s' t t' u block rest fits handed front (blocks, run, all, whole) = (
    block ∷ blocks,
    (t', handed, run),
    (fits, all),
    front ∙ ap (λ l. block ++ l) whole ∙ sym (append_assoc block (join_blocks blocks) rest),
  )

  Carried-block :
      (s s' : S.State) (t t' : T) (block : List ℕ) (ending : Ending S.State T)
      → IsBlock room block
      → hand_on block t ≡ ok (tt, t')
      → L.pending s ≡ block ++ L.pending s'
      → Carried s' t' ending
      → Carried s t ending
  Carried-block s s' t t' block (finished s'' u) fits handed front c =
      Passed-block s s' t t' u block [] fits handed front c
  Carried-block s s' t t' block (broken e u) fits handed front (rest, c) =
      (rest, Passed-block s s' t t' u block rest fits handed front c)
  Carried-block s s' t t' block (stopped e) fits handed front (rest, u, c, last) =
      (rest, u, Passed-block s s' t t' u block rest fits handed front c, last)

  some-eq : {A : Type 0} {x y : A} → ◌≡◌ {A = Option A} (some x) (some y) → x ≡ y
  some-eq h = cc

  -- What a loop `more` carries for the rest of the stream.
  abbrev CarriesOn : (S.State → T → Option (Ending S.State T)) → Type 0
  CarriesOn more =
      (s : S.State) (t : T) (ending : Ending S.State T)
      → more s t ≡ some ending
      → Carried s t ending

  sent-Carried :
      (more : S.State → T → Option (Ending S.State T)) (s s' : S.State) (t : T)
      (ending : Ending S.State T) (block : List ℕ) (r : Result (Unit {0} × T))
      → CarriesOn more
      → IsBlock room block
      → L.pending s ≡ block ++ L.pending s'
      → hand_on block t ≡ r
      → block_sent S room hand_on more s' r ≡ some ending
      → Carried s t ending
  sent-Carried more s s' t ending block (ok (_, t')) ih fits front e h =
      Carried-block s s' t t' block ending fits e front (ih s' t' ending h)
  sent-Carried more s s' t ending block (err e') ih fits front e h =
      subst (Carried s t) (some-eq h) (L.pending s, t, ([], refl, tt, refl), (block, e))

  read-Carried :
      (more : S.State → T → Option (Ending S.State T)) (s : S.State) (t : T)
      (ending : Ending S.State T) (r : Result (List ℕ × S.State))
      → CarriesOn more
      → 0 < room
      → S.read room s ≡ r
      → block_read S room hand_on more t r ≡ some ending
      → Carried s t ending
  read-Carried more s t ending (ok ([], s')) ih wide e h =
      subst (Carried s t) (some-eq h) ([], refl, tt, L.read_end room s s' wide e)
  read-Carried more s t ending (ok (b ∷ bs, s')) ih wide e h =
      let (front, fits) = L.read_ok room s s' (b ∷ bs) e in
      sent-Carried more s s' t ending (b ∷ bs) (hand_on (b ∷ bs) t) ih (omega arith, fits) front
        refl h
  read-Carried more s t ending (err e') ih wide e h =
      subst (Carried s t) (some-eq h) (L.pending s, ([], refl, tt, refl))

  -- However the loop ends, nothing is lost before the end, added, or put in another order, and each
  -- block fits the buffer. Condition: the buffer is not empty, and the fuel has not run out.
  pub transfer-Carried :
      (fuel : ℕ) (s : S.State) (t : T) (ending : Ending S.State T)
      → 0 < room
      → transfer S room hand_on fuel s t ≡ some ending
      → Carried s t ending
  unfolding transfer
  transfer-Carried zero s t ending wide h = cc
  transfer-Carried (suc fuel) s t ending wide h =
      read-Carried (transfer S room hand_on fuel) s t ending (S.read room s)
        (λ s' t' ending' h'. transfer-Carried fuel s' t' ending' wide h') wide refl h

  block_shorter :
      (s s' : S.State) (block : List ℕ)
      → 0 < length block
      → L.pending s ≡ block ++ L.pending s'
      → length (L.pending s') < length (L.pending s)
  block_shorter s s' block some_bytes front =
      omega (arith, ap length front, length-append block (L.pending s'))

  abbrev Finishes : Option (Ending S.State T) → Type 0
  Finishes r = (s' : S.State) × (t' : T) × (r ≡ some (finished s' t'))

  Finishes-block :
      (more : S.State → T → Option (Ending S.State T)) (s s' : S.State) (t : T) (bs : List ℕ)
      → Takes hand_on
      → S.read room s ≡ ok (bs, s')
      → ((u : T) → 0 < length bs → Finishes (more s' u))
      → Finishes (block_read S room hand_on more t (ok (bs, s')))
  Finishes-block more s s' t [] takes read ih = (s', t, refl)
  Finishes-block more s s' t (b ∷ bs) takes read ih =
      let (u, taken) = takes (b ∷ bs) t in
      let (s'', t'', e) = ih u (omega arith) in
      (s'', t'', ap (block_sent S room hand_on more s') taken ∙ e)

  -- The loop reads the stream to its end. Conditions: the stream does not fail, what it reads is
  -- taken, and there is fuel for more reads than there are bytes.
  pub transfer_finishes :
      (fuel : ℕ) (s : S.State) (t : T)
      → IsSound S
      → Takes hand_on
      → length (L.pending s) < fuel
      → (s' : S.State) × (t' : T) × (transfer S room hand_on fuel s t ≡ some (finished s' t'))
  unfolding transfer
  transfer_finishes zero s t sound takes enough = absurd (omega arith)
  transfer_finishes (suc fuel) s t sound takes enough =
      let (bs, s', read) = sound room s in
      let (front, fits) = L.read_ok room s s' bs read in
      subst (λ r. Finishes (block_read S room hand_on (transfer S room hand_on fuel) t r))
        (sym read)
        (Finishes-block (transfer S room hand_on fuel) s s' t bs takes read (λ u some_bytes.
          transfer_finishes fuel s' u sound takes
            (omega (arith, block_shorter s s' bs some_bytes front))))

-- No block is empty, so there are no more of them than bytes.
pub length-join_blocks :
    (room : ℕ) (blocks : List (List ℕ))
    → All (IsBlock room) blocks
    → length blocks ≤ length (join_blocks blocks)
length-join_blocks room [] fit = omega arith
length-join_blocks room (block ∷ blocks) ((some_bytes, short), fit) =
    omega (arith, length-append block (join_blocks blocks), length-join_blocks room blocks fit)
