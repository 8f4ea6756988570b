-- ===== src/Tests/Routes.antt =====
-- A routing table for the tests: the prefixes that have a route, the newest first.
use vpn_bridge.Io.{ok}
use vpn_bridge.Prelude.{
  Bool, Bool-cases, List, Option, [], ap, false, if◌then◌else◌, inl, inr, none, refl, same_bytes,
  same_bytes_iff, some, sym, true, ℕ, ◌∙◌, ◌∷◌, ◌≡◌, ◌≢◌,
}
use vpn_bridge.Routing.{HasRoutes, IsKernel, Kernel, Way, into, through}
use vpn_bridge.Tests.Data.{gateway}

abbrev pub Table : Type 0
Table = List (List ℕ × Way)

abbrev pub table_route : Table → List ℕ → Option Way
table_route [] prefix = none
table_route ((p, way) ∷ t) prefix =
    let rest = table_route t prefix in if same_bytes prefix p then some way else rest

abbrev is_there : Option Way → Bool
is_there none = false
is_there (some way) = true

abbrev table_set : List ℕ → Way → Table → Table
table_set prefix way [] = []
table_set prefix way ((p, w) ∷ t) =
    let rest = table_set prefix way t in if same_bytes prefix p then (p, way) ∷ t else (p, w) ∷ rest

abbrev table_del : List ℕ → Table → Bool × Table
table_del prefix [] = (false, [])
table_del prefix ((p, w) ∷ t) =
    let rest = table_del prefix t in
    if same_bytes prefix p then (true, t) else (rest.0, (p, w) ∷ rest.1)

abbrev added_where : Bool → List ℕ → Way → Table → Bool × Table
added_where true prefix way t = (false, t)
added_where false prefix way t = (true, (prefix, way) ∷ t)

abbrev replaced_where : Bool → List ℕ → Way → Table → Bool × Table
replaced_where true prefix way t = (true, table_set prefix way t)
replaced_where false prefix way t = (true, (prefix, way) ∷ t)

abbrev table_has : List ℕ → Table → Bool
table_has prefix t = is_there (table_route t prefix)

abbrev pub kernel : Kernel (List ℕ)
kernel = record {
  Table = Table;
  exists = table_has;
  add_via = λ prefix hop t. added_where (table_has prefix t) prefix (through hop) t;
  add_dev = λ prefix dev t. added_where (table_has prefix t) prefix (into dev) t;
  replace_dev = λ prefix dev t. replaced_where (table_has prefix t) prefix (into dev) t;
  del = table_del;
  lookup = λ t addr. ok gateway;
}

same_prefix : (prefix : List ℕ) → same_bytes prefix prefix ≡ true
same_prefix prefix = (same_bytes_iff prefix prefix).1 refl

first_removed :
    (prefix : List ℕ) (way : Way) (t : Table) → table_del prefix ((prefix, way) ∷ t) ≡ (true, t)
first_removed prefix way t = rw (same_prefix prefix) refl

added_removed :
    (there : Bool) (prefix : List ℕ) (way : Way) (t u : Table)
    → added_where there prefix way t ≡ (true, u)
    → table_del prefix u ≡ (true, t)
added_removed true prefix way t u h = cc
added_removed false prefix way t u h =
    ap (table_del prefix) (sym (ap (λ r. r.1) h)) ∙ first_removed prefix way t

replaced_removed :
    (there : Bool) (prefix : List ℕ) (way : Way) (t u : Table)
    → there ≡ false
    → replaced_where there prefix way t ≡ (true, u)
    → table_del prefix u ≡ (true, t)
replaced_removed true prefix way t u missing h = cc
replaced_removed false prefix way t u missing h =
    ap (table_del prefix) (sym (ap (λ r. r.1) h)) ∙ first_removed prefix way t

add_refused :
    (there : Bool) (prefix : List ℕ) (way : Way) (t u : Table)
    → added_where there prefix way t ≡ (false, u)
    → u ≡ t
add_refused true prefix way t u h = sym (ap (λ r. r.1) h)
add_refused false prefix way t u h = cc

replace_refused :
    (there : Bool) (prefix : List ℕ) (way : Way) (t u : Table)
    → replaced_where there prefix way t ≡ (false, u)
    → u ≡ t
replace_refused true prefix way t u h = cc
replace_refused false prefix way t u h = cc

pub kernel-IsKernel : IsKernel kernel
kernel-IsKernel = record {
  add_via_del = λ prefix hop t u h. added_removed (table_has prefix t) prefix (through hop) t u h;
  add_dev_del = λ prefix dev t u h. added_removed (table_has prefix t) prefix (into dev) t u h;
  replace_dev_del = λ prefix dev t u missing h.
      replaced_removed (table_has prefix t) prefix (into dev) t u missing h;
  add_via_fails = λ prefix hop t u h. add_refused (table_has prefix t) prefix (through hop) t u h;
  add_dev_fails = λ prefix dev t u h. add_refused (table_has prefix t) prefix (into dev) t u h;
  replace_dev_fails =
      λ prefix dev t u h. replace_refused (table_has prefix t) prefix (into dev) t u h;
}

there_way : (r : Option Way) → is_there r ≡ true → (w : Way) × (r ≡ some w)
there_way none h = cc
there_way (some w) h = (w, refl)

added_route :
    (there : Bool) (prefix : List ℕ) (way : Way) (t u : Table)
    → added_where there prefix way t ≡ (true, u)
    → table_route u prefix ≡ some way
added_route true prefix way t u h = cc
added_route false prefix way t u h =
    ap (λ v. table_route v prefix) (sym (ap (λ r. r.1) h)) ∙ rw (same_prefix prefix) refl

differs : (other prefix : List ℕ) → other ≢ prefix → same_bytes other prefix ≡ false
differs other prefix h = elim (Bool-cases (same_bytes other prefix)) [
  | inl same ↦ absurd (h ((same_bytes_iff other prefix).0 same))
  | inr different ↦ different
]

pushed_keeps :
    (prefix other : List ℕ) (way w : Way) (t : Table)
    → other ≢ prefix
    → table_route t other ≡ some w
    → table_route ((prefix, way) ∷ t) other ≡ some w
pushed_keeps prefix other way w t h k = rw (differs other prefix h) k

there_not :
    (prefix other : List ℕ) (w : Way) (t : Table)
    → table_has prefix t ≡ false
    → table_route t other ≡ some w
    → other ≢ prefix
there_not prefix other w t missing k same =
    absurd (clash (table_route t prefix) missing (ap (table_route t) (sym same) ∙ k))
  where
    clash : (r : Option Way) → is_there r ≡ false → r ≡ some w → ⊥
    clash none h e = cc
    clash (some x) h e = cc

added_keeps :
    (there : Bool) (prefix other : List ℕ) (way w : Way) (t u : Table) (went : Bool)
    → table_has prefix t ≡ there
    → added_where there prefix way t ≡ (went, u)
    → table_route t other ≡ some w
    → table_route u other ≡ some w
added_keeps true prefix other way w t u went e h k =
    ap (λ v. table_route v other) (sym (ap (λ r. r.1) h)) ∙ k
added_keeps false prefix other way w t u went e h k =
    ap (λ v. table_route v other) (sym (ap (λ r. r.1) h))
    ∙ pushed_keeps prefix other way w t (there_not prefix other w t e k) k

set_keeps :
    (prefix other : List ℕ) (way : Way) (t : Table)
    → other ≢ prefix
    → table_route (table_set prefix way t) other ≡ table_route t other
set_keeps prefix other way [] h = refl
set_keeps prefix other way ((p, v) ∷ t) h = elim (Bool-cases (same_bytes prefix p)) [
  | inl same ↦
      let here : same_bytes other p ≡ false =
        ap (same_bytes other) (sym ((same_bytes_iff prefix p).0 same)) ∙ differs other prefix h in
      rw (same, here) refl
  | inr different ↦ rw (different, set_keeps prefix other way t h) refl
]

replaced_keeps :
    (there : Bool) (prefix other : List ℕ) (way w : Way) (t u : Table) (went : Bool)
    → replaced_where there prefix way t ≡ (went, u)
    → other ≢ prefix
    → table_route t other ≡ some w
    → table_route u other ≡ some w
replaced_keeps true prefix other way w t u went h apart k =
    ap (λ v. table_route v other) (sym (ap (λ r. r.1) h)) ∙ set_keeps prefix other way t apart ∙ k
replaced_keeps false prefix other way w t u went h apart k =
    ap (λ v. table_route v other) (sym (ap (λ r. r.1) h))
    ∙ pushed_keeps prefix other way w t apart k

pub kernel-HasRoutes : HasRoutes kernel
kernel-HasRoutes = record {
  route = table_route;
  exists_route = λ prefix t h. there_way (table_route t prefix) h;
  add_via_route = λ prefix hop t u h. added_route (table_has prefix t) prefix (through hop) t u h;
  add_via_keeps = λ prefix other hop t u w went h k.
      added_keeps (table_has prefix t) prefix other (through hop) w t u went refl h k;
  replace_dev_keeps = λ prefix other dev t u w went h apart k.
      replaced_keeps (table_has prefix t) prefix other (into dev) w t u went h apart k;
}
