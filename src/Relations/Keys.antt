-- ===== src/Relations/Keys.antt =====
-- The unique columns `id` and `source_id` of the regulations, and lookups by them.
use compliance_wizard_engine.Prelude.{
  ℕ, ◌<◌, ◌≡◌, inl, inr, refl, subst, Bool, true, false, ◌||◌, Bool-cases, none, some, List, [],
  ◌∷◌, ◌++◌, any, any-append, All, find, ◌==◌, nat_eq, text_eq, text_beq_iff, Text, arith,
}
use compliance_wizard_engine.Store.{Regulation}

abbrev pub clashes : Regulation → Regulation → Bool
clashes r s = s.id == r.id || s.source_id == r.source_id

-- No two regulations share an id or a source id.
abbrev pub IsKeyed : List Regulation → Type 0
IsKeyed [] = Unit
IsKeyed (r ∷ rs) = (any (clashes r) rs ≡ false) × IsKeyed rs

abbrev pub by_id : ℕ → Regulation → Bool
by_id id r = r.id == id

abbrev pub by_source : Text → Regulation → Bool
by_source sid r = r.source_id == sid

pub IsKeyed-append :
    (rs : List Regulation) (r : Regulation)
    → IsKeyed rs
    → any (by_id r.id) rs ≡ false
    → any (by_source r.source_id) rs ≡ false
    → IsKeyed (rs ++ r ∷ [])
IsKeyed-append [] r k no_id no_source = (refl, tt)
IsKeyed-append (q ∷ rs) r k no_id no_source = (
  ground (
    arith,
    any-append (clashes q) rs (r ∷ []),
    text_beq_iff r.source_id q.source_id,
    text_beq_iff q.source_id r.source_id,
  ),
  IsKeyed-append rs r k.1 (ground arith) (ground arith),
)

pub find-none-any :
    (p : Regulation → Bool) (rs : List Regulation) → find p rs ≡ none → any p rs ≡ false
find-none-any p [] h = refl
find-none-any p (r ∷ rs) h = ground (arith, find-none-any p rs)

pub find-some_holds :
    (p : Regulation → Bool) (rs : List Regulation) (r : Regulation)
    → find p rs ≡ some r
    → (p r ≡ true) × (any p rs ≡ true)
find-some_holds p [] r h = cc
find-some_holds p (q ∷ rs) r h = elim (Bool-cases (p q)) [
  | inl e ↦ let same : q ≡ r = ground arith in (subst (λ x. p x ≡ true) same e, ground arith)
  | inr e ↦ ground (arith, find-some_holds p rs r)
]

pub find-some-any :
    (p c : Regulation → Bool) (rs : List Regulation) (r : Regulation)
    → find p rs ≡ some r
    → c r ≡ true
    → any c rs ≡ true
find-some-any p c [] r h k = cc
find-some-any p c (q ∷ rs) r h k = elim (Bool-cases (p q)) [
  | inl e ↦
      let same : r ≡ q = ground arith in let held = subst (λ x. c x ≡ true) same k in ground arith
  | inr e ↦ ground (arith, find-some-any p c rs r)
]

pub find-append :
    (p : Regulation → Bool) (rs qs : List Regulation) (r : Regulation)
    → find p rs ≡ some r
    → find p (rs ++ qs) ≡ some r
find-append p [] qs r h = cc
find-append p (q ∷ rs) qs r h = ground (arith, find-append p rs qs r)

-- Regulations found by id and by source id that share the id are one.
pub found_twice :
    (rs : List Regulation) (id : ℕ) (sid : Text) (r s : Regulation)
    → IsKeyed rs
    → find (by_id id) rs ≡ some r
    → find (by_source sid) rs ≡ some s
    → s.id ≡ id
    → r.source_id ≡ sid
found_twice [] id sid r s k h g e = cc
found_twice (q ∷ rs) id sid r s k h g e = elim (Bool-cases (by_id id q)) [
  | inl i ↦ elim (Bool-cases (by_source sid q)) [
    | inl j ↦ let same : q ≡ r = ground arith in rw (← same) ((text_beq_iff q.source_id sid).0 j)
    | inr j ↦ cc (k.0, find-some-any (by_source sid) (clashes q) rs s (ground arith) (ground arith))
  ]
  | inr i ↦ elim (Bool-cases (by_source sid q)) [
    | inl j ↦
        let same : q ≡ s = ground arith in
        let held = subst (λ x. by_id id x ≡ false) same i in absurd (ground arith)
    | inr j ↦ found_twice rs id sid r s k.1 (ground arith) (ground arith) e
  ]
]

pub below-fresh : (rs : List Regulation) (n : ℕ) → All (λ r. r.id < n) rs → any (by_id n) rs ≡ false
below-fresh [] n h = refl
below-fresh (r ∷ rs) n h = ground (arith, below-fresh rs n h.1)
