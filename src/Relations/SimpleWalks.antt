-- ===== src/Relations/SimpleWalks.antt =====
-- Walks that never enter a node of their own path: every reachable node has one, and the edges
-- that lead elsewhere bound its length.
use compliance_wizard_engine.Prelude.{
  ℕ, ◌+◌, ◌≤◌, ◌<◌, ◌≡◌, ◌≢◌, inl, inr, subst, Bool, true, false, Bool-cases, List, [], ◌∷◌,
  contains, length, ◌==◌, nat_eq, if◌then◌else◌, arith,
}
use compliance_wizard_engine.Vocabulary.{RelationType}
use compliance_wizard_engine.Store.{Edge}
use compliance_wizard_engine.Relations.Reachability.{has_link, Reach, one, more}

module _ {F : Type 0} (ok : RelationType → Bool) (edges : List (Edge F)) (id : ℕ) where
  pub data Simple : List ℕ → ℕ → Type 0 where
    start : {b : ℕ} → has_link ok edges id b ≡ true → Simple (b ∷ id ∷ []) b
    next :
        {p : List ℕ} {b c : ℕ}
        → Simple p b
        → has_link ok edges b c ≡ true
        → contains c p ≡ false
        → Simple (c ∷ p) c

  -- A simple walk that meets c, other than its start, has a part that ends in c.
  cut :
      {p : List ℕ} {b : ℕ} (c : ℕ)
      → Simple p b
      → contains c p ≡ true
      → c ≢ id
      → (q : List ℕ) × Simple q c
  cut c (start {b = b} h) found ne =
      let e : b ≡ c = ground arith in (b ∷ id ∷ [], subst (Simple (b ∷ id ∷ [])) e (start h))
  cut c (next {p = p} {c = d} s h new) found ne = elim (Bool-cases (c == d)) [
    | inl e ↦ let same : d ≡ c = ground arith in (d ∷ p, subst (Simple (d ∷ p)) same (next s h new))
    | inr e ↦ cut c s (ground arith) ne
  ]

  pub Simple-of_Reach : {b : ℕ} → Reach ok edges id b → b ≢ id → (p : List ℕ) × Simple p b
  Simple-of_Reach (one h) ne = (_, start h)
  Simple-of_Reach (more {b = m} {c = c} r h) ne = elim (Bool-cases (m == id)) [
    | inl e ↦
        let same : m ≡ id = ground arith in
        (c ∷ id ∷ [], start (subst (λ k. has_link ok edges k c ≡ true) same h))
    | inr e ↦
        let (p, s) = Simple-of_Reach r (ground arith) in
        elim (Bool-cases (contains c p)) [ inl f ↦ cut c s f ne | inr f ↦ (c ∷ p, next s h f) ]
  ]

-- How many edges lead to a node that is not on the path.
module _ {F : Type 0} where
  unfoldable pub unvisited : List ℕ → List (Edge F) → ℕ
  unvisited p [] = 0
  unvisited p (e ∷ es) =
      let rest = unvisited p es in if contains e.target_reg_id p then rest else rest + 1

  pub unvisited-le : (p : List ℕ) (es : List (Edge F)) → unvisited p es ≤ length es
  unfolding unvisited
  unvisited-le p [] = omega arith
  unvisited-le p (e ∷ es) = ground (arith, unvisited-le p es)

  unvisited-cons_le :
      (c : ℕ) (p : List ℕ) (es : List (Edge F)) → unvisited (c ∷ p) es ≤ unvisited p es
  unfolding unvisited
  unvisited-cons_le c p [] = omega arith
  unvisited-cons_le c p (e ∷ es) = ground (arith, unvisited-cons_le c p es)

  module _ (ok : RelationType → Bool) where
    pub unvisited-lt :
        (p : List ℕ) (a c : ℕ) (es : List (Edge F))
        → has_link ok es a c ≡ true
        → contains c p ≡ true
        → unvisited p es < length es
    unfolding unvisited
    unvisited-lt p a c [] h k = cc
    unvisited-lt p a c (e ∷ es) h k = elim (Bool-cases (e.target_reg_id == c)) [
      | inl same ↦
          let same' : e.target_reg_id ≡ c = ground arith in
          rw same' (rw k (ground (arith, unvisited-le p es)))
      | inr other ↦ ground (arith, unvisited-lt p a c es)
    ]

    pub unvisited-cons_lt :
        (p : List ℕ) (a c : ℕ) (es : List (Edge F))
        → has_link ok es a c ≡ true
        → contains c p ≡ false
        → unvisited (c ∷ p) es < unvisited p es
    unfolding unvisited
    unvisited-cons_lt p a c [] h k = cc
    unvisited-cons_lt p a c (e ∷ es) h k = elim (Bool-cases (e.target_reg_id == c)) [
      | inl same ↦
          let same' : e.target_reg_id ≡ c = ground arith in
          rw same' (rw k (ground (arith, unvisited-cons_le c p es)))
      | inr other ↦ ground (arith, unvisited-cons_lt p a c es)
    ]
