-- ===== src/Validation/Demands.antt =====
-- What the checks of agents/validation_agent.py ask of a record, said without their code.
use compliance_wizard_engine.Prelude.{
  ◌≡◌, ◌≢◌, ◌⊎◌, ◌↔◌, refl, sym, subst, ap, inl, inr, true, false, ◌&&◌, not, Bool-cases, [], ◌∷◌,
  ◌++◌, Text, text, length, any, is_digit, All, is_nil, ◌==◌, nat_eq, text_eq, text_beq,
  text_beq_iff, nat_beq_iff, arith,
}
use compliance_wizard_engine.Store.{CanonicalValue, plain, body, route}
use compliance_wizard_engine.Validation.{
  without_newline, is_hs_code, text_value, is_unresolved, named_value, marking_jurisdiction,
  is_foreign,
}

-- Six, eight or ten digits, and at most a newline behind them.
abbrev pub IsHsText : Text → Type 0
IsHsText s =
    (t : Text) × ((s ≡ t) ⊎ (s ≡ t ++ 10 ∷ []))
    × All (λ c. is_digit c ≡ true) t
    × ((length t ≡ 6) ⊎ ((length t ≡ 8) ⊎ (length t ≡ 10)))

without_newline-split : (s : Text) → (s ≡ without_newline s) ⊎ (s ≡ without_newline s ++ 10 ∷ [])
unfolding without_newline
without_newline-split [] = inl refl
without_newline-split (c ∷ []) = elim (Bool-cases (c == 10)) [
  | inl e ↦ inr (rw e (ap (λ k. k ∷ []) ((nat_beq_iff c 10).0 e)))
  | inr e ↦ inl (rw e refl)
]
without_newline-split (c ∷ d ∷ s) = elim (without_newline-split (d ∷ s)) [
  | inl e ↦ inl (ap (λ t. c ∷ t) e)
  | inr e ↦ inr (ap (λ t. c ∷ t) e)
]

without_newline-digits : (t : Text) → All (λ c. is_digit c ≡ true) t → without_newline t ≡ t
unfolding without_newline is_digit
without_newline-digits [] h = refl
without_newline-digits (c ∷ []) h = ground (arith, nat_beq_iff c 10)
without_newline-digits (c ∷ d ∷ t) h = ap (λ t. c ∷ t) (without_newline-digits (d ∷ t) h.1)

without_newline-append : (t : Text) → without_newline (t ++ 10 ∷ []) ≡ t
unfolding without_newline
without_newline-append [] = refl
without_newline-append (c ∷ []) = refl
without_newline-append (c ∷ d ∷ t) = ap (λ t. c ∷ t) (without_newline-append (d ∷ t))

all_digits : (t : Text) → (any (λ c. not (is_digit c)) t ≡ false) ↔ All (λ c. is_digit c ≡ true) t
all_digits [] = (λ h. tt, λ h. refl)
all_digits (c ∷ t) =
    (λ h. ground (arith, (all_digits t).0), λ h. ground (arith, (all_digits t).1 h.1))

is_hs_code-IsHsText : (s : Text) → (is_hs_code s ≡ true) ↔ IsHsText s
unfolding is_hs_code
is_hs_code-IsHsText s = (
  λ h.
      let t = without_newline s in
      (
        t,
        without_newline-split s,
        (all_digits t).0 (ground arith),
        ground
            (arith, nat_beq_iff (length t) 6, nat_beq_iff (length t) 8, nat_beq_iff (length t) 10),
      ),
  λ (t, from, digits, size).
      let same : without_newline s ≡ t = elim from [
        | inl e ↦ subst (λ u. without_newline u ≡ t) (sym e) (without_newline-digits t digits)
        | inr e ↦ subst (λ u. without_newline u ≡ t) (sym e) (without_newline-append t)
      ] in
      rw same (
        ground (
          arith,
          (all_digits t).1 digits,
          nat_beq_iff (length t) 6,
          nat_beq_iff (length t) 8,
          nat_beq_iff (length t) 10,
        )),
)

-- The value of an HS code is such a text.
abbrev pub IsHsValue : CanonicalValue → Type 0
IsHsValue (plain t) = IsHsText t
IsHsValue (body name id resolved) = ⊥
IsHsValue (route category modules cond) = ⊥

-- The value of a certification body is a text, or a body that was resolved.
abbrev pub IsResolved : CanonicalValue → Type 0
IsResolved (plain t) = Unit
IsResolved (body name id resolved) = resolved ≡ true
IsResolved (route category modules cond) = ⊥

-- The value, or the name of the body, is this text.
abbrev pub Says : Text → CanonicalValue → Type 0
Says t (plain u) = u ≡ t
Says t (body name id resolved) = name ≡ t
Says t (route category modules cond) = ⊥

-- The marking belongs to no other jurisdiction than the record's, if that is known.
abbrev pub IsAtHome : Text → CanonicalValue → Type 0
IsAtHome jurisdiction v =
    (jurisdiction ≡ [])
    ⊎ ((Says (text "CE") v → jurisdiction ≡ text "EU")
        × (Says (text "UKCA") v → jurisdiction ≡ text "UK")
        × (Says (text "EAC") v → jurisdiction ≡ text "EAEU"))

pub is_hs_code-IsHsValue : (v : CanonicalValue) → (is_hs_code (text_value v) ≡ true) ↔ IsHsValue v
unfolding is_hs_code without_newline
is_hs_code-IsHsValue (plain t) = is_hs_code-IsHsText t
is_hs_code-IsHsValue (body name id resolved) = (λ h. cc h, λ h. absurd h)
is_hs_code-IsHsValue (route category modules cond) = (λ h. cc h, λ h. absurd h)

pub is_unresolved-IsResolved : (v : CanonicalValue) → (is_unresolved v ≡ false) ↔ IsResolved v
is_unresolved-IsResolved (plain t) = (λ h. tt, λ h. refl)
is_unresolved-IsResolved (body name id resolved) = (λ h. ground arith, λ h. ground arith)
is_unresolved-IsResolved (route category modules cond) = (λ h. cc h, λ h. absurd h)

-- For a text that is not empty.
pub named_value-Says :
    (t : Text) (v : CanonicalValue) → t ≢ [] → ((named_value v == t) ≡ true) ↔ Says t v
named_value-Says t (plain u) ne = text_beq_iff u t
named_value-Says t (body name id resolved) ne = text_beq_iff name t
named_value-Says t (route category modules cond) ne =
    (λ h. ne (sym ((text_beq_iff [] t).0 h)), λ h. absurd h)

pub nil_text : (t : Text) → (is_nil t ≡ true) ↔ (t ≡ [])
nil_text [] = (λ h. refl, λ h. refl)
nil_text (c ∷ t) = (λ h. cc h, λ h. cc h)

-- A marking's text belongs to no other jurisdiction.
abbrev pub IsHomeText : Text → Text → Type 0
IsHomeText jurisdiction mark =
    (jurisdiction ≡ [])
    ⊎ ((mark ≡ text "CE" → jurisdiction ≡ text "EU")
        × (mark ≡ text "UKCA" → jurisdiction ≡ text "UK")
        × (mark ≡ text "EAC" → jurisdiction ≡ text "EAEU"))

expects :
    (jurisdiction expected : Text)
    → ((not (is_nil jurisdiction) && not (expected == jurisdiction)) ≡ false)
      ↔ ((jurisdiction ≡ []) ⊎ (jurisdiction ≡ expected))
expects jurisdiction expected =
    let empty = nil_text jurisdiction in
    let same = text_beq_iff expected jurisdiction in
    (
      λ h. elim (Bool-cases (is_nil jurisdiction)) [
        | inl e ↦ inl (empty.0 e)
        | inr e ↦ inr (sym (same.0 (ground arith)))
      ],
      λ h. elim h [ inl e ↦ ground (arith, empty.1 e) | inr e ↦ ground (arith, same.1 (sym e)) ],
    )

home_ce :
    (jurisdiction : Text)
    → (is_foreign jurisdiction (text "CE") ≡ false) ↔ IsHomeText jurisdiction (text "CE")
unfolding is_foreign marking_jurisdiction text_beq
home_ce jurisdiction = (
  λ h. elim ((expects jurisdiction (text "EU")).0 h) [
    | inl e ↦ inl e
    | inr e ↦ inr ((λ _. e), (λ m. absurd (cc m)), (λ m. absurd (cc m)))
  ],
  λ h. (expects jurisdiction (text "EU")).1 (elim h [ inl e ↦ inl e | inr p ↦ inr (p.0 refl) ]),
)

home_ukca :
    (jurisdiction : Text)
    → (is_foreign jurisdiction (text "UKCA") ≡ false) ↔ IsHomeText jurisdiction (text "UKCA")
unfolding is_foreign marking_jurisdiction text_beq
home_ukca jurisdiction = (
  λ h. elim ((expects jurisdiction (text "UK")).0 h) [
    | inl e ↦ inl e
    | inr e ↦ inr ((λ m. absurd (cc m)), (λ _. e), (λ m. absurd (cc m)))
  ],
  λ h. (expects jurisdiction (text "UK")).1 (elim h [ inl e ↦ inl e | inr p ↦ inr (p.1 refl) ]),
)

home_eac :
    (jurisdiction : Text)
    → (is_foreign jurisdiction (text "EAC") ≡ false) ↔ IsHomeText jurisdiction (text "EAC")
unfolding is_foreign marking_jurisdiction text_beq
home_eac jurisdiction = (
  λ h. elim ((expects jurisdiction (text "EAEU")).0 h) [
    | inl e ↦ inl e
    | inr e ↦ inr ((λ m. absurd (cc m)), (λ m. absurd (cc m)), (λ _. e))
  ],
  λ h. (expects jurisdiction (text "EAEU")).1 (elim h [ inl e ↦ inl e | inr p ↦ inr (p.2 refl) ]),
)

is_foreign-IsHomeText :
    (jurisdiction mark : Text)
    → (is_foreign jurisdiction mark ≡ false) ↔ IsHomeText jurisdiction mark
unfolding is_foreign marking_jurisdiction
is_foreign-IsHomeText jurisdiction mark =
    let P = (λ (m : Text). (is_foreign jurisdiction m ≡ false) ↔ IsHomeText jurisdiction m) in
    let (ce, ce_is) = text_beq_iff mark (text "CE") in
    let (ukca, ukca_is) = text_beq_iff mark (text "UKCA") in
    let (eac, eac_is) = text_beq_iff mark (text "EAC") in
    elim (Bool-cases (mark == text "CE")) [
      | inl e ↦ subst P (sym (ce e)) (home_ce jurisdiction)
      | inr no_ce ↦ elim (Bool-cases (mark == text "UKCA")) [
        | inl e ↦ subst P (sym (ukca e)) (home_ukca jurisdiction)
        | inr no_ukca ↦ elim (Bool-cases (mark == text "EAC")) [
          | inl e ↦ subst P (sym (eac e)) (home_eac jurisdiction)
          | inr no_eac ↦ (
            λ h. inr (
              (λ m. absurd (ground (arith, ce_is m))),
              (λ m. absurd (ground (arith, ukca_is m))),
              (λ m. absurd (ground (arith, eac_is m))),
            ),
            λ h. ground arith,
          )
        ]
      ]
    ]

pub is_foreign-IsAtHome :
    (jurisdiction : Text) (v : CanonicalValue)
    → (is_foreign jurisdiction (named_value v) ≡ false) ↔ IsAtHome jurisdiction v
is_foreign-IsAtHome jurisdiction (plain t) = is_foreign-IsHomeText jurisdiction t
is_foreign-IsAtHome jurisdiction (body name id resolved) = is_foreign-IsHomeText jurisdiction name
is_foreign-IsAtHome jurisdiction (route category modules cond) = (
  λ h. inr ((λ m. absurd m), (λ m. absurd m), (λ m. absurd m)),
  λ h.
      (is_foreign-IsHomeText jurisdiction []).1
        (inr ((λ m. absurd (cc m)), (λ m. absurd (cc m)), (λ m. absurd (cc m)))),
)
