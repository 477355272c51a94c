-- ===== src/Ui/Decided.antt =====
-- What a reviewer's decision on a field does to the table and to the queue.
use compliance_wizard_engine.Prelude.{
  ℕ, ◌≡◌, ◌≢◌, ◌⊎◌, inl, inr, refl, sym, subst, ap, ◌∙◌, Bool, true, false, ◌&&◌, not, Option, none,
  some, [], ◌∷◌, Text, text, ◌==◌, nat_eq, text_eq, arith, Bool-cases, Option-cases, is_nil,
  if◌then◌else◌, ◌||◌, text_beq_iff, text_beq,
}
use compliance_wizard_engine.Vocabulary.{ReviewStatus, human_approved, rejected}
use compliance_wizard_engine.Store.{body, RegulationField}
use compliance_wizard_engine.Ui.Tables.{
  Keyed, Response, ok, error, not_found, bad_request, server_error, get, update, delete, having,
  get-update,
}
use compliance_wizard_engine.Ui.Queue.{is_pending}
use compliance_wizard_engine.Ui.Decisions.{
  FieldAction, approved_field, decide_field, signed_field, field_action, resolve_field, write_field,
}

-- The three actions that always settle a field.
abbrev pub settles : FieldAction → Bool
settles b = b.action == text "approve" || (b.action == text "edit" || b.action == text "reject")

reject-ne-resolve : (text "reject" == text "resolve") ≡ false
unfolding text_beq
reject-ne-resolve = refl

if_cases :
    {A : Type 0} (P : A → Type 0) (b : Bool) {x y : A}
    → ((b ≡ true) → P x)
    → ((b ≡ false) → P y)
    → P (if b then x else y)
if_cases P true h k = h refl
if_cases P false h k = k refl

no_body : (t : Text) → is_nil t ≡ true → t ≡ []
no_body [] h = refl
no_body (c ∷ t) h = cc h

-- When an action on a row that is there fails, and how.
abbrev pub Fails : (Text → Option ℕ) → FieldAction → ℕ → Type 0
Fails parse_uuid b status =
    ((status ≡ server_error) × (b.action ≡ text "resolve") × (parse_uuid b.body_id ≡ none))
    ⊎ ((status ≡ bad_request)
        × (b.action ≢ text "approve")
        × (b.action ≢ text "edit")
        × (b.action ≢ text "reject")
        × ((b.action ≡ text "resolve") → b.body_id ≡ []))

module _ {F : Type 0} where
  -- What a decision never changes: where a value comes from.
  abbrev pub SameOrigin : RegulationField F → RegulationField F → Type 0
  SameOrigin f g =
      (g.regulation_id ≡ f.regulation_id)
      × (g.field_name ≡ f.field_name)
      × (g.reference ≡ f.reference)
      × (g.confidence ≡ f.confidence)
      × (g.source_segment_index ≡ f.source_segment_index)

  abbrev pub SameValue : RegulationField F → RegulationField F → Type 0
  SameValue f g = (g.value_text ≡ f.value_text) × (g.value_json ≡ f.value_json)

  -- What `resolve` makes of a row, for the id of a body.
  abbrev pub Resolves : Option Text → ℕ → RegulationField F → RegulationField F → Type 0
  Resolves none id f g = SameValue f g × (g.review_status ≡ f.review_status)
  Resolves (some name) id f g =
      (g.value_text ≡ none)
      × (g.value_json ≡ some (body name (some id) true))
      × (g.review_status ≡ human_approved)

  -- What each action makes of a row.
  abbrev pub Follows :
      (Text → Option ℕ) → Keyed Text → FieldAction → RegulationField F → RegulationField F → Type 0
  Follows parse_uuid bodies b f g =
      ((b.action ≡ text "approve") × SameValue f g × (g.review_status ≡ human_approved))
      ⊎ (((b.action ≡ text "edit")
            × (g.value_text ≡ some b.value)
            × (g.value_json ≡ none)
            × (g.review_status ≡ human_approved))
          ⊎ (((b.action ≡ text "resolve")
                × (id : ℕ) × (parse_uuid b.body_id ≡ some id)
                × Resolves (get id bodies) id f g)
              ⊎ ((b.action ≡ text "reject") × SameValue f g × (g.review_status ≡ rejected))))

  abbrev Decides :
      (Text → Option ℕ)
      → Keyed Text
      → FieldAction
      → RegulationField F
      → Response (RegulationField F)
      → Type 0
  Decides parse_uuid bodies b f (error status) = Fails parse_uuid b status
  Decides parse_uuid bodies b f (ok g) = SameOrigin f g × Follows parse_uuid bodies b f g

  resolve_field-Decides :
      (parse_uuid : Text → Option ℕ) (bodies : Keyed Text) (b : FieldAction) (f : RegulationField F)
      → b.action ≡ text "resolve"
      → Decides parse_uuid bodies b f (resolve_field parse_uuid bodies b f)
  unfolding resolve_field
  resolve_field-Decides parse_uuid bodies b f h =
      let same : SameOrigin f f = (refl, refl, refl, refl, refl) in
      elim (Option-cases (parse_uuid b.body_id)) [
        | inl e ↦ rw (e, resolve_field) (inl (refl, h, e))
        | inr (id, e) ↦ elim (Option-cases (get id bodies)) [
          | inl k ↦
              rw (e, resolve_field)
                (rw k (same, inr (inr (inl (h, id, e, rw k ((refl, refl), refl))))))
          | inr (name, k) ↦
              rw (e, resolve_field)
                (rw k (same, inr (inr (inl (h, id, e, rw k (refl, refl, refl))))))
        ]
      ]

  decide_field-Decides :
      (parse_uuid : Text → Option ℕ) (bodies : Keyed Text) (b : FieldAction) (f : RegulationField F)
      → Decides parse_uuid bodies b f (decide_field parse_uuid bodies b f)
  unfolding decide_field
  decide_field-Decides parse_uuid bodies b f =
      let same : SameOrigin f f = (refl, refl, refl, refl, refl) in
      let P = Decides parse_uuid bodies b f in
      let is = (λ (t : Text) (h : (b.action == t) ≡ true). (text_beq_iff b.action t).0 h) in
      let isnt : (t : Text) → (b.action == t) ≡ false → b.action ≢ t =
        λ t h e. ground (arith, (text_beq_iff b.action t).1 e, h) in
      if_cases P (b.action == text "approve")
        (λ h. (same, inl (is (text "approve") h, (refl, refl), refl)))
        (λ no_approve.
          if_cases P (b.action == text "edit")
            (λ h. (same, inr (inl (is (text "edit") h, refl, refl, refl))))
            (λ no_edit.
              if_cases P (b.action == text "resolve" && not (is_nil b.body_id))
                (λ h.
                  resolve_field-Decides parse_uuid bodies b f (is (text "resolve") (ground arith)))
                (λ no_resolve.
                  if_cases P (b.action == text "reject")
                    (λ h. (same, inr (inr (inr (is (text "reject") h, (refl, refl), refl)))))
                    (λ no_reject. inr (
                      refl,
                      isnt (text "approve") no_approve,
                      isnt (text "edit") no_edit,
                      isnt (text "reject") no_reject,
                      λ e. no_body b.body_id (
                          ground (arith, (text_beq_iff b.action (text "resolve")).1 e, no_resolve)),
                    )))))

  get-update_self :
      (id : ℕ) (g : RegulationField F) (table : Keyed (RegulationField F)) {f : RegulationField F}
      → get id table ≡ some f
      → get id (update id (λ _. g) table) ≡ some g
  get-update_self id g table h = ground (arith, get-update id id (λ _. g) table)

  get-update_other :
      (id j : ℕ) (g : RegulationField F) (table : Keyed (RegulationField F))
      → id ≢ j
      → get j (update id (λ _. g) table) ≡ get j table
  get-update_other id j g table h = ground (arith, get-update id j (λ _. g) table)

  -- The table and the response after a decision.
  abbrev pub Outcome :
      (Text → Option ℕ)
      → Keyed Text
      → ℕ
      → FieldAction
      → Keyed (RegulationField F)
      → Keyed (RegulationField F)
      → Response ReviewStatus
      → Type 0
  Outcome parse_uuid bodies id b before after (error status) =
      (after ≡ before)
      × (((status ≡ not_found) × (get id before ≡ none)) ⊎ Fails parse_uuid b status)
  Outcome parse_uuid bodies id b before after (ok st) =
      (f : RegulationField F) × (g : RegulationField F) × (get id before ≡ some f)
      × (get id after ≡ some g)
      × (g.review_status ≡ st)
      × (g.reviewer_id ≡ some b.reviewer)
      × SameOrigin f g
      × Follows parse_uuid bodies b f g
      × ((j : ℕ) → id ≢ j → get j after ≡ get j before)

  Resolves-signed :
      (b : FieldAction) (found : Option Text) (id : ℕ) (f g : RegulationField F)
      → Resolves found id f g
      → Resolves found id f (signed_field b g)
  Resolves-signed b none id f g h = h
  Resolves-signed b (some name) id f g h = h

  Follows-signed :
      (parse_uuid : Text → Option ℕ) (bodies : Keyed Text) (b : FieldAction)
      (f g : RegulationField F)
      → Follows parse_uuid bodies b f g
      → Follows parse_uuid bodies b f (signed_field b g)
  Follows-signed parse_uuid bodies b f g (inl h) = inl h
  Follows-signed parse_uuid bodies b f g (inr (inl h)) = inr (inl h)
  Follows-signed parse_uuid bodies b f g (inr (inr (inl (h, id, e, r)))) =
      inr (inr (inl (h, id, e, Resolves-signed b (get id bodies) id f g r)))
  Follows-signed parse_uuid bodies b f g (inr (inr (inr h))) = inr (inr (inr h))

  write_field-Outcome :
      (parse_uuid : Text → Option ℕ) (bodies : Keyed Text) (id : ℕ) (b : FieldAction)
      (fields : Keyed (RegulationField F)) (f : RegulationField F)
      (r : Response (RegulationField F))
      → get id fields ≡ some f
      → Decides parse_uuid bodies b f r
      → Outcome parse_uuid bodies id b fields
          (write_field id b fields r).0
          (write_field id b fields r).1
  unfolding write_field
  write_field-Outcome parse_uuid bodies id b fields f (error status) e d = (refl, inr d)
  write_field-Outcome parse_uuid bodies id b fields f (ok g) e d = (
    f,
    signed_field b g,
    e,
    get-update_self id (signed_field b g) fields e,
    refl,
    refl,
    d.0,
    Follows-signed parse_uuid bodies b f g d.1,
    λ j ne. get-update_other id j (signed_field b g) fields ne,
  )

  field_action-none :
      (parse_uuid : Text → Option ℕ) (bodies : Keyed Text) (id : ℕ) (b : FieldAction)
      (fields : Keyed (RegulationField F))
      → get id fields ≡ none
      → field_action parse_uuid bodies id b fields ≡ (fields, error not_found)
  unfolding field_action
  field_action-none parse_uuid bodies id b fields e = rw (e, field_action) refl

  field_action-some :
      (parse_uuid : Text → Option ℕ) (bodies : Keyed Text) (id : ℕ) (b : FieldAction)
      (fields : Keyed (RegulationField F)) (f : RegulationField F)
      → get id fields ≡ some f
      → field_action parse_uuid bodies id b fields
        ≡ write_field id b fields (decide_field parse_uuid bodies b f)
  unfolding field_action
  field_action-some parse_uuid bodies id b fields f e = rw (e, field_action) refl

  -- A decision that fails changes nothing: the row is not there, or its action is unknown, or it
  -- resolves without the id of a body or to a text that is no id. One that succeeds answers the status
  -- that the row now has, names the reviewer and leaves the row's origin and every other row alone.
  -- Approving approves the row and editing approves it with the new value; rejecting rejects it;
  -- resolving approves it with the body, or leaves value and status as they were if the body is not
  -- there.
  pub field_action-Outcome :
      (parse_uuid : Text → Option ℕ) (bodies : Keyed Text) (id : ℕ) (b : FieldAction)
      (fields : Keyed (RegulationField F))
      → let (after, response) = field_action parse_uuid bodies id b fields in
        Outcome parse_uuid bodies id b fields after response
  field_action-Outcome parse_uuid bodies id b fields = elim (Option-cases (get id fields)) [
    | inl e ↦
        subst (λ p. Outcome parse_uuid bodies id b fields p.0 p.1)
          (sym (field_action-none parse_uuid bodies id b fields e)) (refl, inl (refl, e))
    | inr (f, e) ↦
        let r = decide_field parse_uuid bodies b f in
        subst (λ p. Outcome parse_uuid bodies id b fields p.0 p.1)
          (sym (field_action-some parse_uuid bodies id b fields f e))
          (write_field-Outcome parse_uuid bodies id b fields f r e
            (decide_field-Decides parse_uuid bodies b f))
  ]

  having-update_settled :
      (id : ℕ) (change : RegulationField F → RegulationField F) (fields : Keyed (RegulationField F))
      → ((f : RegulationField F) → is_pending (change f).review_status ≡ false)
      → having (λ f. is_pending f.review_status) (update id change fields)
        ≡ delete id (having (λ f. is_pending f.review_status) fields)
  unfolding update delete
  having-update_settled id change [] h = refl
  having-update_settled id change ((k, f) ∷ fields) h =
      ground (arith, having-update_settled id change fields h, h f)

  decide_field-settled :
      (parse_uuid : Text → Option ℕ) (bodies : Keyed Text) (b : FieldAction) (f : RegulationField F)
      → settles b ≡ true
      → (g : RegulationField F) × (decide_field parse_uuid bodies b f ≡ ok g)
        × (is_pending g.review_status ≡ false)
  unfolding decide_field
  decide_field-settled parse_uuid bodies b f h = elim (Bool-cases (b.action == text "approve")) [
    | inl e ↦ (approved_field f, ground (arith, e), refl)
    | inr e ↦ elim (Bool-cases (b.action == text "edit")) [
      | inl k ↦ (
        record f { value_text = some b.value; value_json = none; review_status = human_approved },
        ground (arith, e, k),
        refl,
      )
      | inr k ↦
          let r : (b.action == text "reject") ≡ true = ground arith in
          let no_resolve : (b.action == text "resolve") ≡ false =
            ap (λ (t : Text). t == text "resolve") ((text_beq_iff b.action (text "reject")).0 r)
            ∙ reject-ne-resolve in
          (record f { review_status = rejected }, ground arith, refl)
    ]
  ]

  -- Approving or rejecting a field takes it out of the queue, and takes out no other.
  pub field_action-leaves_queue :
      (parse_uuid : Text → Option ℕ) (bodies : Keyed Text) (id : ℕ) (b : FieldAction)
      (fields : Keyed (RegulationField F)) {f : RegulationField F}
      → get id fields ≡ some f
      → settles b ≡ true
      → having (λ g. is_pending g.review_status) (field_action parse_uuid bodies id b fields).0
        ≡ delete id (having (λ g. is_pending g.review_status) fields)
  unfolding write_field
  field_action-leaves_queue parse_uuid bodies id b fields {f} e h =
      let (g, settled, off) = decide_field-settled parse_uuid bodies b f h in
      rw (field_action-some parse_uuid bodies id b fields f e) (
        rw (settled, write_field)
          (having-update_settled id (λ _. signed_field b g) fields (λ _. off)))
