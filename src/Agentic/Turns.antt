-- ===== src/Agentic/Turns.antt =====
-- The planner's loop ends: each turn brings the document nearer to being persisted.
use compliance_wizard_engine.Prelude.{
  ℕ, zero, suc, ◌+◌, ◌-◌, ◌*◌, ◌≤◌, ◌<◌, ◌≡◌, ◌≢◌, refl, ap, ◌∙◌, Bool, true, ◌&&◌, not, inl, inr,
  ◌⊎◌, none, Option-cases, List, Text, is_some, ltb, if◌then◌else◌, Floats, arith,
}
use compliance_wizard_engine.Store.{Job}
use compliance_wizard_engine.Schemas.{TextSegment, is_blank}
use compliance_wizard_engine.Pipeline.Persist.{Db}
use compliance_wizard_engine.Pipeline.Document.{Agents, Reference}
use compliance_wizard_engine.Agentic.{
  Action, extract, validate_record, enrich, persist_record, finish_run, human, PipelineState,
  Specialists, is_reextract, Turn, raised, stopped, going_on, exhausted, done, canonical_action,
  choose, extract_node, enrich_node, critic_node, map_validate_node, persist_node, dispatch, turn,
  invoke, initial_state,
}

module _ {F : Type 0} where
  -- An upper bound of the turns that are left.
  abbrev pub turns_left : PipelineState F → ℕ
  turns_left s =
      let again = 2 * (2 - s.extract_attempts) in
      let once_more = 2 * (2 - (s.extract_attempts + 1)) in
      if is_some s.regulation_id
      then 1
      else if not (is_some s.extract_output)
      then once_more + 5
      else if not (is_some s.validation_output)
      then again + 4
      else if is_reextract s.critic_decision && ltb s.extract_attempts 2
      then once_more + 5
      else if not (is_blank s.celex) && not (is_some s.fetch_output)
      then 3
      else 2

  -- The attempts that a run may have made so far.
  abbrev pub IsBounded : PipelineState F → Type 0
  IsBounded s = (s.extract_attempts ≤ 2) × (s.extract_output ≡ none → s.extract_attempts < 2)

module _ {F : Type 0} ⦃fl : Floats F⦄ (ref : Reference F) (agents : Agents F) (sp : Specialists F)
    (turns : ℕ) where
  -- A turn that goes on comes nearer to the end.
  dispatch-going :
      (a : Action) (s s' : PipelineState F)
      → choose turns s ≡ a
      → dispatch ref agents sp a (record s { steps = s.steps + 1 }) ≡ going_on s'
      → (turns_left s' < turns_left s) × (s'.steps ≡ s.steps + 1) × (IsBounded s → IsBounded s')
  unfolding choose canonical_action dispatch extract_node enrich_node critic_node map_validate_node
      persist_node
  dispatch-going extract s s' c h =
      elim (Option-cases (sp.extraction (record s { steps = s.steps + 1 }))) [
        | inl e ↦ absurd (ground arith)
        | inr (x, e) ↦ ground arith
      ]
  dispatch-going validate_record s s' c h = ground arith
  dispatch-going enrich s s' c h = ground arith
  dispatch-going persist_record s s' c h = ground arith
  dispatch-going finish_run s s' c h = absurd (ground arith)
  dispatch-going human s s' c h = absurd (ground arith)

  -- A turn stops only a document that is persisted, while the turns suffice.
  dispatch-stopped :
      (a : Action) (s s' : PipelineState F)
      → choose turns s ≡ a
      → dispatch ref agents sp a (record s { steps = s.steps + 1 }) ≡ stopped s'
      → s.steps + turns_left s ≤ turns
      → IsBounded s
      → (is_some s'.regulation_id ≡ true) × (s'.extract_attempts ≤ 2)
  unfolding choose canonical_action dispatch extract_node enrich_node critic_node map_validate_node
      persist_node
  dispatch-stopped extract s s' c h k b = absurd (ground arith)
  dispatch-stopped validate_record s s' c h k b = absurd (ground arith)
  dispatch-stopped enrich s s' c h k b = absurd (ground arith)
  dispatch-stopped persist_record s s' c h k b = absurd (ground arith)
  dispatch-stopped finish_run s s' c h k b = ground arith
  dispatch-stopped human s s' c h k b = ground arith

  Turn-cases :
      (t : Turn F)
      → (t ≡ raised)
        ⊎ (((s : PipelineState F) × (t ≡ stopped s)) ⊎ ((s : PipelineState F) × (t ≡ going_on s)))
  Turn-cases raised = inl refl
  Turn-cases (stopped s) = inr (inl (s, refl))
  Turn-cases (going_on s) = inr (inr (s, refl))

  invoke-ends :
      (n : ℕ) (s : PipelineState F) → turns_left s ≤ n → invoke ref agents sp turns n s ≢ exhausted
  unfolding invoke turn
  invoke-ends zero s le = absurd (ground arith)
  invoke-ends (suc n) s le = elim (Turn-cases (turn ref agents sp turns s)) [
    | inl e ↦ rw (e, invoke) (λ k. cc)
    | inr (inl (s', e)) ↦ rw (e, invoke) (λ k. cc)
    | inr (inr (s', e)) ↦
        let (nearer, steps, bounded) = dispatch-going (choose turns s) s s' refl e in
        rw (e, invoke) (invoke-ends n s' (omega (arith, nearer, le)))
  ]

  invoke-persists :
      (n : ℕ) (s s' : PipelineState F)
      → s.steps + turns_left s ≤ turns
      → IsBounded s
      → invoke ref agents sp turns n s ≡ done s'
      → (is_some s'.regulation_id ≡ true) × (s'.extract_attempts ≤ 2)
  unfolding invoke turn
  invoke-persists zero s s' le b h = absurd (ground arith)
  invoke-persists (suc n) s s' le b h = elim (Turn-cases (turn ref agents sp turns s)) [
    | inl e ↦ absurd (ground arith)
    | inr (inl (r, e)) ↦
        let same : r ≡ s' = ground arith in
        dispatch-stopped (choose turns s) s s' refl (e ∙ ap stopped same) le b
    | inr (inr (r, e)) ↦
        let (nearer, steps, bounded) = dispatch-going (choose turns s) s r refl e in
        invoke-persists n r s' (omega (arith, nearer, steps, le)) (bounded b) (ground arith)
  ]

-- Whatever the language models and the services answer, seven turns of the planner end the run of a
-- document. If seven turns are allowed and nothing raises, the document is then persisted, after at
-- most two extractions; no answer of the critic leaves it unpersisted.
pub agentic_run_ends :
    {F : Type 0} ⦃fl : Floats F⦄ (ref : Reference F) (agents : Agents F) (sp : Specialists F)
    (turns : ℕ) (is_celex_id : Text → Bool) (job : Job) (segments : List TextSegment) (db : Db F)
    → 7 ≤ turns
    → (invoke ref agents sp turns 7 (initial_state is_celex_id job segments db) ≢ exhausted)
      × ((s : PipelineState F)
          → invoke ref agents sp turns 7 (initial_state is_celex_id job segments db) ≡ done s
          → (is_some s.regulation_id ≡ true) × (s.extract_attempts ≤ 2))
unfolding initial_state
agentic_run_ends ref agents sp turns is_celex_id job segments db le =
    let start = initial_state is_celex_id job segments db in
    (
      invoke-ends ref agents sp turns 7 start (omega arith),
      λ s h.
          invoke-persists ref agents sp turns 7 start s (omega (arith, le))
            (omega arith, λ e. omega arith) h,
    )
