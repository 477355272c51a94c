-- ===== src/Agentic.antt =====
-- agentic/graph.py: the planner that delegates to the nodes of agentic/nodes.py and specialists.py
-- until the document is persisted. What a language model or a service returns is an argument.
pub mod Turns
pub mod Chunks
pub mod Merging
pub mod Merged
mod Examples
use compliance_wizard_engine.Prelude.{
  ℕ, zero, suc, ◌+◌, Bool, true, false, ◌&&◌, ◌||◌, not, Option, none, some, List, [], ◌∷◌, ◌++◌,
  map, Text, text, is_some, opt_text_or, or_else, ltb, if◌then◌else◌, Floats,
}
use compliance_wizard_engine.Store.{Job}
use compliance_wizard_engine.Schemas.{
  TextSegment, ExtractOutput, MappingOutput, ValidationOutput, FetchEnrichmentOutput, is_blank,
}
use compliance_wizard_engine.Mapping.Fields.{run}
use compliance_wizard_engine.Validation.{validate}
use compliance_wizard_engine.Pipeline.Persist.{Db, persist}
use compliance_wizard_engine.Pipeline.Document.{Agents, Reference, resolve}

-- PlannerAction
pub data Action : Type 0 where
  extract validate_record enrich persist_record finish_run human : Action

-- CriticDecision.decision
pub data Decision : Type 0 where
  accept reextract route_to_human : Decision

-- PipelineState, with the tables that persisting changes; the log is left out.
pub record PipelineState (F : Type 0) : Type 0 where
  pub job : Job
  pub celex : Option Text
  pub jurisdiction : Text
  pub segments : List TextSegment
  pub extract_output : Option (ExtractOutput F)
  pub mapping_output : Option (MappingOutput F)
  pub validation_output : Option (ValidationOutput F)
  pub fetch_output : Option (FetchEnrichmentOutput F)
  pub regulation_id : Option ℕ
  pub extract_attempts : ℕ
  pub critic_decision : Option Decision
  pub steps : ℕ
  pub db : Db F

-- The specialists; None stands for an exception.
pub record Specialists (F : Type 0) : Type 0 where
  pub extraction : PipelineState F → Option (ExtractOutput F)
  pub critique : PipelineState F → Option Decision
  pub enrichment : PipelineState F → FetchEnrichmentOutput F

abbrev pub is_reextract : Option Decision → Bool
is_reextract (some reextract) = true
is_reextract _ = false

abbrev pub is_routed_to_human : Option Decision → Bool
is_routed_to_human (some route_to_human) = true
is_routed_to_human _ = false

-- How one planner turn ends.
pub data Turn (F : Type 0) : Type 0 where
  raised : Turn F
  stopped going_on : PipelineState F → Turn F

-- How the run of the graph ends; `exhausted` when the rounds do not suffice.
pub data Run (F : Type 0) : Type 0 where
  failed exhausted : Run F
  done : PipelineState F → Run F

abbrev pub no_fetch : {F : Type 0} → FetchEnrichmentOutput F
no_fetch = record {
  publication_date = none;
  entry_into_force_date = none;
  oj_reference = none;
  api_sourced_relationships = [];
  skipped = true;
}

module _ {F : Type 0} where
  -- `_canonical_action`, MAX_EXTRACT_ATTEMPTS being 2
  unfoldable pub canonical_action : PipelineState F → Action
  canonical_action s =
      if is_some s.regulation_id
      then finish_run
      else if not (is_some s.extract_output)
      then extract
      else if not (is_some s.validation_output)
      then validate_record
      else if is_reextract s.critic_decision && ltb s.extract_attempts 2
      then extract
      else if is_routed_to_human s.critic_decision && not (is_some s.extract_output)
      then human
      else if not (is_blank s.celex) && not (is_some s.fetch_output)
      then enrich
      else persist_record

  -- The choice of `planner_node`; `turns` is AGENT_MAX_TURNS.
  unfoldable pub choose : ℕ → PipelineState F → Action
  choose turns s =
      if ltb turns (s.steps + 1)
      then (if is_some s.validation_output && not (is_some s.regulation_id)
          then persist_record
          else finish_run)
      else canonical_action s

  -- `_identity` of the nodes
  unfoldable pub node_identity : (ℕ → Text) → PipelineState F → Text × Text
  node_identity shown s = (
    opt_text_or s.celex (opt_text_or s.job.celex_hint (text "UPLOAD:" ++ shown s.job.id)),
    opt_text_or (some s.jurisdiction) (opt_text_or s.job.jurisdiction_hint (text "EU")),
  )

  -- `extract_node`: a new extraction drops what was derived from the one before.
  unfoldable pub extract_node : Specialists F → PipelineState F → Turn F
  extract_node sp s = elim (sp.extraction s) [
    | none ↦ raised
    | some e ↦ going_on (record s {
      extract_output = some e;
      extract_attempts = s.extract_attempts + 1;
      mapping_output = none;
      validation_output = none;
      critic_decision = none;
    })
  ]

  -- `enrich_node`
  unfoldable pub enrich_node : Specialists F → PipelineState F → Turn F
  enrich_node sp s = going_on (record s { fetch_output = some (sp.enrichment s) })

  -- `critic_node`
  unfoldable pub critic_node : Specialists F → PipelineState F → Turn F
  critic_node sp s = elim (sp.critique s) [
    | none ↦ raised
    | some d ↦ going_on (record s { critic_decision = some d })
  ]

  module _ ⦃fl : Floats F⦄ where
    -- `map_validate_node`, and the critic that follows it
    unfoldable pub map_validate_node : Reference F → Specialists F → PipelineState F → Turn F
    map_validate_node ref sp s =
        let (source_id, jurisdiction) = node_identity ref.shown s in
        elim s.extract_output [
          | none ↦ raised
          | some e ↦ elim (run ref.aliases ref.attribute_types e source_id jurisdiction) [
            | none ↦ raised
            | some m ↦ critic_node sp (record s {
              mapping_output = some m;
              validation_output =
                  some (validate (map (λ t. t.0) ref.attribute_types) ref.threshold m);
              jurisdiction = jurisdiction;
            })
          ]
        ]

    -- `persist_node`
    unfoldable pub persist_node : Reference F → Agents F → PipelineState F → Turn F
    persist_node ref agents s = elim s.validation_output [
      | none ↦ raised
      | some v ↦ elim s.extract_output [
        | none ↦ raised
        | some e ↦
            let fetch = or_else s.fetch_output no_fetch in
            let (db, reg) = persist ref.threshold s.job v fetch s.db in
            going_on (record s {
              db = resolve ref agents reg e.regulation_mentions fetch v db;
              regulation_id = some reg;
            })
      ]
    ]

    -- The conditional edges of the graph.
    unfoldable pub dispatch :
        Reference F → Agents F → Specialists F → Action → PipelineState F → Turn F
    dispatch ref agents sp extract s = extract_node sp s
    dispatch ref agents sp validate_record s = map_validate_node ref sp s
    dispatch ref agents sp enrich s = enrich_node sp s
    dispatch ref agents sp persist_record s = persist_node ref agents s
    dispatch ref agents sp finish_run s = stopped s
    dispatch ref agents sp human s = stopped s

    -- `planner_node`, and the node that it chooses
    unfoldable pub turn : Reference F → Agents F → Specialists F → ℕ → PipelineState F → Turn F
    turn ref agents sp turns s =
        dispatch ref agents sp (choose turns s) (record s { steps = s.steps + 1 })

    -- At most that many turns of the planner.
    unfoldable pub invoke : Reference F → Agents F → Specialists F → ℕ → ℕ → PipelineState F → Run F
    invoke ref agents sp turns zero s = exhausted
    invoke ref agents sp turns (suc n) s = elim (turn ref agents sp turns s) [
      | raised ↦ failed
      | stopped s' ↦ done s'
      | going_on s' ↦ invoke ref agents sp turns n s'
    ]

-- The first of the job's source id and the hint that is a CELEX id.
abbrev pub if_celex : (Text → Bool) → Option Text → Option Text → Option Text
if_celex is_celex_id none other = other
if_celex is_celex_id (some c) other =
    if not (is_blank (some c)) && is_celex_id c then some c else other

-- The state that `run_agentic_pipeline` starts from, with the segments that `load_node` adds;
-- `is_celex_id` stands for its pattern of CELEX ids.
unfoldable pub initial_state :
    {F : Type 0} → (Text → Bool) → Job → List TextSegment → Db F → PipelineState F
initial_state is_celex_id job segments db = record {
  job = job;
  celex = if_celex is_celex_id job.source_id (if_celex is_celex_id job.celex_hint none);
  jurisdiction = opt_text_or job.jurisdiction (opt_text_or job.jurisdiction_hint (text "EU"));
  segments = segments;
  extract_output = none;
  mapping_output = none;
  validation_output = none;
  fetch_output = none;
  regulation_id = none;
  extract_attempts = 0;
  critic_decision = none;
  steps = 0;
  db = db;
}
