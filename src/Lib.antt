-- ===== src/Lib.antt =====
-- Compliance Wizard: regulations, their applicability conditions, their HS codes and their relations,
-- from an extracted document to the answer of the wizard.
--
-- The program ingests a regulation (pipeline.py): agents read and extract it, the Mapping Agent
-- (agents/mapping_agent.py) normalizes the values, the Validation Agent (agents/validation_agent.py)
-- flags what a reviewer has to see, the rows are stored, and the engine resolves relations
-- (engine/relationship_resolver.py) and HS codes (engine/hs_mapper.py). The wizard
-- (engine/wizard_matcher.py) finds the regulations of an HS code and decides from the stored
-- conditions whether each applies to a product.
--
-- Vocabulary    db/enums.py, each StrEnum a data type.
-- Store         db/models.py, each table a list of rows; a UUID is a number.
-- Schemas       schemas/, the records between the agents; None where pydantic would raise.
-- Mapping       agents/mapping_agent.py: Normalize (names, operators, numerals), Structure
--               (`_structure`), Fields (`_map_field`, `run`); Structuring, Evaluated and Provenance
--               prove.
-- Validation    agents/validation_agent.py; Demands and Presence say what a record has to satisfy, and
--               Clean proves.
-- Pipeline      pipeline.py: Persist (`_identity`, `_persist`), Document (`_resolve`, `_infer_hs`,
--               `_run_classic_pipeline`); Regulations, Storage, Review, Ingest and Reached prove.
-- Agentic       agentic/graph.py with the nodes of agentic/nodes.py and agentic/specialists.py: Chunks and
--               Merging (`_chunk_segments`, `_merge_extractions`); Turns, Chunks and Merged prove.
-- Worker        worker.py; Queue and Batch prove.
-- Hs            engine/hs_mapper.py, and Inference engine/hs_inference.py; Codes, Mapping, Inferred,
--               Search and Proposed prove.
-- Relations     engine/relationship_resolver.py: Identifiers (`normalize_identifier`), Walks (the
--               recursive queries), Resolver (stubs and edges); Celex, Reachability, SimpleWalks,
--               Completeness, Cycles, Keys and Mirrors prove.
-- Wizard        engine/wizard_matcher.py: Evaluation (`_evaluate`), Results (`query` and
--               `_evaluate_regulation`); Decisions, Ranking, Totality and
--               Reviews prove. An attribute that is too large for a float makes a query raise.
-- Reading       agents/read_agent.py and agents/segment_text.py; Solid, Lines and Kept prove.
-- Extracting    agents/extract_agent.py: Json and Parse (`_parse`), Budget (`_build_prompt`); InUnit, Parsed
--               and Survive prove.
-- Fetching      agents/fetch_agent.py; Refusals says what is accepted, and Skipped proves.
-- Eurlex        eurlex/fetch.py and the expression URI of eurlex/rdf.py: the text of a document, and in
--               Documents the requests (`get_document`, `fetch_document`); Search is eurlex/search.py;
--               Skips, Cached and Escaped prove.
-- Llm           llm_client.py; Audited proves.
-- Intake        adapters/, scripts/enqueue.py and `enqueue_celex` of ui/api/imports.py; Queued and
--               Interleaved (with the steps of Worker) prove.
-- Ui            ui/: Pagination, ReviewHelpers, Queue (`review_queue`), Decisions (`field_action`,
--               `condition_action`, `bulk_approve`), Corrections (`hs_action`, `edge_action`), Jobs
--               (`jobs`), Regulations (`list_regulations`, `get_regulation`) and HsReview (`hs_review`);
--               Pages, QueuePages, Decided, BulkApproved, Reasons, Unmirrored, Turned, Listed, Grouped
--               and HsListed prove.
-- Prelude       lists, texts, floats and sorting that the others share.
--
-- A text is the list of its code points, and the letters, digits and spaces of a pattern are the
-- ASCII ones. Floats are an interface, `Floats`, with the operations that the program calls; where a
-- theorem needs the laws of an order without NaN it takes `IsOrdered`, which the thousandths of the
-- tests satisfy. A transaction is a function from tables to tables; SQL statements are written out
-- as the changes they make. The recursive queries run for as many rounds as there are edges: a walk
-- that never enters a node of its own path again is no longer than that, and
-- Relations.Completeness shows that nothing reachable is missed.
--
-- A run of the agentic graph has fuel for seven turns of the planner: two extractions, each
-- validated, one enrichment, one persisting and the turn that ends it, which suffice.
--
-- A query without ORDER BY gives the rows in the order of their insertion. A JSON value is a data type;
-- a number carries what `float` and `int` make of it. Page parameters are integers; an age is in whole
-- seconds. Two requests never interleave within a transaction.
--
-- Not modelled: what a language model or a service returns (an argument of Pipeline, Agentic,
-- Extracting, Fetching, Eurlex, Hs and Llm), PDF and .docx files (what they hold is an argument of
-- Reading), the detail views of the web API and its upload and search, the relationships and dates of
-- EUR-Lex's graph, migrations, the other scripts and the frontend.
mod Prelude
pub mod Vocabulary
pub mod Store
pub mod Schemas
pub mod Hs
pub mod Wizard
pub mod Relations
pub mod Mapping
pub mod Validation
pub mod Pipeline
pub mod Agentic
pub mod Worker
pub mod Ui
pub mod Reading
pub mod Eurlex
pub mod Extracting
pub mod Fetching
pub mod Llm
pub mod Intake
