-- ===== src/Llm/Examples.antt =====
-- Two calls, one of which fails, and the theorem of Llm at work on them.
use compliance_wizard_engine.Prelude.{
  ◌≡◌, refl, false, true, if◌then◌else◌, none, some, List, [], ◌∷◌, ◌++◌, map, text,
}
use compliance_wizard_engine.Llm.{
  Call, Completion, exception, Result, ok, failed, Request, AuditRow, Setting, messages_of, call_of,
  call_provider, logged_prompt, recorded, audit_row, response_of, complete, complete_all,
}
use compliance_wizard_engine.Llm.Audited.{AreRows, complete_all_audits}

-- The provider refuses a call for JSON.
abbrev create : Call → Result Completion
create call =
    if call.json_object
    then failed (exception (text "RateLimitError") (text "429"))
    else ok (record { content = some (text "[]"); usage = some (12, 3) })

abbrev setting : Setting
setting = record {
  openai_model = text "gpt";
  openai_max_tokens = 4096;
  openai_api_key = some (text "key");
  create = create;
  latency = λ req. 7;
  can_write = λ row. true;
}

abbrev request : Request
request = record {
  prompt = text "Read this.";
  agent = text "extract";
  job_id = some 1;
  model = none;
  system = none;
  max_tokens = none;
  json_mode = false;
}

abbrev requests : List Request
requests = request ∷ record request { json_mode = true } ∷ []

responses_of_calls :
    map (λ row. row.response) (complete_all setting requests []).0
    ≡ text "[]" ∷ text "[LLM_CALL_FAILED] RateLimitError: 429" ∷ []
unfolding complete_all complete call_of call_provider messages_of audit_row logged_prompt recorded
    response_of
responses_of_calls = refl

complete_all_audits_example :
    let (after, results) = complete_all setting requests [] in
    (new : List AuditRow) × (after ≡ [] ++ new) × AreRows setting new requests results
complete_all_audits_example = complete_all_audits setting requests [] (λ row. refl)
