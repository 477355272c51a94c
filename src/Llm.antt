-- ===== src/Llm.antt =====
-- llm_client.py: one call of the model, and its row in llm_audit_log. The provider's SDK, the clock and
-- whether the row can be written are arguments.
pub mod Audited
mod Examples
use compliance_wizard_engine.Prelude.{
  ℕ, Bool, true, false, Option, none, some, List, [], ◌∷◌, ◌++◌, Text, text, is_nil, opt_text_or,
  ◌==◌, nat_eq, if◌then◌else◌, or_else,
}

pub data Role : Type 0 where
  system user : Role

-- The arguments of `chat.completions.create`.
pub record Call : Type 0 where
  pub model : Text
  pub messages : List (Role × Text)
  pub max_tokens : ℕ
  pub json_object : Bool

-- What the SDK returns, `content` and `usage` being optional.
pub record Completion : Type 0 where
  pub content : Option Text
  pub usage : Option (ℕ × ℕ)

-- An Exception with the name of its class, or another BaseException, such as an interrupt.
pub data Failure : Type 0 where
  exception : (type_name : Text) → (message : Text) → Failure
  interrupt : Failure

pub data Result (A : Type 0) : Type 0 where
  ok : A → Result A
  failed : Failure → Result A

pub record Request : Type 0 where
  pub prompt : Text
  pub agent : Text
  pub job_id : Option ℕ
  pub model : Option Text
  pub system : Option Text
  pub max_tokens : Option ℕ
  pub json_mode : Bool

pub record LlmResponse : Type 0 where
  pub body : Text
  pub model : Text
  pub prompt_tokens : Option ℕ
  pub completion_tokens : Option ℕ
  pub latency_ms : ℕ

pub record AuditRow : Type 0 where
  pub job_id : Option ℕ
  pub agent : Text
  pub model : Text
  pub prompt : Text
  pub response : Text
  pub prompt_tokens : Option ℕ
  pub completion_tokens : Option ℕ
  pub latency_ms : ℕ

-- config.py, and the world outside.
pub record Setting : Type 0 where
  pub openai_model : Text
  pub openai_max_tokens : ℕ
  pub openai_api_key : Option Text
  pub create : Call → Result Completion
  pub latency : Request → ℕ
  pub can_write : AuditRow → Bool

-- FAILED_RESPONSE_PREFIX
abbrev pub failed_response_prefix : Text
failed_response_prefix = text "[LLM_CALL_FAILED]"

-- `if system:`
abbrev pub given : Option Text → Option Text
given none = none
given (some s) = if is_nil s then none else some s

unfoldable pub messages_of : Option Text → Text → List (Role × Text)
messages_of sys prompt = elim (given sys) [
  | none ↦ (user, prompt) ∷ []
  | some s ↦ (system, s) ∷ (user, prompt) ∷ []
]

-- `max_tokens or OPENAI_MAX_TOKENS`
abbrev pub tokens_or : Option ℕ → ℕ → ℕ
tokens_or none d = d
tokens_or (some n) d = if n == 0 then d else n

unfoldable pub call_of : Setting → Request → Call
unfolding messages_of
call_of cfg req = record {
  model = opt_text_or req.model cfg.openai_model;
  messages = messages_of req.system req.prompt;
  max_tokens = tokens_or req.max_tokens cfg.openai_max_tokens;
  json_object = req.json_mode;
}

-- `_get_client` and `_call_provider`: the client is not created without a key.
unfoldable pub call_provider : Setting → Call → Result (Text × Option ℕ × Option ℕ)
call_provider cfg call = elim (given cfg.openai_api_key) [
  | none ↦
      failed
        (exception (text "RuntimeError") (text "OPENAI_API_KEY is not set; cannot make LLM calls."))
  | some key ↦ elim (cfg.create call) [
    | failed f ↦ failed f
    | ok completion ↦ elim completion.usage [
      | none ↦ ok (or_else completion.content [], none, none)
      | some (p, c) ↦ ok (or_else completion.content [], some p, some c)
    ]
  ]
]

unfoldable pub logged_prompt : Request → Text
logged_prompt req = elim (given req.system) [
  | none ↦ req.prompt
  | some s ↦ text "[system]\n" ++ (s ++ (text "\n\n[user]\n" ++ req.prompt))
]

-- The text, the tokens and the recorded response of an outcome. An interrupt is recorded as an empty
-- answer: `except Exception` does not see it.
unfoldable pub recorded : Result (Text × Option ℕ × Option ℕ) → Text × Option ℕ × Option ℕ
recorded (ok answer) = answer
recorded (failed (exception name message)) =
    (failed_response_prefix ++ (text " " ++ (name ++ (text ": " ++ message))), none, none)
recorded (failed interrupt) = ([], none, none)

unfoldable pub audit_row : Setting → Request → Result (Text × Option ℕ × Option ℕ) → AuditRow
unfolding call_of logged_prompt recorded
audit_row cfg req outcome =
    let (response, prompt_tokens, completion_tokens) = recorded outcome in
    record {
      job_id = req.job_id;
      agent = req.agent;
      model = (call_of cfg req).model;
      prompt = logged_prompt req;
      response = response;
      prompt_tokens = prompt_tokens;
      completion_tokens = completion_tokens;
      latency_ms = cfg.latency req;
    }

unfoldable pub response_of :
    Setting → Request → Result (Text × Option ℕ × Option ℕ) → Result LlmResponse
unfolding call_of
response_of cfg req (failed f) = failed f
response_of cfg req (ok (body, prompt_tokens, completion_tokens)) = ok (record {
  body = body;
  model = (call_of cfg req).model;
  prompt_tokens = prompt_tokens;
  completion_tokens = completion_tokens;
  latency_ms = cfg.latency req;
})

-- `complete`: the audit log after it, and its result.
unfoldable pub complete : Setting → Request → List AuditRow → List AuditRow × Result LlmResponse
unfolding call_of call_provider audit_row response_of
complete cfg req log =
    let outcome = call_provider cfg (call_of cfg req) in
    let row = audit_row cfg req outcome in
    (if cfg.can_write row then log ++ row ∷ [] else log, response_of cfg req outcome)

-- The calls that a run makes, one after the other.
unfoldable pub complete_all :
    Setting → List Request → List AuditRow → List AuditRow × List (Result LlmResponse)
unfolding complete
complete_all cfg [] log = (log, [])
complete_all cfg (req ∷ reqs) log =
    let (after, result) = complete cfg req log in
    let (final, results) = complete_all cfg reqs after in (final, result ∷ results)
