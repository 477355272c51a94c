-- ===== src/Llm/Audited.antt =====
-- What the audit log records of each call.
use mathlib.Core.List.{append_assoc, append-nil}
use compliance_wizard_engine.Prelude.{
  ℕ, ◌≡◌, refl, sym, ◌∙◌, true, Option, List, [], ◌∷◌, ◌++◌, Text, starts_with, text, inl, inr,
  Option-cases, arith, nat_beq_iff,
}
use compliance_wizard_engine.Llm.{
  exception, interrupt, Result, ok, failed, Request, LlmResponse, AuditRow, Setting,
  failed_response_prefix, Role, system, user, given, messages_of, call_of, call_provider,
  logged_prompt, recorded, audit_row, response_of, complete, complete_all,
}

-- What a row says of the call's result: the text that the caller gets, or a marked failure.
abbrev pub Reports : AuditRow → Result LlmResponse → Type 0
Reports row (ok r) =
    (row.response ≡ r.body)
    × (row.model ≡ r.model)
    × (row.prompt_tokens ≡ r.prompt_tokens)
    × (row.completion_tokens ≡ r.completion_tokens)
Reports row (failed (exception name message)) =
    starts_with row.response failed_response_prefix ≡ true
Reports row (failed interrupt) = row.response ≡ []

-- The messages of a call as one text: a lone message as it is, a system text under its heading in front
-- of the user's.
abbrev pub rendered : List (Role × Text) → Text
rendered ((user, p) ∷ []) = p
rendered ((system, s) ∷ (user, p) ∷ []) = text "[system]\n" ++ (s ++ (text "\n\n[user]\n" ++ p))
rendered _ = []

-- One row for each call, in order, with the messages that were sent.
abbrev pub AreRows : Setting → List AuditRow → List Request → List (Result LlmResponse) → Type 0
AreRows cfg [] [] [] = Unit
AreRows cfg (row ∷ rows) (req ∷ reqs) (r ∷ rs) =
    (row.prompt ≡ rendered (call_of cfg req).messages)
    × (row.agent ≡ req.agent)
    × (row.job_id ≡ req.job_id)
    × Reports row r
    × AreRows cfg rows reqs rs
AreRows _ _ _ _ = ⊥

starts_with-append : (p s : Text) → starts_with (p ++ s) p ≡ true
unfolding starts_with
starts_with-append [] [] = refl
starts_with-append [] (c ∷ s) = refl
starts_with-append (c ∷ p) s = ground (arith, starts_with-append p s, nat_beq_iff c c)

Reports-row :
    (cfg : Setting) (req : Request) (outcome : Result (Text × Option ℕ × Option ℕ))
    → Reports (audit_row cfg req outcome) (response_of cfg req outcome)
unfolding audit_row response_of recorded
Reports-row cfg req (ok answer) = (refl, refl, refl, refl)
Reports-row cfg req (failed (exception name message)) = starts_with-append failed_response_prefix _
Reports-row cfg req (failed interrupt) = refl

logged_prompt-rendered :
    (cfg : Setting) (req : Request) → logged_prompt req ≡ rendered (call_of cfg req).messages
unfolding logged_prompt call_of messages_of
logged_prompt-rendered cfg req = elim (Option-cases (given req.system)) [
  | inl e ↦ rw (e, logged_prompt) (rw (e, messages_of) refl)
  | inr (s, e) ↦ rw (e, logged_prompt) (rw (e, messages_of) refl)
]

audit_row-of :
    (cfg : Setting) (req : Request) (outcome : Result (Text × Option ℕ × Option ℕ))
    → let row = audit_row cfg req outcome in
      (row.prompt ≡ rendered (call_of cfg req).messages)
      × (row.agent ≡ req.agent)
      × (row.job_id ≡ req.job_id)
unfolding audit_row
audit_row-of cfg req outcome = (logged_prompt-rendered cfg req, refl, refl)

-- Where the audit log can be written, every call leaves exactly one row, in the order of the calls and
-- behind the rows of before: with the messages that were sent, its agent and its job, and the answer that
-- the caller gets, or, for a call that raises an Exception, the mark of a failure.
pub complete_all_audits :
    (cfg : Setting) (reqs : List Request) (log : List AuditRow)
    → ((row : AuditRow) → cfg.can_write row ≡ true)
    → let (after, results) = complete_all cfg reqs log in
      (new : List AuditRow) × (after ≡ log ++ new) × AreRows cfg new reqs results
unfolding complete_all complete
complete_all_audits cfg [] log h = ([], sym (append-nil log), tt)
complete_all_audits cfg (req ∷ reqs) log h =
    let outcome = call_provider cfg (call_of cfg req) in
    let row = audit_row cfg req outcome in
    let (new, all, rest) = complete_all_audits cfg reqs (log ++ row ∷ []) h in
    let this = audit_row-of cfg req outcome in
    rw (h row) (
      row ∷ new,
      all ∙ append_assoc log (row ∷ []) new,
      (this.0, this.1, this.2, Reports-row cfg req outcome, rest),
    )
