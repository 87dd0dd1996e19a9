-- ===== src/Api/Auth.antt =====
-- `AgentAuth` of market-simulator/internal/api/middleware.go, and the agent in the request's context of
-- market-simulator/internal/api/context.go.
use mathlib.Core.Sum.{inl-ne-inr, inr-injective}
use mathlib.Core.Option.{some-injective}
use agentic_sim_trading.Common.{
  ℕ, ◌≡◌, sym, ap, ◌∙◌, ◌↔◌, ◌⊎◌, inl, inr, true, false, not, Option, none, some, List, [], ◌==◌,
  if◌then◌else◌, Bool-cases, Option-cases,
}
use agentic_sim_trading.Common.Text.{Text, codes, text_eq, trim_space}
use agentic_sim_trading.Agents.{AgentRow, Crypto, CredentialError, validate_credentials}
use agentic_sim_trading.Api.{Handler, Response, reply, skip_agent_auth}

-- the headers X-Agent-ID and X-API-Key, empty if they are missing
pub record Headers : Type 0 where
  pub agent_id : Text
  pub api_key : Text

-- `AgentIDFromContext` after `ContextWithAgentID`: the id 0, `uuid.Nil`, counts as none.
unfoldable pub agent_id_from_context : ℕ → Option ℕ
agent_id_from_context id = if id == 0 then none else some id

module _ {F : Type 0} where
  -- the `switch` on the error of the credentials
  abbrev pub credential_response : CredentialError → Response F
  credential_response CredentialError.agent_not_found = reply 401 (codes "unknown agent")
  credential_response CredentialError.api_key_not_configured =
      reply 403 (codes "api key not configured")
  credential_response CredentialError.invalid_api_key = reply 401 (codes "invalid credentials")

  -- `AgentAuth`: the response that it writes, or the agent with whom the next handler is called. `parse` is
  -- `uuid.Parse`.
  unfoldable pub agent_auth :
      (parse : Text → Option ℕ) → Crypto → Handler → List AgentRow → Headers → Response F ⊎ Option ℕ
  unfolding skip_agent_auth trim_space validate_credentials agent_id_from_context
  agent_auth parse crypto h agents headers =
      let id_str = trim_space headers.agent_id in
      let key = trim_space headers.api_key in
      if skip_agent_auth h
      then inr (
          if text_eq id_str []
          then none
          else elim (parse id_str) [ none ↦ none | some id ↦ agent_id_from_context id ])
      else if not h.db
      then inl (reply 503 (codes "database required for agent authentication"))
      else elim (parse id_str) [
        | none ↦ inl (reply 401 (codes "X-Agent-ID and X-API-Key headers required"))
        | some id ↦
            if text_eq key []
            then inl (reply 401 (codes "X-Agent-ID and X-API-Key headers required"))
            else elim (validate_credentials crypto id key agents) [
              | some e ↦ inl (credential_response e)
              | none ↦ inr (agent_id_from_context id)
            ]
      ]

module _ {F : Type 0} where
  -- Unless authentication is skipped, a request goes on exactly with the agent whose id is in its header, whose key is
  -- valid; an id of 0 then counts as no agent.
  pub agent_auth_iff :
      (parse : Text → Option ℕ) (crypto : Crypto) (h : Handler) (agents : List AgentRow)
      (headers : Headers) (caller : Option ℕ)
      → skip_agent_auth h ≡ false
      → (agent_auth {F = F} parse crypto h agents headers ≡ inr caller) ↔ (
          (id : ℕ) × (h.db ≡ true)
          × (parse (trim_space headers.agent_id) ≡ some id)
          × (text_eq (trim_space headers.api_key) [] ≡ false)
          × (validate_credentials crypto id (trim_space headers.api_key) agents ≡ none)
          × (caller ≡ agent_id_from_context id))
  unfolding agent_auth
  agent_auth_iff parse crypto h agents headers caller checked =
      let id_str = trim_space headers.agent_id in
      let key = trim_space headers.api_key in
      elim (Bool-cases h.db) [
        | inr db ↦
            let at : agent_auth {F = F} parse crypto h agents headers
                ≡ inl (reply 503 (codes "database required for agent authentication")) =
              rw (agent_auth, checked, db) in
            (λ v. absurd (inl-ne-inr (sym at ∙ v)), λ x. let never = sym db ∙ x.1 in cc)
        | inl db ↦ elim (Option-cases (parse id_str)) [
          | inl p ↦
              let at : agent_auth {F = F} parse crypto h agents headers
                  ≡ inl (reply 401 (codes "X-Agent-ID and X-API-Key headers required")) =
                rw (agent_auth, checked, db, p) in
              (λ v. absurd (inl-ne-inr (sym at ∙ v)), λ x. let never = sym p ∙ x.2 in cc)
          | inr (id, p) ↦ elim (Bool-cases (text_eq key [])) [
            | inl k ↦
                let at : agent_auth {F = F} parse crypto h agents headers
                    ≡ inl (reply 401 (codes "X-Agent-ID and X-API-Key headers required")) =
                  rw (agent_auth, checked, db, p, k) in
                (λ v. absurd (inl-ne-inr (sym at ∙ v)), λ x. let never = sym k ∙ x.3 in cc)
            | inr k ↦ elim (Option-cases (validate_credentials crypto id key agents)) [
              | inr (e, c) ↦
                  let at : agent_auth {F = F} parse crypto h agents headers
                      ≡ inl (credential_response e) =
                    rw (agent_auth, checked, db, p, k, c) in
                  (
                    λ v. absurd (inl-ne-inr (sym at ∙ v)),
                    λ x.
                        let same : id ≡ x.0 = some-injective id x.0 (sym p ∙ x.2) in
                        let never : none ≡ some e =
                          sym x.4
                          ∙ ap (λ n. validate_credentials crypto n key agents) (sym same)
                          ∙ c in
                        cc,
                  )
              | inl c ↦
                  let at : agent_auth {F = F} parse crypto h agents headers
                      ≡ inr (agent_id_from_context id) =
                    rw (agent_auth, checked, db, p, k, c) in
                  (
                    λ v. (
                      id,
                      db,
                      p,
                      k,
                      c,
                      sym (inr-injective (agent_id_from_context id) caller (sym at ∙ v)),
                    ),
                    λ x.
                        let same : id ≡ x.0 = some-injective id x.0 (sym p ∙ x.2) in
                        at ∙ ap inr (ap agent_id_from_context same ∙ sym x.5),
                  )
            ]
          ]
        ]
      ]
