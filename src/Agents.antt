-- ===== src/Agents.antt =====
-- market-simulator/internal/agents/apikey.go: the keys of the agents, in the table `agents`.
use mathlib.Core.Option.{some-injective}
use agentic_sim_trading.Common.{
  ℕ, ◌≡◌, refl, sym, ap, ◌∙◌, ◌≢◌, ◌↔◌, ◌⊎◌, inl, inr, Bool, true, false, ◌||◌, Option, none, some,
  List, [], arith, ◌==◌, if◌then◌else◌, Option-cases, find?, update, any,
}
use agentic_sim_trading.Common.Tables.{none_matching, find?-update, find?-update_ne}
use agentic_sim_trading.Common.Tables.{find?-update, find?-update_ne}
use agentic_sim_trading.Common.Text.{Text, text_eq}

-- The columns that the program reads. `api_key_hash` may be NULL.
pub record AgentRow : Type 0 where
  pub id : ℕ
  pub name : Text
  pub model : Text
  pub api_key_hash : Option Text

-- `ErrAgentNotFound`, `ErrAPIKeyNotConfigured` and the error of another key
pub data CredentialError : Type 0 where
  agent_not_found api_key_not_configured invalid_api_key : CredentialError

-- package bcrypt and the source of random bytes
pub record Crypto : Type 0 where
  -- the bytes that `rand.Read` gives, or its error, in hexadecimal digits
  pub random_hex : Option Text
  -- `GenerateFromPassword`
  pub generate : Text → Option Text
  -- `CompareHashAndPassword`: hash and text
  pub matches : Text → Text → Bool

abbrev pub with_agent_id : ℕ → AgentRow → Bool
with_agent_id agent_id a = a.id == agent_id

abbrev pub with_hash : Text → AgentRow → AgentRow
with_hash hash a = record a { api_key_hash = some hash }

-- COALESCE(api_key_hash, '')
abbrev pub hash_text : Option Text → Text
hash_text none = []
hash_text (some hash) = hash

unfoldable pub generate_api_key : Crypto → Option Text
generate_api_key crypto = crypto.random_hex

unfoldable pub hash_api_key : Crypto → Text → Option Text
hash_api_key crypto = crypto.generate

unfoldable pub check_api_key : Crypto → (hash plaintext : Text) → Bool
check_api_key crypto hash plaintext =
    if text_eq hash [] || text_eq plaintext [] then false else crypto.matches hash plaintext

unfoldable pub fetch_api_key_hash : ℕ → List AgentRow → CredentialError ⊎ Text
fetch_api_key_hash agent_id agents = elim (find? (with_agent_id agent_id) agents) [
  | none ↦ inl CredentialError.agent_not_found
  | some a ↦ inr (hash_text a.api_key_hash)
]

-- `none` is a nil error.
unfoldable pub validate_credentials :
    Crypto → (agent_id : ℕ) → (api_key : Text) → List AgentRow → Option CredentialError
unfolding fetch_api_key_hash check_api_key
validate_credentials crypto agent_id api_key agents = elim (fetch_api_key_hash agent_id agents) [
  | inl e ↦ some e
  | inr hash ↦
      if text_eq hash []
      then some CredentialError.api_key_not_configured
      else if check_api_key crypto hash api_key
      then none
      else some CredentialError.invalid_api_key
]

unfoldable pub set_api_key_hash :
    (agent_id : ℕ) → Text → List AgentRow → Option CredentialError × List AgentRow
set_api_key_hash agent_id hash agents = (
  if any (with_agent_id agent_id) agents then none else some CredentialError.agent_not_found,
  update (with_agent_id agent_id) (with_hash hash) agents,
)

-- the hash is that of the row that is found
credentials_of :
    (crypto : Crypto) (agent_id : ℕ) (api_key : Text) (agents : List AgentRow) (a : AgentRow)
    → find? (with_agent_id agent_id) agents ≡ some a
    → validate_credentials crypto agent_id api_key agents ≡ (
        if text_eq (hash_text a.api_key_hash) []
        then some CredentialError.api_key_not_configured
        else if check_api_key crypto (hash_text a.api_key_hash) api_key
        then none
        else some CredentialError.invalid_api_key)
unfolding validate_credentials
credentials_of crypto agent_id api_key agents a e = rw (validate_credentials, fetch_api_key_hash, e)

pub validate_credentials-congr :
    (crypto : Crypto) (agent_id : ℕ) (api_key : Text) (agents agents' : List AgentRow)
    → find? (with_agent_id agent_id) agents ≡ find? (with_agent_id agent_id) agents'
    → validate_credentials crypto agent_id api_key agents
      ≡ validate_credentials crypto agent_id api_key agents'
unfolding validate_credentials
validate_credentials-congr crypto agent_id api_key agents agents' e =
    rw (validate_credentials, fetch_api_key_hash, e)

-- Credentials are valid exactly if the agent has a hash and the key, which is not empty, matches it.
pub validate_credentials_iff :
    (crypto : Crypto) (agent_id : ℕ) (api_key : Text) (agents : List AgentRow)
    → (validate_credentials crypto agent_id api_key agents ≡ none) ↔ (
        (a : AgentRow) × (find? (with_agent_id agent_id) agents ≡ some a)
        × (text_eq (hash_text a.api_key_hash) [] ≡ false)
        × (text_eq api_key [] ≡ false)
        × (crypto.matches (hash_text a.api_key_hash) api_key ≡ true))
unfolding validate_credentials check_api_key
validate_credentials_iff crypto agent_id api_key agents =
    elim (Option-cases (find? (with_agent_id agent_id) agents)) [
      | inl e ↦
          let at : validate_credentials crypto agent_id api_key agents
              ≡ some CredentialError.agent_not_found =
            rw (validate_credentials, fetch_api_key_hash, e) in
          (
            λ v. let never : some CredentialError.agent_not_found ≡ none = sym at ∙ v in cc,
            λ found. let never : none ≡ some found.0 = sym e ∙ found.1 in cc,
          )
      | inr (a, e) ↦
          let hash = hash_text a.api_key_hash in
          let at = credentials_of crypto agent_id api_key agents a e in
          (
            λ v. let w = sym at ∙ v in (a, e, ground arith, ground arith, ground arith),
            λ found.
                let same : some a ≡ some found.0 = sym e ∙ found.1 in
                let hashes : hash ≡ hash_text (found.0).api_key_hash =
                  ap hash_text
                    (ap (λ (x : AgentRow). x.api_key_hash) (some-injective a found.0 same)) in
                at
                ∙ ground (
                  arith,
                  ap (λ t. text_eq t []) hashes,
                  ap (λ t. crypto.matches t api_key) hashes,
                ),
          )
    ]

-- What is relied on: a hash is not empty and matches the text it was made from, and a random key is not empty.
pub record IsCrypto (crypto : Crypto) : Type 0 where
  pub generate_matches :
      (plaintext hash : Text)
      → crypto.generate plaintext ≡ some hash
      → crypto.matches hash plaintext ≡ true
  pub generate_some :
      (plaintext hash : Text) → crypto.generate plaintext ≡ some hash → text_eq hash [] ≡ false
  pub random_some : (key : Text) → crypto.random_hex ≡ some key → text_eq key [] ≡ false

-- Storing the hash of a key that is not empty for an agent who exists makes the key valid for the agent, and leaves the
-- validity of every key of every other agent as it was.
pub set_api_key_hash_lem :
    (crypto : Crypto) (laws : IsCrypto crypto) (agent_id : ℕ) (key hash : Text)
    (agents : List AgentRow)
    → hash_api_key crypto key ≡ some hash
    → text_eq key [] ≡ false
    → (set_api_key_hash agent_id hash agents).0 ≡ none
    → (validate_credentials crypto agent_id key (set_api_key_hash agent_id hash agents).1 ≡ none)
      × ((other : ℕ) (any_key : Text)
          → other ≢ agent_id
          → validate_credentials crypto other any_key (set_api_key_hash agent_id hash agents).1
            ≡ validate_credentials crypto other any_key agents)
unfolding set_api_key_hash validate_credentials hash_api_key
set_api_key_hash_lem crypto laws agent_id key hash agents hashed key_there set =
    elim (Option-cases (find? (with_agent_id agent_id) agents)) [
      | inl e ↦
          let missing = none_matching (with_agent_id agent_id) agents e in
          let never : some CredentialError.agent_not_found ≡ none = rw missing at set in cc
      | inr (a, e) ↦ (
        (validate_credentials_iff crypto agent_id key (set_api_key_hash agent_id hash agents).1).1 (
          with_hash hash a,
          find?-update (with_agent_id agent_id) (with_hash hash) (λ x. refl) agents e,
          laws.generate_some key hash hashed,
          key_there,
          laws.generate_matches key hash hashed,
        ),
        λ other any_key ne.
            let same =
              find?-update_ne (with_agent_id agent_id) (with_agent_id other) (with_hash hash)
                (λ x h. ground arith) (λ x. refl) agents in
            rw (validate_credentials, fetch_api_key_hash, same),
      )
    ]
