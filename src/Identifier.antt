-- ===== src/Identifier.antt =====
-- model/identifier.py: the identifier types of a `/check` request, and frozen sets of them.
pub mod Sets
pub mod RuleTypes
pub mod Canonical
use distributed_rate_limiter.Prelude.{
  ℕ, zero, suc, String, ◌≡◌, refl, sym, ap, ◌∙◌, ◌↔◌, true, List, [], ◌∷◌, Eq, nat_beq, nat_beq_iff,
}

pub data IdentifierType : Type 0 where
  client_id api_key ip_address user_id tenant_id session_id device_id organization_id :
      IdentifierType
  account_id region user_agent request_source subscription_tier webhook_id : IdentifierType
  ip_range endpoint : IdentifierType

unfoldable pub value : IdentifierType → String
value client_id = "client_id"
value api_key = "api_key"
value ip_address = "ip_address"
value user_id = "user_id"
value tenant_id = "tenant_id"
value session_id = "session_id"
value device_id = "device_id"
value organization_id = "organization_id"
value account_id = "account_id"
value region = "region"
value user_agent = "user_agent"
value request_source = "request_source"
value subscription_tier = "subscription_tier"
value webhook_id = "webhook_id"
value ip_range = "ip_range"
value endpoint = "endpoint"

-- The members in the order of their declaration, as iteration over the enum gives them.
abbrev pub members : List IdentifierType
members =
    client_id ∷ api_key ∷ ip_address ∷ user_id ∷ tenant_id ∷ session_id ∷ device_id
    ∷ organization_id ∷ account_id ∷ region ∷ user_agent ∷ request_source ∷ subscription_tier
    ∷ webhook_id ∷ ip_range ∷ endpoint ∷ []

abbrev pub rank : IdentifierType → ℕ
rank client_id = 0
rank api_key = 1
rank ip_address = 2
rank user_id = 3
rank tenant_id = 4
rank session_id = 5
rank device_id = 6
rank organization_id = 7
rank account_id = 8
rank region = 9
rank user_agent = 10
rank request_source = 11
rank subscription_tier = 12
rank webhook_id = 13
rank ip_range = 14
rank endpoint = 15

nth : List IdentifierType → ℕ → IdentifierType
nth [] n = endpoint
nth (t ∷ ts) zero = t
nth (t ∷ ts) (suc n) = nth ts n

nth-rank : (t : IdentifierType) → nth members (rank t) ≡ t
unfolding nth
nth-rank client_id = refl
nth-rank _ = refl

pub rank-eq_iff : (t u : IdentifierType) → (nat_beq (rank t) (rank u) ≡ true) ↔ (t ≡ u)
rank-eq_iff t u = (
  λ h. sym (nth-rank t) ∙ ap (nth members) ((nat_beq_iff (rank t) (rank u)).0 h) ∙ nth-rank u,
  λ e. (nat_beq_iff (rank t) (rank u)).1 (ap (λ s. rank s) e),
)

instance abbrev pub identifier_eq : Eq IdentifierType
identifier_eq = record { equals = λ t u. nat_beq (rank t) (rank u); equals_iff = rank-eq_iff }
