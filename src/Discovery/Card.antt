-- ===== src/Discovery/Card.antt =====
-- The capability card of an agent (node/src/discovery.rs). The JSON schemas of a skill are left
-- out; nothing in the node reads them. `R` is the type of trust scores, an `f64`.
use agentme.Prelude.{ℕ, Option, List, Text}

pub record ProviderInfo : Type 0 where
  pub organization : Text
  pub url : Option Text

pub record Skill : Type 0 where
  pub id : Text
  pub name : Text
  pub description : Option Text

pub record AuthenticationInfo : Type 0 where
  pub schemes : List Text

pub data PricingModel : Type 0 where
  per_request per_token per_second custom : PricingModel

pub record PricingInfo : Type 0 where
  pub base_price : ℕ
  pub currency : Text
  pub model : PricingModel

pub record AgoraMeshExtension (R : Type 0) : Type 0 where
  pub did : Text
  pub trust_score : Option R
  pub stake : Option ℕ
  pub pricing : Option PricingInfo
  pub payment_methods : List Text

pub record CapabilityCard (R : Type 0) : Type 0 where
  pub name : Text
  pub description : Text
  pub url : Text
  pub provider : Option ProviderInfo
  pub skills : List Skill
  pub authentication : Option AuthenticationInfo
  pub agoramesh : Option (AgoraMeshExtension R)
