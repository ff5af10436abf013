-- ===== src/Routing.antt =====
-- Routing: the rules and profiles of src/database/entities.
pub mod Attribute
pub mod RuleType
pub mod Rule
pub mod Profiles
pub mod RuleJson
pub mod Profile
pub mod SimpleRules
pub mod Generate
pub mod Share
pub mod RemoteLink
pub mod Import
pub mod Raw
mod Examples
mod SimpleRuleExamples
mod GenerateExamples
mod SharingExamples
