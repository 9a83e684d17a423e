-- ===== src/Examples.antt =====
-- The theorems at concrete inputs: Setup has the data, and the other modules have the runs.
mod Setup
mod Platform
mod Services
mod Requests
mod LanguageModels
mod Integrations
mod Tenants
mod Tools
mod Running
mod Demos
mod Foundations
