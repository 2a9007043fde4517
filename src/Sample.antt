-- ===== src/Sample.antt =====
-- Concrete data: a small in-memory database and codec that meet the laws of the parameters, and the
-- theorems at concrete inputs.
pub mod Table
pub mod Memory
pub mod Texts
pub mod Setting
mod DomainRuns
mod ServiceRuns
mod PostRuns
mod ByIdRuns
mod PublisherRuns
mod DrainRuns
mod PatchRuns
mod ConfigRuns
mod EventRuns
mod ToolRuns
mod StartRuns
mod ProcessRuns
mod RowRuns
mod TokenRuns
mod Live
