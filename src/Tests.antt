-- ===== src/Tests.antt =====
-- Runs of the model on concrete inputs, and the theorems at such inputs.
mod ClusterTests
mod StartTests
mod SystemTests
mod InitTests
mod UiTests
mod DeviceTests
mod ToolTests
mod CacheTests
mod AgentTests
mod NodeTests
mod InputTests
mod HypervisorTests
mod MouseTests
mod NexusTests
