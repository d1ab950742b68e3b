-- ===== src/Tests.antt =====
-- Runs of the models at concrete inputs, and the theorems at inputs that meet their hypotheses.
mod SwapRuns
mod EnvRuns
mod ProfileRuns
mod GgufRuns
mod ClusterRuns
mod ProxyRuns
mod DropinRuns
mod MountRuns
mod BuildRuns
mod TransportRuns
mod ConfigRuns
mod SystemdRuns
mod NetbootRuns
