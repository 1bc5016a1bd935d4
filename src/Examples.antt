-- ===== src/Examples.antt =====
-- Runs of the theorems on concrete inputs.
mod Hooks
mod Proxies
mod Collecting
mod Targets
mod Endpoints
mod Gateway
mod Provisioning
mod Devices
mod Exporting
mod Keeping
mod Clusters
