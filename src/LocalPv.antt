-- ===== src/LocalPv.antt =====
-- local-pv-provisioner: the specification of volumes, the devices of a node, their volumes.
pub mod Deleter
pub mod Spec
pub mod Volume
pub mod Walk
pub mod Detector
pub mod Reconciler
