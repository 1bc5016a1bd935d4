-- ===== src/Admission.antt =====
-- The admission webhooks of admission/hooks.
pub mod Response
pub mod Deletion
pub mod Replicas
pub mod PodImages
pub mod PodStorage
pub mod PodCpu
pub mod HttpProxy
