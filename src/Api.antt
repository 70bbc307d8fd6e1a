-- ===== src/Api.antt =====
-- api/v1alpha1: the two custom resources and their status conditions.
pub mod Instance
pub mod Pool
