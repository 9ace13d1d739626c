-- ===== src/Programs.antt =====
-- cmd/*/main.go and pkg/flags: the three programs, from their flags to the loops that they start.
pub mod Setup
pub mod Status
pub mod Controller
pub mod KubeletPlugin
