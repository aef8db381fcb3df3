-- ===== src/Combined.antt =====
-- internal/scanner/agent/combined.go: the combined scan of a network. Combined/Merge.antt merges
-- observations, Combined/Notices.antt collects notices, Combined/Pipeline.antt runs the passes.
pub mod Merge
pub mod MergeLaws
pub mod Hosts
pub mod Notices
pub mod Pipeline
pub mod Services
pub mod Fallback
