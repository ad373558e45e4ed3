-- ===== src/Analyzer.antt =====
-- The analyzer: analyzer/*.go.
pub mod CrashDelay
pub mod AppAnalyzer
pub mod Analyze
pub mod AppMetrics
