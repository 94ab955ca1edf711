-- ===== src/Classifier.antt =====
-- The automatic column classifier, star-knowledge-catalog/catalog/engine/classifier.py.
pub mod Terms
pub mod Score
pub mod Signals
pub mod Arbitrate
pub mod Classify
pub mod Scan
