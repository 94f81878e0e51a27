-- ===== src/Taxonomy.antt =====
-- The GAAP taxonomy and the view of the linkbases of a document
-- (domain/services/gaap_taxonomy.py).
pub mod Concepts
pub mod View
pub mod Trees
mod Tests
