-- ===== src/Portfolio.antt =====
-- The dependencies between the projects of a portfolio, internal/portfolio.
pub mod Deps
pub mod Samples
