-- ===== src/Examples.antt =====
-- Runs of the modelled code on concrete inputs, and the theorems applied to them.
mod Fixtures
mod Policy
mod ErrorMapping
mod Startup
mod QueryExtended
mod TrinoStream
mod Catalog
mod Intercept
mod QueryPipeline
mod Types
mod Rewrite
mod Cells
mod Main
mod Handler
