-- ===== src/Tests.antt =====
-- Runs of the modelled code on small inputs, and the theorems at such inputs.
mod Bound
mod Chunk
mod Grams
mod Flexible
mod Logs
mod Keys
mod Parsers
mod Phrases
