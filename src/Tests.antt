-- ===== src/Tests.antt =====
-- Runs of the modelled code at concrete inputs, and the theorems at inputs that meet their
-- hypotheses.
mod Numbers
mod Names
mod Parsing
mod Trees
mod Entries
mod Sets
