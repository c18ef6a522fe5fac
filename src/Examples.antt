-- ===== src/Examples.antt =====
-- The theorems at concrete inputs, and runs of the definitions.
mod Engine
mod Policies
mod Queue
mod Names
mod Codec
mod Risks
mod Access
