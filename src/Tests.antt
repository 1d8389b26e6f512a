-- ===== src/Tests.antt =====
-- The theorems at concrete inputs, and runs of the definitions.
mod OnIndexSet
mod OnChanges
mod OnDiff
mod OnSchema
mod OnLoops
mod OnSession
