-- ===== src/Examples.antt =====
-- The theorems at concrete inputs, and tests of the definitions.
mod UpdateMessages
mod UpdateServers
mod Reports
mod Starts
mod RecordSets
mod Rolls
mod Hashes
mod KeyLabels
mod Automation
mod Configured
mod Cron
mod Ds
mod SignedZones
mod SortedZones
mod LoadedZones
mod Propagated
