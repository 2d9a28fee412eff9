-- ===== src/Examples.antt =====
-- The theorems at concrete machines, and runs of the model at fixed inputs.
mod Machines
mod Memory
mod Paging
mod Disk
mod Processor
mod Text
mod Printing
mod Storage
mod Files
mod Protocol
mod Volume
