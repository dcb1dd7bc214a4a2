-- ===== src/Tests.antt =====
-- Runs of the model on files and events in the source's own tests, and the theorems at such inputs.
mod Sites
mod Helping
mod Files
mod Control
mod Bulk
mod Following
mod Words
mod Making
mod Units
mod Builders
mod Trees
