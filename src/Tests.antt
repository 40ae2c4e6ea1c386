-- ===== src/Tests.antt =====
-- Runs on concrete inputs, by the part of the program that they exercise.
mod Agent
mod Query
mod Access
mod Jobs
mod Gate
mod Chat
