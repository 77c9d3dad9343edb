-- ===== src/Tests.antt =====
-- A small chain, and the theorems at it.
mod Small
mod Chain
mod Samples
mod States
mod Facts
mod Histories
mod Witnesses
mod Outcomes
