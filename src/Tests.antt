-- ===== src/Tests.antt =====
-- A concrete environment, and the theorems at concrete inputs.
mod Strokes
mod Coder
mod Sample
mod States
mod Stores
mod Pages
mod Texts
mod Backups
mod Waiters
mod Credentials
mod Undoing
mod Requests
mod Proofs
mod Access
mod Messages
mod Popup
mod Chosen
mod Onboarding
mod Answers
mod Created
