-- ===== src/Runs.antt =====
-- src/app/services/run_service.py with the repositories it writes through: the rows of one run, a
-- tick applied to them, the result of a node recorded, the loop of `_advance`, and `resume_run`.
-- Each function is one transaction or a part of one. `raise` leaves the rows as they were.
pub mod Store
pub mod Transitions
pub mod Advance
pub mod Invariants
pub mod Finished
pub mod Settled
pub mod Creation
pub mod Created
pub mod Fresh
