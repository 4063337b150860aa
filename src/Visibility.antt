-- ===== src/Visibility.antt =====
-- Who may see which event: the engine's rule (role_visibility.py) and the observer's independent one
-- (observer_projection.py with invariants/visibility_oracle.py); and what an observer is shown of a run
-- (observer_trust_index.py, observer_projection.py).
pub mod Engine
pub mod Observer
pub mod Guard
pub mod Witness
pub mod NoLeak
pub mod Projection
pub mod Trust
