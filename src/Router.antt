-- ===== src/Router.antt =====
-- src/router/selector.rs, with the types of src/config.rs and src/error.rs that it uses.
pub mod Types
pub mod Selector
pub mod Sorting
pub mod Unique
pub mod Candidates
pub mod Choice
pub mod Rates
pub mod Cost
pub mod Complexity
pub mod Score
pub mod ScoreLaws
pub mod Discovery
