-- ===== src/Ballot.antt =====
-- The module ballot (services/api/internal/modules/ballot): the draw of the winners.
pub mod Draw
pub mod Results
pub mod Recording
pub mod Application
pub mod Entries
