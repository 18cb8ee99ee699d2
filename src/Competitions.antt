-- ===== src/Competitions.antt =====
-- The module competitions (services/api/internal/modules/competitions): the scoring of matches and
-- races, the standings and rankings, the generation of fixtures and lanes, and the advance through a
-- bracket.
pub mod Scoring
pub mod Fairness
pub mod Peloton
pub mod Bracket
pub mod Seeding
pub mod Byes
pub mod Standings
pub mod Tables
pub mod Entries
pub mod League
pub mod Ranking
pub mod RoundRobin
pub mod Circle
pub mod Pairings
pub mod Schedule
pub mod Ranks
pub mod Placement
