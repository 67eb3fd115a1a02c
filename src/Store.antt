-- ===== src/Store.antt =====
-- gear_optimizer/store: the leaderboard records and the merge of new results into a song's boards.
--
-- Texts are strings, scores and counts natural numbers, and the encoded replay witnesses, which a
-- merge carries byte for byte, lists of bytes. JSON, zlib and SQLite are not modelled.
pub mod Records
pub mod Boards
pub mod Valid
pub mod Best
mod Tests
