-- ===== src/Lib.antt =====
-- RoBeats Calculator Engine: a model of the optimizer's exact core and of the state around it.
--
-- The program takes a chart, searches for the gear, minis and gems that score most on it, with and
-- without Force Greats, and keeps the best loadouts of every song on two boards. A run builds a queue
-- of solves (Queue), prepares each song's frontiers in worker processes that a recycling pool keeps
-- (Runtime), whose reducer enumerates fever sections with the fill crossing (Fill, Reducer) and saves the
-- surfaces that it finds to a bundle file (Surface). The search scores those surfaces (Score), and
-- its results are merged into the song's rows (Store). Each model is written from the named source,
-- function by function, under the source's names; a leading underscore is dropped, and a part of a
-- function that the model splits off is named for what it does.
--
--   Common     results and exceptions, lists, dicts, machine words and their bits, ceilings
--   Fill       gear_optimizer/frontier/fill_crossing.py: server_fill_crossing_run and the gates that
--              are derived from it, next to the note-by-note walk of
--              tests/parity/force_greats/fill_crossing_walk.py
--   GameData   the elements, stats and rules that scores read (gear_optimizer/gamedata.py, rules.py)
--   Score      gear_optimizer/score.py: factors, timing surfaces and Force Great surfaces
--   LoadoutStats  gear_optimizer/stats.py: stat rows, items by name and gems
--   Store      gear_optimizer/store/records.py and boards.py: records with their checks, the merge
--   Surface    gear_optimizer/frontier/producer_surfaces.py, fg_cache_patterns.py, and the row parts of
--              fg_cache_serde.py and fg_cache_store.py
--   Edge       gear_optimizer/frontier/producer_kernels.py: the masks and counts of a packed edge
--   Skyline    gear_optimizer/frontier/producer_kernels.py: packet skylines and pair tables
--   Region     gear_optimizer/frontier/producer_kernels.py: the fill crossing, the offsets of Great runs
--              that end on the activation, and the capacity for the region core's candidates
--   Ends       gear_optimizer/frontier/producer_kernels.py: the binary search, the clamped ends and the
--              edge of a region run
--   Successors  gear_optimizer/frontier/producer_kernels.py: the stamped arrays of live indices
--   Reach      gear_optimizer/frontier/producer_kernels.py: the notes at which a fever section can start
--   Cache      gear_optimizer/frontier/cache.py: MemoryLru
--   Timeline   gear_optimizer/solver/fever_timeline.py: the section loop, the grid and the fixed cell
--   Reducer    gear_optimizer/frontier/producer_reducer.py: scratch workspaces, admission, fill runs, and
--              the pair radix and workspace guard of producer_kernels.py
--   Queue      gear_optimizer/pipeline/queue.py: the charts of a run, the order of its solves, their seeds
--   Equivalence  gear_optimizer/data/loadout_equivalence.py: mini groups and their representatives
--   TeamBuff   gear_optimizer/core/team_buff.py: tiers, their normalization and their effect
--   Service    gear_optimizer/robeatsmeta_service.py and service_update.py: solve slots, requests, joined
--              solves, the worker, HTTP answers and the updater
--   Runtime    gear_optimizer/app_stop_control.py and gear_optimizer/core/recycling_process_pool.py
--
-- State is passed explicitly: a method that changes its object is a function from a record to a record,
-- with what it does outside (a printed line, an executor started or shut down) as a value beside it.
-- A call that may raise is a Result. Numbers are natural numbers; where the source subtracts, the difference is
-- guarded there as it is here, and casts and masks of machine words are written out. The closed forms of the
-- fill crossing are exact in the fraction that a fill denominator is. The note-by-note walk adds rounded floats of an
-- arithmetic that is an argument, and an exact bar beside it says which sections are off the knife-edge, where
-- rounding does not move the crossing. The float64 arithmetic of scores is a record of operations and of the laws
-- of IEEE arithmetic that the score relies on.
--
-- Loops are structural recursion but for six. The walk of Fill runs over the notes of the chart. The
-- others are on fuel: the search for a free seed on one step more than there are used seeds, since it
-- meets each once; the section loop of Timeline on one round per note, since every round moves on; the
-- searches of Successors on more than the limit of their indices, since they only go up; the
-- intervals of Reach on more rounds than there are notes, since every round moves on; and the binary
-- search of Ends on one step per index, since the range shrinks.
--
-- Code that is not part of the repository is an argument: np.unique, np.argmax, zlib.crc32, the executors of
-- concurrent.futures, Python's text functions, int and patterns, git, the clock, the file system and the free
-- memory. The threads of the service are events in the order in which they take its locks, so a history of
-- it is a list of events. Not modelled are the numba kernels that build frontiers over float32 hit times,
-- the Taichi kernels, SQLite, cache files, the replay traces, the catalog builds and processes of the
-- service, the user interface, the random seeds of a run without GA_SEED, and the gem search, whose results
-- the scores check.
pub mod Cache
pub mod Common
pub mod Edge
pub mod Ends
pub mod Equivalence
pub mod Fill
pub mod GameData
pub mod LoadoutStats
pub mod Queue
pub mod Reach
pub mod Reducer
pub mod Region
pub mod Runtime
pub mod Score
pub mod Service
pub mod Skyline
pub mod Store
pub mod Successors
pub mod Surface
pub mod TeamBuff
pub mod Timeline
