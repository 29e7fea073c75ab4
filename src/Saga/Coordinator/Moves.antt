-- ===== src/Saga/Coordinator/Moves.antt =====
-- The goroutines of saga/coordinator.go that share activeTx and the queue: callers of Submit and
-- workers, interleaved between their atomic steps.
use nsp_platform.Base.{String, Bool, true, false, List, [], ◌∷◌, str_eq, if◌then◌else◌}
use nsp_platform.Base.Lists.{any_row}
use nsp_platform.Saga.Runtime.{World}
use nsp_platform.Saga.Coordinator.Drive.{mark, unmark, enqueue}

-- The callers of Submit between the mark and the `select`, those that found the queue full and have
-- not taken the mark back yet, and the workers, each by its transaction.
pub record Threads : Type 0 where
  pub world : World
  pub marked : List String
  pub full : List String
  pub driven : List String

pub data Move : Type 0 where
  begins sends gives_up ends : String → Move
  takes : Move

abbrev pub leave : String → List String → List String
leave id [] = []
leave id (x ∷ xs) = let rest = leave id xs in elim (str_eq id x) [ true ↦ xs | false ↦ x ∷ rest ]

abbrev pub sent : String → Threads → Bool × World → Threads
sent id s (true, w) = record s { world = w; marked = leave id s.marked }
sent id s (false, w) = record s { world = w; marked = leave id s.marked; full = id ∷ s.full }

abbrev pub taken : Threads → List String → Threads
taken s [] = s
taken s (id ∷ rest) = record s {
  world = record s.world { task_queue = rest };
  driven = id ∷ s.driven;
}

-- A move of a goroutine; where none stands before that move, nothing happens.
unfoldable pub move : Move → Threads → Threads
move (begins id) s =
    if any_row (str_eq id) s.world.active_tx
    then s
    else record s { world = mark id s.world; marked = id ∷ s.marked }
move (sends id) s = if any_row (str_eq id) s.marked then sent id s (enqueue id s.world) else s
move (gives_up id) s =
    if any_row (str_eq id) s.full
    then record s { world = unmark id s.world; full = leave id s.full }
    else s
move takes s = taken s s.world.task_queue
move (ends id) s =
    if any_row (str_eq id) s.driven
    then record s { world = unmark id s.world; driven = leave id s.driven }
    else s

abbrev pub moves : List Move → Threads → Threads
moves [] s = s
moves (m ∷ ms) s = moves ms (move m s)

-- The state of a coordinator that has just been made.
abbrev pub started : World → Threads
started w = record {
  world = record w { active_tx = []; task_queue = [] };
  marked = [];
  full = [];
  driven = [];
}

-- A state in which no goroutine is between two steps.
abbrev pub idle : World → Threads
idle w = record { world = w; marked = []; full = []; driven = [] }
