-- ===== src/TaskQueue.antt =====
-- The package taskqueue: tasks, their replies, and the paging of listings (taskqueue/task.go,
-- taskqueue/inspector.go); its children model taskqueue/asynqbroker.
pub mod Envelope
pub mod Broker
pub mod Laws
pub mod Bounds
use nsp_platform.Base.{ℕ, zero, suc, ltb, String, Bool, Option, List, if◌then◌else◌}
use nsp_platform.Base.Int.{ℤ, pos, negsuc}

abbrev pub Metadata : Type 0
Metadata = List (String × String)

pub record ReplySpec : Type 0 where
  pub queue : String

-- A nil payload is none.
pub record Task : Type 0 where
  pub task_type : String
  pub payload : Option (List ℕ)
  pub queue : String
  pub reply : Option ReplySpec
  pub priority : ℤ
  pub metadata : Metadata

pub record TaskInfo : Type 0 where
  pub broker_task_id : String
  pub queue : String

pub record ListOptions : Type 0 where
  pub page : ℤ
  pub page_size : ℤ

abbrev pub default_list_options : ListOptions
default_list_options = record { page = pos 1; page_size = pos 30 }

-- `if v < 1 { v = default }`.
abbrev pub at_least_one : ℤ → ℕ → ℤ
at_least_one (pos zero) default = pos default
at_least_one (pos (suc n)) default = pos (suc n)
at_least_one (negsuc n) default = pos default

-- `if v > 100 { v = 100 }`.
abbrev pub at_most_hundred : ℤ → ℤ
at_most_hundred (pos n) = if ltb 100 n then pos 100 else pos n
at_most_hundred (negsuc n) = negsuc n

-- `Normalize`.
unfoldable pub normalize : ListOptions → ListOptions
normalize o = record {
  page = at_least_one o.page 1;
  page_size = at_most_hundred (at_least_one o.page_size 30);
}
