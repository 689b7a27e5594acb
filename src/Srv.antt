-- ===== src/Srv.antt =====
-- src/srv.c: the targets of a service, their order, the reading of an answer of the name server, and
-- the choice among the targets by their weights.
pub mod Answer
pub mod Order
pub mod Choice
pub mod Sorting
use taningia.Base.{ℕ, ◌+◌, ◌-◌, Option, none, some, leb, ◌==◌, if◌then◌else◌}
use taningia.Base.CString.{Text}
use taningia.Base.Int.{ℤ, pos, negsuc}
use taningia.Object
use taningia.Object.{Object, srv_target_free}

-- `ta_srv_target_t`
pub record Target : Type 0 where
  pub parent : Object
  pub ttl : ℕ
  pub class : ℕ
  pub priority : ℕ
  pub weight : ℕ
  pub port : ℕ
  pub host : Text

-- `ta_srv_target_init`
unfoldable pub init : Target
init = record {
  parent = Object.init (some srv_target_free);
  ttl = 0;
  class = 0;
  priority = 0;
  weight = 0;
  port = 0;
  host = none;
}

-- `ta_srv_target_free`, on the target.
unfoldable pub free : Target → Target
free target = record target { host = none }

unfoldable pub get_port : Target → ℕ
get_port target = target.port

unfoldable pub get_weight : Target → ℕ
get_weight target = target.weight

unfoldable pub get_class : Target → ℕ
get_class target = target.class

unfoldable pub get_priority : Target → ℕ
get_priority target = target.priority

unfoldable pub get_ttl : Target → ℕ
get_ttl target = target.ttl

unfoldable pub get_host : Target → Text
get_host target = target.host

-- The difference of two numbers of 16 bits, as an `int`.
abbrev pub difference : ℕ → ℕ → ℤ
difference a b = if leb b a then pos (a - b) else negsuc (b - a - 1)

-- `cmp_targets`, on the data of the nodes.
unfoldable pub cmp_targets : Target → Target → ℤ
cmp_targets ta tb =
    if ta.priority == tb.priority
    then difference ta.weight tb.weight
    else difference ta.priority tb.priority
