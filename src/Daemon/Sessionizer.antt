-- ===== src/Daemon/Sessionizer.antt =====
-- crates/rat-daemon/src/sessionizer.rs. The map of open sessions is a list of pairs with one entry for
-- each project: `insert` takes an old entry out and adds the new one at the end. A `HashMap` gives its
-- entries in no fixed order; here it is the order of the list. Times are milliseconds since the epoch,
-- so `ts - last <= gap` is `ts <= last + gap`. Ids of new sessions are arguments.
pub mod Activity
pub mod Closing
use rato.Prelude.{
  ◌%◌, ◌^◌, ℕ, ◌+◌, ◌*◌, String, Bool, true, false, not, Option, none, some, List, [], ◌∷◌, ◌++◌,
  map, ◌==◌, if◌then◌else◌, ltb, leb, filter,
}

abbrev pub default_gap_ms : ℕ
default_gap_ms = 25 * 60 * 1000

pub record WorkSession : Type 0 where
  pub id : String
  pub project_id : String
  pub started : ℕ
  pub last_activity : ℕ
  pub ended : Option ℕ
  pub commands : ℕ

pub data SessionUpdate : Type 0 where
  opens : WorkSession → SessionUpdate
  touches : String → ℕ → ℕ → SessionUpdate
  closes : String → ℕ → SessionUpdate

pub record OpenSession : Type 0 where
  pub id : String
  pub last_activity : ℕ
  pub commands : ℕ

abbrev pub OpenMap : Type 0
OpenMap = List (String × OpenSession)

pub record Sessionizer : Type 0 where
  pub gap_ms : ℕ
  pub opened : OpenMap

unfoldable pub get : String → OpenMap → Option OpenSession
get p [] = none
get p ((q, s) ∷ m) = if q == p then some s else get p m

unfoldable pub remove : String → OpenMap → OpenMap
remove p [] = []
remove p ((q, s) ∷ m) = if q == p then remove p m else (q, s) ∷ remove p m

unfoldable pub insert : String → OpenSession → OpenMap → OpenMap
unfolding remove
insert p s m = remove p m ++ (p, s) ∷ []

-- A write through `get_mut`.
unfoldable pub set : String → OpenSession → OpenMap → OpenMap
set p s [] = []
set p s ((q, old) ∷ m) = (q, if q == p then s else old) ∷ set p s m

unfoldable pub new : ℕ → Sessionizer
new gap_ms = record { gap_ms = gap_ms; opened = [] }

unfoldable pub adopt : WorkSession → OpenSession
adopt ws = record { id = ws.id; last_activity = ws.last_activity; commands = ws.commands }

unfoldable pub preload : List WorkSession → Sessionizer → Sessionizer
unfolding insert adopt
preload [] z = z
preload (ws ∷ wss) z = preload wss (record z { opened = insert ws.project_id (adopt ws) z.opened })

-- `u32::from(is_command)`
abbrev pub one_if : Bool → ℕ
one_if true = 1
one_if false = 0

unfoldable pub touched : OpenSession → ℕ → Bool → OpenSession
touched s ts is_command = record s {
  last_activity = ts;
  commands = (s.commands + one_if is_command) % 2 ^ 32;
}

unfoldable pub fresh : String → String → ℕ → Bool → WorkSession
fresh id project ts is_command = record {
  id = id;
  project_id = project;
  started = ts;
  last_activity = ts;
  ended = none;
  commands = one_if is_command;
}

-- The arm that opens a session, behind the close of a stale one.
open_new :
    String → String → ℕ → Bool → List SessionUpdate → Sessionizer → Sessionizer × List SessionUpdate
unfolding insert fresh adopt
open_new id project ts is_command closed z =
    let ws = fresh id project ts is_command in
    (record z { opened = insert project (adopt ws) z.opened }, closed ++ opens ws ∷ [])

activity_at :
    String → String → ℕ → Bool → Sessionizer → Option OpenSession → Sessionizer × List SessionUpdate
unfolding open_new set touched
activity_at id project ts is_command z none = open_new id project ts is_command [] z
activity_at id project ts is_command z (some s) =
    if leb ts (s.last_activity + z.gap_ms)
    then (let s' = touched s ts is_command in
        (
          record z { opened = set project s' z.opened },
          touches s'.id s'.last_activity s'.commands ∷ [],
        ))
    else open_new id project ts is_command (closes s.id s.last_activity ∷ []) z

unfoldable pub on_activity :
    String → String → ℕ → Bool → Sessionizer → Sessionizer × List SessionUpdate
unfolding activity_at get
on_activity id project ts is_command z =
    activity_at id project ts is_command z (get project z.opened)

-- `now - last_activity > gap`
abbrev pub is_stale : ℕ → ℕ → String × OpenSession → Bool
is_stale gap now (p, s) = ltb (s.last_activity + gap) now

-- `if let Some(s) = self.open.remove(&project)`, in front of the rest of the loop.
close_one : Option OpenSession → OpenMap × List SessionUpdate → OpenMap × List SessionUpdate
close_one none rest = rest
close_one (some s) (m, us) = (m, closes s.id s.last_activity ∷ us)

-- The loop over the stale projects.
close_all : List String → OpenMap → OpenMap × List SessionUpdate
unfolding get remove close_one
close_all [] m = (m, [])
close_all (p ∷ ps) m = close_one (get p m) (close_all ps (remove p m))

unfoldable pub tick : ℕ → Sessionizer → Sessionizer × List SessionUpdate
unfolding close_all
tick now z =
    let stale = map (λ (e : String × OpenSession). e.0) (filter (is_stale z.gap_ms now) z.opened) in
    let (m, us) = close_all stale z.opened in (record z { opened = m }, us)
