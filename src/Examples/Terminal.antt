-- ===== src/Examples/Terminal.antt =====
-- The classification of a few processes.
use rato.Prelude.{ℕ, ◌/◌, ◌≡◌, refl, Option, none, some, List, [], ◌∷◌, map, codes, arith, length}
use rato.Prelude.Paths.{Text}
use rato.Store.Order.{order_by}
use rato.Terminal.{
  ProcEntry, TmuxPane, TerminalHit, TerminalRole, workbench, foreign, default_config, classify,
  find_emulator, executable_name, parse_tmux_pane_line, by_pid, find_up, at_entry, name_or_up,
  is_terminal_emulator, has,
}
use rato.Terminal.Parents.{Ranked}
use rato.Terminal.Hits.{Classified, classify-IsHit}

abbrev no_hash : List ℕ → List ℕ
no_hash bytes = bytes

abbrev process : ℕ → Option ℕ → Text → Option Text → ProcEntry
process pid ppid name tty = record { pid = pid; ppid = ppid; cmdline = name ∷ []; tty = tty }

abbrev small_processes : List ProcEntry
small_processes =
    process 30 (some 20) (codes "/usr/bin/claude") (some (codes "/dev/pts/2"))
    ∷ process 10 (some 5) (codes "codex") (some (codes "/dev/pts/1"))
    ∷ process 20 (some 1) (codes "/usr/bin/kitty") none
    ∷ process 5 none (codes "tmux") none
    ∷ []

abbrev small_panes : List TmuxPane
small_panes =
    record {
      tty = codes "/dev/pts/1";
      target = codes "rato:0.0";
      socket_name = some (codes "rato");
      current_command = none;
    }
    ∷ []

abbrev roles : Option (List TerminalHit) → List (ℕ × TerminalRole)
roles none = []
roles (some hits) = map (λ (h : TerminalHit). (h.pid, h.role)) hits

classifies :
    roles (classify no_hash no_hash default_config small_processes small_panes)
    ≡ (10, workbench) ∷ (30, foreign) ∷ []
unfolding classify executable_name has default_config find_emulator find_up at_entry by_pid
    name_or_up is_terminal_emulator order_by
classifies = refl

abbrev by_number : ℕ → ℕ
by_number n = n / 10

small-Ranked : Ranked by_number (length small_processes) small_processes
small-Ranked = (
  (omega arith, omega arith),
  ((omega arith, omega arith), ((omega arith, omega arith), ((tt, omega arith), tt))),
)

classify-IsHit_example :
    (hits : List TerminalHit) × (classify no_hash no_hash default_config small_processes small_panes
      ≡ some hits)
    × Classified no_hash no_hash default_config small_processes small_panes hits
classify-IsHit_example =
    classify-IsHit no_hash no_hash by_number default_config small_processes small_panes small-Ranked

reads_pane :
    parse_tmux_pane_line (codes "/dev/pts/1\trato:0.0\t/tmp/tmux-1000/rato\tclaude")
    ≡ some (record {
      tty = codes "/dev/pts/1";
      target = codes "rato:0.0";
      socket_name = some (codes "rato");
      current_command = some (codes "claude");
    })
unfolding parse_tmux_pane_line
reads_pane = refl
