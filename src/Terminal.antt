-- ===== src/Terminal.antt =====
-- crates/rat-terminal/src/lib.rs: which processes are agents in a terminal, and whose. Texts are code
-- points; a pid is a natural number; SHA-256 is a parameter from bytes to bytes, and `utf8` one from a
-- text to its bytes. A map collected from a list keeps the last value of a key. `none` as the answer
-- of the walk up the parents means that its fuel ran out.
pub mod Parents
pub mod Hits
use rato.Prelude.{
  ℕ, zero, suc, ◌+◌, ◌/◌, ◌%◌, String, Bool, true, false, not, ◌||◌, Option, none, some, List, [],
  ◌∷◌, ◌++◌, map, codes, text_eq, pieces, trim, filter, is_empty, if◌then◌else◌, eqb, leb, ltb,
  take, any, reverse, length,
}
use rato.Prelude.Paths.{Text, path_of, file_name}
use rato.Prelude.Utf8.{from_utf8_lossy}
use rato.Store.Order.{order_by}

pub record ProcEntry : Type 0 where
  pub pid : ℕ
  pub ppid : Option ℕ
  pub cmdline : List Text
  pub tty : Option Text

pub record TmuxPane : Type 0 where
  pub tty : Text
  pub target : Text
  pub socket_name : Option Text
  pub current_command : Option Text

pub data TerminalRole : Type 0 where
  workbench foreign operator ignored : TerminalRole

pub record TerminalHit : Type 0 where
  pub pid : ℕ
  pub tty : Text
  pub emulator : Option Text
  pub adapter : Text
  pub tmux_target : Option Text
  pub role : TerminalRole
  pub cmd_hash : Text

pub record ClassifierConfig : Type 0 where
  pub adapter_names : List Text
  pub ignored_hashes : List Text
  pub operator_hashes : List Text
  pub rato_tmux_socket : Text

unfoldable pub default_config : ClassifierConfig
default_config = record {
  adapter_names = codes "claude" ∷ codes "codex" ∷ codes "aider" ∷ codes "gemini" ∷ [];
  ignored_hashes = [];
  operator_hashes = [];
  rato_tmux_socket = codes "rato";
}

-- `rsplit('/').next()`: what stands behind the last slash.
unfoldable pub last_piece : Text → Text → Text
last_piece acc [] = reverse acc
last_piece acc (c ∷ s) = if eqb c 47 then last_piece [] s else last_piece (c ∷ acc) s

unfoldable pub executable_name : ProcEntry → Option Text
unfolding last_piece
executable_name p = elim p.cmdline [ [] ↦ none | argv0 ∷ args ↦ some (last_piece [] argv0) ]

unfoldable pub has : Text → List Text → Bool
unfolding text_eq
has t ts = any (λ x. text_eq x t) ts

unfoldable pub is_terminal_emulator : Text → Bool
unfolding has
is_terminal_emulator name = has name (
    codes "alacritty"
    ∷ codes "foot"
    ∷ codes "gnome-terminal-server"
    ∷ codes "konsole"
    ∷ codes "kitty"
    ∷ codes "wezterm-gui"
    ∷ codes "xterm"
    ∷ [])

-- The bytes of /proc/<pid>/cmdline; an empty one is no process.
unfoldable pub read_cmdline : List ℕ → Option (List Text)
unfolding pieces from_utf8_lossy
read_cmdline bytes =
    let args =
      map from_utf8_lossy (filter (λ part. not (is_empty part)) (pieces (λ b. eqb b 0) bytes)) in
    if is_empty args then none else some args

-- `fields.next().map(str::trim).filter(|s| !s.is_empty())`
abbrev field_after : List Text → Option Text × List Text
field_after [] = (none, [])
field_after (t ∷ ts) = (if is_empty (trim t) then none else some (trim t), ts)

abbrev socket_of : Option Text → Option Text
socket_of none = none
socket_of (some path) = file_name (path_of path)

pane_of : Text → Text → List Text → Option TmuxPane
unfolding path_of file_name trim
pane_of tty target rest =
    let (socket_path, rest') = field_after rest in
    let (current_command, rest'') = field_after rest' in
    if is_empty tty || is_empty target
    then none
    else some (record {
      tty = tty;
      target = target;
      socket_name = socket_of socket_path;
      current_command = current_command;
    })

-- One line of `tmux list-panes`, by its fields.
pane_of_fields : List Text → Option TmuxPane
unfolding pane_of
pane_of_fields (tty ∷ target ∷ rest) = pane_of (trim tty) (trim target) rest
pane_of_fields _ = none

unfoldable pub parse_tmux_pane_line : Text → Option TmuxPane
unfolding pane_of_fields pieces
parse_tmux_pane_line line = pane_of_fields (pieces (λ c. eqb c 9) line)

-- `HashMap::get` on what was collected: the last with the key.
abbrev pub later_or : {A : Type 0} → Option A → Bool → A → Option A
later_or (some y) b x = some y
later_or none b x = if b then some x else none

unfoldable pub last_with : {A : Type 0} → (A → Bool) → List A → Option A
last_with q [] = none
last_with q (x ∷ xs) = later_or (last_with q xs) (q x) x

unfoldable pub by_pid : List ProcEntry → ℕ → Option ProcEntry
by_pid ps pid = last_with (λ p. eqb p.pid pid) ps

unfoldable pub pane_at : List TmuxPane → Text → Option TmuxPane
unfolding text_eq last_with
pane_at panes tty = last_with (λ p. text_eq p.tty tty) panes

-- One entry, in front of the rest of the walk: an entry without a name is passed over.
unfoldable pub name_or_up :
    ProcEntry → Option Text → (Option ℕ → Option (Option Text)) → Option (Option Text)
name_or_up e none up = up e.ppid
name_or_up e (some name) up = if is_terminal_emulator name then some (some name) else up e.ppid

unfoldable pub at_entry :
    Option ProcEntry → (Option ℕ → Option (Option Text)) → Option (Option Text)
at_entry none up = some none
at_entry (some e) up = name_or_up e (executable_name e) up

-- The loop of `find_emulator`, from a parent on.
unfoldable pub find_up : ℕ → List ProcEntry → Option ℕ → Option (Option Text)
find_up zero ps parent = none
find_up (suc n) ps none = some none
find_up (suc n) ps (some pid) = at_entry (by_pid ps pid) (find_up n ps)

-- Each entry is met once where no process is above itself.
unfoldable pub find_emulator : List ProcEntry → ProcEntry → Option (Option Text)
find_emulator ps p = find_up (suc (suc (length ps))) ps p.ppid

abbrev hex_digit : ℕ → ℕ
hex_digit d = if ltb d 10 then 48 + d else 87 + d

-- `{byte:02x}`
abbrev hex : List ℕ → Text
hex [] = []
hex (b ∷ bs) = hex_digit (b / 16) ∷ hex_digit (b % 16) ∷ hex bs

abbrev pub on_socket : ClassifierConfig → Option TmuxPane → Bool
on_socket config none = false
on_socket config (some pane) = elim pane.socket_name [
  | none ↦ false
  | some socket ↦ text_eq socket config.rato_tmux_socket
]

unfoldable pub role_of : ClassifierConfig → Text → Option TmuxPane → TerminalRole
role_of config cmd_hash pane =
    if has cmd_hash config.ignored_hashes
    then ignored
    else if has cmd_hash config.operator_hashes
    then operator
    else if on_socket config pane
    then workbench
    else foreign

abbrev pub target_of : Option TmuxPane → Option Text
target_of none = none
target_of (some pane) = some pane.target

abbrev pub lower_pid : TerminalHit → TerminalHit → Bool
lower_pid h k = leb h.pid k.pid

module _ (sha256 : List ℕ → List ℕ) (utf8 : Text → List ℕ) where
  abbrev hashed : List Text → List ℕ
  hashed [] = []
  hashed (arg ∷ args) = utf8 arg ++ (0 ∷ hashed args)

  unfoldable pub command_hash : List Text → Text
  command_hash cmdline = hex (take 8 (sha256 (hashed cmdline)))

  hit_from : ClassifierConfig → List TmuxPane → ProcEntry → Text → Text → Option Text → TerminalHit
  unfolding role_of pane_at command_hash
  hit_from config panes p adapter tty emulator = record {
    pid = p.pid;
    tty = tty;
    emulator = emulator;
    adapter = adapter;
    tmux_target = target_of (pane_at panes tty);
    role = role_of config (command_hash p.cmdline) (pane_at panes tty);
    cmd_hash = command_hash p.cmdline;
  }

  -- The hit of one process by its adapter and its terminal, in front of the others; the three `continue`
  -- of the loop leave the others.
  add_hit :
      ClassifierConfig
      → List ProcEntry
      → List TmuxPane
      → ProcEntry
      → Option Text
      → Option Text
      → Option (List TerminalHit)
      → Option (List TerminalHit)
  unfolding hit_from
  add_hit config ps panes p (some adapter) (some tty) (some hits) =
      if has adapter config.adapter_names
      then (elim (find_emulator ps p) [
        | none ↦ none
        | some emulator ↦ some (hit_from config panes p adapter tty emulator ∷ hits)
      ])
      else some hits
  add_hit config ps panes p adapter tty hits = hits

  collect :
      ClassifierConfig → List ProcEntry → List TmuxPane → List ProcEntry → Option (List TerminalHit)
  unfolding add_hit
  collect config ps panes [] = some []
  collect config ps panes (p ∷ rest) =
      add_hit config ps panes p (executable_name p) p.tty (collect config ps panes rest)

  unfoldable pub classify :
      ClassifierConfig → List ProcEntry → List TmuxPane → Option (List TerminalHit)
  unfolding collect
  classify config ps panes = elim (collect config ps panes ps) [
    | none ↦ none
    | some hits ↦ some (order_by lower_pid hits)
  ]
