-- ===== src/Terminal/Hits.antt =====
-- The hits of a classification: which processes, in which order, and whose.
use rato.Prelude.{
  ℕ, ◌≡◌, refl, sym, ap, subst, Bool, true, false, Option, none, some, List, [], ◌∷◌, arith, length,
  filter, Bool-cases, inl, inr, ◌↔◌,
}
use rato.Prelude.Paths.{Text}
use rato.Store.Order.{order_by}
use rato.Store.Order.Sorted.{Ascending, Ascending-order_by, count-order_by}
use rato.Terminal.{
  ProcEntry, TmuxPane, TerminalHit, workbench, ClassifierConfig, executable_name, has, pane_at,
  find_emulator, on_socket, role_of, command_hash, hit_from, add_hit, collect, classify, lower_pid,
}
use rato.Terminal.Parents.{Ranked, some_inner, find_emulator-ends}

module _ (sha256 : List ℕ → List ℕ) (utf8 : Text → List ℕ) where
  -- The hit of a process: its pid, its terminal, its name among the agents' names, what is found above it,
  -- the pane on its terminal, and whose it is: Rato's own exactly in a pane of Rato's socket, unless its
  -- command line is listed.
  pub record IsHit (config : ClassifierConfig) (ps : List ProcEntry) (panes : List TmuxPane)
      (p : ProcEntry) (h : TerminalHit) : Type 0 where
    pub same_pid : h.pid ≡ p.pid
    pub same_tty : p.tty ≡ some h.tty
    pub same_name : executable_name p ≡ some h.adapter
    pub named : has h.adapter config.adapter_names ≡ true
    pub above : find_emulator ps p ≡ some h.emulator
    pub in_pane :
        h.tmux_target ≡ (elim (pane_at panes h.tty) [ none ↦ none | some pane ↦ some pane.target ])
    pub hashed : h.cmd_hash ≡ command_hash sha256 utf8 p.cmdline
    pub own : (h.role ≡ workbench) ↔ (
        (has h.cmd_hash config.ignored_hashes ≡ false)
        × (has h.cmd_hash config.operator_hashes ≡ false)
        × (on_socket config (pane_at panes h.tty) ≡ true))

  -- A hit for each process, in the same order.
  abbrev pub Hits :
      ClassifierConfig → List ProcEntry → List TmuxPane → List ProcEntry → List TerminalHit → Type 0
  Hits config ps panes [] [] = Unit {0}
  Hits config ps panes (p ∷ agents) (h ∷ hits) =
      IsHit config ps panes p h × Hits config ps panes agents hits
  Hits config ps panes _ _ = ⊥

  abbrev is_named : ClassifierConfig → Option Text → Option Text → Bool
  is_named config (some adapter) (some tty) = has adapter config.adapter_names
  is_named config _ _ = false

  -- A process with the name of an agent and a terminal.
  abbrev pub is_agent : ClassifierConfig → ProcEntry → Bool
  is_agent config p = is_named config (executable_name p) p.tty

  role_of-workbench :
      (config : ClassifierConfig) (hash : Text) (pane : Option TmuxPane)
      → (role_of config hash pane ≡ workbench) ↔ (
          (has hash config.ignored_hashes ≡ false)
          × (has hash config.operator_hashes ≡ false)
          × (on_socket config pane ≡ true))
  unfolding role_of
  role_of-workbench config hash pane = ground arith

  abbrev Collected :
      ClassifierConfig
      → List ProcEntry
      → List TmuxPane
      → List ProcEntry
      → Option (List TerminalHit)
      → Type 0
  Collected config ps panes agents o =
      (hits : List TerminalHit) × (o ≡ some hits) × Hits config ps panes agents hits

  abbrev in_front_if : Bool → ProcEntry → List ProcEntry → List ProcEntry
  in_front_if true p agents = p ∷ agents
  in_front_if false p agents = agents

  hit-Collected :
      (config : ClassifierConfig) (ps : List ProcEntry) (panes : List TmuxPane) (p : ProcEntry)
      (name tty : Option Text) (agents : List ProcEntry) (o : Option (List TerminalHit))
      (emulator : Option Text)
      → executable_name p ≡ name
      → p.tty ≡ tty
      → find_emulator ps p ≡ some emulator
      → Collected config ps panes agents o
      → Collected config ps panes
          (in_front_if (is_named config name tty) p agents)
          (add_hit sha256 utf8 config ps panes p name tty o)
  unfolding add_hit hit_from
  hit-Collected config ps panes p none tty agents o emulator f g e c = c
  hit-Collected config ps panes p (some adapter) none agents o emulator f g e c = c
  hit-Collected config ps panes p (some adapter) (some tty) agents none emulator f g e c =
      ground (arith, c.1)
  hit-Collected config ps panes p (some adapter) (some tty) agents (some found) emulator f g e
        (hits, s, k) =
      elim (Bool-cases (has adapter config.adapter_names)) [
        | inl named ↦
            let same : found ≡ hits = some_inner found hits s in
            rw (named, e)
              (
                hit_from sha256 utf8 config panes p adapter tty emulator ∷ found,
                refl,
                (
                  record {
                    same_pid = refl;
                    same_tty = g;
                    same_name = f;
                    named = named;
                    above = e;
                    in_pane = refl;
                    hashed = refl;
                    own =
                        role_of-workbench config (command_hash sha256 utf8 p.cmdline)
                          (pane_at panes tty);
                  },
                  subst (Hits config ps panes agents) (sym same) k,
                ),
              )
        | inr other ↦ rw other (hits, s, k)
      ]

  filter_cons :
      (q : ProcEntry → Bool) (x : ProcEntry) (xs : List ProcEntry)
      → filter q (x ∷ xs) ≡ in_front_if (q x) x (filter q xs)
  filter_cons q x xs = elim (Bool-cases (q x)) [ inl e ↦ rw e | inr e ↦ rw e ]

  collect-Collected :
      (rank : ℕ → ℕ) (config : ClassifierConfig) (ps : List ProcEntry) (panes : List TmuxPane)
      (rest : List ProcEntry)
      → Ranked rank (length ps) ps
      → Ranked rank (length ps) rest
      → Collected config ps panes
          (filter (is_agent config) rest)
          (collect sha256 utf8 config ps panes rest)
  unfolding collect
  collect-Collected rank config ps panes [] h k = ([], refl, tt)
  collect-Collected rank config ps panes (p ∷ rest) h k =
      let (emulator, e) = find_emulator-ends rank ps p h k.0.0 k.0.1 in
      subst (λ n. Collected config ps panes n (collect sha256 utf8 config ps panes (p ∷ rest)))
        (sym (filter_cons (is_agent config) p rest))
        (hit-Collected config ps panes p (executable_name p) p.tty _ _ emulator refl refl e
          (collect-Collected rank config ps panes rest h k.1))

  -- What a classification gives: the hits of the agents with a terminal, one for each, in the order of
  -- the pids. `found` are the same hits, as often each, in the order of the processes.
  pub record Classified (config : ClassifierConfig) (ps : List ProcEntry) (panes : List TmuxPane)
      (hits : List TerminalHit) : Type 0 where
    pub found : List TerminalHit
    pub each : Hits config ps panes (filter (is_agent config) ps) found
    pub same_hits : (q : TerminalHit → Bool) → length (filter q hits) ≡ length (filter q found)
    pub in_order : Ascending (λ (h : TerminalHit). h.pid) hits

  -- Where processes can be ranked so that each stands above its parent, with ranks up to their number,
  -- the classification ends. It finds each process with a terminal and an agent's name once and no other,
  -- with its own pid, terminal, name, emulator, pane and command line, in the order of the pids, and takes
  -- one as Rato's own exactly where its pane is on Rato's socket and its command line is listed neither as
  -- ignored nor as the operator's.
  pub classify-IsHit :
      (rank : ℕ → ℕ) (config : ClassifierConfig) (ps : List ProcEntry) (panes : List TmuxPane)
      → Ranked rank (length ps) ps
      → (hits : List TerminalHit) × (classify sha256 utf8 config ps panes ≡ some hits)
        × Classified config ps panes hits
  unfolding classify
  classify-IsHit rank config ps panes h =
      let (found, s, each) = collect-Collected rank config ps panes ps h h in
      (
        order_by lower_pid found,
        ap (λ o. elim o [ none ↦ none | some found ↦ some (order_by lower_pid found) ]) s,
        record {
          found = found;
          each = each;
          same_hits = λ q. count-order_by lower_pid q found;
          in_order = Ascending-order_by (λ (k : TerminalHit). k.pid) found;
        },
      )
