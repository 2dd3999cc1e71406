-- ===== src/Workbench/Worktree/Guard.antt =====
-- The guard of a worktree's directory.
use rato.Prelude.{
  ◌≡◌, refl, sym, ap, ◌∙◌, ◌↔◌, Bool, true, false, Option, none, some, [], ◌∷◌, ◌++◌, arith,
  Bool-cases, Option-cases, inl, inr, if◌then◌else◌,
}
use rato.Prelude.Paths.{FilePath, path_eq, path_eq_sound, path_eq_refl}
use rato.Prelude.Result.{Result, ok, err, pure, fail}
use rato.Workbench.Git.{WorkbenchError, canonicalize, escaped}
use rato.Workbench.Host.{Host}
use rato.Workbench.Worktree.{is_under, escape_guard}

-- A path is the root or below it: paths are kept from the last component to the first.
pub record Below (root p : FilePath) : Type 0 where
  pub below : FilePath
  pub is_path : p ≡ below ++ root

is_under_sound : (p root : FilePath) → is_under p root ≡ true → Below root p
unfolding is_under
is_under_sound [] root h = record { below = []; is_path = path_eq_sound [] root h }
is_under_sound (c ∷ cs) root h = elim (Bool-cases (path_eq (c ∷ cs) root)) [
  | inl e ↦ record { below = []; is_path = path_eq_sound (c ∷ cs) root e }
  | inr e ↦
      (let b = is_under_sound cs root (ground (arith, h, e)) in
        record { below = c ∷ b.below; is_path = ap (λ q. c ∷ q) b.is_path })
]

is_under_self : (root : FilePath) → is_under root root ≡ true
unfolding is_under
is_under_self [] = path_eq_refl []
is_under_self (c ∷ cs) = rw (path_eq_refl (c ∷ cs)) refl

is_under_complete : (below root : FilePath) → is_under (below ++ root) root ≡ true
unfolding is_under
is_under_complete [] root = is_under_self root
is_under_complete (c ∷ cs) root = ground (arith, is_under_complete cs root)

verdict : Option FilePath → Option FilePath → Result WorkbenchError (Unit {0})
verdict none current = err canonicalize
verdict (some root) none = err canonicalize
verdict (some root) (some current) = if is_under current root then ok tt else err escaped

module _ (H : Host) (worktree_root cwd : FilePath) (d : H.Disk) where
  -- Both paths resolve, and the second lies under the first.
  pub record Inside : Type 0 where
    pub root : FilePath
    pub current : FilePath
    pub root_resolves : H.canonicalize worktree_root d ≡ some root
    pub cwd_resolves : H.canonicalize cwd d ≡ some current
    pub under : Below root current

  escape_guard-verdict :
      (escape_guard H worktree_root cwd d).0
      ≡ verdict (H.canonicalize worktree_root d) (H.canonicalize cwd d)
  unfolding escape_guard verdict
  escape_guard-verdict = elim (Option-cases (H.canonicalize worktree_root d)) [
    | inl e ↦ rw e refl
    | inr (root, e) ↦ elim (Option-cases (H.canonicalize cwd d)) [
      | inl f ↦ rw (e, f) refl
      | inr (current, f) ↦ rw (e, f) (either (is_under current root))
    ]
  ]
    where
      either :
          (b : Bool)
          → ((if b then pure tt else fail escaped) d).0 ≡ (if b then ok tt else err escaped)
      either true = refl
      either false = refl

  verdict-Inside :
      (r c : Option FilePath)
      → H.canonicalize worktree_root d ≡ r
      → H.canonicalize cwd d ≡ c
      → verdict r c ≡ ok tt
      → Inside
  unfolding verdict
  verdict-Inside none c e f h = ground (arith, h)
  verdict-Inside (some r) none e f h = ground (arith, h)
  verdict-Inside (some r) (some c) e f h = record {
    root = r;
    current = c;
    root_resolves = e;
    cwd_resolves = f;
    under = is_under_sound c r (ground (arith, h));
  }

  Inside-verdict : Inside → verdict (H.canonicalize worktree_root d) (H.canonicalize cwd d) ≡ ok tt
  unfolding verdict
  Inside-verdict i =
      rw (i.root_resolves, i.cwd_resolves, i.under.is_path, is_under_complete i.under.below i.root)
        refl

  -- The guard lets a directory pass exactly where it and the worktree's root resolve, and it resolves
  -- to the root's own path or one below it, by whole components.
  pub escape_guard-ok_iff : ((escape_guard H worktree_root cwd d).0 ≡ ok tt) ↔ Inside
  escape_guard-ok_iff = (
    (λ h. verdict-Inside _ _ refl refl (sym escape_guard-verdict ∙ h)),
    (λ i. escape_guard-verdict ∙ Inside-verdict i),
  )
