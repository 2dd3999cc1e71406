-- ===== src/Dotfile/Apply/Revert.antt =====
-- An edit and its revert.
use rato.Prelude.{ℕ, ◌≡◌, refl, sym, subst, Bool, Option, some, List, String, ap, ◌∙◌}
use rato.Prelude.Result.{Result, ok, err, pure, continue}
use rato.Prelude.Paths.{FilePath, Text}
use rato.Dotfile.Files.{Fs}
use rato.Dotfile.Validate.{ConfigKind, DotfileError, Parsers}
use rato.Dotfile.Apply.{DotfileSnapshot, or_default, atomic_write, apply_atomic, revert}
use rato.Dotfile.Apply.Atomic.{Written, atomic_write-Written, Applied, apply-Applied}

module _ (fs : Fs) where
  open fs use {Disk}

  -- The result of the revert of an edit from `before` to `after`.
  abbrev pub Reverted :
      FilePath
      → Option (List ℕ)
      → List ℕ
      → Disk
      → Result DotfileError DotfileSnapshot × Disk
      → Type 0
  Reverted path before after d (ok snapshot, d') =
      (fs.read path d' ≡ some (or_default before))
      × (snapshot.before ≡ after)
      × (snapshot.after ≡ or_default before)
  Reverted path before after d (err e, d') = fs.read path d' ≡ some after

  revert-Written :
      (pid : Text) (path : FilePath) (before : Option (List ℕ)) (after : List ℕ) (d : Disk)
      (w : Result DotfileError (Unit {0}) × Disk) (diff : Text)
      → fs.read path d ≡ some after
      → Written fs pid path (or_default before) d w
      → Reverted path before after d (
          continue w.0
            (λ _. pure (record {
              path = path;
              diff = diff;
              before = or_default (fs.read path d);
              after = or_default before;
            }))
            w.1)
  revert-Written pid path before after d (ok tt, d') diff held h = (h.1, ap or_default held, refl)
  revert-Written pid path before after d (err e, d') diff held h = h.1 ∙ held

  -- The edit and then the revert of its snapshot; nothing to revert after an edit that failed.
  abbrev pub undo :
      Text → Result DotfileError DotfileSnapshot × Disk → Result DotfileError DotfileSnapshot × Disk
  undo pid (ok snapshot, d) = revert fs pid snapshot d
  undo pid (err e, d) = (err e, d)

  abbrev pub Undone :
      FilePath
      → Option (List ℕ)
      → List ℕ
      → Result DotfileError DotfileSnapshot × Disk
      → Result DotfileError DotfileSnapshot × Disk
      → Type 0
  Undone path before after (ok snapshot, d) undone = Reverted path before after d undone
  Undone path before after (err e, d) undone = fs.read path undone.1 ≡ before

  undo-Applied :
      (P : Parsers) (exists : String → Bool) (pid : Text) (path : FilePath) (kind : ConfigKind)
      (after : List ℕ) (d : Disk) (a : Result DotfileError DotfileSnapshot × Disk)
      → Applied fs P exists path kind after d a
      → Undone path (fs.read path d) after a (undo pid a)
  unfolding revert
  undo-Applied P exists pid path kind after d (ok snapshot, d') h =
      subst (λ s. Reverted path (fs.read path d) after d' (revert fs pid s d')) (sym h.2)
        (revert-Written pid path (fs.read path d) after d' (atomic_write fs pid path _ d') _ h.1
          (atomic_write-Written fs pid path _ d'))
  undo-Applied P exists pid path kind after d (err e, d') h = h.1

  -- The revert of an edit's snapshot puts the old bytes back and gives the snapshot of the way there,
  -- or fails and leaves the new ones. Where there was no file, it leaves an empty one.
  pub revert-apply_atomic :
      (P : Parsers) (exists : String → Bool) (pid : Text) (path : FilePath) (kind : ConfigKind)
      (after : List ℕ) (d : Disk)
      → let applied = apply_atomic fs P exists pid path kind after d in
        Undone path (fs.read path d) after applied (undo pid applied)
  revert-apply_atomic P exists pid path kind after d =
      undo-Applied P exists pid path kind after d (apply_atomic fs P exists pid path kind after d)
        (apply-Applied fs P exists pid path kind after d)
