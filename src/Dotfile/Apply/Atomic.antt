-- ===== src/Dotfile/Apply/Atomic.antt =====
-- What a write does to the file system when it fails, at any step, and when it succeeds.
use rato.Prelude.{
  ℕ, ◌≤◌, ◌<◌, ◌≡◌, ◌≢◌, refl, ap, ◌∙◌, Bool, true, some, List, [], ◌∷◌, ◌++◌, String, codes, arith,
  length, length-append, ◌⊎◌, inl, inr, text_eq, text_eq_sound,
}
use rato.Prelude.Result.{Result, ok, err, map_err, Exec, pure, gets, ◌>>=◌, ◌>>◌, continue}
use rato.Prelude.Paths.{FilePath, Text, file_name, parent, is_normal}
use rato.Dotfile.Files.{Fs}
use rato.Dotfile.Validate.{ConfigKind, DotfileError, io, Parsers, validate}
use rato.Dotfile.Apply.{
  DotfileSnapshot, or_default, or_dotfile, or_here, tmp_path, atomic_write, apply_atomic, io_step,
  simple_diff,
}

abbrev head_length : FilePath → ℕ
head_length [] = 0
head_length (c ∷ cs) = length c

length-text_eq : (s t : Text) → text_eq s t ≡ true → length s ≡ length t
length-text_eq s t e = ap length (text_eq_sound s t e)

-- The names that are not normal are shorter than "dotfile".
length-file_name : (path : FilePath) → head_length path ≤ length (or_dotfile (file_name path))
unfolding file_name is_normal
length-file_name [] = omega arith
length-file_name (c ∷ cs) = ground (
  arith,
  length-text_eq c (codes "/"),
  length-text_eq c (codes "."),
  length-text_eq c (codes ".."),
)

length-tmp_path :
    (pid : Text) (path : FilePath) → head_length path < head_length (tmp_path pid path)
unfolding tmp_path
length-tmp_path pid path =
    rw (length-append (or_dotfile (file_name path)) (codes ".rato-tmp-" ++ pid))
      (omega (arith, length-file_name path))

-- The temporary file is another than the file.
tmp_path-other : (pid : Text) (path : FilePath) → path ≢ tmp_path pid path
tmp_path-other pid path e = omega (arith, length-tmp_path pid path, ap head_length e)

module _ (fs : Fs) where
  open fs use {Disk}

  -- Either step of `io_step call; k`.
  io_cases :
      {A : Type 0} (P : Result DotfileError A × Disk → Type 0)
      (call : Disk → Result String (Unit {0}) × Disk) (k : Exec Disk DotfileError A) (d : Disk)
      → ((e : String) → (call d).0 ≡ err e → P (err (io e), (call d).1))
      → ((call d).0 ≡ ok tt → P (k (call d).1))
      → P ((io_step fs call >> k) d)
  io_cases P call k d failed done = go (call d).0 refl
    where
      go :
          (r : Result String (Unit {0}))
          → (call d).0 ≡ r
          → P (continue (map_err io r) (λ _. k) (call d).1)
      go (ok tt) e = done e
      go (err m) e = failed m e

  -- The files other than the two are as they were; the file itself is too, or holds the bytes.
  abbrev pub Written :
      Text → FilePath → List ℕ → Disk → Result DotfileError (Unit {0}) × Disk → Type 0
  Written pid path bytes d (r, d') =
      ((q : FilePath) → q ≢ path → q ≢ tmp_path pid path → fs.read q d' ≡ fs.read q d)
      × (elim r [ ok u ↦ fs.read path d' ≡ some bytes | err e ↦ fs.read path d' ≡ fs.read path d ])

  -- Only the temporary file may have changed.
  abbrev Aside : Text → FilePath → Disk → Disk → Type 0
  Aside pid path d d' = (q : FilePath) → q ≢ tmp_path pid path → fs.read q d' ≡ fs.read q d

  Aside-Written :
      (pid : Text) (path : FilePath) (bytes : List ℕ) (d d' : Disk) (e : DotfileError)
      → Aside pid path d d'
      → Written pid path bytes d (err e, d')
  Aside-Written pid path bytes d d' e h = ((λ q _ n. h q n), h path (tmp_path-other pid path))

  -- The last step, behind a temporary file that holds the bytes.
  rename-Written :
      (pid : Text) (path : FilePath) (bytes : List ℕ) (d d' : Disk)
      → Aside pid path d d'
      → fs.read (tmp_path pid path) d' ≡ some bytes
      → Written pid path bytes d (io_step fs (fs.rename (tmp_path pid path) path) d')
  rename-Written pid path bytes d d' h held = go (fs.rename tmp path d').0 refl
    where
      tmp : FilePath
      tmp = tmp_path pid path

      go :
          (r : Result String (Unit {0}))
          → (fs.rename tmp path d').0 ≡ r
          → Written pid path bytes d (map_err io r, (fs.rename tmp path d').1)
      go (ok tt) e = (
        (λ q p n. fs.rename-other tmp path q d' n p ∙ h q n),
        fs.rename-moves tmp path d' e ∙ held,
      )
      go (err m) e =
          Aside-Written pid path bytes d _ (io m) (λ q n. fs.rename-fails tmp path q m d' e ∙ h q n)

  pub atomic_write-Written :
      (pid : Text) (path : FilePath) (bytes : List ℕ) (d : Disk)
      → Written pid path bytes d (atomic_write fs pid path bytes d)
  unfolding atomic_write
  atomic_write-Written pid path bytes d =
      let tmp : FilePath = tmp_path pid path in
      let dir : FilePath = or_here (parent path) in
      let d1 : Disk = (fs.create_dir_all dir d).1 in
      let d2 : Disk = (fs.create tmp d1).1 in
      let d3 : Disk = (fs.write_all tmp bytes d2).1 in
      let d4 : Disk = (fs.sync_all tmp d3).1 in
      let h1 : Aside pid path d d1 = λ q n. fs.read-create_dir_all dir q d in
      let h2 : Aside pid path d d2 = λ q n. fs.create-other tmp q d1 n ∙ h1 q n in
      let h3 : Aside pid path d d3 = λ q n. fs.write-other tmp q bytes d2 n ∙ h2 q n in
      let h4 : Aside pid path d d4 = λ q n. fs.read-sync_all tmp q d3 ∙ h3 q n in
      let P : Result DotfileError (Unit {0}) × Disk → Type 0 = Written pid path bytes d in
      io_cases P (fs.create_dir_all dir) _ d (λ e _. Aside-Written pid path bytes d d1 (io e) h1)
        λ _.
          io_cases P (fs.create tmp) _ d1 (λ e _. Aside-Written pid path bytes d d2 (io e) h2)
            λ created.
              io_cases P (fs.write_all tmp bytes) _ d2
                (λ e _. Aside-Written pid path bytes d d3 (io e) h3)
                λ wrote.
                  io_cases P (fs.sync_all tmp) _ d3
                    (λ e _. Aside-Written pid path bytes d d4 (io e) h4)
                    λ _. rename-Written pid path bytes d d4 h4 (
                      fs.read-sync_all tmp tmp d3
                      ∙ fs.write-appends tmp [] bytes d2 (fs.create-empty tmp d1 created) wrote)

  abbrev pub snapshot_of : FilePath → List ℕ → Disk → DotfileSnapshot
  snapshot_of path after d = record {
    path = path;
    diff = simple_diff (or_default (fs.read path d)) after;
    before = or_default (fs.read path d);
    after = after;
  }

  -- The result of an edit of the file.
  abbrev pub Applied :
      Parsers
      → (String → Bool)
      → FilePath
      → ConfigKind
      → List ℕ
      → Disk
      → Result DotfileError DotfileSnapshot × Disk
      → Type 0
  Applied P exists path kind after d (ok snapshot, d') =
      (validate P exists kind after ≡ ok tt)
      × (fs.read path d' ≡ some after)
      × (snapshot ≡ snapshot_of path after d)
  Applied P exists path kind after d (err e, d') =
      (((validate P exists kind after ≡ err e) × (d' ≡ d)) ⊎ (validate P exists kind after ≡ ok tt))
      × (fs.read path d' ≡ fs.read path d)

  -- The edit behind a validation that gave `r`.
  abbrev validated :
      Text
      → FilePath
      → List ℕ
      → Disk
      → Result DotfileError (Unit {0})
      → Result DotfileError DotfileSnapshot × Disk
  validated pid path after d r =
      continue r
        (λ _. gets (λ e. or_default (fs.read path e)) >>= λ before.
          (atomic_write fs pid path after
            >> pure (record {
              path = path;
              diff = simple_diff before after;
              before = before;
              after = after;
            })))
        d

  Written-Applied :
      (P : Parsers) (exists : String → Bool) (pid : Text) (path : FilePath) (kind : ConfigKind)
      (after : List ℕ) (d : Disk) (w : Result DotfileError (Unit {0}) × Disk)
      → validate P exists kind after ≡ ok tt
      → Written pid path after d w
      → Applied P exists path kind after d (continue w.0 (λ _. pure (snapshot_of path after d)) w.1)
  Written-Applied P exists pid path kind after d (ok tt, d') valid h = (valid, h.1, refl)
  Written-Applied P exists pid path kind after d (err e, d') valid h = (inr valid, h.1)

  validated-Applied :
      (P : Parsers) (exists : String → Bool) (pid : Text) (path : FilePath) (kind : ConfigKind)
      (after : List ℕ) (d : Disk) (r : Result DotfileError (Unit {0}))
      → validate P exists kind after ≡ r
      → Applied P exists path kind after d (validated pid path after d r)
  validated-Applied P exists pid path kind after d (err e) v = (inl (v, refl), refl)
  validated-Applied P exists pid path kind after d (ok tt) v =
      Written-Applied P exists pid path kind after d (atomic_write fs pid path after d) v
        (atomic_write-Written pid path after d)

  pub apply-Applied :
      (P : Parsers) (exists : String → Bool) (pid : Text) (path : FilePath) (kind : ConfigKind)
      (after : List ℕ) (d : Disk)
      → Applied P exists path kind after d (apply_atomic fs P exists pid path kind after d)
  unfolding apply_atomic
  apply-Applied P exists pid path kind after d =
      validated-Applied P exists pid path kind after d (validate P exists kind after) refl

  Written-other :
      (pid : Text) (path : FilePath) (after : List ℕ) (q : FilePath) (d : Disk)
      (s : DotfileSnapshot) (w : Result DotfileError (Unit {0}) × Disk)
      → q ≢ path
      → q ≢ tmp_path pid path
      → Written pid path after d w
      → fs.read q (continue w.0 (λ _. pure s) w.1).1 ≡ fs.read q d
  Written-other pid path after q d s (ok tt, d') n m h = h.0 q n m
  Written-other pid path after q d s (err e, d') n m h = h.0 q n m

  validated-other :
      (pid : Text) (path : FilePath) (after : List ℕ) (q : FilePath) (d : Disk)
      (r : Result DotfileError (Unit {0}))
      → q ≢ path
      → q ≢ tmp_path pid path
      → fs.read q (validated pid path after d r).1 ≡ fs.read q d
  validated-other pid path after q d (err e) n m = refl
  validated-other pid path after q d (ok tt) n m =
      Written-other pid path after q d _ (atomic_write fs pid path after d) n m
        (atomic_write-Written pid path after d)

  -- An edit that succeeds was validated, leaves the file with the new bytes and gives the snapshot of
  -- the old and the new bytes. An edit that fails, at whatever step, leaves the file as it was, and
  -- touches nothing when the new bytes are invalid. No other file changes but the temporary one.
  pub apply_atomic-Applied :
      (P : Parsers) (exists : String → Bool) (pid : Text) (path : FilePath) (kind : ConfigKind)
      (after : List ℕ) (q : FilePath) (d : Disk)
      → q ≢ path
      → q ≢ tmp_path pid path
      → Applied P exists path kind after d (apply_atomic fs P exists pid path kind after d)
        × (fs.read q (apply_atomic fs P exists pid path kind after d).1 ≡ fs.read q d)
  apply_atomic-Applied P exists pid path kind after q d n m = (
    apply-Applied P exists pid path kind after d,
    unfold apply_atomic in validated-other pid path after q d (validate P exists kind after) n m,
  )
