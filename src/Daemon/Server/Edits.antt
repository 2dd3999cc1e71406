-- ===== src/Daemon/Server/Edits.antt =====
-- crates/rat-daemon/src/server.rs: `apply_dotfile_edit` and `revert_dotfile_edit`, and the arms of the
-- edits of dotfiles. Both write the file first and the rows of the store afterwards.

use rato.Prelude.{
  ℕ, String, true, Option, none, some, [], ◌∷◌, ◌++◌, ◌==◌, ◌||◌, map, min, codes, if◌then◌else◌,
}
use rato.Prelude.Paths.{Text, path_of, path_text}
use rato.Prelude.Result.{Result, ok, err, map_err, pure, fail, lift, ◌>>=◌, ◌>>◌}
use rato.Store.Approvals.{StoreError}
use rato.Store.DotfileEdits.{DotfileEdit}
use rato.Store.Actor.Loop.{Actor}
use rato.Store.Actor.Client as Store
use rato.Dotfile.Validate.{ConfigKind, DotfileError, json, jsonc, toml, yaml, text}
use rato.Dotfile.Apply.{apply_atomic, revert}
use rato.Daemon.Server.{Env, Value, Arm, Service, or_refuse, stored, params_of, params_or}
use rato.Daemon.Server.Wire.{invalid_request, default_recent, DotfileApplyParams}
use rato.Daemon.Server.Dto.{dotfile_edit_to_dto}

unfoldable pub config_kind_from_str : String → Result Text ConfigKind
config_kind_from_str kind =
    if kind == "json"
    then ok json
    else if kind == "jsonc"
    then ok jsonc
    else if kind == "toml"
    then ok toml
    else if kind == "yaml" || kind == "yml"
    then ok yaml
    else if kind == "text"
    then ok text
    else err (codes "unsupported config kind: " ++ codes kind)

module _ (E : Env) where
  open E use {codec}

  -- `e?` under anyhow, on a method of the store and on a call of rat_dotfile.
  abbrev pub of_store :
      {A : Type 0} → (Actor E.store → Result StoreError A × Actor E.store) → Service E A
  of_store m c = let (r, a) = m c.store in (map_err E.show_store r, record c { store = a })

  abbrev pub of_dotfile :
      {A : Type 0} → (E.fs.Disk → Result DotfileError A × E.fs.Disk) → Service E A
  of_dotfile m c = let (r, d) = m c.disk in (map_err E.show_dotfile r, record c { disk = d })

  -- `ok_or_else(|| anyhow!("… {id} not found"))`
  abbrev pub or_missing : {A : Type 0} → Option A → String → String → Service E A
  or_missing none what id = fail (codes what ++ (codes id ++ codes " not found"))
  or_missing (some a) what id = pure a

  unfoldable pub apply_dotfile_edit :
      ℕ → DotfileApplyParams (Value E) → Service E (DotfileEdit (Value E))
  unfolding config_kind_from_str path_of path_text
  apply_dotfile_edit now p = do
    kind ← lift (config_kind_from_str p.kind)
    snapshot ←
        of_dotfile
          (apply_atomic E.fs E.parsers E.command_exists E.pid (path_of p.path) kind p.contents)
    before ← of_store (Store.insert_blob E.store snapshot.before now)
    after ← of_store (Store.insert_blob E.store snapshot.after now)
    of_store (
        Store.insert_dotfile_edit E.store (record {
          path = path_text snapshot.path;
          kind = p.kind;
          before_blob = before.id;
          after_blob = after.id;
          diff = snapshot.diff;
          reason = p.reason;
          source = p.source;
          risk = p.risk;
          applied = true;
          meta = p.meta;
        }))

  -- From the row of the edit on, behind its check.
  unfoldable pub revert_found : ℕ → DotfileEdit (Value E) → Service E (DotfileEdit (Value E))
  unfolding path_of
  revert_found now original = do
    b ← of_store (Store.get_blob E.store original.edit.before_blob)
    before ← or_missing b "before blob " original.edit.before_blob
    a ← of_store (Store.get_blob E.store original.edit.after_blob)
    after ← or_missing a "after blob " original.edit.after_blob
    reverted ← of_dotfile (
        revert E.fs E.pid (record {
          path = path_of original.edit.path;
          before = before.bytes;
          after = after.bytes;
          diff = original.edit.diff;
        }))
    current ← of_store (Store.insert_blob E.store reverted.before now)
    restored ← of_store (Store.insert_blob E.store reverted.after now)
    row ← of_store (
        Store.insert_dotfile_edit E.store (record {
          path = original.edit.path;
          kind = original.edit.kind;
          before_blob = current.id;
          after_blob = restored.id;
          diff = reverted.diff;
          reason = codes "revert " ++ codes original.id;
          source = "rat-dotfile";
          risk = original.edit.risk;
          applied = true;
          meta = E.store.json.object (("reverts", E.store.json.string original.id) ∷ []);
        }))
    of_store (Store.mark_dotfile_edit_reverted E.store original.id row.id)
    pure row

  unfoldable pub revert_dotfile_edit : ℕ → String → Service E (DotfileEdit (Value E))
  unfolding revert_found
  revert_dotfile_edit now id = do
    row ← of_store (Store.get_dotfile_edit E.store id)
    original ← or_missing row "dotfile edit " id
    elim original.reverted_by [
      | none ↦ revert_found now original
      | some by ↦ fail (codes "dotfile edit " ++ (codes id ++ codes " is already reverted"))
    ]

  unfoldable pub dotfile_edits_list : Value E → Arm E (Value E)
  unfolding dotfile_edit_to_dto
  dotfile_edits_list params = do
    p ← params_or E default_recent codec.recent params
    rows ← stored E (Store.recent_dotfile_edits E.store (min p.limit 1000))
    pure (codec.of_edits (map dotfile_edit_to_dto rows))

  unfoldable pub dotfile_edits_apply : ℕ → Value E → Arm E (Value E)
  unfolding dotfile_edit_to_dto apply_dotfile_edit
  dotfile_edits_apply now params = do
    p ← params_of E codec.dotfile_apply params
    row ← or_refuse E invalid_request (apply_dotfile_edit now p)
    pure (codec.of_edit (dotfile_edit_to_dto row))

  unfoldable pub dotfile_edits_revert : ℕ → Value E → Arm E (Value E)
  unfolding dotfile_edit_to_dto revert_dotfile_edit
  dotfile_edits_revert now params = do
    p ← params_of E (codec.id_under "id") params
    row ← or_refuse E invalid_request (revert_dotfile_edit now p.id)
    pure (codec.of_edit (dotfile_edit_to_dto row))
