-- ===== src/SystemProxy/Manager.antt =====
-- system_proxy.rs, `SystemProxyManager`: publication, ownership and restoration, call by call. The
-- journal's path always has a parent, since `new` joins a file name to a directory.
pub mod Steps
pub mod Publish
pub mod Restore
pub mod Ownership
mod Examples
use route_deck.Prelude.{
  ℕ, suc, ◌+◌, ◌*◌, ◌<◌, ◌≡◌, String, Bool, true, false, not, ◌&&◌, ◌||◌, Option, none, some, List,
  [], ◌∷◌, ltb, ◌==◌, if◌then◌else◌, holds, length, ℕ_discrete,
}
use route_deck.Text.{Text}
use route_deck.Text.Hex.{hex}
use route_deck.Action.{Result, ok, err, Action, pure, raise, lift, map_err, require, ◌>>=◌, ◌>>◌}
use route_deck.SystemProxy.Snapshot.{
  SystemProxySnapshot, SystemProxySnapshot-discrete, SystemProxyError, unchanged, recovery_required,
  as_unchanged, proxy_type_direct_value, routedeck, snapshot_valid,
}
use route_deck.SystemProxy.Journal.{
  SystemProxyJournal, SystemProxyJournal-discrete, journal_version, journal_valid,
}
use route_deck.SystemProxy.Platform.{
  Platform, FilePath, active_journal, conflict_evidence, FileRead, missing, unreadable, contents,
  LinkOutcome, linked, already_exists, link_failed, RemoveOutcome, removed, not_found,
  remove_failed,
}

pub data SystemProxyRestoreOutcome : Type 0 where
  no_journal restored foreign_preserved : SystemProxyRestoreOutcome

abbrev pub max_journal_bytes : ℕ
max_journal_bytes = 16 * 1024

module _ (p : Platform) where
  open p use {
    World, fill_random, snapshot, apply, create_parent, create_new, write_all, read_file, hard_link,
    remove_file, to_vec, from_slice,
  }

  abbrev pub Io : Type 0 → Type 0
  Io A = Action World SystemProxyError A

  -- A call that says only whether it succeeded.
  unfoldable pub call : (World → Bool × World) → SystemProxyError → Io (Unit {0})
  call f e w = let (done, w') = f w in require done e w'

  unfoldable pub random_text : Option (List ℕ) → Result SystemProxyError Text
  random_text none = err (recovery_required "operating system random source failed")
  random_text (some bytes) = ok (hex bytes)

  -- engine_runtime.rs `random_hex`
  unfoldable pub random_hex : ℕ → Io Text
  unfolding random_text
  random_hex n w = let (bytes, w') = fill_random n w in lift (random_text bytes) w'

  unfoldable pub check_valid :
      SystemProxyJournal → Result SystemProxyError (Option SystemProxyJournal)
  check_valid j =
      if not (journal_valid j)
      then err (recovery_required "proxy recovery journal is invalid")
      else ok (some j)

  unfoldable pub check_parsed :
      Option SystemProxyJournal → Result SystemProxyError (Option SystemProxyJournal)
  unfolding check_valid
  check_parsed none = err (recovery_required "proxy recovery journal is invalid")
  check_parsed (some j) = check_valid j

  unfoldable pub decode_journal : FileRead → Result SystemProxyError (Option SystemProxyJournal)
  unfolding check_parsed
  decode_journal missing = ok none
  decode_journal unreadable = err (recovery_required "could not read proxy recovery journal")
  decode_journal (contents bytes) =
      if ltb max_journal_bytes (length bytes)
      then err (recovery_required "proxy recovery journal is invalid")
      else check_parsed (from_slice bytes)

  unfoldable pub load_journal_at : FilePath → Io (Option SystemProxyJournal)
  load_journal_at path w =
      let (read, w') = read_file path (max_journal_bytes + 1) w in lift (decode_journal read) w'

  unfoldable pub load_journal : Io (Option SystemProxyJournal)
  load_journal = load_journal_at active_journal

  unfoldable pub serialized : Option (List ℕ) → Result SystemProxyError (List ℕ)
  serialized none = err (recovery_required "could not serialize proxy recovery journal")
  serialized (some bytes) = ok bytes

  unfoldable pub write_journal : SystemProxyJournal → Io (Unit {0})
  write_journal j = do
    call create_parent (recovery_required "could not create proxy recovery directory")
    bytes ← lift (serialized (to_vec j))
    call (create_new active_journal) (recovery_required "could not create proxy recovery journal")
    call (write_all active_journal bytes)
        (recovery_required "could not write proxy recovery journal")

  unfoldable pub verify_exact : SystemProxySnapshot → Io (Unit {0})
  verify_exact expected = do
    current ← snapshot
    require (holds (SystemProxySnapshot-discrete current expected))
        (recovery_required "effective Windows System Proxy settings did not match")

  unfoldable pub is_removed : RemoveOutcome → Bool
  is_removed removed = true
  is_removed not_found = true
  is_removed remove_failed = false

  unfoldable pub remove_journal : Io (Unit {0})
  unfolding is_removed
  remove_journal w =
      let (outcome, w') = remove_file active_journal w in
      require (is_removed outcome) (recovery_required "could not remove proxy recovery journal") w'

  unfoldable pub same_evidence : SystemProxyJournal → Option SystemProxyJournal → Bool
  same_evidence j none = false
  same_evidence j (some k) = holds (SystemProxyJournal-discrete k j)

  -- After the link: evidence that exists already must be this journal.
  unfoldable pub check_evidence : SystemProxyJournal → LinkOutcome → Io (Unit {0})
  unfolding same_evidence
  check_evidence j linked = pure tt
  check_evidence j link_failed =
      raise (recovery_required "could not preserve proxy conflict evidence")
  check_evidence j already_exists = do
    existing ← load_journal_at (conflict_evidence j.owner_id)
    require (same_evidence j existing)
        (recovery_required "could not preserve proxy conflict evidence")

  unfoldable pub link_evidence : SystemProxyJournal → Io (Unit {0})
  link_evidence j w =
      let (outcome, w') = hard_link (conflict_evidence j.owner_id) w in check_evidence j outcome w'

  unfoldable pub preserve_conflict_journal : SystemProxyJournal → Io (Unit {0})
  preserve_conflict_journal j = do link_evidence j; remove_journal

  abbrev is_absent : Option SystemProxyJournal → Bool
  is_absent none = true
  is_absent (some j) = false

  -- From the journal on: publication proper.
  unfoldable pub commit : SystemProxyJournal → Io (Unit {0})
  commit journal = do
    write_journal journal
    verify_exact journal.previous
    map_err (λ _. recovery_required "could not publish the RouteDeck System Proxy")
        (apply journal.applied)
    verify_exact journal.applied

  unfoldable pub publish_over : Text → SystemProxySnapshot → SystemProxySnapshot → Io (Unit {0})
  publish_over owner_id applied previous = do
    require (snapshot_valid previous) (unchanged "Windows returned invalid proxy settings")
    require (previous.flags == proxy_type_direct_value) (
        unchanged
          "another manual or automatic System Proxy is enabled; preserve it until the user resolves the conflict")
    commit (record {
      version = journal_version;
      owner_id = owner_id;
      previous = previous;
      applied = applied;
    })

  unfoldable pub publish_as : Text → SystemProxySnapshot → Io (Unit {0})
  publish_as owner_id applied = do
    existing ← load_journal
    require (is_absent existing)
        (recovery_required "a previous System Proxy session must be reconciled first")
    previous ← map_err as_unchanged snapshot
    publish_over owner_id applied previous

  unfoldable pub publish_loopback : ℕ → Io (Unit {0})
  publish_loopback http_port = do
    owner_id ← map_err (λ _. unchanged "could not allocate proxy ownership marker") (random_hex 16)
    applied ← map_err as_unchanged (lift (routedeck http_port owner_id))
    publish_as owner_id applied

  unfoldable pub owned_by : Option SystemProxyJournal → Io Bool
  owned_by none = pure false
  owned_by (some j) = do
    current ← snapshot
    pure (holds (SystemProxySnapshot-discrete current j.applied))

  unfoldable pub is_owned : Io Bool
  unfolding owned_by
  is_owned = do journal ← load_journal; owned_by journal

  -- The settings are those of this session: put back what it found.
  unfoldable pub put_back : SystemProxyJournal → Io SystemProxyRestoreOutcome
  put_back j = do
    map_err (λ _. recovery_required "could not restore Windows System Proxy settings")
        (apply j.previous)
    map_err (λ _. recovery_required "Windows did not retain restored proxy settings")
        (verify_exact j.previous)
    remove_journal
    pure restored

  unfoldable pub keep_foreign : SystemProxyJournal → Io SystemProxyRestoreOutcome
  keep_foreign j = do preserve_conflict_journal j; pure foreign_preserved

  unfoldable pub drop_journal : Io SystemProxyRestoreOutcome
  drop_journal = do remove_journal; pure restored

  unfoldable pub restore_from :
      SystemProxyJournal → SystemProxySnapshot → Io SystemProxyRestoreOutcome
  restore_from j current =
      if holds (SystemProxySnapshot-discrete current j.previous)
      then drop_journal
      else if not (holds (SystemProxySnapshot-discrete current j.applied))
      then keep_foreign j
      else put_back j

  unfoldable pub restore_journal : Option SystemProxyJournal → Io SystemProxyRestoreOutcome
  restore_journal none = pure no_journal
  restore_journal (some j) = do current ← snapshot; restore_from j current

  unfoldable pub restore_if_owned : Io SystemProxyRestoreOutcome
  restore_if_owned = do journal ← load_journal; restore_journal journal

  unfoldable reconcile_stale_journal : Io SystemProxyRestoreOutcome
  reconcile_stale_journal = restore_if_owned
