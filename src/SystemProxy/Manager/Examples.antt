-- ===== src/SystemProxy/Manager/Examples.antt =====
-- The manager on a machine: tests, and the theorems at concrete inputs.
use route_deck.Prelude.{
  Bool, true, ◌↔◌, ℕ_discrete, ℕ, ◌≡◌, ◌≤◌, refl, Option, none, some, List, [], arith, length,
  leb→le, subst, ltb→lt,
}
use mathlib.Core.Option.{some-injective}
use route_deck.Text.{Text, Text-discrete, codes}
use route_deck.Text.Hex.{hex}
use route_deck.Text.Decimal.{to_decimal, parse_uint}
use route_deck.Action.{ok, err, ◌>>=◌}
use route_deck.SystemProxy.Snapshot.{
  SystemProxySnapshot, SystemProxySnapshot-discrete, routedeck, published, snapshot_valid,
}
use route_deck.SystemProxy.Journal.{journal_valid, SystemProxyJournal-discrete, SystemProxyJournal}
use route_deck.SystemProxy.Platform.{active_journal}
use route_deck.SystemProxy.Manager.{
  load_journal, write_journal, verify_exact, remove_journal, publish_loopback, publish_as,
  publish_over, commit, is_owned, restore_if_owned, restored, call, random_hex, load_journal_at,
  decode_journal, serialized, owned_by, put_back, keep_foreign, drop_journal, restore_from,
  restore_journal, check_parsed, SystemProxyRestoreOutcome, check_valid, is_removed,
  preserve_conflict_journal, link_evidence, check_evidence, SystemProxyError, recovery_required,
  max_journal_bytes,
}
use route_deck.SystemProxy.Manager.Publish.{Publishes, publish_loopback-Publishes}
use route_deck.SystemProxy.Manager.Restore.{Restores, restore_if_owned-Restores}
use route_deck.SystemProxy.Manager.Ownership.{
  IsOwner, is_owned_iff, publish-restore, publish-restore_oversized, restore-restore,
}
use route_deck.SystemProxy.Manager.Steps.{Same, Stored}
use route_deck.Examples.Codec.{encode, decode}
use route_deck.Examples.Machine.{
  Machine, file_of, with_file, machine, machine_laws, sevens, create, read, link, remove,
}

abbrev direct : SystemProxySnapshot
direct = record {
  flags = 1;
  proxy_server = none;
  proxy_bypass = some (codes "<local>");
  auto_config_url = none;
}

abbrev fresh : ℕ → Machine
fresh refusals = record { now = direct; journal = none; evidence = λ o. none; refusals = refusals }

-- What a run computes through.
run : ℕ → ℕ → Machine
unfolding machine_laws file_of with_file publish_loopback publish_as publish_over commit random_hex
    load_journal load_journal_at decode_journal check_parsed check_valid write_journal call
    serialized verify_exact snapshot_valid routedeck published journal_valid ◌>>=◌ sevens create
    read link remove encode decode hex to_decimal parse_uint SystemProxySnapshot-discrete
    SystemProxyJournal-discrete Text-discrete ℕ_discrete is_owned owned_by restore_if_owned
    restore_journal restore_from put_back keep_foreign drop_journal remove_journal is_removed
    preserve_conflict_journal link_evidence check_evidence
run padding refusals = (publish_loopback (machine padding) 8080 (fresh refusals)).1

publishes :
    (padding refusals : ℕ) → (publish_loopback (machine padding) 8080 (fresh refusals)).0 ≡ ok tt
unfolding run
publishes padding refusals = refl

publish_loopback-Publishes_example :
    Publishes
      (machine 0)
      (machine_laws 0)
      (fresh 0)
      8080
      (publish_loopback (machine 0) 8080 (fresh 0)).0
      (publish_loopback (machine 0) 8080 (fresh 0)).1
publish_loopback-Publishes_example =
    publish_loopback-Publishes (machine 0) (machine_laws 0) 8080 (omega arith) (fresh 0)

restore_if_owned-Restores_example :
    Restores
      (machine 0)
      (machine_laws 0)
      (run 0 0)
      (restore_if_owned (machine 0) (run 0 0)).0
      (restore_if_owned (machine 0) (run 0 0)).1
restore_if_owned-Restores_example = restore_if_owned-Restores (machine 0) (machine_laws 0) (run 0 0)

restores : (restore_if_owned (machine 0) (run 0 0)).0 ≡ ok restored
unfolding run
restores = refl

owns : (is_owned (machine 0) (run 0 0)).0 ≡ ok true
unfolding run
owns = refl

is_owned_iff_example :
    Same (machine 0) (machine_laws 0) (run 0 0) (is_owned (machine 0) (run 0 0)).1
    × ((◌≡◌ {A = Bool} true true) ↔ IsOwner (machine 0) (machine_laws 0) (run 0 0))
is_owned_iff_example = is_owned_iff (machine 0) (machine_laws 0) (run 0 0) true owns

publish-restore_example :
    (◌≡◌ {A = SystemProxyRestoreOutcome} restored restored)
    × ((machine_laws 0).settings
          (restore_if_owned (machine 0) (publish_loopback (machine 0) 8080 (fresh 0)).1).1
        ≡ (machine_laws 0).settings (fresh 0))
    × ((machine_laws 0).file active_journal
          (restore_if_owned (machine 0) (publish_loopback (machine 0) 8080 (fresh 0)).1).1
        ≡ none)
unfolding run
publish-restore_example =
    publish-restore (machine 0) (machine_laws 0) 8080 (omega arith) (fresh 0) (publishes 0 0)
      (λ b e.
        subst (λ (c : List ℕ). length c ≤ max_journal_bytes) (some-injective _ _ e)
          (leb→le _ _ refl))
      restored restores

-- A codec so wordy that the journal passes the bound of a recovery.
bytes_of : Option (List ℕ) → List ℕ
bytes_of none = []
bytes_of (some b) = b

publish-restore_oversized_example :
    let v = (publish_loopback (machine 16384) 8080 (fresh 0)).1 in
    (e : SystemProxyError) × ((restore_if_owned (machine 16384) v).0 ≡ err e)
    × ((machine_laws 16384).settings (restore_if_owned (machine 16384) v).1
        ≡ (machine_laws 16384).settings v)
    × (◌≡◌ {A = ℕ} 1 1)
    × (((machine_laws 16384).settings v).flags ≡ 3)
unfolding run bytes_of
publish-restore_oversized_example =
    publish-restore_oversized (machine 16384) (machine_laws 16384) 8080 (omega arith) (fresh 0)
      (publishes 16384 0) (bytes_of (run 16384 0).journal) refl (ltb→lt _ _ refl)

owner : Text
unfolding run
owner = hex (sevens 16)

abbrev kept : SystemProxyJournal
kept = record { version = 2; owner_id = owner; previous = direct; applied = published 8080 owner }

kept-Stored : Stored (machine 0) (machine_laws 0) active_journal (run 0 1) kept
unfolding run owner bytes_of
kept-Stored = record {
  bytes = bytes_of (run 0 1).journal;
  at_path = refl;
  parses = refl;
  fits = leb→le _ _ refl;
  is_valid = refl;
}

restore-restore_example :
    (◌≡◌ {A = SystemProxyRestoreOutcome} restored restored)
    × ((machine_laws 0).settings
          (restore_if_owned (machine 0) (restore_if_owned (machine 0) (run 0 1)).1).1
        ≡ direct)
    × ((machine_laws 0).file active_journal
          (restore_if_owned (machine 0) (restore_if_owned (machine 0) (run 0 1)).1).1
        ≡ none)
unfolding run owner
restore-restore_example =
    restore-restore (machine 0) (machine_laws 0) (run 0 1) kept
      (recovery_required "could not remove proxy recovery journal") restored kept-Stored refl refl
      refl
