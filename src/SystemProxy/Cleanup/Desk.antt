-- ===== src/SystemProxy/Cleanup/Desk.antt =====
-- system_proxy.rs `diagnostics` and `clear_stale`: the cleanup of a stale proxy that another program
-- left behind, under a token that the user's preview hands out.
use route_deck.Prelude.{
  ℕ, Bool, true, false, ◌&&◌, Option, none, some, List, ◌==◌, if◌then◌else◌, holds, all,
}
use route_deck.Text.{Text, Text-discrete, byte_len, is_ascii_hexdigit}
use route_deck.Action.{Result, ok, err, Action, pure, lift, map_err, require, ◌>>=◌, ◌>>◌}
use route_deck.SystemProxy.Snapshot.{SystemProxyError, unchanged, recovery_required, as_unchanged}
use route_deck.SystemProxy.Journal.{SystemProxyJournal}
use route_deck.SystemProxy.Platform.{Platform}
use route_deck.SystemProxy.Manager.{load_journal, random_hex}
use route_deck.SystemProxy.Cleanup.{
  CleanupObservation, CleanupObservation-discrete, CleanupPreview, CleanupJournal,
  SystemProxyDiagnostics, SocketAddr, diagnosed, sanitized_endpoint, ownership_observation_matches,
  classify_cleanup_observation, expected_after, is_stale, is_disabled, owned, conflict, unavailable,
}

-- The calls of the cleanup: the backend's, and those that write its evidence under a fresh name.
pub record CleanupPlatform (World : Type 0) : Type 0 where
  pub socket_addr : Text → Option SocketAddr
  pub cleanup_observation : World → Result SystemProxyError CleanupObservation × World
  pub clear_manual_if_exact :
      CleanupObservation → World → Result SystemProxyError (Unit {0}) × World
  pub create_parent : World → Bool × World
  pub to_vec : CleanupJournal → Option (List ℕ)
  pub create_new : Text → World → Bool × World
  pub write_all : Text → List ℕ → World → Bool × World

module _ (p : Platform) (c : CleanupPlatform p.World) where
  open c use {socket_addr, cleanup_observation, clear_manual_if_exact}

  -- The manager between two calls: the world, and `cleanup_preview`.
  pub record Desk : Type 0 where
    pub world : p.World
    pub preview : Option CleanupPreview

  unfoldable pub on_desk :
      {A : Type 0}
      → Option CleanupPreview
      → Result SystemProxyError A × p.World
      → Result SystemProxyError A × Desk
  on_desk kept (r, w) = (r, record { world = w; preview = kept })

  unfoldable pub on_world :
      {A : Type 0} → Action p.World SystemProxyError A → Action Desk SystemProxyError A
  unfolding on_desk
  on_world m d = on_desk d.preview (m d.world)

  abbrev pub classify : CleanupObservation → SystemProxyDiagnostics
  classify = classify_cleanup_observation socket_addr

  -- What the journal on disk says of an observation, if anything.
  unfoldable pub diagnose_owned :
      CleanupObservation
      → Result SystemProxyError (Option SystemProxyJournal)
      → Option SystemProxyDiagnostics
  unfolding diagnosed ownership_observation_matches
  diagnose_owned o (ok none) = none
  diagnose_owned o (ok (some j)) =
      if ownership_observation_matches o j
      then some
          (diagnosed owned (sanitized_endpoint socket_addr o) "System Proxy is owned by RouteDeck")
      else some (
          diagnosed conflict (sanitized_endpoint socket_addr o)
            "System Proxy differs from RouteDeck ownership records")
  diagnose_owned o (err e) = some (
      diagnosed conflict (sanitized_endpoint socket_addr o)
        "RouteDeck proxy ownership records require attention")

  unfoldable pub offer_token :
      CleanupObservation
      → SystemProxyDiagnostics
      → Result SystemProxyError Text × p.World
      → SystemProxyDiagnostics × Desk
  offer_token o result (ok token, w) = (
    record result { cleanup_token = some token },
    record { world = w; preview = some (record { token = token; observation = o }) },
  )
  offer_token o result (err e, w) = (
    record result { state = unavailable; detail = "Could not prepare stale System Proxy cleanup" },
    record { world = w; preview = none },
  )

  unfoldable pub diagnose_foreign : CleanupObservation → p.World → SystemProxyDiagnostics × Desk
  unfolding offer_token is_stale
  diagnose_foreign o w =
      let result = classify o in
      if is_stale result.state
      then offer_token o result (random_hex p 32 w)
      else (result, record { world = w; preview = none })

  unfoldable pub foreign_unless :
      Option SystemProxyDiagnostics → CleanupObservation → p.World → SystemProxyDiagnostics × Desk
  unfolding diagnose_foreign
  foreign_unless (some d) o w = (d, record { world = w; preview = none })
  foreign_unless none o w = diagnose_foreign o w

  unfoldable pub diagnose_observed :
      CleanupObservation
      → Result SystemProxyError (Option SystemProxyJournal) × p.World
      → SystemProxyDiagnostics × Desk
  unfolding diagnose_owned foreign_unless
  diagnose_observed o (r, w) = foreign_unless (diagnose_owned o r) o w

  unfoldable pub diagnose_after :
      Result SystemProxyError CleanupObservation × p.World → SystemProxyDiagnostics × Desk
  unfolding diagnose_observed diagnosed
  diagnose_after (err e, w) = (
    diagnosed unavailable none "System Proxy diagnostics are unavailable",
    record { world = w; preview = none },
  )
  diagnose_after (ok o, w) = diagnose_observed o (load_journal p w)

  -- Every observation supersedes the preview before it.
  unfoldable pub diagnostics : Desk → SystemProxyDiagnostics × Desk
  unfolding diagnose_after
  diagnostics d = diagnose_after (cleanup_observation d.world)

  unfoldable pub matching : Text → Option CleanupPreview → Result SystemProxyError CleanupPreview
  matching token none = err (unchanged "stale System Proxy cleanup preview expired")
  matching token (some preview) =
      if holds (Text-discrete preview.token token)
      then ok preview
      else err (unchanged "stale System Proxy cleanup preview expired")

  -- `take`, then `filter` by the token
  unfoldable pub take_preview : Text → Action Desk SystemProxyError CleanupPreview
  take_preview token d = (matching token d.preview, record d { preview = none })

  unfoldable pub cleanup_call :
      (p.World → Bool × p.World) → SystemProxyError → Action p.World SystemProxyError (Unit {0})
  cleanup_call f e w = let (done, w') = f w in require done e w'

  unfoldable pub cleanup_bytes : Option (List ℕ) → Result SystemProxyError (List ℕ)
  cleanup_bytes none = err (recovery_required "could not serialize proxy cleanup recovery journal")
  cleanup_bytes (some b) = ok b

  unfoldable pub write_cleanup_journal :
      CleanupJournal → Text → Action p.World SystemProxyError (Unit {0})
  write_cleanup_journal j owner_id = do
    cleanup_call c.create_parent
        (recovery_required "could not create proxy cleanup recovery directory")
    bytes ← lift (cleanup_bytes (c.to_vec j))
    cleanup_call (c.create_new owner_id)
        (recovery_required "could not create proxy cleanup recovery journal")
    cleanup_call (c.write_all owner_id bytes)
        (recovery_required "could not write proxy cleanup recovery journal")

  abbrev pub clear_error : SystemProxyError → SystemProxyError
  clear_error (unchanged m) = unchanged "System Proxy changed; review diagnostics again"
  clear_error (recovery_required m) =
      recovery_required "could not clear stale System Proxy settings"

  -- From the evidence on: the clearing proper.
  unfoldable pub clear_observed :
      CleanupObservation → Action p.World SystemProxyError SystemProxyDiagnostics
  clear_observed current = do
    owner_id ←
        map_err (λ _. unchanged "could not allocate cleanup ownership marker") (random_hex p 16)
    write_cleanup_journal (record { version = 1; owner_id = owner_id; previous = current }) owner_id
    map_err clear_error (clear_manual_if_exact current)
    after ← cleanup_observation
    require (holds (CleanupObservation-discrete after (expected_after current)))
        (recovery_required "Windows System Proxy changed during cleanup")
    require (is_disabled (classify after).state)
        (recovery_required "Windows did not retain cleared System Proxy settings")
    pure (classify after)

  unfoldable pub clear_previewed :
      CleanupPreview → Action p.World SystemProxyError SystemProxyDiagnostics
  clear_previewed preview = do
    current ← map_err as_unchanged cleanup_observation
    require
        (holds (CleanupObservation-discrete current preview.observation)
          && is_stale (classify current).state)
        (unchanged "System Proxy changed; review diagnostics again")
    clear_observed current

  abbrev pub no_record : Option SystemProxyJournal → Bool
  no_record none = true
  no_record (some j) = false

  unfoldable pub clear_stale : Text → Action Desk SystemProxyError SystemProxyDiagnostics
  clear_stale token = do
    require (byte_len token == 64 && all is_ascii_hexdigit token)
        (unchanged "stale System Proxy cleanup preview is invalid")
    journal ← on_world (load_journal p)
    require (no_record journal) (unchanged "RouteDeck proxy ownership must be reconciled first")
    preview ← take_preview token
    on_world (clear_previewed preview)
