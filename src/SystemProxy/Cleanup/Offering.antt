-- ===== src/SystemProxy/Cleanup/Offering.antt =====
-- system_proxy.rs `diagnostics`: when a token is on offer.
use route_deck.Prelude.{◌≡◌, refl, inl, inr, false, Option, none, some, Bool-cases, ◌≢◌, arith}
use mathlib.Core.Option.{some-injective}
use route_deck.Text.{Text}
use route_deck.Action.{Result, ok, err}
use route_deck.SystemProxy.Platform.{Platform}
use route_deck.SystemProxy.Snapshot.{SystemProxyError}
use route_deck.SystemProxy.Cleanup.{
  CleanupObservation, CleanupPreview, SystemProxyDiagnostics, SystemProxyDiagnosticState, stale,
  is_stale, classify_cleanup_observation, classify_at, diagnosed, load_journal, classify_manual,
  SystemProxyJournal, ownership_observation_matches,
}
use route_deck.SystemProxy.Cleanup.Desk.{
  CleanupPlatform, Desk, diagnose_after, diagnose_observed, foreign_unless, diagnose_foreign,
  diagnostics, offer_token, diagnose_owned, classify,
}
use route_deck.SystemProxy.Cleanup.Classify.{IsStale, classify_cleanup_observation-IsStale}
use route_deck.SystemProxy.Cleanup.Tokens.{is_stale-eq}

module _ (p : Platform) (c : CleanupPlatform p.World) where
  open c use {socket_addr, cleanup_observation}

  -- A token is on offer exactly with a preview, of a stale observation.
  abbrev pub Offers : SystemProxyDiagnostics → Option CleanupPreview → Type 0
  Offers r none = (r.cleanup_token ≡ none) × (r.state ≢ stale)
  Offers r (some preview) =
      (r.cleanup_token ≡ some preview.token)
      × (r.state ≡ stale)
      × IsStale socket_addr preview.observation

  classify-token : (o : CleanupObservation) → (classify p c o).cleanup_token ≡ none
  unfolding classify_cleanup_observation classify_at classify_manual diagnosed
  classify-token o = ground arith

  not_stale : (s : SystemProxyDiagnosticState) → is_stale s ≡ false → s ≢ stale
  unfolding is_stale
  not_stale s h e = ground arith

  offer_token-Offers :
      (o : CleanupObservation) (r : SystemProxyDiagnostics)
      (t : Result SystemProxyError Text × p.World)
      → r.state ≡ stale
      → r.cleanup_token ≡ none
      → IsStale socket_addr o
      → Offers (offer_token p c o r t).0 (offer_token p c o r t).1.preview
  unfolding offer_token
  offer_token-Offers o r (ok token, w) h k s = (refl, h, s)
  offer_token-Offers o r (err e, w) h k s = (k, λ x. cc)

  diagnose_foreign-Offers :
      (o : CleanupObservation) (w : p.World)
      → Offers (diagnose_foreign p c o w).0 (diagnose_foreign p c o w).1.preview
  unfolding diagnose_foreign
  diagnose_foreign-Offers o w = elim (Bool-cases (is_stale (classify p c o).state)) [
    | inl old ↦ rw old (
        offer_token-Offers o _ _ (is_stale-eq _ old) (classify-token o)
          ((classify_cleanup_observation-IsStale socket_addr o).0 (is_stale-eq _ old)))
    | inr other ↦ rw other (classify-token o, not_stale _ other)
  ]

  diagnose_owned-token :
      (o : CleanupObservation) (r : Result SystemProxyError (Option SystemProxyJournal))
      (d : SystemProxyDiagnostics)
      → diagnose_owned p c o r ≡ some d
      → (d.cleanup_token ≡ none) × (d.state ≢ stale)
  unfolding diagnose_owned diagnosed
  diagnose_owned-token o (ok none) d h = cc
  diagnose_owned-token o (ok (some j)) d h = elim (Bool-cases (ownership_observation_matches o j)) [
    | inl same ↦ let e = some-injective _ _ (rw same at h) in (cc e, λ k. cc (e, k))
    | inr other ↦ let e = some-injective _ _ (rw other at h) in (cc e, λ k. cc (e, k))
  ]
  diagnose_owned-token o (err x) d h = let e = some-injective _ _ h in (cc e, λ k. cc (e, k))

  foreign_unless-Offers :
      (x : Option SystemProxyDiagnostics) (o : CleanupObservation) (w : p.World)
      → ((d : SystemProxyDiagnostics) → x ≡ some d → (d.cleanup_token ≡ none) × (d.state ≢ stale))
      → Offers (foreign_unless p c x o w).0 (foreign_unless p c x o w).1.preview
  unfolding foreign_unless
  foreign_unless-Offers none o w h = diagnose_foreign-Offers o w
  foreign_unless-Offers (some d) o w h = h d refl

  diagnose_observed-Offers :
      (o : CleanupObservation) (rw' : Result SystemProxyError (Option SystemProxyJournal) × p.World)
      → Offers (diagnose_observed p c o rw').0 (diagnose_observed p c o rw').1.preview
  unfolding diagnose_observed
  diagnose_observed-Offers o (r, w) =
      foreign_unless-Offers (diagnose_owned p c o r) o w (diagnose_owned-token o r)

  diagnose_after-Offers :
      (ow : Result SystemProxyError CleanupObservation × p.World)
      → Offers (diagnose_after p c ow).0 (diagnose_after p c ow).1.preview
  unfolding diagnose_after diagnosed
  diagnose_after-Offers (ok o, w) = diagnose_observed-Offers o (load_journal p w)
  diagnose_after-Offers (err e, w) = (refl, λ x. cc)

  -- Diagnostics offer a token exactly when they report a stale proxy, and then the preview of a
  -- stale observation is at hand under that token; otherwise no preview is.
  pub diagnostics-Offers :
      (d : Desk p c) → Offers (diagnostics p c d).0 (diagnostics p c d).1.preview
  unfolding diagnostics
  diagnostics-Offers d = diagnose_after-Offers (cleanup_observation d.world)
