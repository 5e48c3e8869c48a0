-- ===== src/Controller/Wiring/Settling.antt =====
-- What a restoration by the System Proxy manager leads back to, whoever holds the settings.
use route_deck.SystemProxy.Manager.Restore.{Restores}
use route_deck.SystemProxy.Manager.{
  SystemProxyRestoreOutcome, restored, foreign_preserved, no_journal,
}
use route_deck.SystemProxy.Manager.Publish.{Journaled}
use route_deck.SystemProxy.Journal.{SystemProxyJournal, journal_valid}
use route_deck.SystemProxy.Snapshot.{SystemProxyError}
use route_deck.Prelude.{◌≡◌, sym, ◌∙◌, true, ◌⊎◌, inl, inr, ap}
use route_deck.Action.{Result, ok, err}
use route_deck.SystemProxy.Platform.{Platform, PlatformLaws, active_journal}
use route_deck.SystemProxy.Manager.Steps.{Stored}

-- The roll back goes on after these.
abbrev pub Settles : Result SystemProxyError SystemProxyRestoreOutcome → Type 0
Settles (ok restored) = Unit {0}
Settles (ok foreign_preserved) = Unit {0}
Settles (ok no_journal) = ⊥
Settles (err e) = ⊥

module _ (p : Platform) (l : PlatformLaws p) where
  open l use {settings, file}

  -- The settings are those of `v`, or those of `v` had been published over a journal that now led
  -- back from them.
  abbrev pub Undone : p.World → p.World → Type 0
  Undone v u =
      (settings u ≡ settings v)
      ⊎ ((k : SystemProxyJournal) × (journal_valid k ≡ true)
          × (settings v ≡ k.applied)
          × (settings u ≡ k.previous))

  -- A restoration over settings that are still those of `v`.
  pub doubtful-Undone :
      (v u w : p.World) (r : Result SystemProxyError SystemProxyRestoreOutcome)
      → settings u ≡ settings v
      → Restores p l u r w
      → Settles r
      → Undone v w
  doubtful-Undone v u w (ok restored) e (k, stored, inl same, back, gone) n =
      inl (back ∙ sym same ∙ e)
  doubtful-Undone v u w (ok restored) e (k, stored, inr ours, back, gone) n =
      inr (k, stored.is_valid, sym e ∙ ours, back)
  doubtful-Undone v u w (ok foreign_preserved) e (k, stored, a, b, kept, gone, evidence) n =
      inl (kept ∙ e)
  doubtful-Undone v u w (ok no_journal) e h n = absurd n
  doubtful-Undone v u w (err x) e h n = absurd n

  same_journal :
      (v u : p.World) (j k : SystemProxyJournal)
      → Journaled p l v u j
      → Stored p l active_journal u k
      → j ≡ k
  same_journal v u j k h s =
      let same_bytes : h.bytes ≡ s.bytes = cc (h.at_path, s.at_path) in
      cc (l.from_slice-to_vec j h.bytes h.encoded, s.parses, ap p.from_slice same_bytes)

  -- A restoration over the settings that the session published.
  pub leased-Undone :
      (v u w : p.World) (j : SystemProxyJournal)
      (r : Result SystemProxyError SystemProxyRestoreOutcome)
      → Journaled p l v u j
      → settings u ≡ j.applied
      → Restores p l u r w
      → Settles r
      → settings w ≡ settings v
  leased-Undone v u w j (ok restored) h e (k, stored, from, back, gone) n =
      back
      ∙ ap (λ (x : SystemProxyJournal). x.previous) (sym (same_journal v u j k h stored))
      ∙ h.previous_kept
  leased-Undone v u w j (ok foreign_preserved) h e (k, stored, a, b, kept, gone, evidence) n =
      absurd (b (e ∙ ap (λ (x : SystemProxyJournal). x.applied) (same_journal v u j k h stored)))
  leased-Undone v u w j (ok no_journal) h e x n = absurd n
  leased-Undone v u w j (err x) h e y n = absurd n
