-- ===== src/SystemProxy/Manager/Ownership.antt =====
-- system_proxy.rs: publication, ownership test and restoration taken together.
use route_deck.Prelude.{
  ℕ, ◌≤◌, ◌<◌, ◌≡◌, ◌↔◌, refl, sym, ◌∙◌, ap, subst, ◌⊎◌, inl, inr, Bool, true, Option, none, some,
  List, arith, holds_iff, holds_of, length,
}
use route_deck.Action.{Result, ok, err}
use route_deck.Action.Triple.{Triple, Triple-bind, Triple-pure, Triple-given}
use route_deck.SystemProxy.Snapshot.{
  SystemProxySnapshot, SystemProxySnapshot-discrete, SystemProxyError,
}
use route_deck.SystemProxy.Journal.{SystemProxyJournal, routedeck-published, flags-published}
use route_deck.SystemProxy.Platform.{Platform, PlatformLaws, FilePath, active_journal}
use route_deck.SystemProxy.Manager.{
  max_journal_bytes, load_journal, owned_by, is_owned, publish_loopback, restore_if_owned,
  SystemProxyRestoreOutcome, no_journal, restored, foreign_preserved,
}
use route_deck.SystemProxy.Manager.Steps.{
  Same, Same-refl, Stored, Loads, Reads, load_journal_at-post, snapshot-post,
}
use route_deck.SystemProxy.Manager.Publish.{Journaled, Publishes, publish_loopback-Publishes}
use route_deck.SystemProxy.Manager.Restore.{Restores, Stored-move, restore_if_owned-Restores}

module _ (p : Platform) (l : PlatformLaws p) where
  open p use {World, from_slice}
  open l use {settings, file}

  -- The file at a path holds one journal.
  Stored-unique :
      (x : FilePath) (w : World) (j k : SystemProxyJournal)
      → Stored p l x w j
      → Stored p l x w k
      → j ≡ k
  Stored-unique x w j k a b =
      let same_bytes : a.bytes ≡ b.bytes = cc (a.at_path, b.at_path) in
      cc (a.parses, b.parses, ap from_slice same_bytes)

  -- A session is owned: a valid journal is on disk and its settings are in force.
  abbrev pub IsOwner : World → Type 0
  IsOwner w = (j : SystemProxyJournal) × Stored p l active_journal w j × (settings w ≡ j.applied)

  abbrev pub Answers : World → Result SystemProxyError Bool → World → Type 0
  Answers w0 (ok b) w = Same p l w0 w × ((b ≡ true) ↔ IsOwner w0)
  Answers w0 (err e) w = Same p l w0 w

  owned_by-Answers :
      (w0 : World) (o : Option SystemProxyJournal)
      → Loads p l active_journal w0 (ok o)
      → Triple (Same p l w0) (owned_by p o) (Answers w0)
  unfolding owned_by
  owned_by-Answers w0 none absent =
      Triple-pure _ (λ w s. (s, ((λ e. cc), (λ h. cc (absent, h.1.at_path)))))
  owned_by-Answers w0 (some j) stored =
      Triple-bind _ _ (λ r w. Same p l w0 w × Reads p l w0 r) (snapshot-post p l w0)
        (λ current.
          Triple-given (λ w h. h)
            (λ now. Triple-pure _ (λ w s. (
              s,
              (
                (λ e. (
                  j,
                  stored,
                  sym now ∙ holds_iff (SystemProxySnapshot-discrete current j.applied) e,
                )),
                (λ h. holds_of (SystemProxySnapshot-discrete current j.applied) (
                    now
                    ∙ h.2
                    ∙ ap (λ (k : SystemProxyJournal). k.applied)
                        (Stored-unique active_journal w0 h.0 j h.1 stored))),
              ),
            ))))
        (λ e w h. h.0)

  pub is_owned-Answers : (w : World) → Answers w (is_owned p w).0 (is_owned p w).1
  unfolding is_owned load_journal
  is_owned-Answers w0 = whole.at w0 (Same-refl p l w0)
    where
      whole : Triple (Same p l w0) (is_owned p) (Answers w0)
      whole =
          Triple-bind _ _ (λ r w. Same p l w0 w × Loads p l active_journal w0 r)
            (load_journal_at-post p l active_journal w0)
            (λ o. Triple-given (λ w h. h) (owned_by-Answers w0 o)) (λ e w h. h.0)

  -- An answer of `is_owned` is exact, and asking changes neither the settings nor a file.
  pub is_owned_iff :
      (w : World) (b : Bool)
      → (is_owned p w).0 ≡ ok b
      → Same p l w (is_owned p w).1 × ((b ≡ true) ↔ IsOwner w)
  is_owned_iff w b e = subst (λ r. Answers w r (is_owned p w).1) e (is_owned-Answers w)

  published-Stored :
      (w v : World) (j : SystemProxyJournal) (h : Journaled p l w v j)
      → length h.bytes ≤ max_journal_bytes
      → Stored p l active_journal v j
  published-Stored w v j h fits = record {
    bytes = h.bytes;
    at_path = h.at_path;
    parses = l.from_slice-to_vec j h.bytes h.encoded;
    fits = fits;
    is_valid = h.is_valid;
  }

  restored_after :
      (w v u : World) (j : SystemProxyJournal) (o : SystemProxyRestoreOutcome)
      → Stored p l active_journal v j
      → settings v ≡ j.applied
      → j.previous ≡ settings w
      → Restores p l v (ok o) u
      → (o ≡ restored) × (settings u ≡ settings w) × (file active_journal u ≡ none)
  restored_after w v u j no_journal stored ours prev h = cc (h.1, stored.at_path)
  restored_after w v u j restored stored ours prev (k, at_k, _, back, gone) = (
    refl,
    back
        ∙ ap (λ (i : SystemProxyJournal). i.previous)
            (Stored-unique active_journal v k j at_k stored)
        ∙ prev,
    gone,
  )
  restored_after w v u j foreign_preserved stored ours prev (k, at_k, _, not_ours, _, _, _) =
      absurd (
        not_ours (
          ours
          ∙ ap (λ (i : SystemProxyJournal). i.applied)
              (Stored-unique active_journal v j k stored at_k)))

  -- After a publication that succeeded, over a journal that a recovery can read, a restoration that
  -- succeeds puts back the settings of before and leaves no journal.
  pub publish-restore :
      (port : ℕ)
      → port < 65536
      → (w : World) → (publish_loopback p port w).0 ≡ ok tt
      → let v = (publish_loopback p port w).1 in
        ((b : List ℕ) → file active_journal v ≡ some b → length b ≤ max_journal_bytes)
        → (o : SystemProxyRestoreOutcome) → (restore_if_owned p v).0 ≡ ok o
        → (o ≡ restored)
          × (settings (restore_if_owned p v).1 ≡ settings w)
          × (file active_journal (restore_if_owned p v).1 ≡ none)
  publish-restore port bound w done readable o back =
      let v = (publish_loopback p port w).1 in
      let (j, on_disk, _, ours) =
        subst (λ r. Publishes p l w port r v) done (publish_loopback-Publishes p l port bound w) in
      restored_after w v (restore_if_owned p v).1 j o
        (published-Stored w v j on_disk (readable on_disk.bytes on_disk.at_path)) ours
        on_disk.previous_kept
        (subst (λ r. Restores p l v r (restore_if_owned p v).1) back
          (restore_if_owned-Restores p l v))

  not-Stored-oversized :
      (w : World) (b : List ℕ) (j : SystemProxyJournal)
      → file active_journal w ≡ some b
      → max_journal_bytes < length b
      → ¬ Stored p l active_journal w j
  not-Stored-oversized w b j at big s =
      let same : s.bytes ≡ b = cc (s.at_path, at) in
      absurd (omega (arith, s.fits, big, ap length same))

  oversized_kept :
      (w u : World) (b : List ℕ) (r : Result SystemProxyError SystemProxyRestoreOutcome)
      → file active_journal w ≡ some b
      → max_journal_bytes < length b
      → Restores p l w r u
      → (e : SystemProxyError) × (r ≡ err e) × (settings u ≡ settings w)
  oversized_kept w u b (ok no_journal) at big h = cc (at, h.1)
  oversized_kept w u b (ok restored) at big h = absurd (not-Stored-oversized w b h.0 at big h.1)
  oversized_kept w u b (ok foreign_preserved) at big h =
      absurd (not-Stored-oversized w b h.0 at big h.1)
  oversized_kept w u b (err e) at big h = (
    e,
    refl,
    elim h.2 [
      | inl kept ↦ kept
      | inr (j, stored, _, _) ↦ absurd (not-Stored-oversized w b j at big stored)
    ],
  )

  -- A publication whose journal is longer than a recovery reads cannot be undone: every restoration
  -- fails, and the settings of the session stay in force.
  pub publish-restore_oversized :
      (port : ℕ)
      → port < 65536
      → (w : World) → (publish_loopback p port w).0 ≡ ok tt
      → let v = (publish_loopback p port w).1 in
        (b : List ℕ)
        → file active_journal v ≡ some b
        → max_journal_bytes < length b
        → (e : SystemProxyError) × ((restore_if_owned p v).0 ≡ err e)
          × (settings (restore_if_owned p v).1 ≡ settings v)
          × ((settings w).flags ≡ 1)
          × ((settings v).flags ≡ 3)
  publish-restore_oversized port bound w done b at big =
      let v = (publish_loopback p port w).1 in
      let (j, on_disk, published_as, ours) =
        subst (λ r. Publishes p l w port r v) done (publish_loopback-Publishes p l port bound w) in
      let (e, failed, kept) =
        oversized_kept v (restore_if_owned p v).1 b (restore_if_owned p v).0 at big
          (restore_if_owned-Restores p l v) in
      (
        e,
        failed,
        kept,
        on_disk.was_direct,
        ap (λ (s : SystemProxySnapshot). s.flags)
              (ours ∙ routedeck-published port j.owner_id published_as)
            ∙ flags-published port j.owner_id,
      )

  retried :
      (v u : World) (j : SystemProxyJournal) (o : SystemProxyRestoreOutcome)
      → Stored p l active_journal v j
      → (settings v ≡ j.applied) ⊎ (settings v ≡ j.previous)
      → Restores p l v (ok o) u
      → (o ≡ restored) × (settings u ≡ j.previous) × (file active_journal u ≡ none)
  retried v u j no_journal stored ours h = cc (h.1, stored.at_path)
  retried v u j restored stored ours (k, at_k, _, back, gone) = (
    refl,
    back
        ∙ ap (λ (i : SystemProxyJournal). i.previous)
            (Stored-unique active_journal v k j at_k stored),
    gone,
  )
  retried v u j foreign_preserved stored ours (k, at_k, not_previous, not_ours, _, _, _) =
      let same = Stored-unique active_journal v j k stored at_k in
      elim ours [
        | inl e ↦ absurd (not_ours (e ∙ ap (λ (i : SystemProxyJournal). i.applied) same))
        | inr e ↦ absurd (not_previous (e ∙ ap (λ (i : SystemProxyJournal). i.previous) same))
      ]

  -- A restoration that failed, at any call, is completed by a later one that succeeds.
  pub restore-restore :
      (w : World) (j : SystemProxyJournal) (e : SystemProxyError) (o : SystemProxyRestoreOutcome)
      → Stored p l active_journal w j
      → settings w ≡ j.applied
      → (restore_if_owned p w).0 ≡ err e
      → let v = (restore_if_owned p w).1 in
        (restore_if_owned p v).0 ≡ ok o
        → (o ≡ restored)
          × (settings (restore_if_owned p v).1 ≡ j.previous)
          × (file active_journal (restore_if_owned p v).1 ≡ none)
  restore-restore w j e o stored ours failed back =
      let v = (restore_if_owned p w).1 in
      let (_, kept, either) =
        subst (λ r. Restores p l w r v) failed (restore_if_owned-Restores p l w) in
      retried v (restore_if_owned p v).1 j o
        (Stored-move p l active_journal active_journal w v j kept stored)
        (elim either [
          | inl same ↦ inl (same ∙ ours)
          | inr (k, at_k, _, put) ↦ inr (
              put
              ∙ ap (λ (i : SystemProxyJournal). i.previous)
                  (Stored-unique active_journal w k j at_k stored))
        ])
        (subst (λ r. Restores p l v r (restore_if_owned p v).1) back
          (restore_if_owned-Restores p l v))
