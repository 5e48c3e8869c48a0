-- ===== src/SystemProxy/Manager/Restore.antt =====
-- system_proxy.rs `restore_if_owned`: what it puts back, what it leaves alone, what it keeps.
use route_deck.Prelude.{
  ◌≡◌, ◌≢◌, refl, sym, ◌∙◌, ap, subst, ◌⊎◌, inl, inr, true, Option, none, some, holds, holds_iff,
  holds_of, Bool-cases,
}
use route_deck.Action.{Result, ok, err, pure, raise}
use route_deck.Action.Triple.{
  Triple, Triple-bind, Triple-pure, Triple-given, Triple-test, Triple-map_err,
}
use route_deck.SystemProxy.Snapshot.{
  SystemProxySnapshot, SystemProxySnapshot-discrete, SystemProxyError, may_have_changed,
}
use route_deck.SystemProxy.Journal.{SystemProxyJournal, SystemProxyJournal-discrete}
use route_deck.SystemProxy.Platform.{
  Platform, PlatformLaws, FilePath, active_journal, conflict_evidence, LinkOutcome, linked,
  already_exists, link_failed,
}
use route_deck.SystemProxy.Manager.{
  load_journal, same_evidence, check_evidence, link_evidence, preserve_conflict_journal, put_back,
  keep_foreign, drop_journal, restore_from, restore_journal, restore_if_owned,
  SystemProxyRestoreOutcome, no_journal, restored, foreign_preserved,
}
use route_deck.SystemProxy.Manager.Steps.{
  Same, Same-refl, Same-trans, Stored, Loads, Reads, Verified, NeedsRecovery, Triple-here,
  load_journal_at-post, snapshot-post, verify_exact-post,
}
use route_deck.SystemProxy.Manager.Steps.Writing.{Removed, Applied, remove_journal-post, apply-post}

module _ (p : Platform) (l : PlatformLaws p) where
  open p use {World}
  open l use {settings, file}

  pub Stored-move :
      (x y : FilePath) (w v : World) (j : SystemProxyJournal)
      → file y v ≡ file x w
      → Stored p l x w j
      → Stored p l y v j
  Stored-move x y w v j e s = record {
    bytes = s.bytes;
    at_path = e ∙ s.at_path;
    parses = s.parses;
    fits = s.fits;
    is_valid = s.is_valid;
  }

  -- An outcome of a restoration from `w0`.
  abbrev pub Restores : World → Result SystemProxyError SystemProxyRestoreOutcome → World → Type 0
  Restores w0 (ok no_journal) w = Same p l w0 w × (file active_journal w0 ≡ none)
  Restores w0 (ok restored) w =
      (j : SystemProxyJournal) × Stored p l active_journal w0 j
      × ((settings w0 ≡ j.previous) ⊎ (settings w0 ≡ j.applied))
      × (settings w ≡ j.previous)
      × (file active_journal w ≡ none)
  Restores w0 (ok foreign_preserved) w =
      (j : SystemProxyJournal) × Stored p l active_journal w0 j
      × (settings w0 ≢ j.previous)
      × (settings w0 ≢ j.applied)
      × (settings w ≡ settings w0)
      × (file active_journal w ≡ none)
      × Stored p l (conflict_evidence j.owner_id) w j
  Restores w0 (err e) w =
      (may_have_changed e ≡ true)
      × (file active_journal w ≡ file active_journal w0)
      × ((settings w ≡ settings w0)
          ⊎ ((j : SystemProxyJournal) × Stored p l active_journal w0 j
              × (settings w0 ≡ j.applied)
              × (settings w ≡ j.previous)))

  module _ (w0 : World) (j : SystemProxyJournal) (stored : Stored p l active_journal w0 j) where
    -- The evidence beside the journal is the journal.
    abbrev Linked : Result SystemProxyError (Unit {0}) → World → Type 0
    Linked (ok u) w = Stored p l (conflict_evidence j.owner_id) w j
    Linked (err e) w = may_have_changed e ≡ true

    abbrev Kept : World → Type 0
    Kept w = (settings w ≡ settings w0) × (file active_journal w ≡ file active_journal w0)

    same_evidence_iff : (o : Option SystemProxyJournal) → same_evidence p j o ≡ true → o ≡ some j
    unfolding same_evidence
    same_evidence_iff none h = cc
    same_evidence_iff (some k) h = ap some (holds_iff (SystemProxyJournal-discrete k j) h)

    check_existing :
        (existing : Option SystemProxyJournal) (w : World)
        → Loads p l (conflict_evidence j.owner_id) w0 (ok existing)
        → same_evidence p j existing ≡ true
        → Same p l w0 w
        → Stored p l (conflict_evidence j.owner_id) w j
    check_existing none w loads same s = cc (same_evidence_iff none same)
    check_existing (some k) w loads same s =
        Stored-move (conflict_evidence j.owner_id) (conflict_evidence j.owner_id) w0 w j
          (s.files_same (conflict_evidence j.owner_id))
          (subst (λ (o : SystemProxyJournal). Stored p l (conflict_evidence j.owner_id) w0 o)
            (cc (same_evidence_iff (some k) same)) loads)

    check_evidence-post :
        (o : LinkOutcome) (v : World)
        → Kept v
        → (o ≡ linked → file (conflict_evidence j.owner_id) v ≡ file active_journal w0)
        → (o ≢ linked → Same p l w0 v)
        → let rs = check_evidence p j o v in Kept rs.1 × Linked rs.0 rs.1
    unfolding check_evidence pure raise may_have_changed
    check_evidence-post linked v kept copied same = (
      kept,
      Stored-move active_journal (conflict_evidence j.owner_id) w0 v j (copied refl) stored,
    )
    check_evidence-post link_failed v kept copied same = (kept, refl)
    check_evidence-post already_exists v kept copied same = (existing_checked).at v (same (λ e. cc))
      where
        existing_checked :
            Triple (Same p l w0) (check_evidence p j already_exists) (λ r w. Kept w × Linked r w)
        existing_checked =
            Triple-bind _ _ (λ r w. Same p l w0 w × Loads p l (conflict_evidence j.owner_id) w0 r)
              (load_journal_at-post p l (conflict_evidence j.owner_id) w0)
              (λ existing.
                Triple-test _ _
                  (λ w h good. (
                    (h.0.settings_same, h.0.files_same active_journal),
                    check_existing existing w h.1 good h.0,
                  ))
                  (λ w h bad. ((h.0.settings_same, h.0.files_same active_journal), refl)))
              (λ e w h. ((h.0.settings_same, h.0.files_same active_journal), h.1))

    link_evidence-post : Triple (Same p l w0) (link_evidence p j) (λ r w. Kept w × Linked r w)
    unfolding link_evidence
    link_evidence-post = record {
      at = λ w s.
          let x = conflict_evidence j.owner_id in
          check_evidence-post (p.hard_link x w).0 (p.hard_link x w).1
            (
              l.link_settings x w ∙ s.settings_same,
              l.link_other x active_journal w (λ e. cc) ∙ s.files_same active_journal,
            )
            (λ e. l.link_done x w e ∙ s.files_same active_journal)
            (λ e. Same-trans p l s (record {
              settings_same = l.link_settings x w;
              files_same = λ y. l.link_refused x y w e;
            }));
    }

    abbrev Emptied : Result SystemProxyError (Unit {0}) → World → Type 0
    Emptied (ok u) w = file active_journal w ≡ none
    Emptied (err e) w =
        (may_have_changed e ≡ true) × (file active_journal w ≡ file active_journal w0)

    Removed-Emptied :
        (w v : World) (r : Result SystemProxyError (Unit {0}))
        → file active_journal w ≡ file active_journal w0
        → Removed p l w r v
        → Emptied r v
    Removed-Emptied w v (ok u) e h = h.0
    Removed-Emptied w v (err x) e h = (h.0, h.1 active_journal ∙ e)

    Verified-ok :
        (s : SystemProxySnapshot) (w : World) (r : Result SystemProxyError (Unit {0}))
        → Verified p l s w r
        → r ≡ ok tt
        → settings w ≡ s
    Verified-ok s w (ok u) h e = h
    Verified-ok s w (err x) h e = cc

    drop_journal-Restores :
        settings w0 ≡ j.previous → Triple (Same p l w0) (drop_journal p) (Restores w0)
    unfolding drop_journal
    drop_journal-Restores same =
        Triple-bind _ _ (λ r w. (settings w ≡ settings w0) × Removed p l w0 r w)
          (remove_journal-post p l w0)
          (λ _. Triple-pure _ (λ w h. (j, stored, inl same, h.0 ∙ same, h.1.0)))
          (λ e w h. (h.1.0, h.1.1 active_journal, inl h.0))

    put_back-Restores : settings w0 ≡ j.applied → Triple (Same p l w0) (put_back p j) (Restores w0)
    unfolding put_back may_have_changed
    put_back-Restores ours =
        Triple-bind _ _ (λ r w. Applied p l w0 j.previous w × NeedsRecovery r)
          (Triple-map_err _ _ (λ r w. Applied p l w0 j.previous w) (apply-post p l j.previous w0)
            (λ a w h. (h, tt)) (λ e w h. (h, refl)))
          (λ _.
            Triple-bind _ _
              (λ r w.
                Applied p l w0 j.previous w
                × (NeedsRecovery r)
                × (r ≡ ok tt → settings w ≡ j.previous))
              (Triple-map_err _ _
                (λ r w. Applied p l w0 j.previous w × (r ≡ ok tt → settings w ≡ j.previous))
                (Triple-here p l _ (verify_exact-post p l j.previous) (λ w v r a h. (
                  record {
                    either = elim a.0.either [
                      | inl e ↦ inl (h.0.settings_same ∙ e)
                      | inr e ↦ inr (h.0.settings_same ∙ e)
                    ];
                    files_kept = λ x. h.0.files_same x ∙ a.0.files_kept x;
                  },
                  λ e. h.0.settings_same ∙ Verified-ok j.previous w r h.1 e,
                )))
                (λ a w h. (h.0, tt, h.1)) (λ e w h. (h.0, refl, λ q. cc)))
              (λ _.
                Triple-bind _ _ (λ r w. (settings w ≡ j.previous) × Emptied r w)
                  (Triple-here p l _ (remove_journal-post p l) (λ w v r a h.
                    (h.0 ∙ a.2 refl, Removed-Emptied w v r (a.0.files_kept active_journal) h.1)))
                  (λ _. Triple-pure _ (λ w h. (j, stored, inr ours, h.0, h.1)))
                  (λ e w h. (h.1.0, h.1.1, inr (j, stored, ours, h.0))))
              (λ e w h. (h.1, h.0.files_kept active_journal, settled w h.0)))
          (λ e w h. (h.1, h.0.files_kept active_journal, settled w h.0))
      where
        settled :
            (w : World)
            → Applied p l w0 j.previous w
            → (settings w ≡ settings w0)
              ⊎ ((j : SystemProxyJournal) × Stored p l active_journal w0 j
                  × (settings w0 ≡ j.applied)
                  × (settings w ≡ j.previous))
        settled w a = elim a.either [ inl e ↦ inl e | inr e ↦ inr (j, stored, ours, e) ]

    keep_foreign-Restores :
        settings w0 ≢ j.previous
        → settings w0 ≢ j.applied
        → Triple (Same p l w0) (keep_foreign p j) (Restores w0)
    unfolding keep_foreign preserve_conflict_journal
    keep_foreign-Restores not_previous not_ours =
        Triple-bind _ _ (λ r w. (settings w ≡ settings w0) × Preserved r w)
          (Triple-bind _ _ (λ r w. Kept w × Linked r w) link_evidence-post
            (λ _.
              Triple-here p l _ (remove_journal-post p l)
                (λ w v r a h. (h.0 ∙ a.0.0, preserved w v r a h.1)))
            (λ e w h. (h.0.0, (h.1, h.0.1))))
          (λ _. Triple-pure _ (λ w h. (j, stored, not_previous, not_ours, h.0, h.1.0, h.1.1)))
          (λ e w h. (h.1.0, h.1.1, inl h.0))
      where
        Preserved : Result SystemProxyError (Unit {0}) → World → Type 0
        Preserved (ok u) w =
            (file active_journal w ≡ none) × Stored p l (conflict_evidence j.owner_id) w j
        Preserved (err e) w =
            (may_have_changed e ≡ true) × (file active_journal w ≡ file active_journal w0)

        preserved :
            (w v : World) (r : Result SystemProxyError (Unit {0}))
            → Kept w × Linked (ok tt) w
            → Removed p l w r v
            → Preserved r v
        preserved w v (ok u) a h = (
          h.0,
          Stored-move (conflict_evidence j.owner_id) (conflict_evidence j.owner_id) w v j
              (h.1 (conflict_evidence j.owner_id) (λ e. cc)) a.1,
        )
        preserved w v (err e) a h = (h.0, h.1 active_journal ∙ a.0.1)

    restore_from-Restores :
        (current : SystemProxySnapshot)
        → current ≡ settings w0
        → Triple (Same p l w0) (restore_from p j current) (Restores w0)
    unfolding restore_from
    restore_from-Restores current now =
        elim (Bool-cases (holds (SystemProxySnapshot-discrete current j.previous))) [
          | inl same ↦ rw same (
              drop_journal-Restores
                (sym now ∙ holds_iff (SystemProxySnapshot-discrete current j.previous) same))
          | inr other ↦
              rw other (elim (Bool-cases (holds (SystemProxySnapshot-discrete current j.applied))) [
                | inl ours ↦ rw ours (
                    put_back-Restores
                      (sym now ∙ holds_iff (SystemProxySnapshot-discrete current j.applied) ours))
                | inr foreign ↦ rw foreign (
                    keep_foreign-Restores
                      (λ e.
                        cc (holds_of (SystemProxySnapshot-discrete current j.previous) (now ∙ e)))
                      (λ e.
                        cc (holds_of (SystemProxySnapshot-discrete current j.applied) (now ∙ e))))
              ])
        ]

  restore_journal-Restores :
      (w0 : World) (o : Option SystemProxyJournal)
      → Loads p l active_journal w0 (ok o)
      → Triple (Same p l w0) (restore_journal p o) (Restores w0)
  unfolding restore_journal
  restore_journal-Restores w0 none absent = Triple-pure _ (λ w s. (s, absent))
  restore_journal-Restores w0 (some j) stored =
      Triple-bind _ _ (λ r w. Same p l w0 w × Reads p l w0 r) (snapshot-post p l w0)
        (λ current. Triple-given (λ w h. h) (restore_from-Restores w0 j stored current))
        (λ e w h. (h.1, h.0.files_same active_journal, inl h.0.settings_same))

  -- From any world: the four outcomes of a restoration, with what each leaves behind.
  pub restore_if_owned-Restores :
      (w : World) → Restores w (restore_if_owned p w).0 (restore_if_owned p w).1
  unfolding restore_if_owned load_journal
  restore_if_owned-Restores w0 = whole.at w0 (Same-refl p l w0)
    where
      whole : Triple (Same p l w0) (restore_if_owned p) (Restores w0)
      whole =
          Triple-bind _ _ (λ r w. Same p l w0 w × Loads p l active_journal w0 r)
            (load_journal_at-post p l active_journal w0)
            (λ o. Triple-given (λ w h. h) (restore_journal-Restores w0 o))
            (λ e w h. (h.1, h.0.files_same active_journal, inl h.0.settings_same))
