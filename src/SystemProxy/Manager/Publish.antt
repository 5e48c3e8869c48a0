-- ===== src/SystemProxy/Manager/Publish.antt =====
-- system_proxy.rs `publish_loopback`: every outcome, and what it leaves behind.
use route_deck.Prelude.{
  ℕ, ◌<◌, ◌≡◌, refl, sym, ◌∙◌, ap, ◌⊎◌, inl, inr, true, none, some, List, ==_iff,
}
use route_deck.Text.{Text}
use route_deck.Action.{Result, ok, err, lift}
use route_deck.Action.Triple.{
  Triple, Triple-bind, Triple-require, Triple-lift, Triple-given, Triple-map_err,
}
use route_deck.SystemProxy.Snapshot.{
  SystemProxySnapshot, SystemProxyError, unchanged, recovery_required, may_have_changed, routedeck,
  proxy_type_direct_value,
}
use route_deck.SystemProxy.Journal.{SystemProxyJournal, journal_valid, journal_valid-routedeck}
use route_deck.SystemProxy.Platform.{Platform, PlatformLaws, active_journal}
use route_deck.SystemProxy.Manager.{
  random_hex, load_journal, publish_loopback, publish_as, publish_over, commit,
}
use route_deck.SystemProxy.Manager.Steps.{
  Same, Same-refl, Same-trans, Loads, Reads, Verified, NeedsRecovery, Triple-here,
  load_journal_at-post, snapshot-post, verify_exact-post,
}
use route_deck.SystemProxy.Manager.Steps.Writing.{Wrote, write_journal-post, apply-post}

module _ (p : Platform) (l : PlatformLaws p) where
  open p use {World, to_vec, from_slice}
  open l use {settings, file}

  -- The journal on disk leads back to the settings of `w0`.
  pub record Journaled (w0 w : World) (j : SystemProxyJournal) : Type 0 where
    pub bytes : List ℕ
    pub encoded : to_vec j ≡ some bytes
    pub at_path : file active_journal w ≡ some bytes
    pub previous_kept : j.previous ≡ settings w0
    pub is_valid : journal_valid j ≡ true
    pub was_direct : (settings w0).flags ≡ proxy_type_direct_value
    pub was_absent : file active_journal w0 ≡ none

  -- An outcome of a publication from `w0` at `port`.
  abbrev pub Publishes : World → ℕ → Result SystemProxyError (Unit {0}) → World → Type 0
  Publishes w0 port (ok u) w =
      (j : SystemProxyJournal) × Journaled w0 w j
      × (routedeck port j.owner_id ≡ ok j.applied)
      × (settings w ≡ j.applied)
  Publishes w0 port (err (unchanged m)) w = Same p l w0 w
  Publishes w0 port (err (recovery_required m)) w =
      (settings w ≡ settings w0)
      ⊎ ((j : SystemProxyJournal) × Journaled w0 w j × (settings w ≡ j.applied))

  Same-Publishes :
      (w0 : World) (port : ℕ) (e : SystemProxyError) (w : World)
      → Same p l w0 w
      → Publishes w0 port (err e) w
  Same-Publishes w0 port (unchanged m) w s = s
  Same-Publishes w0 port (recovery_required m) w s = inl s.settings_same

  failed-Publishes :
      (w0 : World) (port : ℕ) (e : SystemProxyError) (w : World)
      → may_have_changed e ≡ true
      → (settings w ≡ settings w0)
        ⊎ ((j : SystemProxyJournal) × Journaled w0 w j × (settings w ≡ j.applied))
      → Publishes w0 port (err e) w
  unfolding may_have_changed
  failed-Publishes w0 port (unchanged m) w h s = cc
  failed-Publishes w0 port (recovery_required m) w h s = s

  Journaled-move :
      (w0 w v : World) (j : SystemProxyJournal)
      → Journaled w0 w j
      → file active_journal v ≡ file active_journal w
      → Journaled w0 v j
  Journaled-move w0 w v j h e = record {
    bytes = h.bytes;
    encoded = h.encoded;
    at_path = e ∙ h.at_path;
    previous_kept = h.previous_kept;
    is_valid = h.is_valid;
    was_direct = h.was_direct;
    was_absent = h.was_absent;
  }

  Verified-NeedsRecovery :
      (s : SystemProxySnapshot) (w : World) (r : Result SystemProxyError (Unit {0}))
      → Verified p l s w r
      → NeedsRecovery r
  Verified-NeedsRecovery s w (ok u) h = tt
  Verified-NeedsRecovery s w (err e) h = h

  -- A publication from `w0` that has written its journal and perhaps the settings.
  abbrev Pending : World → SystemProxyJournal → World → Type 0
  Pending w0 j w = Journaled w0 w j × ((settings w ≡ settings w0) ⊎ (settings w ≡ j.applied))

  Pending-moved :
      (w0 : World) (j : SystemProxyJournal) {w v : World}
      → Same p l w v
      → Pending w0 j w
      → Pending w0 j v
  Pending-moved w0 j {w} {v} s h = (
    Journaled-move w0 w v j h.0 (s.files_same active_journal),
    elim h.1 [ inl e ↦ inl (s.settings_same ∙ e) | inr e ↦ inr (s.settings_same ∙ e) ],
  )

  Pending-recoverable :
      (w0 : World) (j : SystemProxyJournal) (w : World)
      → Pending w0 j w
      → (settings w ≡ settings w0)
        ⊎ ((j : SystemProxyJournal) × Journaled w0 w j × (settings w ≡ j.applied))
  Pending-recoverable w0 j w h = elim h.1 [ inl e ↦ inl e | inr e ↦ inr (j, h.0, e) ]

  confirmed-Publishes :
      (w0 : World) (port : ℕ) (j : SystemProxyJournal)
      → routedeck port j.owner_id ≡ ok j.applied
      → (w v : World) (r : Result SystemProxyError (Unit {0})) → Pending w0 j w
      → Same p l w v
      → Verified p l j.applied w r
      → Publishes w0 port r v
  confirmed-Publishes w0 port j owner w v (ok u) h s is =
      (j, Journaled-move w0 w v j h.0 (s.files_same active_journal), owner, s.settings_same ∙ is)
  confirmed-Publishes w0 port j owner w v (err e) h s is =
      failed-Publishes w0 port e v is (Pending-recoverable w0 j v (Pending-moved w0 j s h))

  module _ (w0 : World) (port : ℕ) (bound : port < 65536) where
    -- From the journal on: publication proper.
    commit-Publishes :
        (j : SystemProxyJournal)
        → j.previous ≡ settings w0
        → journal_valid j ≡ true
        → (settings w0).flags ≡ proxy_type_direct_value
        → routedeck port j.owner_id ≡ ok j.applied
        → Triple (Same p l w0) (commit p j) (Publishes w0 port)
    unfolding commit may_have_changed
    commit-Publishes j prev valid direct owner =
        Triple-bind _ _ (Wrote p l w0 j) (write_journal-post p l j w0)
          (λ _.
            Triple-bind _ _ (λ r w. Pending w0 j w × (settings w ≡ settings w0) × NeedsRecovery r)
              (Triple-here p l _ (verify_exact-post p l j.previous) (λ w v r wrote h.
                let (b, encoded, at_path, absent, kept) = wrote in
                let on_disk : Journaled w0 w j = record {
                  bytes = b;
                  encoded = encoded;
                  at_path = at_path;
                  previous_kept = prev;
                  is_valid = valid;
                  was_direct = direct;
                  was_absent = absent;
                } in
                (
                  Pending-moved w0 j h.0 (on_disk, inl kept),
                  h.0.settings_same ∙ kept,
                  Verified-NeedsRecovery _ _ r h.1,
                )))
              (λ _.
                Triple-bind _ _ (λ r w. Pending w0 j w × NeedsRecovery r)
                  (Triple-map_err _ _ (λ r w. Pending w0 j w)
                    (Triple-here p l _ (apply-post p l j.applied) (λ w v r b h. (
                      Journaled-move w0 w v j b.0.0 (h.files_kept active_journal),
                      elim h.either [ inl e ↦ inl (e ∙ b.1) | inr e ↦ inr e ],
                    )))
                    (λ a w h. (h, tt)) (λ e w h. (h, refl)))
                  (λ _.
                    Triple-here p l _ (verify_exact-post p l j.applied)
                      (λ w v r after h. confirmed-Publishes w0 port j owner w v r after.0 h.0 h.1))
                  (λ e w h. failed-Publishes w0 port e w h.1 (Pending-recoverable w0 j w h.0)))
              (λ e w h. failed-Publishes w0 port e w h.2 (inl h.1)))
          (λ e w h. failed-Publishes w0 port e w h.0 (inl h.1))

  random_hex-Same :
      (n : ℕ) (w0 : World) → Triple (Same p l w0) (random_hex p n) (λ r w. Same p l w0 w)
  unfolding random_hex lift
  random_hex-Same n w0 = record {
    at = λ w s.
        Same-trans p l s
          (record { settings_same = l.random_settings n w; files_same = λ x. l.random_file n x w });
  }

  abbrev Reads0 : World → Result SystemProxyError SystemProxySnapshot → Type 0
  Reads0 w0 (ok s) = s ≡ settings w0
  Reads0 w0 (err e) = Unit {0}

  abbrev Gives : {A : Type 0} → Result SystemProxyError A → Result SystemProxyError A → Type 0
  Gives r (ok a) = r ≡ ok a
  Gives r (err e) = Unit {0}

  module _ (w0 : World) (port : ℕ) (bound : port < 65536) (owner : Text)
      {applied : SystemProxySnapshot} (ours : routedeck port owner ≡ ok applied) where
    publish_over-Publishes :
        (previous : SystemProxySnapshot)
        → previous ≡ settings w0
        → Triple (Same p l w0) (publish_over p owner applied previous) (Publishes w0 port)
    unfolding publish_over
    publish_over-Publishes previous now =
        Triple-require _ _ _
          (λ good.
            Triple-require _ _ _
              (λ direct.
                commit-Publishes w0 port bound _ now
                  (journal_valid-routedeck port owner previous _ bound good ours)
                  (ap (λ (s : SystemProxySnapshot). s.flags) (sym now) ∙ (==_iff _ _).0 direct)
                  ours)
              (λ w s _. s))
          (λ w s _. s)

    publish_as-Publishes : Triple (Same p l w0) (publish_as p owner applied) (Publishes w0 port)
    unfolding publish_as load_journal
    publish_as-Publishes =
        Triple-bind _ _ (λ r w. Same p l w0 w × Loads p l active_journal w0 r)
          (load_journal_at-post p l active_journal w0)
          (λ existing.
            Triple-require _ _ _
              (λ absent.
                Triple-bind _ _ (λ r w. Same p l w0 w × Reads0 w0 r)
                  (Triple-map_err _ _ (λ r w. Same p l w0 w × Reads p l w0 r)
                    (Triple-given (λ w h. h) (λ _. snapshot-post p l w0)) (λ a w h. h)
                    (λ e w h. (h.0, tt)))
                  (λ previous. Triple-given (λ w h. h) (publish_over-Publishes previous))
                  (λ e w h. Same-Publishes w0 port _ w h.0))
              (λ w h _. inl h.0.settings_same))
          (λ e w h. Same-Publishes w0 port e w h.0)

  -- From any world: success means that the settings of the session are in force over settings that
  -- were direct, with a valid journal on disk that leads back to them; an `unchanged` error means
  -- that neither the settings nor a file changed; and after any other error the settings are the
  -- old ones, or they are the session's with that journal on disk.
  pub publish_loopback-Publishes :
      (port : ℕ)
      → port < 65536
      → (w : World) → Publishes w port (publish_loopback p port w).0 (publish_loopback p port w).1
  unfolding publish_loopback
  publish_loopback-Publishes port bound w0 = whole.at w0 (Same-refl p l w0)
    where
      whole : Triple (Same p l w0) (publish_loopback p port) (Publishes w0 port)
      whole =
          Triple-bind _ _ (λ r w. Same p l w0 w)
            (Triple-map_err _ _ (λ r w. Same p l w0 w) (random_hex-Same 16 w0) (λ a w s. s)
              (λ e w s. s))
            (λ owner.
              Triple-bind _ _ (λ r w. Same p l w0 w × Gives (routedeck port owner) r)
                (Triple-map_err _ _ (λ r w. Same p l w0 w × (routedeck port owner ≡ r))
                  (Triple-lift _ (λ w s. (s, refl))) (λ a w h. h) (λ e w h. (h.0, tt)))
                (λ applied.
                  Triple-given (λ w h. h) (λ ours. publish_as-Publishes w0 port bound owner ours))
                (λ e w h. Same-Publishes w0 port e w h.0))
            (λ e w s. Same-Publishes w0 port e w s)
