-- ===== src/SystemProxy/Manager/Steps/Writing.antt =====
-- system_proxy.rs, what each helper of the manager writes and removes.
use route_deck.Prelude.{
  ℕ, ◌≡◌, ◌≢◌, refl, sym, ◌∙◌, ◌⊎◌, inl, inr, Bool, true, false, Option, none, some, List,
}
use route_deck.Action.{Result, ok, err, require}
use route_deck.Action.Triple.{Triple, Triple-bind, Triple-lift, Triple-test}
use route_deck.SystemProxy.Snapshot.{
  SystemProxySnapshot, SystemProxyError, may_have_changed, recovery_required,
}
use route_deck.SystemProxy.Journal.{SystemProxyJournal}
use route_deck.SystemProxy.Platform.{
  Platform, PlatformLaws, FilePath, active_journal, RemoveOutcome, removed, not_found,
  remove_failed,
}
use route_deck.SystemProxy.Manager.{call, serialized, write_journal, is_removed, remove_journal}
use route_deck.SystemProxy.Manager.Steps.{Same, Same-trans, NeedsRecovery}

module _ (p : Platform) (l : PlatformLaws p) where
  open p use {World, to_vec, from_slice}
  open l use {settings, file}

  Triple-call :
      {P : World → Type 0} {Q : Result SystemProxyError (Unit {0}) → World → Type 0}
      (f : World → Bool × World) (e : SystemProxyError)
      → ((w : World) → P w → (f w).0 ≡ true → Q (ok tt) (f w).1)
      → ((w : World) → P w → (f w).0 ≡ false → Q (err e) (f w).1)
      → Triple P (call p f e) Q
  unfolding call
  Triple-call {Q = Q} f e h k = record {
    at = λ w h'.
        (Triple-test {P = λ v. v ≡ (f w).1} {Q = Q} (f w).0 e (λ v q t. rw q (h w h' t))
            (λ v q t. rw q (k w h' t))).at
          (f w).1 refl;
  }

  -- Only a complete journal, in a file that was not there, counts as written.
  abbrev pub Wrote :
      World → SystemProxyJournal → Result SystemProxyError (Unit {0}) → World → Type 0
  Wrote w0 j (ok u) w =
      (b : List ℕ) × (to_vec j ≡ some b)
      × (file active_journal w ≡ some b)
      × (file active_journal w0 ≡ none)
      × (settings w ≡ settings w0)
  Wrote w0 j (err e) w = (may_have_changed e ≡ true) × (settings w ≡ settings w0)

  abbrev Serialized : SystemProxyJournal → Result SystemProxyError (List ℕ) → Type 0
  Serialized j (ok b) = to_vec j ≡ some b
  Serialized j (err e) = may_have_changed e ≡ true

  serialized-Serialized :
      (j : SystemProxyJournal) (o : Option (List ℕ)) → to_vec j ≡ o → Serialized j (serialized p o)
  unfolding serialized may_have_changed
  serialized-Serialized j none e = refl
  serialized-Serialized j (some b) e = e

  pub write_journal-post :
      (j : SystemProxyJournal) (w0 : World) → Triple (Same p l w0) (write_journal p j) (Wrote w0 j)
  unfolding write_journal may_have_changed
  write_journal-post j w0 =
      Triple-bind _ _ (λ r w. Same p l w0 w × NeedsRecovery r)
        (Triple-call _ _
          (λ w s t. (
            Same-trans p l s (record {
              settings_same = l.parent_settings w;
              files_same = λ x. l.parent_file x w;
            }),
            tt,
          ))
          (λ w s t. (
            Same-trans p l s (record {
              settings_same = l.parent_settings w;
              files_same = λ x. l.parent_file x w;
            }),
            refl,
          )))
        (λ _.
          Triple-bind _ _ (λ r w. Same p l w0 w × Serialized j r)
            (Triple-lift _ (λ w s. (s.0, serialized-Serialized j _ refl)))
            (λ b.
              Triple-bind _ _
                (λ r w.
                  NeedsRecovery r
                  × (r ≡ ok tt → file active_journal w0 ≡ none)
                  × (to_vec j ≡ some b)
                  × (settings w ≡ settings w0))
                (Triple-call _ _
                  (λ w s t. (
                    tt,
                    (λ _.
                        sym (s.0.files_same active_journal)
                        ∙ l.create_exclusive active_journal w t),
                    s.1,
                    l.create_settings active_journal w ∙ s.0.settings_same,
                  ))
                  (λ w s t.
                    (refl, (λ q. cc), s.1, l.create_settings active_journal w ∙ s.0.settings_same)))
                (λ _.
                  Triple-call _ _
                    (λ w s t. (
                      b,
                      s.2,
                      l.write_done active_journal b w t,
                      s.1 refl,
                      l.write_settings active_journal b w ∙ s.3,
                    ))
                    (λ w s t. (refl, l.write_settings active_journal b w ∙ s.3)))
                (λ e w h. (h.0, h.3)))
            (λ e w h. (h.1, h.0.settings_same)))
        (λ e w h. (h.1, h.0.settings_same))

  -- The journal is gone, or nothing was removed; no other file is touched.
  abbrev pub Removed : World → Result SystemProxyError (Unit {0}) → World → Type 0
  Removed w0 (ok u) w =
      (file active_journal w ≡ none) × ((x : FilePath) → active_journal ≢ x → file x w ≡ file x w0)
  Removed w0 (err e) w = (may_have_changed e ≡ true) × ((x : FilePath) → file x w ≡ file x w0)

  pub remove_journal-post :
      (w0 : World)
      → Triple (Same p l w0) (remove_journal p) (λ r w. (settings w ≡ settings w0) × Removed w0 r w)
  unfolding remove_journal may_have_changed require
  remove_journal-post w0 = record {
    at = λ w s.
        finish (p.remove_file active_journal w)
          (l.remove_settings active_journal w ∙ s.settings_same) (l.remove_done active_journal w)
          (λ x other. l.remove_other active_journal x w other ∙ s.files_same x)
          (λ e x. l.remove_refused active_journal x w e ∙ s.files_same x);
  }
    where
      finish :
          (o : RemoveOutcome × World)
          → settings o.1 ≡ settings w0
          → (o.0 ≢ remove_failed → file active_journal o.1 ≡ none)
          → ((x : FilePath) → active_journal ≢ x → file x o.1 ≡ file x w0)
          → (o.0 ≡ remove_failed → (x : FilePath) → file x o.1 ≡ file x w0)
          → let rs =
              require
                (is_removed p o.0)
                (recovery_required "could not remove proxy recovery journal")
                o.1 in
            (settings rs.1 ≡ settings w0) × Removed w0 rs.0 rs.1
      finish (removed, v) kept gone others refused = (kept, (gone (λ e. cc), others))
      finish (not_found, v) kept gone others refused = (kept, (gone (λ e. cc), others))
      finish (remove_failed, v) kept gone others refused = (kept, (refl, refused refl))

  -- A write of the settings leaves the old ones or the new ones, and no file changes.
  pub record Applied (w0 : World) (s : SystemProxySnapshot) (w : World) : Type 0 where
    pub either : (settings w ≡ settings w0) ⊎ (settings w ≡ s)
    pub files_kept : (x : FilePath) → file x w ≡ file x w0

  pub apply-post :
      (s : SystemProxySnapshot) (w0 : World)
      → Triple (Same p l w0) (p.apply s) (λ r w. Applied w0 s w)
  apply-post s w0 = record {
    at = λ w same. record {
      either = elim (l.apply_settings s w) [ inl e ↦ inl (e ∙ same.settings_same) | inr e ↦ inr e ];
      files_kept = λ x. l.apply_file s x w ∙ same.files_same x;
    };
  }
