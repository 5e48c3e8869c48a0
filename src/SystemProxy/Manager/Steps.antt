-- ===== src/SystemProxy/Manager/Steps.antt =====
-- system_proxy.rs, what each helper of the manager reads and reports.
pub mod Writing
use route_deck.Prelude.{
  ℕ, ◌+◌, ◌≤◌, ◌≡◌, ◌≢◌, refl, sym, ap, ◌∙◌, ◌⊎◌, inl, inr, Bool, true, false, Option, none, some,
  List, ltb, length, take, whole_of_take, arith, holds_iff, Bool-cases, le_of_ltb-false,
}
use route_deck.Action.{Result, ok, err, lift, require}
use route_deck.Action.Triple.{Triple, Triple-bind, Triple-lift, Triple-test}
use route_deck.SystemProxy.Snapshot.{
  SystemProxySnapshot, SystemProxySnapshot-discrete, SystemProxyError, may_have_changed,
  recovery_required,
}
use route_deck.SystemProxy.Journal.{SystemProxyJournal, journal_valid}
use route_deck.SystemProxy.Platform.{
  Platform, PlatformLaws, FilePath, active_journal, FileRead, missing, unreadable, contents,
  RemoveOutcome, removed, not_found, remove_failed,
}
use route_deck.SystemProxy.Manager.{
  Io, max_journal_bytes, call, check_parsed, decode_journal, load_journal_at, serialized,
  write_journal, verify_exact, is_removed, remove_journal,
}

-- An error after which the operation may have changed something.
abbrev pub NeedsRecovery : {A : Type 0} → Result SystemProxyError A → Type 0
NeedsRecovery (ok a) = Unit {0}
NeedsRecovery (err e) = may_have_changed e ≡ true

module _ (p : Platform) (l : PlatformLaws p) where
  open p use {World, to_vec, from_slice}
  open l use {settings, file}

  -- Neither the settings nor any file differs.
  pub record Same (w w' : World) : Type 0 where
    pub settings_same : settings w' ≡ settings w
    pub files_same : (x : FilePath) → file x w' ≡ file x w

  pub Same-refl : (w : World) → Same w w
  Same-refl w = record { settings_same = refl; files_same = λ x. refl }

  pub Same-trans : {u v w : World} → Same u v → Same v w → Same u w
  Same-trans a b = record {
    settings_same = b.settings_same ∙ a.settings_same;
    files_same = λ x. b.files_same x ∙ a.files_same x;
  }

  -- A journal that a recovery accepts lies at the path.
  pub record Stored (x : FilePath) (w : World) (j : SystemProxyJournal) : Type 0 where
    pub bytes : List ℕ
    pub at_path : file x w ≡ some bytes
    pub parses : from_slice bytes ≡ some j
    pub fits : length bytes ≤ max_journal_bytes
    pub is_valid : journal_valid j ≡ true

  -- An operation described from every state it may start in, used at the state it does start in.
  pub Triple-here :
      {A : Type 0} {P : World → Type 0} {m : Io p A}
      {R : Result SystemProxyError A → World → Type 0}
      (Q : World → Result SystemProxyError A → World → Type 0)
      → ((w : World) → Triple (Same w) m (Q w))
      → ((w v : World) (r : Result SystemProxyError A) → P w → Q w r v → R r v)
      → Triple P m R
  Triple-here {m} Q t h = record { at = λ w h'. h w _ _ h' ((t w).at w (Same-refl w)) }

  abbrev pub Loads : FilePath → World → Result SystemProxyError (Option SystemProxyJournal) → Type 0
  Loads x w (ok none) = file x w ≡ none
  Loads x w (ok (some j)) = Stored x w j
  Loads x w (err e) = may_have_changed e ≡ true

  decoded-Loads :
      (x : FilePath) (w : World) (b : List ℕ)
      → file x w ≡ some b
      → length b ≤ max_journal_bytes
      → (o : Option SystemProxyJournal) → from_slice b ≡ o
      → Loads x w (check_parsed p o)
  unfolding check_parsed may_have_changed
  decoded-Loads x w b e fits none parse = refl
  decoded-Loads x w b e fits (some j) parse = elim (Bool-cases (journal_valid j)) [
    | inl good ↦
        rw good (record { bytes = b; at_path = e; parses = parse; fits = fits; is_valid = good })
    | inr bad ↦ rw bad refl
  ]

  decode_journal-Loads :
      (x : FilePath) (w : World) (read : FileRead)
      → (read ≡ missing → file x w ≡ none)
      → ((b : List ℕ)
          → read ≡ contents b
          → (whole : List ℕ) × (file x w ≡ some whole) × (b ≡ take (max_journal_bytes + 1) whole))
      → Loads x w (decode_journal p read)
  unfolding decode_journal may_have_changed
  decode_journal-Loads x w missing gone here = gone refl
  decode_journal-Loads x w unreadable gone here = refl
  decode_journal-Loads x w (contents b) gone here =
      elim (Bool-cases (ltb max_journal_bytes (length b))) [
        | inl big ↦ rw big refl
        | inr small ↦
            let (whole, at_x, cut) = here b refl in
            let fits : length b ≤ max_journal_bytes = le_of_ltb-false _ _ small in
            rw small (
              decoded-Loads x w b
                (at_x ∙ ap some (whole_of_take (max_journal_bytes + 1) cut (omega arith))) fits
                (from_slice b) refl)
      ]

  pub load_journal_at-post :
      (x : FilePath) (w0 : World)
      → Triple (Same w0) (load_journal_at p x) (λ r w. Same w0 w × Loads x w0 r)
  unfolding load_journal_at lift
  load_journal_at-post x w0 = record {
    at = λ w s. (
      Same-trans s (record {
        settings_same = l.read_settings x _ w;
        files_same = λ y. l.read_keeps x y _ w;
      }),
      decode_journal-Loads x w0 _ (λ e. sym (s.files_same x) ∙ l.read_missing x _ w e)
          (λ b e.
            let (whole, at_x, cut) = l.read_contents x _ w b e in
            (whole, sym (s.files_same x) ∙ at_x, cut)),
    );
  }

  abbrev pub Reads : World → Result SystemProxyError SystemProxySnapshot → Type 0
  Reads w (ok s) = s ≡ settings w
  Reads w (err e) = may_have_changed e ≡ true

  Reads-intro :
      (w : World) (r : Result SystemProxyError SystemProxySnapshot)
      → ((s : SystemProxySnapshot) → r ≡ ok s → s ≡ settings w)
      → ((e : SystemProxyError) → r ≡ err e → may_have_changed e ≡ true)
      → Reads w r
  Reads-intro w (ok s) h k = h s refl
  Reads-intro w (err e) h k = k e refl

  pub snapshot-post : (w0 : World) → Triple (Same w0) p.snapshot (λ r w. Same w0 w × Reads w0 r)
  snapshot-post w0 = record {
    at = λ w s. (
      Same-trans s
          (record { settings_same = l.snapshot_settings w; files_same = λ x. l.snapshot_file x w }),
      Reads-intro w0 _ (λ c e. l.snapshot_reads w c e ∙ s.settings_same) (l.snapshot_error w),
    );
  }

  abbrev pub Verified : SystemProxySnapshot → World → Result SystemProxyError (Unit {0}) → Type 0
  Verified s w (ok u) = settings w ≡ s
  Verified s w (err e) = may_have_changed e ≡ true

  pub verify_exact-post :
      (s : SystemProxySnapshot) (w0 : World)
      → Triple (Same w0) (verify_exact p s) (λ r w. Same w0 w × Verified s w0 r)
  unfolding verify_exact may_have_changed
  verify_exact-post s w0 =
      Triple-bind _ _ (λ r w. Same w0 w × Reads w0 r) (snapshot-post w0)
        (λ c.
          Triple-test _ _
            (λ w (s', reads) same.
              (s', sym reads ∙ holds_iff (SystemProxySnapshot-discrete c s) same))
            (λ w (s', reads) differs. (s', refl)))
        (λ e w h. h)
