-- ===== src/SystemProxy/Cleanup/Tokens.antt =====
-- system_proxy.rs `clear_stale`: what a token that the user was shown permits.
use route_deck.Prelude.{
  ◌≡◌, refl, ◌⊎◌, inl, inr, true, Option, none, some, subst, Bool-cases, and-true, holds_iff, holds,
  ap, arith,
}
use route_deck.Text.{Text, Text-discrete}
use route_deck.Action.{Result, ok, err, Action}
use route_deck.Action.Triple.{
  Triple, Triple-bind, Triple-pure, Triple-require, Triple-given, Triple-weaken,
}
use route_deck.SystemProxy.Platform.{Platform}
use route_deck.SystemProxy.Snapshot.{SystemProxyError}
use route_deck.SystemProxy.Cleanup.{
  CleanupObservation, CleanupObservation-discrete, CleanupPreview, SystemProxyDiagnostics,
  SystemProxyDiagnosticState, stale, disabled, is_stale, is_disabled, expected_after,
}
use route_deck.SystemProxy.Cleanup.Desk.{
  CleanupPlatform, Desk, clear_observed, clear_previewed, on_world, on_desk, matching, take_preview,
  clear_stale,
}
use route_deck.SystemProxy.Cleanup.Classify.{IsStale, classify_cleanup_observation-IsStale}

abbrev Whatever : {A : Type 0} → A → Type 0
Whatever a = Unit {0}

Triple-any : {S E A : Type 0} {P : S → Type 0} (m : Action S E A) → Triple P m (λ r s. Unit {0})
Triple-any m = record { at = λ s p. tt }

pub is_stale-eq : (s : SystemProxyDiagnosticState) → is_stale s ≡ true → s ≡ stale
unfolding is_stale
is_stale-eq s h = ground arith

is_disabled-eq : (s : SystemProxyDiagnosticState) → is_disabled s ≡ true → s ≡ disabled
unfolding is_disabled
is_disabled-eq s h = ground arith

module _ (p : Platform) (c : CleanupPlatform p.World) where
  open c use {socket_addr, cleanup_observation}

  -- The last thing done was an observation, and it gave `o`.
  abbrev pub Found : CleanupObservation → p.World → Type 0
  Found o w = (before : p.World) × (cleanup_observation before ≡ (ok o, w))

  abbrev Observed : Result SystemProxyError CleanupObservation → p.World → Type 0
  Observed (ok o) w = Found o w
  Observed (err e) w = Unit {0}

  cleanup_observation-Observed : Triple Whatever cleanup_observation Observed
  cleanup_observation-Observed = record { at = λ w u. go w (cleanup_observation w) refl }
    where
      go :
          (w : p.World) (rs : Result SystemProxyError CleanupObservation × p.World)
          → cleanup_observation w ≡ rs
          → Observed rs.0 rs.1
      go w (ok o, w') e = (w, e)
      go w (err x, w') e = tt

  abbrev Cleared :
      CleanupObservation → Result SystemProxyError SystemProxyDiagnostics → p.World → Type 0
  Cleared o (ok r) w = (r.state ≡ disabled) × Found (expected_after o) w
  Cleared o (err e) w = Unit {0}

  clear_observed-Cleared :
      (o : CleanupObservation) → Triple Whatever (clear_observed p c o) (Cleared o)
  unfolding clear_observed
  clear_observed-Cleared o =
      Triple-bind _ _ (λ r w. Unit {0}) (Triple-any _)
        (λ owner_id.
          Triple-bind _ _ (λ r w. Unit {0}) (Triple-any _)
            (λ u.
              Triple-bind _ _ (λ r w. Unit {0}) (Triple-any _)
                (λ v.
                  Triple-bind _ _ Observed cleanup_observation-Observed
                    (λ after.
                      Triple-require _ _ _
                        (λ same.
                          Triple-require _ _ _
                            (λ off. Triple-pure _ (λ w found. (
                              is_disabled-eq _ off,
                              subst (λ x. Found x w)
                                  (holds_iff (CleanupObservation-discrete after (expected_after o))
                                    same)
                                  found,
                            )))
                            (λ w h k. tt))
                        (λ w h k. tt))
                    (λ e w h. tt))
                (λ e w h. tt))
            (λ e w h. tt))
        (λ e w h. tt)

  abbrev ClearedStale :
      CleanupObservation → Result SystemProxyError SystemProxyDiagnostics → p.World → Type 0
  ClearedStale o (ok r) w =
      IsStale socket_addr o × (r.state ≡ disabled) × Found (expected_after o) w
  ClearedStale o (err e) w = Unit {0}

  clear_previewed-ClearedStale :
      (preview : CleanupPreview)
      → Triple Whatever (clear_previewed p c preview) (ClearedStale preview.observation)
  unfolding clear_previewed
  clear_previewed-ClearedStale preview =
      Triple-bind _ _ (λ r w. Unit {0}) (Triple-any _)
        (λ current.
          Triple-require _ _ _
            (λ t.
              let (same, old) = and-true _ _ t in
              let e = holds_iff (CleanupObservation-discrete current preview.observation) same in
              let s : IsStale socket_addr current =
                (classify_cleanup_observation-IsStale socket_addr current).0 (is_stale-eq _ old) in
              subst (λ o. Triple Whatever (clear_observed p c current) (ClearedStale o)) e
                (Triple-weaken (clear_observed-Cleared current) (λ r w h. with_stale s r w h)))
            (λ w h k. tt))
        (λ e w h. tt)
    where
      with_stale :
          {o : CleanupObservation}
          → IsStale socket_addr o
          → (r : Result SystemProxyError SystemProxyDiagnostics) (w : p.World) → Cleared o r w
          → ClearedStale o r w
      with_stale s (ok r) w h = (s, h.0, h.1)
      with_stale s (err e) w h = tt

  on_world-post :
      {A : Type 0} {Q : Result SystemProxyError A → p.World → Type 0} (x : Option CleanupPreview)
      (m : Action p.World SystemProxyError A)
      → Triple Whatever m Q
      → Triple
          (λ (s : Desk p c). s.preview ≡ x)
          (on_world p c m)
          (λ r s. (s.preview ≡ x) × Q r s.world)
  unfolding on_world on_desk
  on_world-post x m t = record { at = λ s e. (e, t.at s.world tt) }

  abbrev Taken :
      Text → Option CleanupPreview → Result SystemProxyError CleanupPreview → Desk p c → Type 0
  Taken token x (ok preview) s =
      (x ≡ some (record { token = token; observation = preview.observation })) × (s.preview ≡ none)
  Taken token x (err e) s = s.preview ≡ none

  matching-Taken :
      (token : Text) (x : Option CleanupPreview) (s : Desk p c)
      → s.preview ≡ none
      → Taken token x (matching p c token x) s
  unfolding matching
  matching-Taken token none s h = h
  matching-Taken token (some preview) s h =
      elim (Bool-cases (holds (Text-discrete preview.token token))) [
        | inl same ↦
            rw same (ap some (rw (holds_iff (Text-discrete preview.token token) same) refl), h)
        | inr other ↦ rw other h
      ]

  take_preview-Taken :
      (token : Text) (x : Option CleanupPreview)
      → Triple (λ (s : Desk p c). s.preview ≡ x) (take_preview p c token) (Taken token x)
  unfolding take_preview
  take_preview-Taken token x = record {
    at = λ s e.
        subst (λ y. Taken token y (matching p c token s.preview) (record s { preview = none })) e
          (matching-Taken token s.preview _ refl);
  }

  -- What a request with a token did, from the preview it found.
  abbrev pub Clears :
      Text
      → Option CleanupPreview
      → Result SystemProxyError SystemProxyDiagnostics
      → Desk p c
      → Type 0
  Clears token x (ok r) s =
      (o : CleanupObservation) × (x ≡ some (record { token = token; observation = o }))
      × IsStale socket_addr o
      × (r.state ≡ disabled)
      × Found (expected_after o) s.world
      × (s.preview ≡ none)
  Clears token x (err e) s = (s.preview ≡ none) ⊎ (s.preview ≡ x)

  clear_previewed-Clears :
      (token : Text) (x : Option CleanupPreview) (preview : CleanupPreview)
      → Triple
          (Taken token x (ok preview))
          (on_world p c (clear_previewed p c preview))
          (Clears token x)
  clear_previewed-Clears token x preview =
      Triple-given (λ s h. (h.1, h.0))
        (λ e.
          Triple-weaken (on_world-post none _ (clear_previewed-ClearedStale preview))
            (λ r s h. finish e r s h))
    where
      finish :
          x ≡ some (record { token = token; observation = preview.observation })
          → (r : Result SystemProxyError SystemProxyDiagnostics) (s : Desk p c)
          → (s.preview ≡ none) × ClearedStale preview.observation r s.world
          → Clears token x r s
      finish e (ok r) s h = (preview.observation, e, h.1.0, h.1.1, h.1.2, h.0)
      finish e (err y) s h = inl h.0

  clear_stale-post :
      (token : Text) (x : Option CleanupPreview)
      → Triple (λ (s : Desk p c). s.preview ≡ x) (clear_stale p c token) (Clears token x)
  unfolding clear_stale
  clear_stale-post token x =
      Triple-require _ _ _
        (λ well_formed.
          Triple-bind _ _ (λ r s. (s.preview ≡ x) × Unit {0}) (on_world-post x _ (Triple-any _))
            (λ journal.
              Triple-given (λ s h. h)
                (λ u.
                  Triple-require _ _ _
                    (λ absent.
                      Triple-bind _ _ (Taken token x) (take_preview-Taken token x)
                        (clear_previewed-Clears token x) (λ e s h. inl h))
                    (λ s h k. inr h)))
            (λ e s h. inr h.0))
        (λ s h k. inr h)

  -- A cleanup that succeeds had the token of the preview at hand, which showed a stale proxy; the
  -- last observation is exactly that of the preview with the proxy off, the answer is disabled and
  -- the preview is gone. One that fails leaves the preview, or none.
  pub clear_stale-Clears :
      (token : Text) (d : Desk p c)
      → Clears token d.preview (clear_stale p c token d).0 (clear_stale p c token d).1
  clear_stale-Clears token d = (clear_stale-post token d.preview).at d refl
