-- ===== src/PortableUpdate/Signed.antt =====
-- portable_update/manifest.rs `signed_manifest_with_key`: a list of files is used only if it was signed.
use route_deck.Prelude.{
  ℕ, ◌≤◌, ◌≡◌, Bool, true, ◌&&◌, Option, some, List, leb, ◌==◌, length, and-true, leb→le, subst,
}
use route_deck.Action.{Result, ok, ok-injective}
use route_deck.Results.{◌>>=◌, ◌>>◌, ensure, ok_or, bind-ok, ensure-ok, ok_or-ok}
use route_deck.PortableUpdate.{UpdateManifest, UpdateError, invalid_update, validate_manifest}
use route_deck.PortableUpdate.Sound.{IsSound, validate_manifest-IsSound}

abbrev pub manifest_limit : ℕ
manifest_limit = 262144

-- `verify` is ed25519's `verify_strict` under a key that parses; `from_slice` is serde_json's parser.
unfoldable pub signed_manifest_with_key :
    (List ℕ → List ℕ → List ℕ → Bool)
    → (List ℕ → Option UpdateManifest)
    → List ℕ
    → List ℕ
    → List ℕ
    → Result UpdateError UpdateManifest
signed_manifest_with_key verify from_slice body signature key = do
  ensure (leb (length body) manifest_limit && length signature == 64) invalid_update
  ensure (verify key body signature) invalid_update
  manifest ← ok_or (from_slice body) invalid_update
  validate_manifest manifest
  ok manifest

-- A manifest that is used is what a body of at most the limit says, the signature of that very body was
-- verified under the key, and it guarantees all that an accepted manifest does.
pub signed_manifest_with_key-IsSound :
    (verify : List ℕ → List ℕ → List ℕ → Bool) (from_slice : List ℕ → Option UpdateManifest)
    (body signature key : List ℕ) (m : UpdateManifest)
    → signed_manifest_with_key verify from_slice body signature key ≡ ok m
    → (length body ≤ manifest_limit)
      × (verify key body signature ≡ true)
      × (from_slice body ≡ some m)
      × IsSound m
unfolding signed_manifest_with_key
signed_manifest_with_key-IsSound verify from_slice body signature key m h =
    let (u1, e1, h1) =
      bind-ok (ensure (leb (length body) manifest_limit && length signature == 64) _) _ m h in
    let (u2, e2, h2) = bind-ok (ensure (verify key body signature) _) _ m h1 in
    let (n, e3, h3) = bind-ok (ok_or (from_slice body) _) _ m h2 in
    let (u4, e4, h4) = bind-ok (validate_manifest n) _ m h3 in
    let same : n ≡ m = ok-injective n m h4 in
    let (short, long) = and-true (leb (length body) manifest_limit) _ (ensure-ok _ _ u1 e1) in
    (
      leb→le _ _ short,
      ensure-ok _ _ u2 e2,
      subst (λ x. from_slice body ≡ some x) same (ok_or-ok _ _ n e3),
      subst IsSound same (validate_manifest-IsSound n e4),
    )
