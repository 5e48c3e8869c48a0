-- ===== src/SystemProxy/Journal.antt =====
-- system_proxy.rs: the recovery journal of a session and its validation.
use route_deck.Prelude.{
  ℕ, ◌<◌, ◌≡◌, refl, Bool, true, false, ◌&&◌, Option, none, some, ◌==◌, arith, ℕ_discrete, holds,
  holds_of,
}
use route_deck.Action.{Result, ok, err}
use route_deck.Text.{Text, strip_prefix}
use route_deck.Text.Decimal.{parse_uint, parse_uint-to_decimal}
use route_deck.SystemProxy.Snapshot.{
  SystemProxySnapshot, SystemProxySnapshot-discrete, SystemProxyError, routedeck, published,
  snapshot_valid, loopback_prefix,
}

pub record SystemProxyJournal : Type 0 where
  pub version : ℕ
  pub owner_id : Text
  pub previous : SystemProxySnapshot
  pub applied : SystemProxySnapshot

abbrev pub journal_version : ℕ
journal_version = 2

unfoldable pub SystemProxyJournal-discrete : Discrete SystemProxyJournal
SystemProxyJournal-discrete = hlevel ℕ_discrete

parse_port : Option Text → Option ℕ
parse_port none = none
parse_port (some port) = parse_uint 65536 port

journal_port : Option Text → Option ℕ
unfolding parse_port
journal_port none = none
journal_port (some server) = parse_port (strip_prefix loopback_prefix server)

is_expected : Result SystemProxyError SystemProxySnapshot → SystemProxySnapshot → Bool
is_expected (ok expected) applied = holds (SystemProxySnapshot-discrete expected applied)
is_expected (err e) applied = false

expected_at : Option ℕ → SystemProxyJournal → Bool
unfolding is_expected
expected_at none j = false
expected_at (some port) j = is_expected (routedeck port j.owner_id) j.applied

-- SystemProxyJournal::valid
unfoldable pub journal_valid : SystemProxyJournal → Bool
unfolding journal_port expected_at
journal_valid j =
    j.version == journal_version
    && snapshot_valid j.previous
    && expected_at (journal_port j.applied.proxy_server) j

journal_port-published :
    (port : ℕ) (owner : Text)
    → port < 65536
    → journal_port (published port owner).proxy_server ≡ some port
unfolding journal_port published
journal_port-published port owner h = parse_uint-to_decimal 65536 port h (omega arith)

pub routedeck-published :
    (port : ℕ) (owner : Text) {applied : SystemProxySnapshot}
    → routedeck port owner ≡ ok applied
    → applied ≡ published port owner
unfolding routedeck
routedeck-published port owner e = ground arith

pub flags-published : (port : ℕ) (owner : Text) → (published port owner).flags ≡ 3
unfolding published
flags-published port owner = refl

is_expected_self : (applied : SystemProxySnapshot) → is_expected (ok applied) applied ≡ true
unfolding is_expected
is_expected_self applied = holds_of (SystemProxySnapshot-discrete applied applied) refl

-- The journal that a publication writes is one that a recovery accepts.
pub journal_valid-routedeck :
    (port : ℕ) (owner : Text) (previous applied : SystemProxySnapshot)
    → port < 65536
    → snapshot_valid previous ≡ true
    → routedeck port owner ≡ ok applied
    → journal_valid (record {
      version = journal_version;
      owner_id = owner;
      previous = previous;
      applied = applied;
    })
      ≡ true
unfolding journal_valid
journal_valid-routedeck port owner previous applied h v e =
    let at_port : journal_port applied.proxy_server ≡ some port =
      rw (routedeck-published port owner e) (journal_port-published port owner h) in
    rw (v, at_port, e) (is_expected_self applied)
