-- ===== src/Controller/Coherence/Renewing.antt =====
-- The rows after a proof that renews the traffic, and what a phase claims then.
use route_deck.Prelude.{ℕ, ◌≡◌, ◌∙◌, true, Option, none, List, if◌then◌else◌, arith}
use route_deck.Controller.Status.{
  ProofKind, ProofState, ProofRow, proof_kinds, set_row, proof_state,
}
use route_deck.Controller.Rows.{kinds, kinds-set_row, is_kind, proof_state-set_row}
use route_deck.Controller.Coherence.{all_passed, static_kinds, traffic_kinds}

-- The traffic and the scope, with a latency.
abbrev pub renewed : Option ℕ → List ProofRow → List ProofRow
renewed l rows =
    set_row ProofKind.local_scope_ownership ProofState.passed none
      (set_row ProofKind.selected_outbound_https ProofState.passed l rows)

abbrev pub owned : List ProofRow → List ProofRow
owned = set_row ProofKind.system_proxy_ownership ProofState.passed none

pub kinds-renewed :
    (l : Option ℕ) (rows : List ProofRow)
    → kinds rows ≡ proof_kinds
    → kinds (renewed l rows) ≡ proof_kinds
kinds-renewed l rows h =
    kinds-set_row ProofKind.local_scope_ownership ProofState.passed none _
    ∙ (kinds-set_row ProofKind.selected_outbound_https ProofState.passed l rows ∙ h)

-- What a kind says after it.
proof_state-renewed :
    (l : Option ℕ) (rows : List ProofRow)
    → kinds rows ≡ proof_kinds
    → (k : ProofKind)
    → proof_state k (renewed l rows) ≡ (
        if is_kind ProofKind.local_scope_ownership k
        then ProofState.passed
        else if is_kind ProofKind.selected_outbound_https k
        then ProofState.passed
        else proof_state k rows)
proof_state-renewed l rows h k = ground (
  arith,
  proof_state-set_row ProofKind.local_scope_ownership k ProofState.passed none
      (set_row ProofKind.selected_outbound_https ProofState.passed l rows)
      (kinds-set_row ProofKind.selected_outbound_https ProofState.passed l rows ∙ h),
  proof_state-set_row ProofKind.selected_outbound_https k ProofState.passed l rows h,
)

pub traffic-renewed :
    (l : Option ℕ) (rows : List ProofRow)
    → kinds rows ≡ proof_kinds
    → all_passed traffic_kinds (renewed l rows) ≡ true
unfolding is_kind
traffic-renewed l rows h = ground (
  arith,
  proof_state-renewed l rows h ProofKind.selected_outbound_https,
  proof_state-renewed l rows h ProofKind.local_scope_ownership,
)

pub static-renewed :
    (l : Option ℕ) (rows : List ProofRow)
    → kinds rows ≡ proof_kinds
    → all_passed static_kinds rows ≡ true
    → all_passed static_kinds (renewed l rows) ≡ true
unfolding is_kind
static-renewed l rows h p = ground (
  arith,
  proof_state-renewed l rows h ProofKind.engine_config,
  proof_state-renewed l rows h ProofKind.engine_process,
  proof_state-renewed l rows h ProofKind.http_listener,
  proof_state-renewed l rows h ProofKind.socks_listener,
  proof_state-renewed l rows h ProofKind.health_listener,
)

-- With the ownership on top every proof has passed.
pub all-owned :
    (rows : List ProofRow)
    → kinds rows ≡ proof_kinds
    → all_passed static_kinds rows ≡ true
    → all_passed traffic_kinds rows ≡ true
    → all_passed proof_kinds (owned rows) ≡ true
unfolding is_kind
all-owned rows h p q =
    let says : (k : ProofKind) → _ =
      λ k. proof_state-set_row ProofKind.system_proxy_ownership k ProofState.passed none rows h in
    ground (
      arith,
      says ProofKind.engine_config,
      says ProofKind.engine_process,
      says ProofKind.http_listener,
      says ProofKind.socks_listener,
      says ProofKind.health_listener,
      says ProofKind.selected_outbound_https,
      says ProofKind.local_scope_ownership,
      says ProofKind.system_proxy_ownership,
    )
