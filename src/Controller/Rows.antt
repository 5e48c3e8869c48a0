-- ===== src/Controller/Rows.antt =====
-- The rows of the proofs in a status: there is one for each kind, in a fixed order, and a write
-- changes what its own kind says and nothing else.
use route_deck.Prelude.{
  ℕ, ◌≡◌, refl, ap, sym, ◌∙◌, Bool, true, false, Option, List, [], ◌∷◌, map, if◌then◌else◌, holds,
  any, arith, holds_iff, Bool-cases, inl, inr,
}
use route_deck.Controller.Status.{
  ProofKind, ProofKind-discrete, ProofState, ProofRow, proof_kinds, default_proofs, set_row,
  proof_state,
}

unfoldable pub is_kind : ProofKind → ProofKind → Bool
unfolding ProofKind-discrete
is_kind j k = holds (ProofKind-discrete j k)

abbrev pub kinds : List ProofRow → List ProofKind
kinds = map (λ row. row.kind)

pub kinds-default_proofs : kinds default_proofs ≡ proof_kinds
unfolding default_proofs
kinds-default_proofs = refl

pub kinds-set_row :
    (k : ProofKind) (p : ProofState) (l : Option ℕ) (rows : List ProofRow)
    → kinds (set_row k p l rows) ≡ kinds rows
unfolding set_row
kinds-set_row k p l [] = refl
kinds-set_row k p l (row ∷ rows) = ground (arith, kinds-set_row k p l rows)

is_listed : ProofKind → List ProofKind → Bool
is_listed k = any (λ j. is_kind j k)

all_listed : (k : ProofKind) → is_listed k proof_kinds ≡ true
unfolding is_listed is_kind
all_listed ProofKind.engine_config = refl
all_listed ProofKind.engine_process = refl
all_listed ProofKind.http_listener = refl
all_listed ProofKind.socks_listener = refl
all_listed ProofKind.health_listener = refl
all_listed ProofKind.selected_outbound_https = refl
all_listed ProofKind.local_scope_ownership = refl
all_listed ProofKind.system_proxy_ownership = refl

set_row_self :
    (k : ProofKind) (p : ProofState) (l : Option ℕ) (rows : List ProofRow)
    → is_listed k (kinds rows) ≡ true
    → proof_state k (set_row k p l rows) ≡ p
unfolding set_row proof_state is_listed is_kind
set_row_self k p l [] h = cc
set_row_self k p l (row ∷ rows) h = ground (arith, set_row_self k p l rows)

pub is_kind-eq : (j k : ProofKind) → is_kind j k ≡ true → j ≡ k
unfolding is_kind
is_kind-eq j k h = holds_iff (ProofKind-discrete j k) h

set_row_other :
    (k j : ProofKind) (p : ProofState) (l : Option ℕ) (rows : List ProofRow)
    → is_kind k j ≡ false
    → proof_state j (set_row k p l rows) ≡ proof_state j rows
unfolding set_row proof_state is_kind
set_row_other k j p l [] h = refl
set_row_other k j p l (row ∷ rows) h =
    ground (arith, set_row_other k j p l rows, is_kind-eq row.kind k, is_kind-eq row.kind j)

-- With a row for each kind, a write sets its own kind.
pub proof_state-set_row :
    (k j : ProofKind) (p : ProofState) (l : Option ℕ) (rows : List ProofRow)
    → kinds rows ≡ proof_kinds
    → proof_state j (set_row k p l rows) ≡ (if is_kind k j then p else proof_state j rows)
proof_state-set_row k j p l rows h = elim (Bool-cases (is_kind k j)) [
  | inl e ↦ rw e (
      ap (λ i. proof_state i (set_row k p l rows)) (sym (is_kind-eq k j e))
      ∙ set_row_self k p l rows (ap (is_listed k) h ∙ all_listed k))
  | inr e ↦ rw e (set_row_other k j p l rows e)
]
