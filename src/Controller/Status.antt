-- ===== src/Controller/Status.antt =====
-- application.rs: the status that the controller publishes, its proofs and its errors.
use route_deck.Prelude.{
  ℕ, String, Bool, true, false, ◌||◌, Option, none, some, List, [], ◌∷◌, map, if◌then◌else◌, holds,
  any,
}
use route_deck.Text.{Text, Text-discrete, codes}

pub data RuntimePhase : Type 0 where
  disconnected preparing validating_config starting_core verifying_listener : RuntimePhase
  proving_traffic outbound_verified applying_system_proxy local_proxy_ready : RuntimePhase
  system_proxy_ready tun_ready restoring_system_proxy blocked_by_conflict degraded : RuntimePhase
  rolling_back stopping_core disconnected_with_error recovery_required : RuntimePhase

pub data RuntimeScope : Type 0 where
  local_only system_proxy tun : RuntimeScope

pub data RuntimeMode : Type 0 where
  local_only system_proxy tun : RuntimeMode

pub data ProofKind : Type 0 where
  engine_config engine_process http_listener socks_listener health_listener : ProofKind
  selected_outbound_https local_scope_ownership system_proxy_ownership : ProofKind

unfoldable pub ProofKind-discrete : Discrete ProofKind
ProofKind-discrete = hlevel

pub data ProofState : Type 0 where
  not_run pending passed failed : ProofState

pub record ProofRow : Type 0 where
  pub kind : ProofKind
  pub state : ProofState
  pub latency_ms : Option ℕ

pub record PublicPorts : Type 0 where
  pub http : ℕ
  pub socks : ℕ
  pub health : ℕ

pub data PublicErrorCode : Type 0 where
  import_rejected subscription_url_invalid subscription_policy_blocked : PublicErrorCode
  subscription_fetch_failed subscription_response_too_large : PublicErrorCode
  subscription_fetch_timeout subscription_invalid_encoding preview_missing : PublicErrorCode
  preview_token_invalid recovery_required active_session_conflict session_changed : PublicErrorCode
  node_not_found runtime_failure command_failed : PublicErrorCode

pub data PublicErrorStage : Type 0 where
  import subscription_url subscription_dns subscription_fetch : PublicErrorStage
  subscription_response session_recovery start generate_config engine_layout : PublicErrorStage
  engine_integrity config_check start_engine verify_listeners prove_traffic : PublicErrorStage
  engine_process stop_engine system_proxy_publish system_proxy_restore : PublicErrorStage
  system_proxy_ownership session_storage random monitor command runtime : PublicErrorStage

pub record PublicError : Type 0 where
  pub code : PublicErrorCode
  pub stage : PublicErrorStage
  pub message : String
  pub detail : Option Text

unfoldable pub fixed : PublicErrorCode → PublicErrorStage → String → PublicError
fixed c s m = record { code = c; stage = s; message = m; detail = none }

pub record RuntimeStatus : Type 0 where
  pub revision : ℕ
  pub connection_requested : Bool
  pub reconnect_paused : Bool
  pub retry_delay_seconds : Option ℕ
  pub session_id : Option Text
  pub scope : RuntimeScope
  pub mode : RuntimeMode
  pub phase : RuntimePhase
  pub node_id : Option Text
  pub ports : Option PublicPorts
  pub route_check_ms : Option ℕ
  pub steady_latency_ms : Option ℕ
  pub engine_version : Option Text
  pub proofs : List ProofRow
  pub error : Option PublicError

abbrev pub proof_kinds : List ProofKind
proof_kinds =
    ProofKind.engine_config ∷ ProofKind.engine_process ∷ ProofKind.http_listener
    ∷ ProofKind.socks_listener ∷ ProofKind.health_listener ∷ ProofKind.selected_outbound_https
    ∷ ProofKind.local_scope_ownership ∷ ProofKind.system_proxy_ownership ∷ []

unfoldable pub default_proofs : List ProofRow
default_proofs =
    map (λ k. record { kind = k; state = ProofState.not_run; latency_ms = none }) proof_kinds

-- RuntimeStatus::default
unfoldable pub default_status : RuntimeStatus
unfolding default_proofs
default_status = record {
  revision = 0;
  connection_requested = false;
  reconnect_paused = false;
  retry_delay_seconds = none;
  session_id = none;
  scope = RuntimeScope.local_only;
  mode = RuntimeMode.local_only;
  phase = RuntimePhase.disconnected;
  node_id = none;
  ports = none;
  route_check_ms = none;
  steady_latency_ms = none;
  engine_version = none;
  proofs = default_proofs;
  error = none;
}

-- The row of the first proof of the kind.
unfoldable pub set_row : ProofKind → ProofState → Option ℕ → List ProofRow → List ProofRow
unfolding ProofKind-discrete
set_row k s l [] = []
set_row k s l (row ∷ rows) =
    if holds (ProofKind-discrete row.kind k)
    then record row { state = s; latency_ms = l } ∷ rows
    else row ∷ set_row k s l rows

-- What a proof of the kind says, `not_run` if there is no row.
unfoldable pub proof_state : ProofKind → List ProofRow → ProofState
unfolding ProofKind-discrete
proof_state k [] = ProofState.not_run
proof_state k (row ∷ rows) =
    if holds (ProofKind-discrete row.kind k) then row.state else proof_state k rows

-- RuntimeError: its stage is the text by which it is sorted.
pub record RuntimeError : Type 0 where
  pub stage : Text
  pub message : Text

unfoldable pub stage_is : Text → String → Bool
stage_is stage s = holds (Text-discrete stage (codes s))

unfoldable pub is_safe_helper_start_stage : Text → Bool
unfolding stage_is
is_safe_helper_start_stage stage = any (stage_is stage) (
    "tun_helper_pipe" ∷ "tun_helper_protocol" ∷ "tun_helper_identity" ∷ "tun_helper_launch"
    ∷ "tun_helper_start" ∷ "tun_helper_exit" ∷ [])

abbrev named_stages : List (String × PublicErrorStage)
named_stages =
    ("session_recovery", PublicErrorStage.session_recovery)
    ∷ ("tun_uac_cancelled", PublicErrorStage.start)
    ∷ ("tun_preflight", PublicErrorStage.start)
    ∷ ("generate_config", PublicErrorStage.generate_config)
    ∷ ("engine_layout", PublicErrorStage.engine_layout)
    ∷ ("engine_integrity", PublicErrorStage.engine_integrity)
    ∷ ("config_check", PublicErrorStage.config_check)
    ∷ ("start_engine", PublicErrorStage.start_engine)
    ∷ ("verify_listeners", PublicErrorStage.verify_listeners)
    ∷ ("prove_traffic", PublicErrorStage.prove_traffic)
    ∷ ("tun_capture", PublicErrorStage.prove_traffic)
    ∷ ("engine_process", PublicErrorStage.engine_process)
    ∷ ("stop_engine", PublicErrorStage.stop_engine)
    ∷ ("system_proxy_publish", PublicErrorStage.system_proxy_publish)
    ∷ ("system_proxy_restore", PublicErrorStage.system_proxy_restore)
    ∷ ("system_proxy_ownership", PublicErrorStage.system_proxy_ownership)
    ∷ ("session_storage", PublicErrorStage.session_storage)
    ∷ ("random", PublicErrorStage.random)
    ∷ ("monitor", PublicErrorStage.monitor)
    ∷ []

stage_of : Text → List (String × PublicErrorStage) → PublicErrorStage
unfolding stage_is
stage_of stage [] = PublicErrorStage.runtime
stage_of stage ((s, p) ∷ more) = if stage_is stage s then p else stage_of stage more

unfoldable pub public_stage : Text → PublicErrorStage
unfolding stage_of is_safe_helper_start_stage
public_stage stage =
    if is_safe_helper_start_stage stage
    then PublicErrorStage.start_engine
    else stage_of stage named_stages

-- The stages whose message is shown, redacted.
has_detail : PublicErrorStage → Bool
has_detail PublicErrorStage.start = true
has_detail PublicErrorStage.config_check = true
has_detail PublicErrorStage.verify_listeners = true
has_detail PublicErrorStage.prove_traffic = true
has_detail PublicErrorStage.engine_process = true
has_detail PublicErrorStage.stop_engine = true
has_detail PublicErrorStage.system_proxy_publish = true
has_detail PublicErrorStage.system_proxy_restore = true
has_detail PublicErrorStage.system_proxy_ownership = true
has_detail _ = false

-- The redaction of a text is an argument.
unfoldable pub public_runtime_error : RuntimeError → (Text → Text) → PublicError
unfolding public_stage is_safe_helper_start_stage has_detail
public_runtime_error e redact =
    let stage = public_stage e.stage in
    record {
      code = PublicErrorCode.runtime_failure;
      stage = stage;
      message = "The RouteDeck connection operation failed";
      detail =
          if is_safe_helper_start_stage e.stage || has_detail stage
          then some (redact e.message)
          else none;
    }
