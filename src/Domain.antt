-- ===== src/Domain.antt =====
-- domain.rs: what a node is, and which nodes and ports are valid.
pub mod Ports
pub mod NormalForm
pub mod Tls
pub mod Nodes
pub mod Routes
mod Examples
use route_deck.Prelude.{String}

pub record DomainError : Type 0 where
  pub message : String
