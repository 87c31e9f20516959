-- ===== src/Peer.antt =====
-- internal/bridge/protocol.go: `Peer`, what a session advertises of its endpoint.
use cross_session_codex.Common.{String, List}
use cross_session_codex.Json.{ℤ, Fields}

pub record Peer : Type 0 where
  pub pid : ℤ
  pub start : String
  pub domain : String
  pub socket : String
  pub name : String
  pub thread : String
  pub host_pid : ℤ
  pub host_start : String
  pub features : List String
  pub ref : String
  pub cwd : String
  pub status : String
  pub activity : Fields
  pub version : String
  pub protocol : ℤ

-- peerKey
pub record PeerKey : Type 0 where
  pub token : String
  pub start : String
  pub domain : String
