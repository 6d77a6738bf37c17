-- ===== src/RuntimeTrust/Limiter.antt =====
-- packages/runtime-trust-authority/src/connection-limiter.ts: at most 16 connections that are not
-- authenticated yet.
pub mod Bound
use zima_control.Common.{ℕ, [], includes, leb, length, nat_eq}
use zima_control.Common.Action.{◌>>=◌, ◌>>◌, throw_if, gets, modify}
use zima_control.RuntimeTrust.Types.{replay, transport_failure}
use zima_control.RuntimeTrust.State.{Authority, M, add_number, remove_number}

-- The default of the constructor, which the admission service uses.
abbrev pub maximum_unauthenticated : ℕ
maximum_unauthenticated = 16

unfoldable pub register : ℕ → M (Unit {0})
register identity = do
  connections ← gets (λ s. s.unauthenticated)
  throw_if (includes connections identity) replay
  throw_if (leb maximum_unauthenticated (length connections)) transport_failure
  modify (λ s. record s { unauthenticated = add_number identity s.unauthenticated })

unfoldable pub release : ℕ → Authority → Authority
release identity s = record s { unauthenticated = remove_number identity s.unauthenticated }

unfoldable pub clear_connections : Authority → Authority
clear_connections s = record s { unauthenticated = [] }
