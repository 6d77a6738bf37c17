-- ===== src/RuntimeTrust/Limiter/Bound.antt =====
-- The limiter's bound.
use zima_control.Common.{
  ℕ, ◌≤◌, List, [], ◌∷◌, not, length, ◌==◌, nat_eq, arith, length-append, length-select,
}
use zima_control.RuntimeTrust.State.{Authority}
use zima_control.RuntimeTrust.Limiter.{
  register, release, clear_connections, maximum_unauthenticated,
}

-- The operations of the limiter, in any order.
pub data LimiterCall : Type 0 where
  registers : ℕ → LimiterCall
  releases : ℕ → LimiterCall
  clears_connections : LimiterCall

unfoldable pub limiter_calls : List LimiterCall → Authority → Authority
limiter_calls [] s = s
limiter_calls (registers identity ∷ cs) s = limiter_calls cs (register identity s).1
limiter_calls (releases identity ∷ cs) s = limiter_calls cs (release identity s)
limiter_calls (clears_connections ∷ cs) s = limiter_calls cs (clear_connections s)

register-length :
    (identity : ℕ) (s : Authority)
    → length s.unauthenticated ≤ maximum_unauthenticated
    → length (register identity s).1.unauthenticated ≤ maximum_unauthenticated
unfolding register
register-length identity s h = ground (arith, length-append s.unauthenticated (identity ∷ []))

-- However connections register and are released, at most 16 are registered at a time.
pub at_most_sixteen :
    (cs : List LimiterCall) (s : Authority)
    → length s.unauthenticated ≤ 16
    → length (limiter_calls cs s).unauthenticated ≤ 16
unfolding limiter_calls release clear_connections
at_most_sixteen [] s h = h
at_most_sixteen (registers identity ∷ cs) s h = at_most_sixteen cs _ (register-length identity s h)
at_most_sixteen (releases identity ∷ cs) s h =
    at_most_sixteen cs _
      (omega (arith, h, length-select (λ x. not (x == identity)) s.unauthenticated))
at_most_sixteen (clears_connections ∷ cs) s h = at_most_sixteen cs _ (omega arith)
