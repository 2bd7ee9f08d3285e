-- ===== src/Dispatch/Rounds.antt =====
-- src/ndmpd_func.c, `ndmp_process_messages`: one round of its loop.
use ndmpd.Common.{◌≡◌, inl, inr, refl, Bool, List, [], ◌∷◌, Bool-cases}
use ndmpd.HandlerTable.{HandlerFunc}
use ndmpd.Dispatch.{
  Incoming, Connection, Loop, Next, goes_on, returns, step, process_loop, after_loop, ProcResult,
}

module _ {Body : Type 0} (run : HandlerFunc → Connection Body → Connection Body) where
  pub process_loop-nil : (b : Bool) (s : Loop Body) → process_loop run b s [] ≡ after_loop run s
  unfolding process_loop
  process_loop-nil b s = refl

  -- The three ways in which a round ends: the call returns, the connection is closed, or the loop
  -- goes on with what is left.
  pub data Round (b : Bool) (s : Loop Body) (m : Incoming Body) (ms : List (Incoming Body))
      : Type 0 where
    stopped :
        (r : ProcResult) (t : Loop Body)
        → step run b s m ≡ returns r t
        → process_loop run b s (m ∷ ms) ≡ (r, t)
        → Round b s m ms
    closed :
        (t : Loop Body)
        → step run b s m ≡ goes_on t
        → process_loop run b s (m ∷ ms) ≡ after_loop run t
        → Round b s m ms
    more :
        (t : Loop Body)
        → step run b s m ≡ goes_on t
        → process_loop run b s (m ∷ ms) ≡ process_loop run b t ms
        → Round b s m ms

  pub process_loop-cons :
      (b : Bool) (s : Loop Body) (m : Incoming Body) (ms : List (Incoming Body)) → Round b s m ms
  unfolding process_loop
  process_loop-cons b s m ms = go (step run b s m) refl
    where
      go : (n : Next Body) → step run b s m ≡ n → Round b s m ms
      go (returns r t) e = stopped r t e (rw (e, process_loop))
      go (goes_on t) e = elim (Bool-cases t.conn.conn_eof) [
        | inl q ↦ closed t e (rw (e, process_loop) (simp q))
        | inr q ↦ more t e (rw (e, process_loop) (simp q))
      ]
