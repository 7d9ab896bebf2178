-- ===== src/Context.antt =====
-- context.Context, as far as the program uses it: `<-ctx.Done()` waits until the context is cancelled.
use nginx_k8s_loadbalancer.Base.{ℕ, String}
use nginx_k8s_loadbalancer.Result.{Result, ok, err, panic}

-- context.Background is never cancelled.
pub data Context : Type 0 where
  background : Context
  cancelled : Context

-- A function with a nil error goes on waiting for ever, or returns.
pub data Outcome : Type 0 where
  waits : Outcome
  returns : Outcome

-- `<-ctx.Done(); return nil`
abbrev pub wait : Context → Outcome
wait background = waits
wait cancelled = returns

-- The same, after a call that may wait itself.
abbrev pub then_wait : Context → Outcome → Outcome
then_wait ctx waits = waits
then_wait ctx returns = wait ctx

-- How the first goroutine of a program ends: main returns, logrus.Fatal exits with status 1, it
-- panics, or it waits for ever, and leaves the work to the others.
pub data Exit : Type 0 where
  finished : Exit
  exited : ℕ → Exit
  crashed : String → Exit
  waiting : Exit

-- `err := run(); if err != nil { logrus.Fatal(err) }`
abbrev pub exit_of : Result Outcome → Exit
exit_of (ok returns) = finished
exit_of (ok waits) = waiting
exit_of (err e) = exited 1
exit_of (panic p) = crashed p
