-- ===== src/Walg/Pipeline/Failure.antt =====
-- Failures of `runPipedPair` of src/backup/walg-wrapper.service.ts.
use backups_microservice.Prelude.{
  ℕ, ◌≡◌, refl, subst, ◌≢◌, true, false, List, [], ◌∷◌, ◌++◌, Option, none, some, arith,
}
use backups_microservice.Js.{Text}
use backups_microservice.Walg.Pipeline.{
  WalgResult, Child, producer, consumer, PipeEvent, producer_stderr, consumer_stdout,
  consumer_stderr, stream_ended, spawn_failed, closed, Pipe, Pair, start, append, finish,
  on_stream_end, on_spawn_failed, on_close, step, run_events, run_piped_pair,
}

abbrev pub Has : Child → List Child → Type 0
Has c [] = ⊥
Has producer (producer ∷ cs) = Unit
Has consumer (consumer ∷ cs) = Unit
Has c (d ∷ cs) = Has c cs

-- The stream has failed, and the promise has not resolved to a success.
record Failed (s : Pipe) : Type 0 where
  failed : s.stream_failure ≡ true
  no_success : (r : WalgResult) → s.resolved ≡ some r → r.exit_code ≡ 1

finish-Failed : (m : Text) (s : Pipe) → Failed s → Failed (finish m s)
unfolding finish
finish-Failed m s h = ground arith

step-Failed : (pr : Pair) (e : PipeEvent) (s : Pipe) → Failed s → Failed (step pr e s)
unfolding step append
step-Failed pr (producer_stderr d) s h = ground arith
step-Failed pr (consumer_stdout d) s h = ground arith
step-Failed pr (consumer_stderr d) s h = ground arith
step-Failed pr (stream_ended e) s h = finish-Failed pr.success_message _ (ended e)
  where
    ended : (e : Option Text) → Failed (on_stream_end pr e s)
    ended none = unfold on_stream_end in ground arith
    ended (some e) = unfold on_stream_end in ground arith
step-Failed pr (spawn_failed producer e) s h =
    finish-Failed pr.success_message _ (unfold on_spawn_failed in ground arith)
step-Failed pr (spawn_failed consumer e) s h =
    finish-Failed pr.success_message _ (unfold on_spawn_failed in ground arith)
step-Failed pr (closed producer code) s h =
    finish-Failed pr.success_message _ (unfold on_close in ground arith)
step-Failed pr (closed consumer code) s h =
    finish-Failed pr.success_message _ (unfold on_close in ground arith)

run_events-Failed :
    (pr : Pair) (es : List PipeEvent) (s : Pipe) → Failed s → Failed (run_events pr es s)
unfolding run_events
run_events-Failed pr [] s h = h
run_events-Failed pr (e ∷ es) s h = run_events-Failed pr es (step pr e s) (step-Failed pr e s h)

run_events-append :
    (pr : Pair) (es fs : List PipeEvent) (s : Pipe)
    → run_events pr (es ++ fs) s ≡ run_events pr fs (run_events pr es s)
unfolding run_events
run_events-append pr [] fs s = refl
run_events-append pr (e ∷ es) fs s = run_events-append pr es fs (step pr e s)

fails_now :
    (pr : Pair) (e : Text) (s : Pipe)
    → s.resolved ≡ none
    → Failed (finish pr.success_message (on_stream_end pr (some e) s))
fails_now pr e s h = finish-Failed pr.success_message _ (unfold on_stream_end in ground arith)

-- An error of the pipe before the promise has resolved makes the result a failure, whatever the
-- children report before or after it.
pub stream_error_is_terminal :
    (pr : Pair) (before after : List PipeEvent) (e : Text) (r : WalgResult)
    → run_piped_pair pr before ≡ none
    → run_piped_pair pr (before ++ stream_ended (some e) ∷ after) ≡ some r
    → r.exit_code ≡ 1
unfolding run_piped_pair run_events step
stream_error_is_terminal pr before after e r open_still h =
    (run_events-Failed pr after _ (step_fails (run_events pr before start) open_still)).no_success r
      (subst (λ (t : Pipe). t.resolved ≡ some r)
        (run_events-append pr before (stream_ended (some e) ∷ after) start) h)
  where
    step_fails : (s : Pipe) → s.resolved ≡ none → Failed (step pr (stream_ended (some e)) s)
    step_fails s o = unfold step in fails_now pr e s o

-- While one child has failed, or the pipe has, a child that still runs has been sent SIGTERM.
pub record Guarded (s : Pipe) : Type 0 where
  pub after_producer :
      s.producer_done ≡ true
      → s.producer_exit_code ≢ 0
      → s.consumer_done ≡ false
      → Has consumer s.terminated
  pub after_consumer :
      s.consumer_done ≡ true
      → s.consumer_exit_code ≢ 0
      → s.producer_done ≡ false
      → Has producer s.terminated
  pub producer_after_stream :
      s.stream_failure ≡ true → s.producer_done ≡ false → Has producer s.terminated
  pub consumer_after_stream :
      s.stream_failure ≡ true → s.consumer_done ≡ false → Has consumer s.terminated

finish-Guarded : (m : Text) (s : Pipe) → Guarded s → Guarded (finish m s)
unfolding finish
finish-Guarded m s h = ground arith

on_stream_end-Guarded :
    (pr : Pair) (e : Option Text) (s : Pipe) → Guarded s → Guarded (on_stream_end pr e s)
unfolding on_stream_end
on_stream_end-Guarded pr none s h = ground arith
on_stream_end-Guarded pr (some e) s h = ground arith

on_spawn_failed-Guarded :
    (pr : Pair) (k : Child) (e : Text) (s : Pipe) → Guarded s → Guarded (on_spawn_failed pr k e s)
unfolding on_spawn_failed
on_spawn_failed-Guarded pr producer e s h = ground arith
on_spawn_failed-Guarded pr consumer e s h = ground arith

on_close-Guarded :
    (k : Child) (code : Option ℕ) (s : Pipe) → Guarded s → Guarded (on_close k code s)
unfolding on_close
on_close-Guarded producer code s h = ground arith
on_close-Guarded consumer code s h = ground arith

step-Guarded : (pr : Pair) (e : PipeEvent) (s : Pipe) → Guarded s → Guarded (step pr e s)
unfolding step append
step-Guarded pr (producer_stderr d) s h = ground arith
step-Guarded pr (consumer_stdout d) s h = ground arith
step-Guarded pr (consumer_stderr d) s h = ground arith
step-Guarded pr (stream_ended e) s h =
    finish-Guarded pr.success_message _ (on_stream_end-Guarded pr e s h)
step-Guarded pr (spawn_failed k e) s h =
    finish-Guarded pr.success_message _ (on_spawn_failed-Guarded pr k e s h)
step-Guarded pr (closed k code) s h =
    finish-Guarded pr.success_message _ (on_close-Guarded k code s h)

start-Guarded : Guarded start
unfolding start
start-Guarded = ground arith

run_events-Guarded :
    (pr : Pair) (es : List PipeEvent) (s : Pipe) → Guarded s → Guarded (run_events pr es s)
unfolding run_events
run_events-Guarded pr [] s h = h
run_events-Guarded pr (e ∷ es) s h = run_events-Guarded pr es (step pr e s) (step-Guarded pr e s h)

-- After any callbacks: once the pipe has failed, or one child could not be spawned or closed with
-- another code than 0, each other child that has not ended has been sent SIGTERM.
pub failure_terminates_peers :
    (pr : Pair) (events : List PipeEvent) → Guarded (run_events pr events start)
failure_terminates_peers pr events = run_events-Guarded pr events start start-Guarded
