-- ===== src/Walg/Pipeline/Progress.antt =====
-- When the promise of `runPipedPair` of src/backup/walg-wrapper.service.ts resolves.
use backups_microservice.Prelude.{
  ℕ, ◌≡◌, refl, Bool, true, false, ◌&&◌, ◌||◌, List, [], ◌∷◌, Option, none, some, arith, any,
}
use backups_microservice.Js.{Text}
use backups_microservice.Walg.Pipeline.{
  Child, producer, consumer, PipeEvent, producer_stderr, consumer_stdout, consumer_stderr,
  stream_ended, spawn_failed, closed, Pipe, Pair, start, append, finish, on_stream_end,
  on_spawn_failed, on_close, step, run_events, run_piped_pair, is_resolved,
}
use backups_microservice.Walg.Pipeline.Outcome.{stream_over, producer_over, consumer_over}

-- The flags of the state are what the events showed.
record Flags (c p q : Bool) (s : Pipe) : Type 0 where
  stream : s.stream_done ≡ c
  first : s.producer_done ≡ p
  second : s.consumer_done ≡ q

-- A state that has been through `finish` is resolved exactly when all three flags are up.
record Settled (c p q : Bool) (s : Pipe) : Type 0 where
  flags : Flags c p q s
  exact : is_resolved s.resolved ≡ (c && (p && q))

-- Before `finish`, it may be that the last flag has just gone up.
record Ready (c p q : Bool) (s : Pipe) : Type 0 where
  flags : Flags c p q s
  early : is_resolved s.resolved ≡ true → (c && (p && q)) ≡ true

finish-Settled : (m : Text) (c p q : Bool) (s : Pipe) → Ready c p q s → Settled c p q (finish m s)
unfolding finish
finish-Settled m c p q s h = ground arith

on_stream_end-Ready :
    (pr : Pair) (e : Option Text) (c p q : Bool) (s : Pipe)
    → Settled c p q s
    → Ready true p q (on_stream_end pr e s)
unfolding on_stream_end
on_stream_end-Ready pr none c p q s h = ground arith
on_stream_end-Ready pr (some e) c p q s h = ground arith

on_spawn_failed-Ready :
    (pr : Pair) (k : Child) (e : Text) (c p q : Bool) (s : Pipe)
    → Settled c p q s
    → Ready c
        (p || producer_over (spawn_failed k e))
        (q || consumer_over (spawn_failed k e))
        (on_spawn_failed pr k e s)
unfolding on_spawn_failed
on_spawn_failed-Ready pr producer e c p q s h = ground arith
on_spawn_failed-Ready pr consumer e c p q s h = ground arith

on_close-Ready :
    (k : Child) (code : Option ℕ) (c p q : Bool) (s : Pipe)
    → Settled c p q s
    → Ready c
        (p || producer_over (closed k code))
        (q || consumer_over (closed k code))
        (on_close k code s)
unfolding on_close
on_close-Ready producer code c p q s h = ground arith
on_close-Ready consumer code c p q s h = ground arith

or_true : (b : Bool) → (b || true) ≡ true
or_true true = refl
or_true false = refl

or_false : (b : Bool) → (b || false) ≡ b
or_false true = refl
or_false false = refl

or_assoc : (a b c : Bool) → (a || b || c) ≡ (a || (b || c))
or_assoc true b c = refl
or_assoc false b c = refl

step-Settled :
    (pr : Pair) (e : PipeEvent) (c p q : Bool) (s : Pipe)
    → Settled c p q s
    → Settled (c || stream_over e) (p || producer_over e) (q || consumer_over e) (step pr e s)
unfolding step append
step-Settled pr (producer_stderr d) c p q s h = ground arith
step-Settled pr (consumer_stdout d) c p q s h = ground arith
step-Settled pr (consumer_stderr d) c p q s h = ground arith
step-Settled pr (stream_ended e) c p q s h =
    rw (or_true c, or_false p, or_false q)
      (finish-Settled pr.success_message true p q _ (on_stream_end-Ready pr e c p q s h))
step-Settled pr (spawn_failed k e) c p q s h =
    rw (or_false c)
      (finish-Settled pr.success_message c _ _ _ (on_spawn_failed-Ready pr k e c p q s h))
step-Settled pr (closed k code) c p q s h =
    rw (or_false c) (finish-Settled pr.success_message c _ _ _ (on_close-Ready k code c p q s h))

run_events-Settled :
    (pr : Pair) (es : List PipeEvent) (c p q : Bool) (s : Pipe)
    → Settled c p q s
    → Settled
        (c || any stream_over es)
        (p || any producer_over es)
        (q || any consumer_over es)
        (run_events pr es s)
unfolding run_events
run_events-Settled pr [] c p q s h = rw (or_false c, or_false p, or_false q) h
run_events-Settled pr (e ∷ es) c p q s h =
    rw
      (
        ← or_assoc c (stream_over e) (any stream_over es),
        ← or_assoc p (producer_over e) (any producer_over es),
        ← or_assoc q (consumer_over e) (any consumer_over es),
      )
      (run_events-Settled pr es _ _ _ (step pr e s) (step-Settled pr e c p q s h))

start-Settled : Settled false false false start
unfolding start
start-Settled = ground arith

-- The promise of a piped pair is resolved exactly when the pipe has ended and each child has closed
-- or could not be spawned, in whatever order these callbacks came.
pub resolves_exactly_when_over :
    (pr : Pair) (events : List PipeEvent)
    → is_resolved (run_piped_pair pr events)
      ≡ (any stream_over events && (any producer_over events && any consumer_over events))
unfolding run_piped_pair
resolves_exactly_when_over pr events =
    (run_events-Settled pr events false false false start start-Settled).exact
