-- ===== src/Walg/Pipeline/Outcome.antt =====
-- The exit code of `runPipedPair` of src/backup/walg-wrapper.service.ts.
use backups_microservice.Prelude.{
  ℕ, ◌≡◌, refl, Bool, true, false, ◌||◌, List, [], ◌∷◌, Option, none, some, arith, ◌==◌, any,
}
use backups_microservice.Js.{Text}
use backups_microservice.Walg.Pipeline.{
  WalgResult, Child, producer, consumer, PipeEvent, producer_stderr, consumer_stdout,
  consumer_stderr, stream_ended, spawn_failed, closed, Pipe, Pair, start, append, finish,
  on_stream_end, on_spawn_failed, on_close, step, run_events, run_piped_pair,
}

-- What an event says has happened.
abbrev pub clean_stream : PipeEvent → Bool
clean_stream (stream_ended none) = true
clean_stream _ = false

abbrev pub stream_over : PipeEvent → Bool
stream_over (stream_ended e) = true
stream_over _ = false

abbrev is_zero : Option ℕ → Bool
is_zero none = false
is_zero (some c) = c == 0

abbrev pub producer_succeeded : PipeEvent → Bool
producer_succeeded (closed producer code) = is_zero code
producer_succeeded _ = false

abbrev pub consumer_succeeded : PipeEvent → Bool
consumer_succeeded (closed consumer code) = is_zero code
consumer_succeeded _ = false

abbrev pub producer_over : PipeEvent → Bool
producer_over (closed producer code) = true
producer_over (spawn_failed producer e) = true
producer_over _ = false

abbrev pub consumer_over : PipeEvent → Bool
consumer_over (closed consumer code) = true
consumer_over (spawn_failed consumer e) = true
consumer_over _ = false

-- What was seen so far, against the state.
record Seen (clean zero_p zero_c : Bool) (s : Pipe) : Type 0 where
  stream : s.stream_done ≡ true → s.stream_failure ≡ false → clean ≡ true
  first : s.producer_exit_code ≡ 0 → zero_p ≡ true
  second : s.consumer_exit_code ≡ 0 → zero_c ≡ true
  success :
      (r : WalgResult)
      → s.resolved ≡ some r
      → r.exit_code ≡ 0
      → (clean ≡ true) × (zero_p ≡ true) × (zero_c ≡ true)

finish-Seen : (m : Text) (c p q : Bool) (s : Pipe) → Seen c p q s → Seen c p q (finish m s)
unfolding finish
finish-Seen m c p q s h = ground arith

on_stream_end-Seen :
    (pr : Pair) (e : Option Text) (c p q : Bool) (s : Pipe)
    → Seen c p q s
    → Seen (c || clean_stream (stream_ended e)) p q (on_stream_end pr e s)
unfolding on_stream_end
on_stream_end-Seen pr none c p q s h = ground arith
on_stream_end-Seen pr (some e) c p q s h = ground arith

on_spawn_failed-Seen :
    (pr : Pair) (k : Child) (e : Text) (c p q : Bool) (s : Pipe)
    → Seen c p q s
    → Seen c p q (on_spawn_failed pr k e s)
unfolding on_spawn_failed
on_spawn_failed-Seen pr producer e c p q s h = ground arith
on_spawn_failed-Seen pr consumer e c p q s h = ground arith

on_close-Seen :
    (k : Child) (code : Option ℕ) (c p q : Bool) (s : Pipe)
    → Seen c p q s
    → Seen c
        (p || producer_succeeded (closed k code))
        (q || consumer_succeeded (closed k code))
        (on_close k code s)
unfolding on_close
on_close-Seen producer none c p q s h = ground arith
on_close-Seen producer (some n) c p q s h = ground arith
on_close-Seen consumer none c p q s h = ground arith
on_close-Seen consumer (some n) c p q s h = ground arith

or_false : (b : Bool) → (b || false) ≡ b
or_false true = refl
or_false false = refl

step-Seen :
    (pr : Pair) (e : PipeEvent) (c p q : Bool) (s : Pipe)
    → Seen c p q s
    → Seen
        (c || clean_stream e)
        (p || producer_succeeded e)
        (q || consumer_succeeded e)
        (step pr e s)
unfolding step append
step-Seen pr (producer_stderr d) c p q s h = ground arith
step-Seen pr (consumer_stdout d) c p q s h = ground arith
step-Seen pr (consumer_stderr d) c p q s h = ground arith
step-Seen pr (stream_ended e) c p q s h =
    rw (or_false p, or_false q)
      (finish-Seen pr.success_message _ p q _ (on_stream_end-Seen pr e c p q s h))
step-Seen pr (spawn_failed producer e) c p q s h =
    rw (or_false c, or_false p, or_false q)
      (finish-Seen pr.success_message c p q _ (on_spawn_failed-Seen pr producer e c p q s h))
step-Seen pr (spawn_failed consumer e) c p q s h =
    rw (or_false c, or_false p, or_false q)
      (finish-Seen pr.success_message c p q _ (on_spawn_failed-Seen pr consumer e c p q s h))
step-Seen pr (closed k code) c p q s h =
    rw (or_false c) (finish-Seen pr.success_message c _ _ _ (on_close-Seen k code c p q s h))

or_assoc : (a b c : Bool) → (a || b || c) ≡ (a || (b || c))
or_assoc true b c = refl
or_assoc false b c = refl

run_events-Seen :
    (pr : Pair) (es : List PipeEvent) (c p q : Bool) (s : Pipe)
    → Seen c p q s
    → Seen
        (c || any clean_stream es)
        (p || any producer_succeeded es)
        (q || any consumer_succeeded es)
        (run_events pr es s)
unfolding run_events
run_events-Seen pr [] c p q s h = rw (or_false c, or_false p, or_false q) h
run_events-Seen pr (e ∷ es) c p q s h =
    rw
      (
        ← or_assoc c (clean_stream e) (any clean_stream es),
        ← or_assoc p (producer_succeeded e) (any producer_succeeded es),
        ← or_assoc q (consumer_succeeded e) (any consumer_succeeded es),
      )
      (run_events-Seen pr es _ _ _ (step pr e s) (step-Seen pr e c p q s h))

start-Seen : Seen false false false start
unfolding start
start-Seen = ground arith

-- The promise resolves to exit code 0 only if the pipe ended with no error and both children closed
-- with exit code 0.
pub success_needs_all :
    (pr : Pair) (events : List PipeEvent) (r : WalgResult)
    → run_piped_pair pr events ≡ some r
    → r.exit_code ≡ 0
    → (any clean_stream events ≡ true)
      × (any producer_succeeded events ≡ true)
      × (any consumer_succeeded events ≡ true)
unfolding run_piped_pair
success_needs_all pr events r h z =
    (run_events-Seen pr events false false false start start-Seen).success r h z
