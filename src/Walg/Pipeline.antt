-- ===== src/Walg/Pipeline.antt =====
-- `runPipedPair` of src/backup/walg-wrapper.service.ts: two child processes joined by a pipe, as a
-- state machine over the callbacks that Node makes.
pub mod Outcome
pub mod Progress
pub mod Failure
use backups_microservice.Prelude.{
  ℕ, Bool, true, false, ◌&&◌, ◌||◌, not, List, [], ◌∷◌, ◌++◌, Option, none, some, ◌==◌,
  if◌then◌else◌,
}
use backups_microservice.Js.{Text, text}

-- WalgResult
pub record WalgResult : Type 0 where
  pub exit_code : ℕ
  pub output : Text

-- PipedCommand
pub record PipedCommand : Type 0 where
  pub name : Text
  pub command : Text
  pub args : List Text

pub data Child : Type 0 where
  producer consumer : Child

-- A callback: data on a stream, the end of the pipeline with its error, a child that could not be
-- spawned, a child's exit code (`none` for null).
pub data PipeEvent : Type 0 where
  producer_stderr consumer_stdout consumer_stderr : Text → PipeEvent
  stream_ended : Option Text → PipeEvent
  spawn_failed : Child → Text → PipeEvent
  closed : Child → Option ℕ → PipeEvent

-- The variables that the callbacks share. `terminated` lists the children sent SIGTERM, with the
-- later SIGKILL armed; `resolved` is what the promise resolved to.
pub record Pipe : Type 0 where
  pub producer_done : Bool
  pub consumer_done : Bool
  pub producer_exit_code : ℕ
  pub consumer_exit_code : ℕ
  pub stream_done : Bool
  pub stream_failure : Bool
  pub output : Text
  pub terminated : List Child
  pub resolved : Option WalgResult

unfoldable pub start : Pipe
start = record {
  producer_done = false;
  consumer_done = false;
  producer_exit_code = 1;
  consumer_exit_code = 1;
  stream_done = false;
  stream_failure = false;
  output = [];
  terminated = [];
  resolved = none;
}

-- The two commands and the message of a success.
pub record Pair : Type 0 where
  pub first : PipedCommand
  pub second : PipedCommand
  pub success_message : Text

unfoldable pub append : Text → Pipe → Pipe
append chunk s = record s { output = s.output ++ chunk }

unfoldable pub terminate : Child → Pipe → Pipe
terminate c s = record s { terminated = c ∷ s.terminated }

unfoldable pub terminate_producer : Pipe → Pipe
unfolding terminate
terminate_producer s = if s.producer_done then s else terminate producer s

unfoldable pub terminate_consumer : Pipe → Pipe
unfolding terminate
terminate_consumer s = if s.consumer_done then s else terminate consumer s

abbrev pub is_resolved : Option WalgResult → Bool
is_resolved none = false
is_resolved (some r) = true

unfoldable pub exit_code_of : Pipe → ℕ
exit_code_of s =
    if not s.stream_failure && (s.producer_exit_code == 0 && s.consumer_exit_code == 0)
    then 0
    else 1

abbrev resolve : ℕ → Pipe → Pipe
resolve code s = record s { resolved = some (record { exit_code = code; output = s.output }) }

unfoldable pub finish : Text → Pipe → Pipe
unfolding exit_code_of append
finish success_message s =
    if is_resolved s.resolved || (not s.stream_done || (not s.producer_done || not s.consumer_done))
    then s
    else if exit_code_of s == 0
    then resolve 0 (append success_message s)
    else resolve 1 s

unfoldable pub fail_stream : Pair → Text → Pipe → Pipe
unfolding append terminate_producer terminate_consumer
fail_stream p e s =
    if s.stream_failure
    then s
    else terminate_consumer (
        terminate_producer (
          append
            (p.first.name
              ++ (text " -> " ++ (p.second.name ++ (text " stream failed: " ++ (e ++ text "\n")))))
            (record s { stream_failure = true })))

unfoldable pub on_stream_end : Pair → Option Text → Pipe → Pipe
unfolding fail_stream
on_stream_end p none s = record s { stream_done = true }
on_stream_end p (some e) s = fail_stream p e (record s { stream_done = true })

unfoldable pub on_spawn_failed : Pair → Child → Text → Pipe → Pipe
unfolding append terminate_producer terminate_consumer
on_spawn_failed p producer e s =
    terminate_consumer
      (record (append (text "Failed to spawn " ++ (p.first.name ++ (text ": " ++ e))) s) {
        producer_done = true;
        producer_exit_code = 1;
      })
on_spawn_failed p consumer e s =
    terminate_producer
      (record (append (text "Failed to spawn " ++ (p.second.name ++ (text ": " ++ e))) s) {
        consumer_done = true;
        consumer_exit_code = 1;
      })

-- `code ?? 1`
unfoldable pub code_or_one : Option ℕ → ℕ
code_or_one none = 1
code_or_one (some c) = c

unfoldable pub on_close : Child → Option ℕ → Pipe → Pipe
unfolding code_or_one terminate_producer terminate_consumer
on_close producer code s =
    let t = record s { producer_done = true; producer_exit_code = code_or_one code } in
    if code_or_one code == 0 then t else terminate_consumer t
on_close consumer code s =
    let t = record s { consumer_done = true; consumer_exit_code = code_or_one code } in
    if code_or_one code == 0 then t else terminate_producer t

-- One callback.
unfoldable pub step : Pair → PipeEvent → Pipe → Pipe
step p (producer_stderr d) s = append (p.first.name ++ (text ": " ++ d)) s
step p (consumer_stdout d) s = append (p.second.name ++ (text ": " ++ d)) s
step p (consumer_stderr d) s = append (p.second.name ++ (text ": " ++ d)) s
step p (stream_ended e) s = finish p.success_message (on_stream_end p e s)
step p (spawn_failed c e) s = finish p.success_message (on_spawn_failed p c e s)
step p (closed c code) s = finish p.success_message (on_close c code s)

unfoldable pub run_events : Pair → List PipeEvent → Pipe → Pipe
run_events p [] s = s
run_events p (e ∷ es) s = run_events p es (step p e s)

-- `runPipedPair`: what the promise has resolved to once the events have happened, if it has.
unfoldable pub run_piped_pair : Pair → List PipeEvent → Option WalgResult
unfolding start
run_piped_pair p events = (run_events p events start).resolved
