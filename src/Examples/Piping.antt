-- ===== src/Examples/Piping.antt =====
-- Piped pairs that succeed, and that fail.
use backups_microservice.Prelude.{◌≡◌, refl, true, some, List, [], ◌∷◌, any, ◌&&◌}
use backups_microservice.Js.{text}
use backups_microservice.Walg.Pipeline.{
  WalgResult, Pair, PipeEvent, producer, consumer, closed, run_piped_pair, run_events, step, start,
  finish, on_close, on_stream_end, is_resolved,
}
use backups_microservice.Walg.{dump_pair}
use backups_microservice.Walg.Pipeline.Outcome.{
  clean_stream, producer_succeeded, consumer_succeeded, stream_over, producer_over, consumer_over,
  success_needs_all,
}
use backups_microservice.Walg.Pipeline.Progress.{resolves_exactly_when_over}
use backups_microservice.Walg.Pipeline.Failure.{
  stream_error_is_terminal, failure_terminates_peers, Guarded,
}
use backups_microservice.Examples.Fixtures.{new_object, clean_end}

abbrev pair : Pair
pair = dump_pair new_object

abbrev success : WalgResult
success = record {
  exit_code = 0;
  output = text "logical_backup_object: logical/00000000-0000-4000-8000-000000000002.dump\n";
}

success_needs_all_example :
    (any clean_stream clean_end ≡ true)
    × (any producer_succeeded clean_end ≡ true)
    × (any consumer_succeeded clean_end ≡ true)
unfolding run_piped_pair run_events step start finish text on_close on_stream_end
success_needs_all_example = success_needs_all pair clean_end success refl refl

abbrev broken_start : List PipeEvent
broken_start = closed producer (some 0) ∷ []

abbrev broken_end : List PipeEvent
broken_end = closed consumer (some 0) ∷ []

abbrev failure : WalgResult
failure = record { exit_code = 1; output = text "pg_dump -> wal-g stream failed: reset\n" }

stream_error_is_terminal_example : failure.exit_code ≡ 1
unfolding run_piped_pair run_events step start finish text on_close on_stream_end
stream_error_is_terminal_example =
    stream_error_is_terminal pair broken_start broken_end (text "reset") failure refl refl

resolves_exactly_when_over_example : is_resolved (run_piped_pair pair broken_start) ≡ (
    any stream_over broken_start
    && (any producer_over broken_start && any consumer_over broken_start))
resolves_exactly_when_over_example = resolves_exactly_when_over pair broken_start

failure_terminates_peers_example : Guarded (run_events pair (closed producer (some 3) ∷ []) start)
failure_terminates_peers_example = failure_terminates_peers pair (closed producer (some 3) ∷ [])
