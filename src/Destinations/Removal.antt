-- ===== src/Destinations/Removal.antt =====
-- What a removal of src/destinations/destinations.service.ts leaves in the table.
use backups_microservice.Prelude.{◌≡◌, true, false, some, [], ◌∷◌, arith, length, Bool-cases}
use backups_microservice.Js.{Text, text_eq}
use backups_microservice.Js.Laws.{eq_of_text_eq, text_eq_refl}
use backups_microservice.Errors.{ok}
use backups_microservice.Destinations.{
  BackupDestination, Table, save_destination, find_destination, load_destination,
  remove_destination,
}

found_id :
    (id : Text) (d : BackupDestination) (table : Table)
    → find_destination id table ≡ some d
    → text_eq d.id id ≡ true
unfolding find_destination
found_id id d [] h = absurd (ground arith)
found_id id d (c ∷ table) h = ground (arith, found_id id d table, Bool-cases (text_eq c.id id))

-- A row that is written over the one with its identifier.
saved_over :
    (id : Text) (d e : BackupDestination) (table : Table)
    → find_destination id table ≡ some d
    → text_eq e.id id ≡ true
    → (find_destination id (save_destination e table) ≡ some e)
      × (length (save_destination e table) ≡ length table)
unfolding find_destination save_destination
saved_over id d e [] h same = absurd (ground arith)
saved_over id d e (c ∷ table) h same = ground (
  arith,
  saved_over id d e table,
  eq_of_text_eq c.id id,
  eq_of_text_eq e.id id,
  eq_of_text_eq c.id e.id,
  text_eq_refl id,
)

-- The removal of a destination that is found keeps every row, and leaves the destination as it was,
-- but disabled.
pub removal_only_disables :
    (id : Text) (d : BackupDestination) (table table' : Table)
    → find_destination id table ≡ some d
    → remove_destination id table ≡ ok table'
    → (find_destination id table' ≡ some (record d { enabled = false }))
      × (length table' ≡ length table)
unfolding remove_destination load_destination
removal_only_disables id d table table' h r =
    ground (arith, saved_over id d (record d { enabled = false }) table h (found_id id d table h))
