-- ===== src/Destinations.antt =====
-- The destinations of backups: src/destinations/destinations.service.ts.
pub mod Removal
use backups_microservice.Prelude.{
  ℕ, Bool, true, false, Option, none, some, List, [], ◌∷◌, ◌++◌, find, if◌then◌else◌,
}
use backups_microservice.Js.{Text, text, text_eq}
use backups_microservice.Errors.{Result, ok, err, not_found, ◌>>=◌}
use backups_microservice.Jobs.{or_default, or_stored}

pub data DestinationType : Type 0 where
  s3 local filesystem : DestinationType

pub record BackupDestination : Type 0 where
  pub id : Text
  pub name : Text
  pub destination_type : DestinationType
  pub uri : Text
  pub notes : Option Text
  pub enabled : Bool
  pub priority : ℕ
  pub created_at : ℕ
  pub updated_at : ℕ

-- CreateDestinationDto and UpdateDestinationDto: a creation has a name and a URI.
pub record DestinationDto : Type 0 where
  pub name : Option Text
  pub destination_type : Option DestinationType
  pub uri : Option Text
  pub notes : Option Text
  pub enabled : Option Bool
  pub priority : Option ℕ

-- The table of destinations, which no other service writes.
abbrev pub Table : Type 0
Table = List BackupDestination

unfoldable pub save_destination : BackupDestination → Table → Table
unfolding text_eq
save_destination d [] = d ∷ []
save_destination d (e ∷ table) =
    let rest = save_destination d table in if text_eq e.id d.id then d ∷ table else e ∷ rest

abbrev or_not_found : Text → Option BackupDestination → Result BackupDestination
or_not_found id none = err (not_found (text "Destination " ++ id ++ text " not found"))
or_not_found id (some d) = ok d

unfoldable pub find_destination : Text → Table → Option BackupDestination
unfolding text_eq
find_destination id table = find (λ (d : BackupDestination). text_eq d.id id) table

unfoldable pub load_destination : Text → Table → Result BackupDestination
unfolding find_destination text
load_destination id table = or_not_found id (find_destination id table)

unfoldable pub create_destination :
    (id name uri : Text) (now : ℕ) → DestinationDto → Table → BackupDestination × Table
unfolding save_destination
create_destination id name uri now dto table =
    let d : BackupDestination = record {
      id = id;
      name = name;
      destination_type = or_default dto.destination_type s3;
      uri = uri;
      notes = dto.notes;
      enabled = or_default dto.enabled true;
      priority = or_default dto.priority 100;
      created_at = now;
      updated_at = now;
    } in
    (d, save_destination d table)

-- `Object.assign(destination, dto)`
unfoldable pub assign_destination : DestinationDto → BackupDestination → BackupDestination
assign_destination dto d = record d {
  name = or_default dto.name d.name;
  destination_type = or_default dto.destination_type d.destination_type;
  uri = or_default dto.uri d.uri;
  notes = or_stored dto.notes d.notes;
  enabled = or_default dto.enabled d.enabled;
  priority = or_default dto.priority d.priority;
}

unfoldable pub update_destination : Text → DestinationDto → Table → Result Table
unfolding load_destination assign_destination save_destination
update_destination id dto table =
    load_destination id table >>= λ d. ok (save_destination (assign_destination dto d) table)

-- A removal disables the destination.
unfoldable pub remove_destination : Text → Table → Result Table
unfolding load_destination save_destination
remove_destination id table =
    load_destination id table >>= λ d. ok (save_destination (record d { enabled = false }) table)
