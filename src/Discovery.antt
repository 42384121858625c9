-- ===== src/Discovery.antt =====
-- The services and workloads of the cluster: src/discovery/discovery.service.ts.
pub mod Suggestion
use backups_microservice.Prelude.{
  ℕ, Bool, true, false, not, ◌&&◌, ◌||◌, Option, none, some, List, [], ◌∷◌, ◌++◌, ◌==◌, any, drop,
  filter, find, map, if◌then◌else◌,
}
use backups_microservice.Js.{
  Text, text, text_eq, is_empty, truthy, text_or_empty, starts_with, contains, lower_case,
  to_lower_case, strip_start, strip_end,
}
use backups_microservice.DatabaseName.{is_word}

-- An item of the cluster's API, in the fields that the service reads. A label is its key and value;
-- a port is `none` where it is no number.
pub record K8sItem : Type 0 where
  pub name : Option Text
  pub namespace : Option Text
  pub labels : List (Text × Text)
  pub ports : List (Option ℕ)
  pub service_type : Option Text
  pub cluster_ip : Option Text
  pub ready_replicas : Option ℕ
  pub status_replicas : Option ℕ
  pub spec_replicas : Option ℕ
  pub images : List (Option Text)

-- `backup_kind`
pub data BackupKind : Type 0 where
  postgres database service : BackupKind

pub record ServiceRow : Type 0 where
  pub name : Text
  pub namespace : Text
  pub service_type : Text
  pub cluster_ip : Option Text
  pub host : Text
  pub ports : List ℕ
  pub app : Option Text
  pub backup_kind : BackupKind
  pub backup_ready : Bool
  pub suggested_database : Text
  pub suggested_port : Option ℕ

pub record WorkloadRow : Type 0 where
  pub kind : Text
  pub name : Text
  pub namespace : Text
  pub ready : ℕ
  pub replicas : ℕ
  pub images : List Text

-- `filter(Boolean)` on numbers and on texts.
unfoldable pub port_numbers : List (Option ℕ) → List ℕ
port_numbers [] = []
port_numbers (none ∷ ports) = port_numbers ports
port_numbers (some p ∷ ports) = let rest = port_numbers ports in if p == 0 then rest else p ∷ rest

unfoldable pub image_names : List (Option Text) → List Text
unfolding truthy text_or_empty
image_names [] = []
image_names (i ∷ images) =
    let rest = image_names images in if truthy i then text_or_empty i ∷ rest else rest

-- `values.join(' ')`
unfoldable pub join_values : List (Text × Text) → Text
join_values [] = []
join_values ((k, v) ∷ []) = v
join_values ((k, v) ∷ l ∷ labels) = v ++ b' ' ∷ join_values (l ∷ labels)

unfoldable pub get_label : Text → List (Text × Text) → Option Text
unfolding text_eq
get_label key [] = none
get_label key ((k, v) ∷ labels) =
    let rest = get_label key labels in if text_eq k key then some v else rest

abbrev some_word : List Text → Text → Bool
some_word words s = any (λ w. contains w s) words

-- The words that a service's name may end in, each also after a hyphen.
abbrev suffixes : List Text
suffixes =
    text "postgres"
    ∷ text "postgresql"
    ∷ text "database"
    ∷ text "db"
    ∷ text "service"
    ∷ text "svc"
    ∷ []

abbrev after_hyphen : Text → Text
after_hyphen [] = []
after_hyphen (c ∷ s) = if c == b'-' then s else c ∷ s

-- A match of `-?(postgres|…)$` at the start of `s`.
unfoldable pub is_suffix : Text → Bool
unfolding text_eq lower_case text
is_suffix s = any (λ w. text_eq (lower_case (after_hyphen s)) w) suffixes

unfoldable pub strip_suffix : Text → Text
unfolding is_suffix
strip_suffix [] = []
strip_suffix (c ∷ s) = let rest = strip_suffix s in if is_suffix (c ∷ s) then [] else c ∷ rest

-- `replace(/^postgres-?/i, '')`
unfoldable pub strip_prefix : Text → Text
unfolding starts_with lower_case text
strip_prefix s = if starts_with (text "postgres") (lower_case s) then after_hyphen (drop 8 s) else s

-- `replace(/[^a-zA-Z0-9_]+/g, '_')`, inside or outside a run.
unfoldable pub underscored : Bool → Text → Text
unfolding is_word
underscored in_run [] = []
underscored in_run (c ∷ s) =
    let rest = underscored (not (is_word c)) s in
    if is_word c then c ∷ rest else if in_run then rest else b'_' ∷ rest

unfoldable pub clean_name : Text → Text
unfolding strip_suffix strip_prefix underscored strip_start strip_end
clean_name s =
    strip_end (λ c. c == b'_')
      (strip_start (λ c. c == b'_') (underscored false (strip_prefix (strip_suffix s))))

unfoldable pub suggest_database_name : Text → Text
unfolding clean_name is_empty text
suggest_database_name s = if is_empty (clean_name s) then text "postgres" else clean_name s

abbrev first_port : List ℕ → Option ℕ
first_port [] = none
first_port (p ∷ ports) = some p

abbrev or_null_text : Option Text → Option Text
or_null_text o = if truthy o then o else none

abbrev or_app : Option Text → Option Text → Option Text
or_app a b = if truthy a then a else or_null_text b

abbrev or_text_of : Option Text → Text → Text
or_text_of a b = if truthy a then text_or_empty a else b

unfoldable pub is_postgres_service : List ℕ → Text → Bool
unfolding contains text
is_postgres_service ports joined =
    any (λ p. p == 5432) ports || some_word (text "postgres" ∷ text "pg-" ∷ []) joined

unfoldable pub kind_of : Bool → Text → BackupKind
unfolding contains text
kind_of is_postgres joined =
    if is_postgres
    then postgres
    else if some_word (text "mysql" ∷ text "mariadb" ∷ text "mongo" ∷ text "redis" ∷ []) joined
    then database
    else service

abbrev pub is_postgres_kind : BackupKind → Bool
is_postgres_kind postgres = true
is_postgres_kind _ = false

unfoldable pub service_row : K8sItem → ServiceRow
unfolding port_numbers join_values get_label to_lower_case is_postgres_service kind_of
    suggest_database_name truthy text_or_empty is_empty text
service_row item =
    let name = text_or_empty item.name in
    let namespace = text_or_empty item.namespace in
    let ports = port_numbers item.ports in
    let joined = to_lower_case (name ++ b' ' ∷ join_values item.labels) in
    let is_postgres = is_postgres_service ports joined in
    record {
      name = name;
      namespace = namespace;
      service_type = or_text_of item.service_type (text "ClusterIP");
      cluster_ip = or_null_text item.cluster_ip;
      host =
          if is_empty namespace
          then name
          else name ++ b'.' ∷ (namespace ++ text ".svc.cluster.local");
      ports = ports;
      app =
          or_app (get_label (text "app") item.labels)
            (get_label (text "app.kubernetes.io/name") item.labels);
      backup_kind = kind_of is_postgres joined;
      backup_ready = is_postgres_kind (kind_of is_postgres joined);
      suggested_database = suggest_database_name name;
      suggested_port = if is_postgres then some 5432 else first_port ports;
    }

abbrev count_or_zero : Option ℕ → ℕ
count_or_zero none = 0
count_or_zero (some n) = n

abbrev or_count : Option ℕ → ℕ → ℕ
or_count none b = b
or_count (some n) b = if n == 0 then b else n

unfoldable pub workload_row : Text → K8sItem → WorkloadRow
unfolding text_or_empty image_names
workload_row kind item = record {
  kind = kind;
  name = text_or_empty item.name;
  namespace = text_or_empty item.namespace;
  ready = count_or_zero item.ready_replicas;
  replicas = or_count item.status_replicas (count_or_zero item.spec_replicas);
  images = image_names item.images;
}

-- What a listing of the cluster's API gives: items, or an error with its message.
pub data Listing : Type 0 where
  items : List K8sItem → Listing
  failed : Text → Listing

-- What the discovery reports.
pub record Discovered : Type 0 where
  pub available : Bool
  pub error : Option Text
  pub databases : List ServiceRow
  pub services : List ServiceRow
  pub workloads : List WorkloadRow

abbrev unavailable : Text → Discovered
unavailable message = record {
  available = false;
  error = some message;
  databases = [];
  services = [];
  workloads = [];
}

-- `kubernetes`, where the first listing that fails gives the error.
unfoldable pub kubernetes : Listing → Listing → Listing → Discovered
unfolding service_row workload_row text
kubernetes (failed m) deployments stateful_sets = unavailable m
kubernetes (items ss) (failed m) stateful_sets = unavailable m
kubernetes (items ss) (items ds) (failed m) = unavailable m
kubernetes (items ss) (items ds) (items fs) =
    let rows = map service_row ss in
    record {
      available = true;
      error = none;
      databases = filter (λ (r : ServiceRow). is_postgres_kind r.backup_kind) rows;
      services = rows;
      workloads =
          map (workload_row (text "deployment")) ds ++ map (workload_row (text "statefulset")) fs;
    }
