-- ===== src/ConfigLoader/Parser.antt =====
-- tg_conductor/config_loader/parser.py: one workflow for each file. Reading, YAML and the
-- construction of the schema are parameters.
pub mod Isolation
use tg_conductor.Base.{
  ◌+◌, String, Bool, ◌&&◌, Option, none, some, List, [], ◌∷◌, ◌++◌, if◌then◌else◌,
}
use tg_conductor.Base.Result.{Result, ok, err, ◌>>=◌}
use tg_conductor.Workflows.Schema.{Workflow}

pub data Reason : Type 0 where
  read_failed yaml_error invalid_value : String → Reason
  file_empty is_list : Reason
  not_mapping : String → Reason
  duplicate_name : String → String → Reason

pub record FileError : Type 0 where
  pub path : String
  pub field_path : String
  pub reason : Reason

pub record LoadResult : Type 0 where
  pub workflows : List (String × Workflow)
  pub errors : List FileError

abbrev pub no_files : LoadResult
no_files = record { workflows = []; errors = [] }

-- what `yaml.safe_load` gives, with a mapping as its items
pub data Yaml : Type 0 where
  null sequence : Yaml
  scalar : String → Yaml
  mapping : List (String × String) → Yaml

-- an entry of the directory, and whether it is a file with one of the two suffixes
pub record DirEntry : Type 0 where
  pub path : String
  pub is_file : Bool
  pub has_yaml_suffix : Bool

-- An exception that the parser catches at that place, or any other, such as the UnicodeDecodeError of
-- a file that is not UTF-8.
pub data FileRaised (E : Type 0) : Type 0 where
  handled : E → FileRaised E
  escaping : String → FileRaised E

pub record Reader : Type 0 where
  pub read_text : String → Result (FileRaised String) String
  pub safe_load : String → Result (FileRaised String) Yaml
  pub model_validate :
      List (String × String) → Result (FileRaised (List (String × String))) Workflow

abbrev pub file_error : String → String → Reason → FileError
file_error path field_path reason = record { path = path; field_path = field_path; reason = reason }

abbrev pub with_error : FileError → LoadResult → LoadResult
with_error e r = record r { errors = r.errors ++ e ∷ [] }

abbrev pub schema_errors : String → List (String × String) → List FileError
schema_errors path [] = []
schema_errors path ((loc, msg) ∷ es) =
    file_error path loc (invalid_value msg) ∷ schema_errors path es

module _ (reader : Reader) where
  abbrev pub parse_validated :
      String
      → Result (FileRaised (List (String × String))) Workflow
      → LoadResult
      → Result String LoadResult
  parse_validated path (err (escaping e)) result = err e
  parse_validated path (err (handled es)) result =
      ok (record result { errors = result.errors ++ schema_errors path es })
  parse_validated path (ok wf) result =
      ok (record result { workflows = result.workflows ++ (path, wf) ∷ [] })

  abbrev pub parse_data : String → Yaml → LoadResult → Result String LoadResult
  parse_data path null result = ok (with_error (file_error path "" file_empty) result)
  parse_data path sequence result = ok (with_error (file_error path "" is_list) result)
  parse_data path (scalar type) result =
      ok (with_error (file_error path "" (not_mapping type)) result)
  parse_data path (mapping items) result = parse_validated path (reader.model_validate items) result

  abbrev pub parse_loaded :
      String → Result (FileRaised String) Yaml → LoadResult → Result String LoadResult
  parse_loaded path (err (escaping e)) result = err e
  parse_loaded path (err (handled e)) result =
      ok (with_error (file_error path "" (yaml_error e)) result)
  parse_loaded path (ok doc) result = parse_data path doc result

  abbrev pub parse_text :
      String → Result (FileRaised String) String → LoadResult → Result String LoadResult
  parse_text path (err (escaping e)) result = err e
  parse_text path (err (handled e)) result =
      ok (with_error (file_error path "" (read_failed e)) result)
  parse_text path (ok text) result = parse_loaded path (reader.safe_load text) result

  -- an exception that is not caught leaves the load of the directory
  unfoldable pub parse_one : String → LoadResult → Result String LoadResult
  parse_one path result = parse_text path (reader.read_text path) result

  abbrev pub parse_entry : DirEntry → LoadResult → Result String LoadResult
  parse_entry e result =
      if e.is_file && e.has_yaml_suffix then parse_one e.path result else ok result

  -- over the sorted entries
  unfoldable pub load_all : List DirEntry → LoadResult → Result String LoadResult
  unfolding parse_one
  load_all [] result = ok result
  load_all (e ∷ es) result = parse_entry e result >>= λ r. load_all es r

  -- `none` is a directory that does not exist
  unfoldable pub load_workflows_from_dir : Option (List DirEntry) → Result String LoadResult
  unfolding load_all
  load_workflows_from_dir none = ok no_files
  load_workflows_from_dir (some es) = load_all es no_files
