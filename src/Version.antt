-- ===== src/Version.antt =====
-- scripts/version.py: `sync_version`, which brings the packages' manifests to the version in VERSION.
pub mod Again
pub mod Check
use Prim.Native.String
use agentue.Prelude.{
  String, ◌≡◌, refl, sym, ap, ◌∙◌, Bool, true, false, Option, none, some, List, [], ◌∷◌, ◌++◌, map,
  ℕ, ◌==◌, ◌&&◌, not, str_eq, eq_refl, if◌then◌else◌,
}
use agentue.Json.{Value, str, Fields, get, set}
use agentue.Json.Laws.{get-set_self}
use agentue.Json.Equality.{py_eq}
use agentue.Result.{
  Error, Result, ok, err, key_error, ◌>>=◌, >>=-eq-ok, ◌>>◌, raise_if, raise_if-eq-ok,
  empty_version, no_project_version, ok-injective,
}
use agentue.Runner.Errors.{strip}

-- The libraries that the script calls on the manifests' texts: `json.loads`, `json.dumps` with its
-- options, `tomllib.loads` for the version of the project and of the package in the lock, and
-- `re.subn` with the pattern and the new version. Of these only that `loads` reads back what `dumps`
-- wrote, with a line feed after it, of an object that it read with a version put in, is assumed.
pub record Tools : Type 0 where
  pub loads : String → Result Fields
  pub dumps : Fields → String
  pub project_version : String → Result Value
  pub lock_version : String → Result Value
  pub substitute : String → String → String × ℕ
  pub loads-dumps :
      (text version : String) (m : Fields)
      → loads text ≡ ok m
      → loads (String.◌++◌ (dumps (set "version" (str version) m)) "\n")
        ≡ ok (set "version" (str version) m)

-- the files by their paths, all of which are there
abbrev pub Files : Type 0
Files = String → String

-- `JSON_MANIFESTS`, `PYTHON_MANIFEST` and `PYTHON_LOCK`
abbrev pub root_manifest : String
root_manifest = "package.json"

abbrev pub typescript_manifest : String
typescript_manifest = "sdks/typescript/package.json"

abbrev pub python_manifest : String
python_manifest = "sdks/python/pyproject.toml"

abbrev pub python_lock : String
python_lock = "sdks/python/uv.lock"

-- `m["version"]`
abbrev pub version_in : Option Value → Result Value
version_in none = err key_error
version_in (some v) = ok v

abbrev pub one_place : String × ℕ → Result (Option String)
one_place (text, count) =
    if count == 1 then ok (some text) else err (Error.value_error no_project_version)

-- the update of a path, if there is one
abbrev pub entry : String → Option String → List (String × String)
entry path none = []
entry path (some content) = (path, content) ∷ []

-- the loop of `write_text`
abbrev pub write_all : List (String × String) → Files → Files
write_all [] files = files
write_all ((path, content) ∷ rest) files =
    write_all rest (λ other. if str_eq path other then content else files other)

abbrev pub mismatched : List (String × String) → List String
mismatched updates = map (λ update. update.0) updates

abbrev is_empty : List String → Bool
is_empty [] = true
is_empty (path ∷ paths) = false

-- what the script returns, and the files afterwards
pub record Synced : Type 0 where
  pub mismatches : List String
  pub files : Files

module _ (tools : Tools) where
  -- an iteration of the loop over the JSON manifests: the new text, if the version is another one
  unfoldable pub update_json : String → String → Result (Option String)
  update_json version text = do
    m ← tools.loads text
    v ← version_in (get "version" m)
    if py_eq v (str version)
        then ok none
        else ok (some (String.◌++◌ (tools.dumps (set "version" (str version) m)) "\n"))

  unfoldable pub update_toml : String → String → Result (Option String)
  update_toml version text = do
    v ← tools.project_version text
    if py_eq v (str version) then ok none else one_place (tools.substitute version text)

  abbrev pub checked : Bool → String → Files → List (String × String) → Result Synced
  checked true version files updates = do
    v ← tools.lock_version (files python_lock)
    ok (record {
      mismatches = mismatched updates ++ (if py_eq v (str version) then [] else python_lock ∷ []);
      files = files;
    })
  checked false version files updates =
      ok (record { mismatches = mismatched updates; files = write_all updates files })

  -- `sync_version`
  unfoldable pub sync_version : Bool → Files → Result Synced
  unfolding update_json update_toml strip
  sync_version check files = do
    raise_if (str_eq (strip (files "VERSION")) "") empty_version
    root ← update_json (strip (files "VERSION")) (files root_manifest)
    typescript ← update_json (strip (files "VERSION")) (files typescript_manifest)
    python ← update_toml (strip (files "VERSION")) (files python_manifest)
    checked check (strip (files "VERSION")) files (
        entry root_manifest root
        ++ entry typescript_manifest typescript
        ++ entry python_manifest python)

-- what the script prints, with its exit status
pub record Exit : Type 0 where
  pub status : ℕ
  pub out : String
  pub errors : String
  pub files : Files

-- `", ".join(paths)`
abbrev pub join_commas : List String → String
join_commas [] = ""
join_commas (path ∷ []) = path
join_commas (path ∷ other ∷ rest) = String.◌++◌ path (String.◌++◌ ", " (join_commas (other ∷ rest)))

-- `main` once the script has its list of paths
unfoldable pub report_paths : Bool → Synced → Exit
report_paths check synced =
    let paths = join_commas synced.mismatches in
    if check && not (is_empty synced.mismatches)
    then record {
      status = 1;
      out = "";
      errors = String.◌++◌ "Version mismatch: " (String.◌++◌ paths "; run make version\n");
      files = synced.files;
    }
    else record {
      status = 0;
      out =
          if not check && not (is_empty synced.mismatches)
          then String.◌++◌ "Updated versions: " (String.◌++◌ paths "\n")
          else "";
      errors = "";
      files = synced.files;
    }

-- `main`, with whether `--check` is given
unfoldable pub main : Tools → Bool → Files → Result Exit
unfolding sync_version report_paths
main tools check files = do synced ← sync_version tools check files; ok (report_paths check synced)
