-- ===== src/Samples/Versions.antt =====
-- A sample run of the version script, where a manifest's text is its version and a line feed.
use Prim.Native.String
use Prim.Native.String.{[], ◌∷◌}
use text.Mathlib.TextLemmas.{cons-append}
use agentue.Prelude.{◌↔◌, ap, String, ◌≡◌, refl, true, false, none, if◌then◌else◌, str_eq}
use agentue.Json.{str, Fields, field, empty, get, set, Value}
use agentue.Json.Equality.{py_eq}
use agentue.Result.{ok, ok-injective}
use agentue.Runner.Errors.{strip, strip_left, strip_right}
use agentue.Version.{
  Tools, Files, Synced, root_manifest, typescript_manifest, update_json, update_toml, Exit, main,
  report_paths, sync_version,
}
use agentue.Version.Again.{sync_version-again}
use agentue.Version.Check.{IsAtVersion, main-check}

abbrev drop_last : String → String
drop_last [] = []
drop_last (c ∷ []) = []
drop_last (c ∷ d ∷ s) = c ∷ drop_last (d ∷ s)

drop_last-append : (s : String) → drop_last (String.◌++◌ s "\n") ≡ s
drop_last-append [] = refl
drop_last-append (c ∷ []) = rw cons-append refl
drop_last-append (c ∷ d ∷ s) =
    let rest : drop_last (d ∷ String.◌++◌ s "\n") ≡ d ∷ s =
      rw (← cons-append) (drop_last-append (d ∷ s)) in
    rw (cons-append, cons-append) (ap (λ t. c ∷ t) rest)

abbrev text_of : Value → String
text_of (str s) = s
text_of v = ""

abbrev version_of : Fields → String
version_of empty = ""
version_of (field k v fs) = text_of v

abbrev manifest : String → Fields
manifest text = field "version" (str (drop_last text)) empty

manifest-read :
    (text version : String) (m : Fields)
    → ok (manifest text) ≡ ok m
    → ok (manifest (String.◌++◌ (version_of (set "version" (str version) m)) "\n"))
      ≡ ok (set "version" (str version) m)
unfolding set
manifest-read text version m h = rw (← ok-injective h, drop_last-append version) refl

abbrev simple : Tools
simple = record {
  loads = λ text. ok (manifest text);
  dumps = version_of;
  project_version = λ text. ok (str (drop_last text));
  lock_version = λ text. ok (str (drop_last text));
  substitute = λ version text. (String.◌++◌ version "\n", 1);
  loads-dumps = manifest-read;
}

abbrev before : Files
before path = if str_eq path "VERSION" then "0.0.5\n" else "0.0.4\n"

before_synced : (synced : Synced) × (sync_version simple false before ≡ ok synced)
unfolding sync_version update_json update_toml strip strip_left strip_right get set py_eq
before_synced = (_, refl)

sync_version-again_example :
    (update_json simple (strip "0.0.5\n") (before_synced.0.files root_manifest) ≡ ok none)
    × (update_json simple (strip "0.0.5\n") (before_synced.0.files typescript_manifest) ≡ ok none)
    × (before_synced.0.files "VERSION" ≡ "0.0.5\n")
sync_version-again_example = sync_version-again simple before before_synced.0 before_synced.1

before_checked : (exit : Exit) × (main simple true before ≡ ok exit)
unfolding main report_paths sync_version update_json update_toml strip strip_left strip_right get
    set py_eq
before_checked = (_, refl)

main-check_example :
    (before_checked.0.files ≡ before) × ((before_checked.0.status ≡ 0) ↔ IsAtVersion simple before)
main-check_example = main-check simple before before_checked.0 before_checked.1
