-- ===== src/Version/Again.antt =====
-- `sync_version` of scripts/version.py, and a second run of it.
use Prim.Native.String
use agentue.Prelude.{
  String, ◌≡◌, refl, sym, ap, ◌∙◌, Bool, true, false, Option, none, some, ◌++◌, str_eq, eq_refl,
  if◌then◌else◌,
}
use agentue.Json.{Value, str, Fields, get, set}
use agentue.Json.Laws.{get-set_self}
use agentue.Json.Equality.{py_eq}
use agentue.Result.{ok, >>=-eq-ok, raise_if-eq-ok, empty_version, ok-injective}
use agentue.Runner.Errors.{strip}
use agentue.Version.{
  Tools, Files, Synced, root_manifest, typescript_manifest, python_manifest, version_in, entry,
  write_all, update_json, update_toml, sync_version,
}

abbrev updated : Option String → String → String
updated none old = old
updated (some new) old = new

written :
    (files : Files) (a b c : Option String)
    → let after =
        write_all
          (entry root_manifest a ++ entry typescript_manifest b ++ entry python_manifest c)
          files in
      (after root_manifest ≡ updated a (files root_manifest))
      × (after typescript_manifest ≡ updated b (files typescript_manifest))
      × (after "VERSION" ≡ files "VERSION")
written files none none none = (refl, refl, refl)
written files none none (some z) = (refl, refl, refl)
written files none (some y) none = (refl, refl, refl)
written files none (some y) (some z) = (refl, refl, refl)
written files (some x) none none = (refl, refl, refl)
written files (some x) none (some z) = (refl, refl, refl)
written files (some x) (some y) none = (refl, refl, refl)
written files (some x) (some y) (some z) = (refl, refl, refl)

module _ (tools : Tools) where
  compared :
      (version text : String) (m : Fields) (v : Value) (same : Bool) (o : Option String)
      → tools.loads text ≡ ok m
      → get "version" m ≡ some v
      → py_eq v (str version) ≡ same
      → (if same
          then ok none
          else ok (some (String.◌++◌ (tools.dumps (set "version" (str version) m)) "\n")))
        ≡ ok o
      → update_json tools version (updated o text) ≡ ok none
  unfolding update_json py_eq
  compared version text m v true o read there same h = rw (← ok-injective h, read, there, same) refl
  compared version text m v false o read there same h =
      rw
        (
          ← ok-injective h,
          tools.loads-dumps text version m read,
          get-set_self "version" (str version) m,
          eq_refl,
        )
        refl

  version_in-some : (o : Option Value) (v : Value) → version_in o ≡ ok v → o ≡ some v
  version_in-some none v h = absurd (cc h)
  version_in-some (some w) v h = ap some (ok-injective h)

  -- a manifest that was brought to the version needs no update
  update_json-again :
      (version text : String) (o : Option String)
      → update_json tools version text ≡ ok o
      → update_json tools version (updated o text) ≡ ok none
  unfolding update_json
  update_json-again version text o h =
      let (m, read, h₁) = >>=-eq-ok (tools.loads text) _ h in
      let (v, there, h₂) = >>=-eq-ok (version_in (get "version" m)) _ h₁ in
      compared version text m v (py_eq v (str version)) o read (version_in-some _ v there) refl h₂

  -- Where `sync_version` returns, without `--check`, each JSON manifest that it leaves needs no further
  -- update to the version of the file VERSION, which it leaves as it is.
  pub sync_version-again :
      (files : Files) (synced : Synced)
      → sync_version tools false files ≡ ok synced
      → (update_json tools (strip (files "VERSION")) (synced.files root_manifest) ≡ ok none)
        × (update_json tools (strip (files "VERSION")) (synced.files typescript_manifest) ≡ ok none)
        × (synced.files "VERSION" ≡ files "VERSION")
  unfolding sync_version
  sync_version-again files synced h =
      let version = strip (files "VERSION") in
      let (full, h₁) = raise_if-eq-ok (str_eq version "") empty_version _ h in
      let (root, r, h₂) = >>=-eq-ok (update_json tools version (files root_manifest)) _ h₁ in
      let (typescript, t, h₃) =
        >>=-eq-ok (update_json tools version (files typescript_manifest)) _ h₂ in
      let (python, p, h₄) = >>=-eq-ok (update_toml tools version (files python_manifest)) _ h₃ in
      let (a, b, c) = written files root typescript python in
      let left = ap (λ (s : Synced). s.files) (sym (ok-injective h₄)) in
      (
        rw (left, a) (update_json-again version (files root_manifest) root r),
        rw (left, b) (update_json-again version (files typescript_manifest) typescript t),
        ap (λ f. f "VERSION") left ∙ c,
      )
