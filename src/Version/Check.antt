-- ===== src/Version/Check.antt =====
-- `main` of scripts/version.py with `--check`.
use agentue.Prelude.{
  String, ◌≡◌, refl, sym, ap, ◌∙◌, Bool, true, false, Option, none, some, some-ne-none, List, [],
  ◌∷◌, ◌++◌, str_eq, if◌then◌else◌,
}
use Prim.Native.String
use agentue.Json.{Value, str, Fields, get, set}
use agentue.Json.Equality.{py_eq}
use agentue.Result.{
  err-ne-ok, Result, ◌>>=◌, ok, >>=-eq-ok, raise_if-eq-ok, empty_version, ok-injective,
}
use agentue.Runner.Errors.{strip}
use agentue.Version.{
  Exit, report_paths, main, Tools, Files, Synced, root_manifest, typescript_manifest,
  python_manifest, python_lock, one_place, version_in, entry, mismatched, update_json, update_toml,
  sync_version,
}
use agentue.Prelude.{◌↔◌, ◌≢◌, ℕ, true≢false, some-injective, Bool-cases, inl, inr, arith}

-- what is read is the version
pub record Reads (version : String) (r : Result Value) : Type 0 where
  pub found : Value
  pub there : r ≡ ok found
  pub same : py_eq found (str version) ≡ true

module _ (tools : Tools) where
  -- a JSON manifest is an object whose `version` is this one
  pub record HasVersion (version text : String) : Type 0 where
    pub manifest : Fields
    pub loaded : tools.loads text ≡ ok manifest
    pub found : Value
    pub there : get "version" manifest ≡ some found
    pub same : py_eq found (str version) ≡ true

  -- Both JSON manifests, the project and the package in the lock have the version of the file VERSION.
  pub record IsAtVersion (files : Files) : Type 0 where
    pub root : HasVersion (strip (files "VERSION")) (files root_manifest)
    pub typescript : HasVersion (strip (files "VERSION")) (files typescript_manifest)
    pub python : Reads (strip (files "VERSION")) (tools.project_version (files python_manifest))
    pub lock : Reads (strip (files "VERSION")) (tools.lock_version (files python_lock))

  found-HasVersion :
      (version text : String) (m : Fields) (o : Option Value) (b : Option String)
      → tools.loads text ≡ ok m
      → get "version" m ≡ o
      → (do
        v ← version_in o
        if py_eq v (str version)
            then ok none
            else ok (some (String.◌++◌ (tools.dumps (set "version" (str version) m)) "\n")))
        ≡ ok b
      → (b ≡ none) ↔ HasVersion version text
  found-HasVersion version text m none b l g h = absurd (err-ne-ok h)
  found-HasVersion version text m (some v) b l g h = elim (Bool-cases (py_eq v (str version))) [
    | inl same ↦
        let none_new : ok none ≡ ok b = rw same at h in
        (
          λ e. record { manifest = m; loaded = l; found = v; there = g; same = same },
          λ p. sym (ok-injective none_new),
        )
    | inr other ↦
        let new : ok (some (String.◌++◌ (tools.dumps (set "version" (str version) m)) "\n"))
            ≡ ok b =
          rw other at h in
        (
          λ e. absurd (some-ne-none _ (ok-injective new ∙ e)),
          λ p.
              let e : m ≡ p.manifest = ok-injective (sym l ∙ p.loaded) in
              let same_found : v ≡ p.found =
                some-injective _ _ (sym g ∙ ap (get "version") e ∙ p.there) in
              absurd (
                true≢false (sym p.same ∙ ap (λ w. py_eq w (str version)) (sym same_found) ∙ other)),
        )
  ]

  -- a JSON manifest needs no update exactly if it has the version
  update_json-HasVersion :
      (version text : String) (b : Option String)
      → update_json tools version text ≡ ok b
      → (b ≡ none) ↔ HasVersion version text
  unfolding update_json
  update_json-HasVersion version text b h =
      let (m, l, rest) = >>=-eq-ok (tools.loads text) _ h in
      found-HasVersion version text m (get "version" m) b l refl rest

  one_place-some : (p : String × ℕ) (b : Option String) → one_place p ≡ ok b → b ≢ none
  one_place-some (text, count) b h e = ground arith

  -- neither does the project file
  update_toml-Reads :
      (version text : String) (b : Option String)
      → update_toml tools version text ≡ ok b
      → (b ≡ none) ↔ Reads version (tools.project_version text)
  unfolding update_toml
  update_toml-Reads version text b h =
      let (v, l, rest) = >>=-eq-ok (tools.project_version text) _ h in
      elim (Bool-cases (py_eq v (str version))) [
        | inl same ↦
            let none_new : ok none ≡ ok b = rw same at rest in
            (λ e. record { found = v; there = l; same = same }, λ p. sym (ok-injective none_new))
        | inr other ↦
            let new : one_place (tools.substitute version text) ≡ ok b = rw other at rest in
            (
              λ e. absurd (one_place-some _ b new e),
              λ p. absurd (
                  true≢false (
                    sym p.same
                    ∙ ap (λ w. py_eq w (str version)) (ok-injective (sym p.there ∙ l))
                    ∙ other)),
            )
      ]

abbrev listed : Option String → Option String → Option String → Bool → List String
listed root typescript python same =
    mismatched (
      entry root_manifest root
      ++ entry typescript_manifest typescript
      ++ entry python_manifest python)
    ++ (if same then [] else python_lock ∷ [])

status-listed :
    (files : Files) (a b c : Option String) (same : Bool)
    → ((report_paths true (record { mismatches = listed a b c same; files = files })).status ≡ 0)
      ↔ ((a ≡ none) × (b ≡ none) × (c ≡ none) × (same ≡ true))
unfolding report_paths
status-listed files none none none true = (λ h. (refl, refl, refl, refl), λ h. refl)
status-listed files none none none false =
    (λ h. absurd (omega (arith, h)), λ h. absurd (true≢false (sym h.3)))
status-listed files none none (some z) same =
    (λ h. absurd (omega (arith, h)), λ h. absurd (some-ne-none _ h.2))
status-listed files none (some y) c same =
    (λ h. absurd (omega (arith, h)), λ h. absurd (some-ne-none _ h.1))
status-listed files (some x) b c same =
    (λ h. absurd (omega (arith, h)), λ h. absurd (some-ne-none _ h.0))

report_paths-files :
    (check : Bool) (synced : Synced) → (report_paths check synced).files ≡ synced.files
unfolding report_paths
report_paths-files check synced = ground arith

-- Where `main` returns with `--check`, it writes no file, and exits with 0 exactly if both JSON
-- manifests, the project and the package in the lock have the version of the file VERSION.
pub main-check :
    (tools : Tools) (files : Files) (exit : Exit)
    → main tools true files ≡ ok exit
    → (exit.files ≡ files) × ((exit.status ≡ 0) ↔ IsAtVersion tools files)
unfolding main sync_version
main-check tools files exit h =
    let version = strip (files "VERSION") in
    let (synced, h₀, done) = >>=-eq-ok (sync_version tools true files) _ h in
    let (full, h₁) = raise_if-eq-ok (str_eq version "") empty_version _ h₀ in
    let (root, r, h₂) = >>=-eq-ok (update_json tools version (files root_manifest)) _ h₁ in
    let (typescript, t, h₃) =
      >>=-eq-ok (update_json tools version (files typescript_manifest)) _ h₂ in
    let (python, p, h₄) = >>=-eq-ok (update_toml tools version (files python_manifest)) _ h₃ in
    let (locked, l, h₅) = >>=-eq-ok (tools.lock_version (files python_lock)) _ h₄ in
    let same = py_eq locked (str version) in
    let found : Synced = record {
      mismatches = listed root typescript python same;
      files = files;
    } in
    let printed : report_paths true found ≡ exit =
      ap (report_paths true) (ok-injective h₅) ∙ ok-injective done in
    let status = ap (λ (e : Exit). e.status) printed in
    let clean = status-listed files root typescript python same in
    (
      ap (λ (e : Exit). e.files) (sym printed) ∙ report_paths-files true found,
      (
        λ e.
            let (a, b, c, d) = clean.0 (status ∙ e) in
            record {
              root = (update_json-HasVersion tools version _ root r).0 a;
              typescript = (update_json-HasVersion tools version _ typescript t).0 b;
              python = (update_toml-Reads tools version _ python p).0 c;
              lock = record { found = locked; there = l; same = d };
            },
        λ v.
            sym status
            ∙ clean.1 (
              (update_json-HasVersion tools version _ root r).1 v.root,
              (update_json-HasVersion tools version _ typescript t).1 v.typescript,
              (update_toml-Reads tools version _ python p).1 v.python,
              ap (λ w. py_eq w (str version)) (ok-injective (sym l ∙ v.lock.there)) ∙ v.lock.same,
            ),
      ),
    )
