-- ===== src/Python/Files.antt =====
-- Files and directories that a program writes.
use sndv_kv.Prelude.{
  Text, text_eq, Bool, false, Bool-cases, inl, inr, ◌≡◌, refl, [], ◌∷◌, ◌||◌, Option, none, some,
  if◌then◌else◌,
}
use sndv_kv.Python.{
  Exn, os_error, ok, raise, wrote_file, wrote_json, made_directory, Json, Trace, Host,
}
use sndv_kv.Python.Actions.{Py}
use sndv_kv.Python.Loops.{Ends}

module _ {Float : Type 0} (host : Host Float) where
  -- `open(path, 'w')` with what is written to it
  abbrev pub write_file : Text → Py (Unit {0})
  write_file path w =
      if host.allows w path then (ok tt, wrote_file path ∷ w) else (raise os_error, w)

  -- `open(path, 'w')` with `json.dump(j, f)`
  abbrev pub dump_json : Text → Json → Py (Unit {0})
  dump_json path j w =
      if host.allows w path then (ok tt, wrote_json path j ∷ w) else (raise os_error, w)

  -- `path.mkdir(exist_ok=True)`
  abbrev pub make_directory : Text → Py (Unit {0})
  make_directory path w =
      if host.allows w path then (ok tt, made_directory path ∷ w) else (raise os_error, w)

  -- The exception where a file cannot be written.
  abbrev pub Refused : Exn → Trace → Type 0
  Refused e w = (e ≡ os_error) × ((path : Text) × (host.allows w path ≡ false))

  pub write_file-wrote :
      (path : Text) (w : Trace) → Ends (λ _ v. v ≡ wrote_file path ∷ w) Refused (write_file path w)
  write_file-wrote path w = elim (Bool-cases (host.allows w path)) [
    | inl e ↦ rw e refl
    | inr e ↦ rw e (refl, (path, e))
  ]

  pub dump_json-wrote :
      (path : Text) (j : Json) (w : Trace)
      → Ends (λ _ v. v ≡ wrote_json path j ∷ w) Refused (dump_json path j w)
  dump_json-wrote path j w = elim (Bool-cases (host.allows w path)) [
    | inl e ↦ rw e refl
    | inr e ↦ rw e (refl, (path, e))
  ]

  pub make_directory-Refused :
      (path : Text) (w : Trace) → Ends (λ _ _. Unit {0}) Refused (make_directory path w)
  make_directory-Refused path w = elim (Bool-cases (host.allows w path)) [
    | inl e ↦ rw e tt
    | inr e ↦ rw e (refl, (path, e))
  ]

-- Whether a file was written.
unfoldable pub written : Text → Trace → Bool
written path [] = false
written path (wrote_file p ∷ w) = text_eq path p || written path w
written path (wrote_json p _ ∷ w) = text_eq path p || written path w
written path (_ ∷ w) = written path w

-- The JSON value that was last written to a file, if that is known.
unfoldable pub content_of : Text → Trace → Option Json
content_of path [] = none
content_of path (wrote_json p j ∷ w) =
    let rest = content_of path w in if text_eq path p then some j else rest
content_of path (wrote_file p ∷ w) =
    let rest = content_of path w in if text_eq path p then none else rest
content_of path (_ ∷ w) = content_of path w
