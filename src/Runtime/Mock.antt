-- ===== src/Runtime/Mock.antt =====
-- syndicate/runtime/mock.py: a sandbox whose files are a dictionary. The world is that dictionary.
use syndicate.Prelude.{
  ◌≡◌, ◌∙◌, refl, ap, String, ◌<>◌, Bool-cases, true, false, Option, Option-cases, none, some, List,
  ◌⊎◌, inl, inr, pos, ◌==◌, str_eq, arith,
}
use syndicate.Prelude.Maps.{put, find, find-put, find-put-other}
use syndicate.Exec.{Exec, Result, ok, raised, file_not_found, pure, raise, ◌>>=◌}
use syndicate.Runtime.Base.{RuntimeClient}
use syndicate.Runtime.Replace.{
  count, replace_first, miscount, str_replace, IsReplaced, replace_first-IsReplaced,
}

abbrev pub Files : Type 0
Files = List (String × String)

-- What `read_file` does with what it found under the path.
abbrev pub content_or : String → Option String → Exec Files String
content_or path none = raise (file_not_found path)
content_or path (some content) = pure content

unfoldable pub read_file : String → Exec Files String
read_file path files = content_or path (find path files) files

unfoldable pub write_file : String → String → Exec Files (Unit {0})
write_file path content files = (ok tt, put path content files)

abbrev pub returned : {W : Type 0} → Result String → Exec W String
returned (ok content) = pure content
returned (raised x) = raise x

unfoldable pub edit_file : (String → String) → String → String → String → Exec Files (Unit {0})
unfolding read_file write_file
edit_file repr path old_string new_string = do
  content ← read_file path
  edited ← returned (str_replace repr content old_string new_string path)
  write_file path edited

unfoldable pub mock_client : (String → String) → RuntimeClient Files
unfolding read_file write_file edit_file
mock_client repr = record {
  is_mock = true;
  run_action =
      λ action cwd timeout. pure (record { exit_code = pos 0; output = "[mock] " <> action });
  read_file = read_file;
  write_file = write_file;
  edit_file = edit_file repr;
}

module _ (repr : String → String) (path old new : String) where
  -- An edit that was made: the only occurrence is replaced, and no other file changes.
  pub record IsEdited (files : Files) (r : Result (Unit {0}) × Files) : Type 0 where
    pub content : String
    pub edited : String
    pub returns : r.0 ≡ ok tt
    pub had : find path files ≡ some content
    pub once : count content old ≡ 1
    pub has : find path r.1 ≡ some edited
    pub replaced : IsReplaced old new content edited
    pub others : (other : String) → str_eq path other ≡ false → find other r.1 ≡ find other files

  -- An edit that was refused: the file is missing, or the count of the text is not one. No file
  -- changes.
  abbrev pub IsRefused : Files → Result (Unit {0}) × Files → Type 0
  IsRefused files r =
      ((find path files ≡ none) × (r ≡ (raised (file_not_found path), files)))
      ⊎ ((content : String) × (find path files ≡ some content)
          × ((count content old == 1) ≡ false)
          × (r ≡ (raised (miscount repr content old path), files)))

  -- An edit is made, which replaces the only occurrence and changes no other file, or it is refused
  -- because the file is missing or the count of the text is not one, and changes nothing.
  pub edit_file-outcome :
      (files : Files)
      → IsEdited files ((mock_client repr).edit_file path old new files)
        ⊎ IsRefused files ((mock_client repr).edit_file path old new files)
  unfolding mock_client edit_file read_file write_file str_replace ◌>>=◌
  edit_file-outcome files = elim (Option-cases (find path files)) [
    | inl missing ↦ inr (inl (missing, rw missing refl))
    | inr (content, found) ↦ elim (Bool-cases (count content old == 1)) [
      | inl one ↦
          let edited = replace_first old new content in
          let single : count content old ≡ 1 = ground (arith, one) in
          let e : (mock_client repr).edit_file path old new files ≡ (ok tt, put path edited files) =
            rw (found, one) refl in
          inl (record {
            content = content;
            edited = edited;
            returns = ap (λ (r : Result (Unit {0}) × Files). r.0) e;
            had = found;
            once = single;
            has =
                ap (λ (r : Result (Unit {0}) × Files). find path r.1) e
                ∙ find-put path edited files;
            replaced = replace_first-IsReplaced old new content single;
            others = λ other o.
                ap (λ (r : Result (Unit {0}) × Files). find other r.1) e
                ∙ find-put-other other path edited files o;
          })
      | inr many ↦ inr (inr (content, found, many, rw (found, many) refl))
    ]
  ]
