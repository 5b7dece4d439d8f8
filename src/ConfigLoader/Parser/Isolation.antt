-- ===== src/ConfigLoader/Parser/Isolation.antt =====
-- Each file of tg_conductor/config_loader/parser.py on its own.
use tg_conductor.Base.{
  String, ◌≡◌, refl, ap, ◌∙◌, inl, inr, ◌&&◌, some, List, [], ◌∷◌, ◌++◌, Bool-cases,
}
use mathlib.Core.List.{append_assoc, append-nil}
use tg_conductor.Base.Result.{Result, ok, err, ◌>>=◌}
use tg_conductor.Workflows.Schema.{Workflow}
use tg_conductor.ConfigLoader.Parser.{
  FileError, LoadResult, no_files, Yaml, null, sequence, scalar, mapping, DirEntry, FileRaised,
  handled, escaping, Reader, schema_errors, file_error, file_empty, is_list, not_mapping,
  yaml_error, read_failed, parse_validated, parse_data, parse_loaded, parse_text, parse_one,
  parse_entry, load_all, load_workflows_from_dir,
}

abbrev pub join : LoadResult → LoadResult → LoadResult
join r s = record { workflows = r.workflows ++ s.workflows; errors = r.errors ++ s.errors }

join_assoc : (r s t : LoadResult) → join (join r s) t ≡ join r (join s t)
join_assoc r s t =
    rw (append_assoc r.workflows s.workflows t.workflows, append_assoc r.errors s.errors t.errors)
      refl

join_none : (r : LoadResult) → r ≡ join r no_files
join_none r = rw (append-nil r.workflows, append-nil r.errors) refl

errors_join :
    (es : List FileError) (r : LoadResult)
    → record r { errors = r.errors ++ es } ≡ join r (record { workflows = []; errors = es })
errors_join es r = rw (append-nil r.workflows) refl

workflows_join :
    (ws : List (String × Workflow)) (r : LoadResult)
    → record r { workflows = r.workflows ++ ws } ≡ join r (record { workflows = ws; errors = [] })
workflows_join ws r = rw (append-nil r.errors) refl

joined : LoadResult → Result String LoadResult → Result String LoadResult
joined r (ok s) = ok (join r s)
joined r (err e) = err e

-- One load and then another: the first exception is that of both.
unfoldable pub both : Result String LoadResult → Result String LoadResult → Result String LoadResult
unfolding joined
both (ok r) rest = joined r rest
both (err e) rest = err e

joined_assoc :
    (r s : LoadResult) (t : Result String LoadResult) → joined (join r s) t ≡ joined r (joined s t)
unfolding joined
joined_assoc r s (ok t) = ap ok (join_assoc r s t)
joined_assoc r s (err e) = refl

module _ (reader : Reader) where
  parse_validated-join :
      (path : String) (v : Result (FileRaised (List (String × String))) Workflow) (r : LoadResult)
      → parse_validated reader path v r ≡ joined r (parse_validated reader path v no_files)
  unfolding joined
  parse_validated-join path (err (escaping e)) r = refl
  parse_validated-join path (err (handled es)) r = ap ok (errors_join (schema_errors path es) r)
  parse_validated-join path (ok wf) r = ap ok (workflows_join ((path, wf) ∷ []) r)

  parse_data-join :
      (path : String) (doc : Yaml) (r : LoadResult)
      → parse_data reader path doc r ≡ joined r (parse_data reader path doc no_files)
  unfolding joined
  parse_data-join path null r = ap ok (errors_join (file_error path "" file_empty ∷ []) r)
  parse_data-join path sequence r = ap ok (errors_join (file_error path "" is_list ∷ []) r)
  parse_data-join path (scalar type) r =
      ap ok (errors_join (file_error path "" (not_mapping type) ∷ []) r)
  parse_data-join path (mapping items) r = parse_validated-join path (reader.model_validate items) r

  parse_loaded-join :
      (path : String) (d : Result (FileRaised String) Yaml) (r : LoadResult)
      → parse_loaded reader path d r ≡ joined r (parse_loaded reader path d no_files)
  unfolding joined
  parse_loaded-join path (err (escaping e)) r = refl
  parse_loaded-join path (err (handled e)) r =
      ap ok (errors_join (file_error path "" (yaml_error e) ∷ []) r)
  parse_loaded-join path (ok doc) r = parse_data-join path doc r

  parse_text-join :
      (path : String) (t : Result (FileRaised String) String) (r : LoadResult)
      → parse_text reader path t r ≡ joined r (parse_text reader path t no_files)
  unfolding joined
  parse_text-join path (err (escaping e)) r = refl
  parse_text-join path (err (handled e)) r =
      ap ok (errors_join (file_error path "" (read_failed e) ∷ []) r)
  parse_text-join path (ok text) r = parse_loaded-join path (reader.safe_load text) r

  parse_entry-join :
      (e : DirEntry) (r : LoadResult)
      → parse_entry reader e r ≡ joined r (parse_entry reader e no_files)
  unfolding parse_one joined
  parse_entry-join e r = elim (Bool-cases (e.is_file && e.has_yaml_suffix)) [
    | inl t ↦ rw t (parse_text-join e.path (reader.read_text e.path) r)
    | inr f ↦ rw f (ap ok (join_none r))
  ]

  -- The results of the entries, each alone.
  abbrev pub alone : List DirEntry → Result String LoadResult
  alone [] = ok no_files
  alone (e ∷ es) = both (load_workflows_from_dir reader (some (e ∷ []))) (alone es)

  load_all-join : (es : List DirEntry) (r : LoadResult) → load_all reader es r ≡ joined r (alone es)
  unfolding load_all joined both load_workflows_from_dir
  load_all-join [] r = ap ok (join_none r)
  load_all-join (e ∷ es) r =
      ap (λ t. t >>= λ s. load_all reader es s) (parse_entry-join e r)
      ∙ rest (parse_entry reader e no_files) (λ s. load_all-join es s)
    where
      rest :
          (p : Result String LoadResult)
          → ((s : LoadResult) → load_all reader es s ≡ joined s (alone es))
          → (joined r p >>= λ s. load_all reader es s)
            ≡ joined r (both (p >>= λ s. load_all reader [] s) (alone es))
      rest (ok s) h = h (join r s) ∙ joined_assoc r s (alone es)
      rest (err e) h = refl

  -- A directory gives the workflows and the errors of its entries, each loaded as if it were alone and
  -- in their order, unless the load of one raises an exception that is not caught: then it raises that
  -- of the first that does.
  pub load_workflows_from_dir-isolates :
      (es : List DirEntry) → load_workflows_from_dir reader (some es) ≡ alone es
  unfolding load_workflows_from_dir joined
  load_workflows_from_dir-isolates es = load_all-join es no_files ∙ none_before (alone es)
    where
      none_before : (t : Result String LoadResult) → joined no_files t ≡ t
      none_before (ok s) = refl
      none_before (err e) = refl
