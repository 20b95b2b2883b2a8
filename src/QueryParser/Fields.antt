-- ===== src/QueryParser/Fields.antt =====
-- The fields of what `QueryParser` gives.
use celeries.Base.{
  ◌≡◌, refl, sym, ap, ◌∙◌, ◌⊎◌, inl, inr, Option, none, some, List, [], ◌∷◌, map, if◌then◌else◌,
  arith, Bool-cases, Option-cases, or_else,
}
use celeries.Base.Dict.{Dict, lookup, insert, lookup-insert, Unique, insert-Unique}
use celeries.Base.Result.{Result, ok, err, Result-cases, ok-injective, bind-ok}
use celeries.Base.Text.{Text, codes, text_eq}
use celeries.Errors.{Thrown, parse_error}
use celeries.Uri.QueryString.{Part, Queries}
use celeries.QueryParser.{
  QueryDescriptor, MapEntry, create, map_of, assert_parser, assert_target, into_pair, parse,
  with_sources, append_parsed,
}

module _ {V : Type 0} where
  -- What the entry makes of the query, if its source is there.
  abbrev pub outcome : Queries → Text → MapEntry V → Option (Result Thrown V)
  outcome query source x = elim (lookup source query) [ none ↦ none | some p ↦ some (x.parser p) ]

  -- The outcome of the last entry with the target, of those whose source is there.
  abbrev pub field : Queries → Dict Text (MapEntry V) → Text → Option (Result Thrown V)
  field query [] t = none
  field query ((source, x) ∷ rest) t =
      or_else (field query rest t) (if text_eq.beq x.target t then outcome query source x else none)

  append_parsed-field :
      (query : Queries) (m : Dict Text (MapEntry V)) (init r : Dict Text V) (t : Text)
      → append_parsed query (with_sources query m) init ≡ ok r
      → ((field query m t ≡ none) × (lookup t r ≡ lookup t init))
        ⊎ ((v : V) × (field query m t ≡ some (ok v)) × (lookup t r ≡ some v))
  unfolding append_parsed with_sources
  append_parsed-field query [] init r t run = inl (refl, ground (arith, run))
  append_parsed-field query ((source, x) ∷ rest) init r t run =
      elim (Option-cases (lookup source query)) [
        | inl gone ↦ elim (append_parsed-field query rest init r t (rw gone at run)) [
          | inl (f, same) ↦ inl (ground (arith, gone, f), same)
          | inr (v, f, there) ↦ inr (v, ground (arith, gone, f), there)
        ]
        | inr (p, found) ↦
            let (v, parses, rest_run) =
              bind-ok (x.parser p)
                (λ v. append_parsed query (with_sources query rest) (insert x.target v init)) r
                (rw found at (rw found at run)) in
            elim (append_parsed-field query rest (insert x.target v init) r t rest_run) [
              | inr (w, f, there) ↦ inr (w, ground (arith, f), there)
              | inl (f, same) ↦ elim (Bool-cases (text_eq.beq x.target t)) [
                | inl here ↦ inr (
                  v,
                  ground (arith, f, here, found, parses),
                  same ∙ lookup-insert x.target t v init ∙ rw here,
                )
                | inr other ↦
                    inl
                      (ground (arith, f, other), same ∙ lookup-insert x.target t v init ∙ rw other)
              ]
            ]
      ]

  append_parsed-Unique :
      (query : Queries) (m : Dict Text (MapEntry V)) (init r : Dict Text V)
      → Unique init
      → append_parsed query m init ≡ ok r
      → Unique r
  unfolding append_parsed
  append_parsed-Unique query [] init r u run =
      let same : init ≡ r = ok-injective run in rw (← same) u
  append_parsed-Unique query ((source, x) ∷ rest) init r u run =
      let (v, parses, rest_run) =
        bind-ok _ (λ v. append_parsed query rest (insert x.target v init)) r run in
      append_parsed-Unique query rest (insert x.target v init) r (insert-Unique x.target v init u)
        rest_run

  -- No key stands twice in what `parse` gives.
  pub parse-Unique :
      (functions : Dict Text (MapEntry V)) (query : Queries) (init r : Dict Text V)
      → Unique init
      → parse functions query init ≡ ok r
      → Unique r
  unfolding parse
  parse-Unique functions query init r u run =
      elim (Result-cases (append_parsed query (with_sources query functions) init)) [
        | inl (r', run') ↦
            append_parsed-Unique query (with_sources query functions) init r u
              (run' ∙ (sym (rw (run', parse) refl) ∙ run))
        | inr (e, run') ↦ ground (arith, run, run')
      ]

  -- Every entry whose source is in the query parses it; some such entry does not.
  abbrev pub AllParse : Queries → Dict Text (MapEntry V) → Type 0
  AllParse query [] = Unit {0}
  AllParse query ((source, x) ∷ rest) =
      ((lookup source query ≡ none)
        ⊎ ((p : Part) × (v : V) × (lookup source query ≡ some p) × (x.parser p ≡ ok v)))
      × AllParse query rest

  abbrev pub SomeFails : Queries → Dict Text (MapEntry V) → Type 0
  SomeFails query [] = ⊥
  SomeFails query ((source, x) ∷ rest) =
      ((p : Part) × (e : Thrown) × (lookup source query ≡ some p) × (x.parser p ≡ err e))
      ⊎ SomeFails query rest

  append_parsed-outcome :
      (query : Queries) (m : Dict Text (MapEntry V)) (init : Dict Text V)
      → ((r : Dict Text V) × (append_parsed query (with_sources query m) init ≡ ok r)
          × AllParse query m)
        ⊎ ((e : Thrown) × (append_parsed query (with_sources query m) init ≡ err e)
            × SomeFails query m)
  unfolding append_parsed with_sources
  append_parsed-outcome query [] init = inl (init, refl, tt)
  append_parsed-outcome query ((source, x) ∷ rest) init =
      elim (Option-cases (lookup source query)) [
        | inl gone ↦ elim (append_parsed-outcome query rest init) [
          | inl (r, run, every) ↦ inl (r, rw gone run, (inl gone, every))
          | inr (e, run, one) ↦ inr (e, rw gone run, inr one)
        ]
        | inr (p, found) ↦ elim (Result-cases (x.parser p)) [
          | inr (e, fails) ↦ inr (e, rw found (rw found (rw fails refl)), inl (p, e, found, fails))
          | inl (v, parses) ↦ elim (append_parsed-outcome query rest (insert x.target v init)) [
            | inl (r, run, every) ↦
                inl (r, rw found (rw found (rw parses run)), (inr (p, v, found, parses), every))
            | inr (e, run, one) ↦ inr (e, rw found (rw found (rw parses run)), inr one)
          ]
        ]
      ]

  -- `parse` gives a result if every entry parses its part of the query, and a `ParseError` if one
  -- does not.
  pub parse-outcome :
      (functions : Dict Text (MapEntry V)) (query : Queries) (init : Dict Text V)
      → ((r : Dict Text V) × (parse functions query init ≡ ok r) × AllParse query functions)
        ⊎ ((parse functions query init ≡ err (parse_error (codes "query")))
            × SomeFails query functions)
  unfolding parse
  parse-outcome functions query init = elim (append_parsed-outcome query functions init) [
    | inl (r, run, every) ↦ inl (r, rw (run, parse) refl, every)
    | inr (e, run, one) ↦ inr (rw (run, parse) refl, one)
  ]

  -- In what `parse` gives, a field has the value of the last entry with this target whose source is
  -- in the query, and without such an entry it is as in `init`.
  pub parse-field :
      (functions : Dict Text (MapEntry V)) (query : Queries) (init r : Dict Text V) (t : Text)
      → parse functions query init ≡ ok r
      → ((field query functions t ≡ none) × (lookup t r ≡ lookup t init))
        ⊎ ((v : V) × (field query functions t ≡ some (ok v)) × (lookup t r ≡ some v))
  unfolding parse
  parse-field functions query init r t run = elim (append_parsed-outcome query functions init) [
    | inl (r', run', _) ↦
        let same : r' ≡ r = ok-injective (sym (rw (run', parse) refl) ∙ run) in
        append_parsed-field query functions init r t (run' ∙ ap ok same)
    | inr (e, run', _) ↦ ground (arith, run, run')
  ]

  -- What a descriptor stands for: without a parser the part itself is kept, and without a target
  -- the source is one.
  abbrev pub entry_of : (Part → V) → QueryDescriptor V → MapEntry V
  entry_of raw d = record {
    parser = (elim d.parser [ none ↦ (λ x. ok (raw x)) | some p ↦ p ]);
    target = (elim d.target [ none ↦ d.source | some t ↦ t ]);
  }

  abbrev pub last_with : Text → List (QueryDescriptor V) → Option (QueryDescriptor V)
  last_with s [] = none
  last_with s (d ∷ ds) = or_else (last_with s ds) (if text_eq.beq d.source s then some d else none)

  lookup-map_of :
      (raw : Part → V) (s : Text) (ds : List (QueryDescriptor V)) (m : Dict Text (MapEntry V))
      → lookup s (map_of (map into_pair (map assert_target (map (assert_parser raw) ds))) m)
        ≡ or_else
            (elim (last_with s ds) [ none ↦ none | some d ↦ some (entry_of raw d) ])
            (lookup s m)
  unfolding map_of into_pair assert_target assert_parser
  lookup-map_of raw s [] m = refl
  lookup-map_of raw s (d ∷ ds) m =
      let next = insert d.source (entry_of raw d) m in
      lookup-map_of raw s ds next
      ∙ (rw (lookup-insert d.source s (entry_of raw d) m) (elim (Option-cases (last_with s ds)) [
        | inr (d', later) ↦ rw later refl
        | inl no_later ↦ rw no_later (elim (Bool-cases (text_eq.beq d.source s)) [
          | inl here ↦ rw here refl
          | inr other ↦ rw other refl
        ])
      ]))

  -- The constructor keeps, for each source, the last descriptor with it.
  pub lookup-create :
      (raw : Part → V) (s : Text) (ds : List (QueryDescriptor V))
      → lookup s (create raw ds)
        ≡ (elim (last_with s ds) [ none ↦ none | some d ↦ some (entry_of raw d) ])
  unfolding create lookup
  lookup-create raw s ds = lookup-map_of raw s ds [] ∙ (elim (Option-cases (last_with s ds)) [
    | inl gone ↦ rw gone refl
    | inr (d, found) ↦ rw found refl
  ])
