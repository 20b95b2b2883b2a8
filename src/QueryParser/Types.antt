-- ===== src/QueryParser/Types.antt =====
-- A predicate of the fields of what `QueryParser` gives.
use celeries.Base.{◌≡◌, refl, sym, ◌∙◌, inl, inr, [], ◌∷◌, arith, Option-cases}
use celeries.Base.Dict.{Dict, lookup, insert, Each, insert-Each}
use celeries.Base.Result.{Result, ok, Result-cases, ok-injective, bind-ok}
use celeries.Base.Text.{Text, text_eq}
use celeries.Errors.{Thrown}
use celeries.Uri.QueryString.{Part, Queries}
use celeries.QueryParser.{MapEntry, as_scalar, scalar_parser, parse, with_sources, append_parsed}

-- What a parser of a scalar puts comes from a value that has been read.
pub scalar_parser-ok :
    {A V : Type 0} (put : A → V) (f : Text → Result Thrown A) (p : Part) (v : V)
    → scalar_parser put f p ≡ ok v
    → (a : A) × (v ≡ put a)
unfolding scalar_parser
scalar_parser-ok put f p v run = elim (Option-cases (as_scalar p)) [
  | inl gone ↦ ground (arith, rw (gone, scalar_parser) at run)
  | inr (s, there) ↦ elim (Result-cases (f s)) [
    | inl (a, reads) ↦ (a, sym (ok-injective (rw reads at (rw (there, scalar_parser) at run))))
    | inr (x, fails) ↦ ground (arith, rw fails at (rw (there, scalar_parser) at run))
  ]
]

module _ {V : Type 0} (P : Text → V → Type 0) where
  -- What each parser gives satisfies the predicate at its target.
  abbrev pub Respects : Dict Text (MapEntry V) → Type 0
  Respects [] = Unit {0}
  Respects ((source, x) ∷ rest) =
      ((p : Part) (v : V) → x.parser p ≡ ok v → P x.target v) × Respects rest

  append_parsed-Each :
      (query : Queries) (m : Dict Text (MapEntry V)) (init r : Dict Text V)
      → Respects m
      → Each P init
      → append_parsed query (with_sources query m) init ≡ ok r
      → Each P r
  unfolding append_parsed with_sources
  append_parsed-Each query [] init r respects all run =
      let same : init ≡ r = ok-injective run in rw (← same) all
  append_parsed-Each query ((source, x) ∷ rest) init r (here, respects) all run =
      elim (Option-cases (lookup source query)) [
        | inl gone ↦ append_parsed-Each query rest init r respects all (rw gone at run)
        | inr (p, found) ↦
            let (v, parses, rest_run) =
              bind-ok (x.parser p)
                (λ v. append_parsed query (with_sources query rest) (insert x.target v init)) r
                (rw found at (rw found at run)) in
            append_parsed-Each query rest (insert x.target v init) r respects
              (insert-Each P x.target v init (here p v parses) all) rest_run
      ]

  pub parse-Each :
      (functions : Dict Text (MapEntry V)) (query : Queries) (init r : Dict Text V)
      → Respects functions
      → Each P init
      → parse functions query init ≡ ok r
      → Each P r
  unfolding parse
  parse-Each functions query init r respects all run =
      elim (Result-cases (append_parsed query (with_sources query functions) init)) [
        | inl (r', run') ↦
            append_parsed-Each query functions init r respects all
              (run' ∙ (sym (rw (run', parse) refl) ∙ run))
        | inr (e, run') ↦ ground (arith, run, run')
      ]
