-- ===== src/Redis/Uri/Sentinel/Nodes.antt =====
-- What the options of sentinel URIs are.
use celeries.Base.{
  ◌≡◌, refl, sym, ap, ◌∙◌, inl, inr, true, Option, none, some, List, [], ◌∷◌, arith, or_else,
  Option-cases, if-cases, if◌then◌else◌,
}
use celeries.Base.Dict.{lookup, insert, lookup-insert, Unique, spread, lookup-spread}
use celeries.Base.Result.{ok, ok-injective, bind-ok}
use celeries.Base.Text.{Text, codes, text_eq}
use celeries.Uri.{Scheme, get_scheme, Runtime, Uri, Authority, parse_uri, split}
use celeries.Redis.Uri.{Options, OptionValue, text, nodes}
use celeries.Redis.Uri.Sentinel.Names.{name_of, parse_queries-name}
use celeries.Redis.Uri.Sentinel.{
  SentinelAuthority, is_sentinel_scheme, parse_queries, port_of, authority_of, parse_authority,
  parse_individual, parse_each, authorities, combine, reduced, with_sentinels, parse_sentinel_uri,
}

module _ (js : Runtime) where
  -- What a URI of the list stands for: a sentinel with its host and its port.
  abbrev NodeOf : Text → SentinelAuthority → Type 0
  NodeOf raw (host, port) =
      (uri : Uri) × (scheme : Scheme) × (authority : Authority) × (parse_uri js raw ≡ ok uri)
      × (get_scheme uri.raw ≡ ok scheme)
      × (is_sentinel_scheme scheme ≡ true)
      × (uri.authority ≡ some authority)
      × (authority.host ≡ host)
      × (authority.port ≡ some port)

  abbrev pub EachNode : List Text → List SentinelAuthority → Type 0
  EachNode [] [] = Unit {0}
  EachNode (raw ∷ rest) (n ∷ ns) = NodeOf raw n × EachNode rest ns
  EachNode _ _ = ⊥

  -- The name in the query of a URI.
  abbrev name_in : Text → Option OptionValue
  name_in raw = name_of (parse_uri js raw)

  -- The name of the last URI that has one.
  abbrev pub last_name : List Text → Option OptionValue
  last_name [] = none
  last_name (raw ∷ rest) = or_else (last_name rest) (name_in raw)

port_of-ok :
    (raw : Text) (a : Authority) (n : SentinelAuthority)
    → port_of raw a ≡ ok n
    → (a.host ≡ n.0) × (a.port ≡ some n.1)
unfolding port_of
port_of-ok raw a n run = ground (arith, run)

authority_of-ok :
    (uri : Uri) (s : Scheme) (n : SentinelAuthority)
    → authority_of uri s ≡ ok n
    → (is_sentinel_scheme s ≡ true)
      × ((a : Authority) × (uri.authority ≡ some a) × (a.host ≡ n.0) × (a.port ≡ some n.1))
unfolding authority_of
authority_of-ok uri s n run = elim (if-cases (is_sentinel_scheme s) run) [
  | inr (_, e) ↦ ground (arith, e)
  | inl (sentinel, e) ↦ (
    sentinel,
    elim (Option-cases uri.authority) [
      | inl gone ↦ let e' = rw gone at e in ground (arith, e')
      | inr (a, found) ↦ (let (h, p) = port_of-ok uri.raw a n (rw found at e) in (a, found, h, p))
    ],
  )
]

module _ (js : Runtime) where
  individual-ok :
      (raw : Text) (n : SentinelAuthority) (q : Options)
      → parse_individual js raw ≡ ok (n, q)
      → NodeOf js raw n × Unique q × (lookup (codes "name") q ≡ name_in js raw)
  unfolding parse_individual parse_authority
  individual-ok raw n q run =
      let (uri, parses, run1) = bind-ok (parse_uri js raw) _ (n, q) run in
      let (m, has_authority, run2) = bind-ok (parse_authority uri) _ (n, q) run1 in
      let (q', has_queries, run3) = bind-ok (parse_queries uri) _ (n, q) run2 in
      let same : (m, q') ≡ (n, q) = ok-injective run3 in
      let (s, scheme, run4) = bind-ok (get_scheme uri.raw) _ m has_authority in
      let (sentinel, (a, found, host, port)) = authority_of-ok uri s m run4 in
      let (u, named) = parse_queries-name uri q' has_queries in
      let same_node : m ≡ n = ap (λ (p : SentinelAuthority × Options). p.0) same in
      let same_query : q' ≡ q = ap (λ (p : SentinelAuthority × Options). p.1) same in
      (
        (
          uri,
          s,
          a,
          parses,
          scheme,
          sentinel,
          found,
          host ∙ ap (λ (x : SentinelAuthority). x.0) same_node,
          port ∙ ap (λ (x : SentinelAuthority). some x.1) same_node,
        ),
        rw (← same_query) u,
        rw (← same_query) (named ∙ sym (ap name_of parses)),
      )

  -- Each query has the name that its URI has.
  abbrev Named : List Text → List (SentinelAuthority × Options) → Type 0
  Named [] [] = Unit {0}
  Named (raw ∷ rest) ((_, q) ∷ ps) =
      (Unique q × (lookup (codes "name") q ≡ name_in js raw)) × Named rest ps
  Named _ _ = ⊥

  each-ok :
      (raws : List Text) (ps : List (SentinelAuthority × Options))
      → parse_each js raws ≡ ok ps
      → EachNode js raws (authorities ps) × Named raws ps
  unfolding parse_each
  each-ok [] ps run = let same : [] ≡ ps = ok-injective run in rw (← same) (tt, tt)
  each-ok (raw ∷ rest) ps run =
      let (first, one, run1) = bind-ok (parse_individual js raw) _ ps run in
      let (others, more, run2) = bind-ok (parse_each js rest) _ ps run1 in
      let same : first ∷ others ≡ ps = ok-injective run2 in
      let (node, u, named) = individual-ok raw first.0 first.1 one in
      let (every, all_named) = each-ok rest others more in
      rw (← same) ((node, every), ((u, named), all_named))

or_else_assoc : {A : Type 0} (a b c : Option A) → or_else a (or_else b c) ≡ or_else (or_else a b) c
or_else_assoc none b c = refl
or_else_assoc (some x) b c = refl

combine-name :
    (js : Runtime) (raws : List Text) (ps : List (SentinelAuthority × Options)) (o : Options)
    → Named js raws ps
    → lookup (codes "name") (combine o ps) ≡ or_else (last_name js raws) (lookup (codes "name") o)
unfolding combine
combine-name js [] [] o all = refl
combine-name js [] (_ ∷ ps) o all = elim all [ ]
combine-name js (raw ∷ rest) [] o all = elim all [ ]
combine-name js (raw ∷ rest) ((n, q) ∷ ps) o ((u, named), all) =
    combine-name js rest ps (spread o q) all
    ∙ ap (or_else (last_name js rest))
        (lookup-spread (codes "name") o q u ∙ ap (λ x. or_else x (lookup (codes "name") o)) named)
    ∙ or_else_assoc (last_name js rest) (name_in js raw) (lookup (codes "name") o)

reduced-name :
    (js : Runtime) (raws : List Text) (ps : List (SentinelAuthority × Options)) (o : Options)
    → Named js raws ps
    → reduced ps ≡ ok o
    → lookup (codes "name") o ≡ last_name js raws
unfolding reduced
reduced-name js raws [] o all run = ground (arith, run)
reduced-name js [] (p ∷ ps) o all run = elim all [ ]
reduced-name js (raw ∷ rest) ((n, q) ∷ ps) o ((u, named), all) run =
    let same : combine q ps ≡ o = ok-injective run in
    sym (ap (lookup (codes "name")) same)
    ∙ combine-name js rest ps q all
    ∙ ap (or_else (last_name js rest)) named

with_sentinels-ok :
    (ps : List (SentinelAuthority × Options)) (o r : Options)
    → with_sentinels ps o ≡ ok r
    → ((v : OptionValue) × (lookup (codes "name") o ≡ some v) × (lookup (codes "name") r ≡ some v))
      × (lookup (codes "protocol") r ≡ some (text (codes "sentinel")))
      × (lookup (codes "sentinels") r ≡ some (nodes (authorities ps)))
unfolding with_sentinels
with_sentinels-ok ps o r run = elim (Option-cases (lookup (codes "name") o)) [
  | inl gone ↦ let run' = rw gone at run in ground (arith, run')
  | inr (v, found) ↦
      let with_protocol = insert (codes "protocol") (text (codes "sentinel")) o in
      let same : insert (codes "sentinels") (nodes (authorities ps)) with_protocol ≡ r =
        ok-injective (rw found at run) in
      let at : (t : Text)
          → lookup t r
            ≡ lookup t (insert (codes "sentinels") (nodes (authorities ps)) with_protocol) =
        λ t. sym (ap (lookup t) same) ∙ refl in
      let over : (t : Text)
          → lookup t (insert (codes "sentinels") (nodes (authorities ps)) with_protocol) ≡ (
              if text_eq.beq (codes "sentinels") t
              then some (nodes (authorities ps))
              else lookup t with_protocol) =
        λ t. lookup-insert (codes "sentinels") t (nodes (authorities ps)) with_protocol in
      let under : (t : Text)
          → lookup t with_protocol ≡ (
              if text_eq.beq (codes "protocol") t
              then some (text (codes "sentinel"))
              else lookup t o) =
        λ t. lookup-insert (codes "protocol") t (text (codes "sentinel")) o in
      (
        (v, found, at (codes "name") ∙ over (codes "name") ∙ under (codes "name") ∙ found),
        at (codes "protocol") ∙ over (codes "protocol") ∙ under (codes "protocol"),
        at (codes "sentinels") ∙ over (codes "sentinels"),
      )
]

-- What `parseSentinelUri` gives has the protocol `sentinel`, one sentinel for each of the URIs
-- between the semicolons, in their order, with the host and the port of this URI, whose scheme is a
-- sentinel scheme; and the name of the last URI that has one, which there has to be.
pub parse_sentinel_uri-nodes :
    (js : Runtime) (raw_uris : Text) (r : Options)
    → parse_sentinel_uri js raw_uris ≡ ok r
    → ((ns : List SentinelAuthority) × EachNode js (split b';' raw_uris) ns
        × (lookup (codes "sentinels") r ≡ some (nodes ns)))
      × (lookup (codes "protocol") r ≡ some (text (codes "sentinel")))
      × ((v : OptionValue) × (last_name js (split b';' raw_uris) ≡ some v)
          × (lookup (codes "name") r ≡ some v))
unfolding parse_sentinel_uri
parse_sentinel_uri-nodes js raw_uris r run =
    let (ps, parses, run1) = bind-ok (parse_each js (split b';' raw_uris)) _ r run in
    let (o, reduces, run2) = bind-ok (reduced ps) _ r run1 in
    let (every, all) = each-ok js (split b';' raw_uris) ps parses in
    let ((v, before, there), protocol, sentinels) = with_sentinels-ok ps o r run2 in
    (
      (authorities ps, every, sentinels),
      protocol,
      (v, sym (reduced-name js (split b';' raw_uris) ps o all reduces) ∙ before, there),
    )
