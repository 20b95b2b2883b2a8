-- ===== src/Uri/Authorities.antt =====
-- What `addHostUserPassAndPort` makes of the parts of a URL.
use celeries.Base.{
  ℕ, ◌≡◌, refl, sym, ap, ◌∙◌, ◌⊎◌, inl, inr, true, false, Option, none, some, [], ◌∷◌, arith,
  if-cases, Bool-cases,
}
use celeries.Base.Result.{ok, Result-cases, ok-injective, bind-ok}
use celeries.Base.Text.{Text, to_lower_case}
use celeries.Uri.{
  Url, Runtime, UserInfo, Authority, Uri, is_falsy, is_host, validate_host, add_host, with_user,
  add_host_and_user, with_pass, add_host_user_and_pass, parse_port, with_port,
  add_host_user_pass_and_port,
}

-- The user of a URL: its name and password are decoded, except for the password of a named user.
pub data Credentials (js : Runtime) (username password : Text) : Option UserInfo → Type 0 where
  nobody : username ≡ [] → password ≡ [] → Credentials js username password none
  only_user :
      (user : Text)
      → is_falsy username ≡ false
      → password ≡ []
      → js.decode_uri_component username ≡ ok user
      → Credentials js username password (some (record { user = user; pass = none }))
  only_pass :
      (pass : Text)
      → username ≡ []
      → is_falsy password ≡ false
      → js.decode_uri_component password ≡ ok pass
      → Credentials js username password (some (record { user = []; pass = some pass }))
  both :
      (user : Text)
      → is_falsy username ≡ false
      → is_falsy password ≡ false
      → js.decode_uri_component username ≡ ok user
      → Credentials js username password (some (record { user = user; pass = some password }))

pub data Port (js : Runtime) (port : Text) : Option ℕ → Type 0 where
  no_port : port ≡ [] → Port js port none
  a_port : is_falsy port ≡ false → js.is_nan port ≡ false → Port js port (some (js.parse_int port))

falsy-empty : (s : Text) → is_falsy s ≡ true → s ≡ []
unfolding is_falsy
falsy-empty [] h = refl
falsy-empty (c ∷ s) h = ground arith

module _ (js : Runtime) where
  -- The authority before its port, for a URL with a host.
  abbrev bare : Text → Option UserInfo → Authority
  bare host info = record { user_info = info; host = host; port = none }

  with_user-cases :
      (uri : Url) (v : Uri) (host : Text) (w : Uri)
      → v.authority ≡ some (bare host none)
      → with_user js uri v (some (bare host none)) ≡ ok w
      → ((uri.username ≡ []) × (w ≡ v))
        ⊎ ((user : Text) × (is_falsy uri.username ≡ false)
            × (js.decode_uri_component uri.username ≡ ok user)
            × (w ≡ record v {
              authority = some (bare host (some (record { user = user; pass = none })));
            }))
  unfolding with_user
  with_user-cases uri v host w is run = elim (if-cases (is_falsy uri.username) run) [
    | inl (falsy, same) ↦ inl (falsy-empty uri.username falsy, ground (arith, same))
    | inr (there, same) ↦ elim (Result-cases (js.decode_uri_component uri.username)) [
      | inl (user, decoded) ↦ inr (user, there, decoded, ground (arith, decoded, same))
      | inr (x, failed) ↦ ground (arith, failed, same)
    ]
  ]

  with_pass-cases :
      (uri : Url) (v : Uri) (host : Text) (info : Option UserInfo) (w : Uri)
      → with_pass js uri v (some (bare host info)) ≡ ok w
      → v.authority ≡ some (bare host info)
      → ((uri.password ≡ []) × (w ≡ v))
        ⊎ ((i : UserInfo) × (info ≡ some i)
            × (is_falsy uri.password ≡ false)
            × (w ≡ record v {
              authority = some (bare host (some (record i { pass = some uri.password })));
            }))
        ⊎ ((pass : Text) × (info ≡ none)
            × (is_falsy uri.password ≡ false)
            × (js.decode_uri_component uri.password ≡ ok pass)
            × (w ≡ record v {
              authority = some (bare host (some (record { user = []; pass = some pass })));
            }))
  unfolding with_pass
  with_pass-cases uri v host none w run is = elim (if-cases (is_falsy uri.password) run) [
    | inl (falsy, same) ↦ inl (falsy-empty uri.password falsy, ground (arith, same))
    | inr (there, same) ↦ elim (Result-cases (js.decode_uri_component uri.password)) [
      | inl (pass, decoded) ↦ inr (inr (pass, refl, there, decoded, ground (arith, decoded, same)))
      | inr (x, failed) ↦ ground (arith, failed, same)
    ]
  ]
  with_pass-cases uri v host (some i) w run is = elim (if-cases (is_falsy uri.password) run) [
    | inl (falsy, same) ↦ inl (falsy-empty uri.password falsy, ground (arith, same))
    | inr (there, same) ↦ inr (inl (i, refl, there, ground (arith, same)))
  ]

  with_port-cases :
      (uri : Url) (v : Uri) (host : Text) (info : Option UserInfo) (w : Uri)
      → with_port js uri v (some (bare host info)) ≡ ok w
      → v.authority ≡ some (bare host info)
      → (port : Option ℕ) × Port js uri.port port
        × (w
            ≡ record v { authority = some (record { user_info = info; host = host; port = port }) })
  unfolding with_port parse_port
  with_port-cases uri v host info w run is = elim (if-cases (is_falsy uri.port) run) [
    | inl (falsy, same) ↦ (none, no_port (falsy-empty uri.port falsy), ground (arith, same))
    | inr (there, same) ↦ elim (Bool-cases (js.is_nan uri.port)) [
      | inl nan ↦ ground (arith, nan, same)
      | inr number ↦
          (some (js.parse_int uri.port), a_port there number, ground (arith, number, same))
    ]
  ]

  abbrev host_only : Url → Uri → Uri
  host_only uri v = record v { authority = some (bare (to_lower_case uri.hostname) none) }

  add_host-cases :
      (uri : Url) (v w : Uri)
      → add_host uri v ≡ ok w
      → ((uri.hostname ≡ []) × (w ≡ v)) ⊎ ((is_host uri.hostname ≡ true) × (w ≡ host_only uri v))
  unfolding add_host validate_host
  add_host-cases uri v w run = elim (if-cases (is_falsy uri.hostname) run) [
    | inl (falsy, same) ↦ inl (falsy-empty uri.hostname falsy, ground (arith, same))
    | inr (there, same) ↦ elim (Bool-cases (is_host uri.hostname)) [
      | inl valid ↦ inr (valid, ground (arith, valid, same))
      | inr invalid ↦ ground (arith, invalid, same)
    ]
  ]

  abbrev with_info : Url → Uri → Option UserInfo → Uri
  with_info uri v info = record v { authority = some (bare (to_lower_case uri.hostname) info) }

  with_user-Credentials :
      (uri : Url) (v u x : Uri)
      → with_user js uri (host_only uri v) (host_only uri v).authority ≡ ok u
      → with_pass js uri u u.authority ≡ ok x
      → (info : Option UserInfo) × Credentials js uri.username uri.password info
        × (x ≡ with_info uri v info)
  with_user-Credentials uri v u x first second =
      let host = to_lower_case uri.hostname in
      elim (with_user-cases uri (host_only uri v) host u refl first) [
        | inl (no_user, same) ↦
            let second' : with_pass js uri (host_only uri v) (some (bare host none)) ≡ ok x =
              sym (ap (λ w. with_pass js uri w w.authority) same) ∙ second in
            elim (with_pass-cases uri (host_only uri v) host none x second' refl) [
              | inl (no_pass, is) ↦ (none, nobody no_user no_pass, is)
              | inr (inl (i, wrong, _, _)) ↦ ground (arith, wrong)
              | inr (inr (pass, _, there, decoded, is)) ↦ (
                some (record { user = []; pass = some pass }),
                only_pass pass no_user there decoded,
                is,
              )
            ]
        | inr (user, named, decoded, same) ↦
            let i : UserInfo = record { user = user; pass = none } in
            let second' : with_pass js uri (with_info uri v (some i)) (some (bare host (some i)))
                ≡ ok x =
              sym (ap (λ w. with_pass js uri w w.authority) same) ∙ second in
            elim (with_pass-cases uri (with_info uri v (some i)) host (some i) x second' refl) [
              | inl (no_pass, is) ↦ (some i, only_user user named no_pass decoded, is)
              | inr (inl (j, is_i, there, is)) ↦ (
                some (record { user = user; pass = some uri.password }),
                both user named there decoded,
                ground (arith, is_i, is),
              )
              | inr (inr (pass, wrong, _, _, _)) ↦ ground (arith, wrong)
            ]
      ]

  -- Without an authority none of the parts is added.
  without-authority :
      (uri : Url) (h u x w : Uri)
      → h.authority ≡ none
      → with_user js uri h h.authority ≡ ok u
      → with_pass js uri u u.authority ≡ ok x
      → with_port js uri x x.authority ≡ ok w
      → w ≡ h
  unfolding with_user with_pass with_port
  without-authority uri h u x w n first second third =
      let u_is : h ≡ u = ok-injective (sym (ap (with_user js uri h) n) ∙ first) in
      let u_none : u.authority ≡ none = sym (ap (λ v. v.authority) u_is) ∙ n in
      let x_is : u ≡ x = ok-injective (sym (ap (with_pass js uri u) u_none) ∙ second) in
      let x_none : x.authority ≡ none = sym (ap (λ v. v.authority) x_is) ∙ u_none in
      let w_is : x ≡ w = ok-injective (sym (ap (with_port js uri x) x_none) ∙ third) in
      sym (u_is ∙ x_is ∙ w_is)

  -- For a URL without a host `addHostUserPassAndPort` changes nothing. Otherwise, where it gives a
  -- result, the host is a valid one and is written in lower case, the user is that of the URL, with
  -- the name and the password decoded but for the password of a named user, and the port is the
  -- number of the URL's.
  pub add_host_user_pass_and_port-Credentials :
      (uri : Url) (v w : Uri)
      → v.authority ≡ none
      → add_host_user_pass_and_port js uri v ≡ ok w
      → ((uri.hostname ≡ []) × (w ≡ v))
        ⊎ ((info : Option UserInfo) × (port : Option ℕ) × (is_host uri.hostname ≡ true)
            × Credentials js uri.username uri.password info
            × Port js uri.port port
            × (w ≡ record v {
              authority =
                  some
                    (record { user_info = info; host = to_lower_case uri.hostname; port = port });
            }))
  unfolding add_host_user_pass_and_port add_host_user_and_pass add_host_and_user
  add_host_user_pass_and_port-Credentials uri v w bare_ run =
      let (x, run_x, third) = bind-ok (add_host_user_and_pass js uri v) _ w run in
      let (u, run_u, second) = bind-ok (add_host_and_user js uri v) _ x run_x in
      let (h, run_h, first) = bind-ok (add_host uri v) _ u run_u in
      elim (add_host-cases uri v h run_h) [
        | inl (no_host, same) ↦ inl (
          no_host,
          without-authority uri h u x w (ap (λ v. v.authority) same ∙ bare_) first second third
              ∙ same,
        )
        | inr (valid, same) ↦
            let first' : with_user js uri (host_only uri v) (host_only uri v).authority ≡ ok u =
              sym (ap (λ w. with_user js uri w w.authority) same) ∙ first in
            let (info, credentials, is) = with_user-Credentials uri v u x first' second in
            let third' : with_port js uri (with_info uri v info)
                  (some (bare (to_lower_case uri.hostname) info))
                ≡ ok w =
              sym (ap (λ w. with_port js uri w w.authority) is) ∙ third in
            let (port, p, last) =
              with_port-cases uri (with_info uri v info) (to_lower_case uri.hostname) info w third'
                refl in
            inr (info, port, valid, credentials, p, last)
      ]
