-- ===== src/Accounts/Origin.antt =====
-- The requests that `accountWrite` of go_api/cmd/api/users.go lets through.
use imageboard.Base.{
  [], ◌∷◌, Option, none, some, inl, inr, ◌⊎◌, arith, ap, Bool-cases, ◌≡◌, refl, true, false,
}
use imageboard.Text.{Bytes, codes, bytes_eq, bytes_eq_iff, is_nil}
use imageboard.Accounts.Guard.{
  Url, Web, Headers, is_text, is_json_request, is_other_site, scheme_of, is_own_origin,
  account_write,
}
use imageboard.Accounts.{Db, Ended}

-- The request is JSON, bears the header that a form cannot send, and comes from no other site; an
-- origin that it names has the scheme and the host of the server and nothing else.
pub record IsSameOrigin (web : Web) (r : Headers) : Type 0 where
  pub is_json : web.media_type r.content_type ≡ some (codes "application/json")
  pub has_marker : r.request_marker ≡ codes "account"
  pub from_site :
      (r.fetch_site ≡ []) ⊎ (r.fetch_site ≡ codes "same-origin") ⊎ (r.fetch_site ≡ codes "none")
  pub from_origin :
      (r.origin ≡ [])
      ⊎ ((u : Url) × (web.parse_url r.origin ≡ some u)
          × (u.scheme ≡ scheme_of r)
          × (web.equal_fold u.host r.host ≡ true)
          × (u.has_user ≡ false)
          × (u.path ≡ [])
          × (u.raw_query ≡ [])
          × (u.fragment ≡ []))

is_text_eq : (o : Option Bytes) (text : Bytes) → is_text o text ≡ true → o ≡ some text
is_text_eq none text h = absurd (ground (arith, h))
is_text_eq (some read) text h = ap some ((bytes_eq_iff read text).0 h)

is_nil_eq : (text : Bytes) → is_nil text ≡ true → text ≡ []
is_nil_eq [] h = refl
is_nil_eq (c ∷ text) h = absurd (ground (arith, h))

is_other_site_cases :
    (site : Bytes)
    → is_other_site site ≡ false
    → (site ≡ []) ⊎ (site ≡ codes "same-origin") ⊎ (site ≡ codes "none")
unfolding is_other_site
is_other_site_cases site h = elim (Bool-cases (is_nil site)) [
  | inl n ↦ inl (is_nil_eq site n)
  | inr n ↦ elim (Bool-cases (bytes_eq site (codes "same-origin"))) [
    | inl e ↦ inr (inl ((bytes_eq_iff site (codes "same-origin")).0 e))
    | inr d ↦ inr (inr ((bytes_eq_iff site (codes "none")).0 (ground (arith, h, n, d))))
  ]
]

is_own_origin_parts :
    (web : Web) (r : Headers) (o : Option Url)
    → is_own_origin web r o ≡ true
    → (u : Url) × (o ≡ some u)
      × (u.scheme ≡ scheme_of r)
      × (web.equal_fold u.host r.host ≡ true)
      × (u.has_user ≡ false)
      × (u.path ≡ [])
      × (u.raw_query ≡ [])
      × (u.fragment ≡ [])
unfolding is_own_origin
is_own_origin_parts web r none h = absurd (ground (arith, h))
is_own_origin_parts web r (some u) h = (
  u,
  refl,
  (bytes_eq_iff u.scheme (scheme_of r)).0 (ground (arith, h)),
  ground (arith, h),
  ground (arith, h),
  is_nil_eq u.path (ground (arith, h)),
  is_nil_eq u.raw_query (ground (arith, h)),
  is_nil_eq u.fragment (ground (arith, h)),
)

-- Whom `accountWrite` lets through.
pub account_write_lets_through :
    (web : Web) (r : Headers) (next : Db → Ended) (db : Db)
    → ((account_write web r next db).1 ≡ db)
      ⊎ ((account_write web r next db ≡ next db) × IsSameOrigin web r)
unfolding account_write is_json_request
account_write_lets_through web r next db = elim (Bool-cases (is_json_request web r)) [
  | inr q ↦ inl (rw q refl)
  | inl q ↦ elim (Bool-cases (is_other_site r.fetch_site)) [
    | inl o ↦ inl (rw (q, o) refl)
    | inr o ↦ elim (Bool-cases (is_nil r.origin)) [
      | inl n ↦ inr (
        rw (q, o, n) refl,
        record {
          is_json = is_text_eq _ _ (ground (arith, q));
          has_marker = (bytes_eq_iff _ _).0 (ground (arith, q));
          from_site = is_other_site_cases r.fetch_site o;
          from_origin = inl (is_nil_eq r.origin n);
        },
      )
      | inr n ↦ elim (Bool-cases (is_own_origin web r (web.parse_url r.origin))) [
        | inr w ↦ inl (rw (q, o, n, w) refl)
        | inl w ↦ inr (
          rw (q, o, n, w) refl,
          record {
            is_json = is_text_eq _ _ (ground (arith, q));
            has_marker = (bytes_eq_iff _ _).0 (ground (arith, q));
            from_site = is_other_site_cases r.fetch_site o;
            from_origin = inr (is_own_origin_parts web r (web.parse_url r.origin) w);
          },
        )
      ]
    ]
  ]
]
