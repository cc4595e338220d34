-- ===== src/Provider/Access.antt =====
-- providers/local/barista_local_provider/app.py: which requests the token lets through, and what an
-- installed app is granted.
use Prim.Native.String.{◌++◌ as append}
use barista_apps.Prelude.{
  ℕ, String, true, false, ◌&&◌, ◌||◌, Option, none, some, List, [], ◌∷◌, ◌++◌, ◌≡◌, sym, refl, ◌==◌,
  text_equality, ==_iff, ==_refl, arith, Option-cases, Bool-cases, inl, inr, ◌⊎◌, ◌↔◌, contains,
  contains-keep, contains-append, keep, Subset, ◌∙◌, ap, not, Bool, Listed,
}
use text.Mathlib.Text.{starts_with}
use barista_apps.Provider.Rows.{AppManifest, AppRow}
use barista_apps.Provider.Store
use barista_apps.Provider.Store.{Store}
use barista_apps.Prelude.Tables.{truthy}
use barista_apps.Provider.Node.{NodeClient}
use barista_apps.Provider.Handlers.{
  World, reply, app_body, capability_unsupported, install_app, all_in, authorized, auth_middleware,
}

-- What lets a request pass: no token is set, the path is not one of the API, it is the discovery,
-- or the header carries the token.
abbrev pub MayPass : Option String → String → Option String → Type 0
MayPass token path header =
    (truthy token ≡ none)
    ⊎ (starts_with path "/v1alpha1" ≡ false)
    ⊎ (path ≡ "/v1alpha1/discovery")
    ⊎ ((t : String) × (truthy token ≡ some t) × (header ≡ some (append "Bearer " t)))

some_ne : {A : Type 0} {x : A} → some x ≡ none → ⊥
some_ne e = cc

authorized_iff :
    (token header : Option String) (t : String)
    → truthy token ≡ some t
    → (authorized token header ≡ true) ↔ (header ≡ some (append "Bearer " t))
unfolding authorized
authorized_iff token none t p = rw (p, authorized) (λ e. cc, λ e. cc)
authorized_iff token (some h) t p =
    rw (p, authorized)
      (
        λ e. ground (arith, ==_iff h (append "Bearer " t)),
        λ e. ground (arith, ==_iff h (append "Bearer " t)),
      )

-- The middleware stops exactly the requests that may not pass.
pub auth_middleware-eq-none :
    (token : Option String) (path : String) (header : Option String)
    → (auth_middleware token path header ≡ none) ↔ MayPass token path header
unfolding auth_middleware
auth_middleware-eq-none token path header = elim (Option-cases (truthy token)) [
  | inl p ↦ (λ _. inl p, λ _. rw (p, auth_middleware) refl)
  | inr (t, p) ↦ elim (Bool-cases (starts_with path "/v1alpha1")) [
    | inr q ↦ (λ _. inr (inl q), λ _. rw (p, q, auth_middleware) refl)
    | inl q ↦ elim (Bool-cases (path == "/v1alpha1/discovery")) [
      | inl r ↦ (
        λ _. inr (inr (inl ((==_iff path "/v1alpha1/discovery").0 r))),
        λ _. rw (p, q, r, auth_middleware) refl,
      )
      | inr r ↦ elim (Bool-cases (authorized token header)) [
        | inl a ↦ (
          λ _. inr (inr (inr (t, p, (authorized_iff token header t p).0 a))),
          λ _. rw (p, q, r, a, auth_middleware) refl,
        )
        | inr a ↦ (
          λ e. absurd (some_ne (rw (p, q, r, a, auth_middleware) at e)),
          λ m. elim m [
            | inl x ↦ absurd (some_ne (sym p ∙ x))
            | inr (inl x) ↦ ground (arith, x, q)
            | inr (inr (inl x)) ↦ ground (arith, ==_iff path "/v1alpha1/discovery")
            | inr (inr (inr (u, x, y))) ↦ ground (arith, a, (authorized_iff token header u x).1 y)
          ],
        )
      ]
    ]
  ]
]

all_in_iff : (cs caps : List String) → (all_in cs caps ≡ true) ↔ Subset cs caps
unfolding all_in
all_in_iff [] caps = (λ _ a m. ground arith, λ _. refl)
all_in_iff (c ∷ cs) caps = (
  λ e a m. ground (arith, (all_in_iff cs caps).0 (ground arith) a, ==_iff c a),
  λ s. ground (
    arith,
    s c (ground (arith, ==_refl c)),
    (all_in_iff cs caps).1 (λ a m. s a (ground (arith, ==_iff c a))),
  ),
)

keep-Listed :
    (p : AppRow → Bool) (rs : List AppRow) (r : AppRow)
    → Listed r (keep p rs) ↔ Listed r rs × (p r ≡ true)
keep-Listed p [] r = (λ l. absurd l, λ l. absurd l.0)
keep-Listed p (q ∷ rs) r = elim (Bool-cases (p q)) [
  | inl h ↦ rw h (
    λ l. elim l [
      | inl i ↦ (inl i, ap p (sym i) ∙ h)
      | inr k ↦ let (l, m) = (keep-Listed p rs r).0 k in (inr l, m)
    ],
    λ (l, m). elim l [ inl i ↦ inl i | inr k ↦ inr ((keep-Listed p rs r).1 (k, m)) ],
  )
  | inr h ↦ rw h (
    λ l. let (l, m) = (keep-Listed p rs r).0 l in (inr l, m),
    λ (l, m). elim l [ inl i ↦ ground (arith, i, h) | inr k ↦ (keep-Listed p rs r).1 (k, m) ],
  )
]

-- The row of an app of that name and version.
abbrev pub IsApp : AppManifest → AppRow → Type 0
IsApp m r = (r.name ≡ m.name) × (r.version ≡ m.version)

other_iff :
    (m : AppManifest) (r : AppRow)
    → (not (Store.same_app m.name m.version r) ≡ true) ↔ (IsApp m r → ⊥)
unfolding Store.same_app
other_iff m r = elim (Bool-cases (r.name == m.name && r.version == m.version)) [
  | inl h ↦ (
    λ e. ground arith,
    λ n.
        absurd
          (n (ground (arith, ==_iff r.name m.name), ground (arith, ==_iff r.version m.version))),
  )
  | inr h ↦ (
    λ e (i, j). ground (arith, ==_iff r.name m.name, ==_iff r.version m.version),
    λ n. ground arith,
  )
]

-- The store after an installation: the row of the app stands in it, in place of those of its name
-- and version, every other row stays, and nothing else has changed.
pub record IsInstalled (now : ℕ) (m : AppManifest) (s : Store) (row : AppRow) (s' : Store)
    : Type 0 where
  pub app : IsApp m row
  pub digest : row.digest ≡ m.workload.digest
  pub manifest : row.manifest ≡ m
  pub installed_at : row.installed_at ≡ now
  pub rows : (r : AppRow) → Listed r s'.apps ↔ (row ≡ r) ⊎ (Listed r s.apps × (IsApp m r → ⊥))
  pub rest : record s' { apps = s.apps } ≡ s

install_app-IsInstalled :
    (now : ℕ) (m : AppManifest) (granted : List String) (s : Store)
    → IsInstalled now m s
        (Store.install_app now m granted s).0
        (Store.install_app now m granted s).1
unfolding Store.install_app
install_app-IsInstalled now m granted s = record {
  app = (refl, refl);
  digest = refl;
  manifest = refl;
  installed_at = refl;
  rows = λ r. (
    λ l. elim l [
      | inl i ↦ inl i
      | inr k ↦
          let (l, h) = (keep-Listed (λ r. not (Store.same_app m.name m.version r)) s.apps r).0 k in
          inr (l, (other_iff m r).0 h)
    ],
    λ l. elim l [
      | inl i ↦ inl i
      | inr (l, n) ↦ inr (
          (keep-Listed (λ r. not (Store.same_app m.name m.version r)) s.apps r).1
            (l, (other_iff m r).1 n))
    ],
  );
  rest = refl;
}

module _ {N : Type 0} (client : NodeClient N) (caps : List String) where
  -- An app is installed exactly when the provider has every capability that it requires: its row
  -- then stands in the store in place of those of its name and version, every other row stays, and
  -- it is granted exactly the capabilities of the provider that the app requires or can use;
  -- otherwise the request is refused and nothing has changed.
  pub install_app-IsGranted :
      (now : ℕ) (m : AppManifest) (w : World N)
      → (Subset m.required caps
          × ((row : AppRow) × (s : Store) × (install_app client caps now m w
                ≡ (reply 201 (app_body row), record w { store = s }))
              × IsInstalled now m w.store row s
              × ((c : String)
                  → contains row.granted_capabilities c
                    ≡ ((contains m.required c || contains m.optional c) && contains caps c))))
        ⊎ ((Subset m.required caps → ⊥)
            × (install_app client caps now m w ≡ (capability_unsupported, w)))
  unfolding install_app Store.install_app
  install_app-IsGranted now m w = elim (Bool-cases (all_in m.required caps)) [
    | inl p ↦
        let (row, s) =
          Store.install_app now m (keep (λ c. contains (m.required ++ m.optional) c) caps)
            w.store in
        inl (
          (all_in_iff m.required caps).0 p,
          (
            row,
            s,
            rw p refl,
            install_app-IsInstalled now m (keep (λ c. contains (m.required ++ m.optional) c) caps)
                w.store,
            λ c. ground (
              arith,
              contains-keep (λ c. contains (m.required ++ m.optional) c) caps c,
              contains-append m.required m.optional c,
            ),
          ),
        )
    | inr p ↦ inr (λ s. ground (arith, p, (all_in_iff m.required caps).1 s), rw p refl)
  ]
