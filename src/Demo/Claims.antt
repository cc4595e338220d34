-- ===== src/Demo/Claims.antt =====
-- integrations/github-factory-demo/barista_github_factory_demo/store.py: a delivery is claimed once,
-- and a comment is taken once.
use barista_apps.Prelude.{
  ℕ, suc, String, Bool, true, false, ◌||◌, Option, none, some, List, [], ◌∷◌, ◌++◌, ◌==◌, ==_iff,
  Listed, text_equality, number_equality, ==_refl, any, leb, ltb, length, ◌≡◌, refl, ap, subst, sym,
  ◌∙◌, ◌⊎◌, inl, inr, arith, Bool-cases, Option-cases,
}
use barista_apps.Prelude.Result.{Result, ok}
use barista_apps.Prelude.Tables.{fetch, fetch-append_some, fetch-holds, fetch-Listed, any-append}
use barista_apps.Demo.Rows.{Delivery, Claim, Comment}
use barista_apps.Demo.Store.{Store, Fault}
use barista_apps.Demo.Kept.{accepted-Keeps}
use barista_apps.Demo.Deliveries.{
  Request, claim_of, has_id, is_issue, conflict, claim, new_delivery,
}
use barista_apps.Demo.Answers.{
  AnswerRequest, accept_answer, answered, disposed, advance, known_comment, comment_of,
}

conflict-append :
    (id repository : String) (number : ℕ) (ds : List Delivery) (e : Delivery)
    → (has_id id e ≡ true) ⊎ (is_issue repository number e ≡ true)
    → (d : Delivery) × (conflict id repository number (ds ++ e ∷ []) ≡ some d)
unfolding conflict
conflict-append id repository number ds e (inl h) =
    let (d, m) = fetch-append_some (has_id id) ds e h in (d, rw (conflict, m) refl)
conflict-append id repository number ds e (inr h) =
    elim (Option-cases (fetch (has_id id) (ds ++ e ∷ []))) [
      | inl n ↦
          let (d, m) = fetch-append_some (is_issue repository number) ds e h in
          (d, rw (conflict, n, m) refl)
      | inr (d, m) ↦ (d, rw (conflict, m) refl)
    ]

-- A request for the delivery or the issue of another.
abbrev pub Competes : Request → Request → Type 0
Competes r q =
    (q.delivery_id ≡ r.delivery_id)
    ⊎ ((q.repository ≡ r.repository) × (q.issue_number ≡ r.issue_number))

competing :
    (now : ℕ) (r q : Request)
    → Competes r q
    → (has_id q.delivery_id (new_delivery now r) ≡ true)
      ⊎ (is_issue q.repository q.issue_number (new_delivery now r) ≡ true)
competing now r q (inl p) = inl (rw p (==_refl r.delivery_id))
competing now r q (inr (p, n)) = inr (rw (p, n, ==_refl r.repository) (==_refl r.issue_number))

claim_parts :
    {a b : Claim} {s t : Store}
    → Path (Result Fault Claim × Store) (ok a, s) (ok b, t)
    → (a ≡ b) × (s ≡ t)
claim_parts h = (cc, cc)

false_ne : {A : Type 0} {b : Bool} → false ≡ b → b ≡ true → A
false_ne p q = absurd (ground (arith, p, q))

-- The row that answers a claim is one of the table, and one for the delivery or the issue.
abbrev pub Holds : Request → List Delivery → Delivery → Type 0
Holds q ds d =
    Listed d ds
    × ((d.delivery_id ≡ q.delivery_id)
        ⊎ ((d.repository ≡ q.repository) × (d.issue_number ≡ q.issue_number)))

issue_parts :
    (repository : String) (number : ℕ) (d : Delivery)
    → is_issue repository number d ≡ true
    → (d.repository ≡ repository) × (d.issue_number ≡ number)
issue_parts repository number d h =
    ground (arith, ==_iff d.repository repository, ==_iff d.issue_number number)

conflict-Holds :
    (q : Request) (ds : List Delivery) (d : Delivery)
    → conflict q.delivery_id q.repository q.issue_number ds ≡ some d
    → Holds q ds d
unfolding conflict
conflict-Holds q ds d e = elim (Option-cases (fetch (has_id q.delivery_id) ds)) [
  | inl n ↦
      let f : fetch (is_issue q.repository q.issue_number) ds ≡ some d = rw (n, conflict) at e in
      (
        fetch-Listed (is_issue q.repository q.issue_number) ds d f,
        inr (
            issue_parts q.repository q.issue_number d
              (fetch-holds (is_issue q.repository q.issue_number) ds d f)),
      )
  | inr (x, m) ↦
      let f : fetch (has_id q.delivery_id) ds ≡ some d = m ∙ (rw (m, conflict) at e) in
      (
        fetch-Listed (has_id q.delivery_id) ds d f,
        inl ((==_iff d.delivery_id q.delivery_id).0 (fetch-holds (has_id q.delivery_id) ds d f)),
      )
]

-- A claim that made a row has added just that row, and each claim for its delivery or for its
-- issue, whenever it comes, makes none: it is answered with a row for the one or the other that was
-- there before it, and changes nothing.
pub claim-IsExclusive :
    (now later : ℕ) (r q : Request) (s t : Store) (c : Claim)
    → claim now r s ≡ (ok c, t)
    → c.created ≡ true
    → Competes r q
    → (t ≡ record s { deliveries = s.deliveries ++ new_delivery now r ∷ [] })
      × ((d : Delivery) × Holds q t.deliveries d × (claim later q t ≡ (ok (claim_of d false), t)))
unfolding claim claim_of
claim-IsExclusive now later r q s t c e m k =
    elim (Option-cases (conflict r.delivery_id r.repository r.issue_number s.deliveries)) [
      | inr (d, p) ↦ false_ne (ap (λ (c : Claim). c.created) (claim_parts (rw (claim, p) at e)).0) m
      | inl p ↦
          let added = (claim_parts (rw (claim, p) at e)).1 in
          let (d, f) =
            conflict-append q.delivery_id q.repository q.issue_number s.deliveries
              (new_delivery now r) (competing now r q k) in
          (
            sym added,
            (
              d,
              subst (λ t. Holds q t.deliveries d) added
                  (conflict-Holds q (s.deliveries ++ new_delivery now r ∷ []) d f),
              subst (λ t. claim later q t ≡ (ok (claim_of d false), t)) added (rw (claim, f) refl),
            ),
          )
    ]

-- The comment of a request is known.
abbrev Known : AnswerRequest → Store → Type 0
Known r s = any (known_comment r) s.comments ≡ true

-- An attempt under the delivery of another, or for its comment.
abbrev pub Repeats : AnswerRequest → AnswerRequest → Type 0
Repeats r q = (q.delivery_id ≡ r.delivery_id) ⊎ (q.comment_id ≡ r.comment_id)

disposed-Known :
    (now : ℕ) (r q : AnswerRequest) (disposition : String) (s : Store)
    → Repeats r q
    → Known q (disposed now r disposition s)
disposed-Known now r q disposition s k =
    any-append (known_comment q) s.comments (comment_of now r disposition) (elim k [
      | inl p ↦ ground (arith, ==_iff r.delivery_id q.delivery_id)
      | inr p ↦ ground (arith, ==_iff r.comment_id q.comment_id)
    ])

answered-Known :
    (now : ℕ) (r q : AnswerRequest) (o : Option Delivery) (s : Store)
    → Repeats r q
    → Known q (answered now r o s).1
unfolding answered
answered-Known now r q none s k = disposed-Known now r q "stale" s k
answered-Known now r q (some d) s k = elim (Bool-cases (d.status == "awaiting_input")) [
  | inr p ↦ rw p (disposed-Known now r q "stale" s k)
  | inl p ↦ elim (Bool-cases (leb 20 (length d.answer_history) || ltb 100 (suc d.attempt))) [
    | inl u ↦ rw (p, u) (disposed-Known now r q "answer_limit" s k)
    | inr u ↦
        rw (p, u)
          (accepted-Keeps (Known q) (λ s es k. k) now r d s
            (disposed-Known now r q "accepted" (advance now r d s) k))
  ]
]

any-Listed :
    (r : AnswerRequest) (cs : List Comment)
    → any (known_comment r) cs ≡ true
    → (c : Comment) × Listed c cs
      × ((c.delivery_id ≡ r.delivery_id) ⊎ (c.comment_id ≡ r.comment_id))
any-Listed r [] h = absurd (false_ne refl h)
any-Listed r (c ∷ cs) h = elim (Bool-cases (known_comment r c)) [
  | inl k ↦ (
    c,
    inl refl,
    elim (Bool-cases (c.delivery_id == r.delivery_id)) [
      | inl e ↦ inl ((==_iff c.delivery_id r.delivery_id).0 e)
      | inr n ↦ inr ((==_iff c.comment_id r.comment_id).0 (ground arith))
    ],
  )
  | inr n ↦ let (d, l, e) = any-Listed r cs (ground arith) in (d, inr l, e)
]

-- An attempt to take a comment finds that a row for it, or of its delivery, was there, answers a
-- duplicate and changes nothing; or, however it ends, by an answer or by an exception, every further
-- attempt for that comment, or under that delivery, is answered a duplicate and changes nothing. A
-- repetition of the attempt is answered a duplicate in both cases.
pub accept_answer-IsOnce :
    (now later : ℕ) (r : AnswerRequest) (s : Store)
    → (accept_answer later r (accept_answer now r s).1
        ≡ (ok (none, "duplicate"), (accept_answer now r s).1))
      × (((c : Comment) × Listed c s.comments
            × ((c.delivery_id ≡ r.delivery_id) ⊎ (c.comment_id ≡ r.comment_id))
            × (accept_answer now r s ≡ (ok (none, "duplicate"), s)))
          ⊎ ((q : AnswerRequest)
              → Repeats r q
              → accept_answer later q (accept_answer now r s).1
                ≡ (ok (none, "duplicate"), (accept_answer now r s).1)))
unfolding accept_answer
accept_answer-IsOnce now later r s = elim (Bool-cases (any (known_comment r) s.comments)) [
  | inl p ↦ let (c, l, e) = any-Listed r s.comments p in (rw (p, p) refl, inl (c, l, e, rw p refl))
  | inr p ↦
      let d = fetch (is_issue r.repository r.issue_number) s.deliveries in
      (
        rw (p, answered-Known now r r d s (inl refl)) refl,
        inr (λ q k. rw (p, answered-Known now r q d s k) refl),
      )
]
