-- ===== src/Provider/Resume.antt =====
-- providers/local/barista_local_provider/store.py: a reader who takes the events of a session in
-- pages and resumes each from the cursor of the last.
use barista_apps.Prelude.{
  ℕ, suc, zero, String, ◌&&◌, List, [], ◌∷◌, ◌++◌, ◌≡◌, refl, sym, ◌==◌, text_equality, keep, arith,
  Bool-cases, inl, inr, ◌∙◌, ap, ◌≤◌, ltb, ◌+◌,
}
use barista_apps.Provider.Rows.{EventRow}
use barista_apps.Provider.Store.{Store, read_events, take}
use barista_apps.Provider.Journal.{Rising, IsJournal, take-nil}

-- The cursor of the last event of a page; an empty page leaves the reader where it was.
abbrev pub resume_point : ℕ → List EventRow → ℕ
resume_point c [] = c
resume_point c (e ∷ es) = resume_point e.seq es

abbrev selected : String → ℕ → List EventRow → List EventRow
selected sid after es = keep (λ e. e.session_id == sid && ltb after e.seq) es

-- Rising numbers above a bound pass a test for any smaller number.
selected-Rising :
    (sid : String) (b c d : ℕ) (es : List EventRow)
    → Rising b es
    → c ≤ b
    → d ≤ b
    → selected sid c es ≡ selected sid d es
selected-Rising sid b c d [] r h k = refl
selected-Rising sid b c d (e ∷ es) r h k =
    ground
      (arith, r.0, selected-Rising sid e.seq c d es r.1 (omega (arith, r.0)) (omega (arith, r.0)))

-- The resume point is never behind the reader.
resume-above :
    (sid : String) (n b c : ℕ) (es : List EventRow)
    → b ≤ c
    → b ≤ resume_point c (take n (selected sid b es))
resume-above sid zero b c es h = h
resume-above sid (suc n) b c [] h = h
resume-above sid (suc n) b c (e ∷ es) h = elim (Bool-cases (e.session_id == sid && ltb b e.seq)) [
  | inl p ↦ rw p (resume-above sid n b e.seq es (ground arith))
  | inr p ↦ rw p (resume-above sid (suc n) b c es h)
]

take-suc :
    {A : Type 0} (n m : ℕ) (x : A) (xs : List A) → take (suc n + m) (x ∷ xs) ≡ x ∷ take (n + m) xs
take-suc n m x xs = let z : suc n + m ≡ suc (n + m) = omega arith in ap (λ k. take k (x ∷ xs)) z

-- Where the next event is `e` and `rest` follow it, and a reader who has passed `e` sees `next`.
after_event :
    (n m c : ℕ) (e : EventRow) (rest next : List EventRow) (S : ℕ → List EventRow)
    → S c ≡ e ∷ rest
    → S (resume_point e.seq (take n rest)) ≡ next
    → take n rest ++ take m next ≡ take (n + m) rest
    → take (suc n) (S c) ++ take m (S (resume_point c (take (suc n) (S c))))
      ≡ take (suc n + m) (S c)
after_event n m c e rest next S p q r = rw p (rw q (rw (take-suc n m e rest) (ap (λ es. e ∷ es) r)))

-- Where an event is none of the reader's.
passed :
    (n m c : ℕ) (rest next : List EventRow) (S : ℕ → List EventRow)
    → S c ≡ rest
    → S (resume_point c (take n rest)) ≡ next
    → take n rest ++ take m next ≡ take (n + m) rest
    → take n (S c) ++ take m (S (resume_point c (take n (S c)))) ≡ take (n + m) (S c)
passed n m c rest next S p q r = rw p (rw q r)

-- Where a page starts inside rising events, the next page continues it.
pages :
    (sid : String) (n m b c : ℕ) (es : List EventRow)
    → Rising b es
    → take n (selected sid c es)
        ++ take m (selected sid (resume_point c (take n (selected sid c es))) es)
      ≡ take (n + m) (selected sid c es)
pages sid zero m b c es r =
    let z : m ≡ 0 + m = omega arith in ap (λ k. take k (selected sid c es)) z
pages sid (suc n) m b c [] r = take-nil m ∙ sym (take-nil (suc n + m))
pages sid (suc n) m b c (e ∷ es) r = elim (Bool-cases (e.session_id == sid && ltb c e.seq)) [
  | inl p ↦
      let rest = selected sid e.seq es in
      let next = selected sid (resume_point e.seq (take n rest)) es in
      after_event n m c e rest next (λ d. selected sid d (e ∷ es))
        (rw p (
          ap (λ es. e ∷ es)
            (selected-Rising sid e.seq c e.seq es r.1 (ground arith) (omega arith))))
        (ground (arith, resume-above sid n e.seq e.seq es (omega arith)))
        (pages sid n m e.seq e.seq es r.1)
  | inr p ↦
      let rest = selected sid c es in
      let next = selected sid (resume_point c (take (suc n) rest)) es in
      passed (suc n) m c rest next (λ d. selected sid d (e ∷ es)) (rw p refl)
        (ground (arith, resume-above sid (suc n) c c es (omega arith)))
        (pages sid (suc n) m e.seq c es r.1)
]

-- A reader loses nothing and sees nothing twice: of a journal, a page of `n` events and then a page
-- of `m` from its resume point are together the page of `n + m` events.
pub read_events-resume :
    (sid : String) (n m after : ℕ) (s : Store)
    → IsJournal s
    → read_events sid after n s
        ++ read_events sid (resume_point after (read_events sid after n s)) m s
      ≡ read_events sid after (n + m) s
unfolding read_events IsJournal
read_events-resume sid n m after s (r, a) = pages sid n m 0 after s.events r
