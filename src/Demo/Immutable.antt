-- ===== src/Demo/Immutable.antt =====
-- integrations/github-factory-demo/barista_github_factory_demo/store.py: an event of a program is
-- written once and stays as it is.
use barista_apps.Prelude.{
  ℕ, String, true, Option, none, some, List, [], ◌∷◌, text_equality, ==_refl, ◌≡◌, refl, sym, ap,
  subst, ◌↔◌, ◌≢◌, ◌⊎◌, ==_iff, false, ◌∙◌, inl, inr, arith, Bool-cases, Option-cases,
}
use barista_apps.Prelude.Result.{Result, ok, err}
use barista_apps.Prelude.Tables.{fetch, fetch-append_none, fetch-append_before}
use barista_apps.Demo.Rows.{EventContent, Link, ProgramEvent}
use barista_apps.Demo.Store.{
  Store, Fault, value_error, record_program_event, is_event, same_content, same_option, same_links,
  same_attributes, or_now,
}

same_option_refl : (o : Option String) → same_option o o ≡ true
same_option_refl none = refl
same_option_refl (some s) = ==_refl s

same_links_refl : (xs : List Link) → same_links xs xs ≡ true
same_links_refl [] = refl
same_links_refl (x ∷ xs) =
    ground (arith, ==_refl x.rel, ==_refl x.label, ==_refl x.url, same_links_refl xs)

same_attributes_refl : (xs : List (String × String)) → same_attributes xs xs ≡ true
same_attributes_refl [] = refl
same_attributes_refl (x ∷ xs) = ground (arith, ==_refl x.0, ==_refl x.1, same_attributes_refl xs)

same_content_refl : (c : EventContent) → same_content c c ≡ true
unfolding same_content
same_content_refl c = ground (
  arith,
  ==_refl c.event_type,
  ==_refl c.title,
  same_option_refl c.summary,
  same_option_refl c.phase,
  same_option_refl c.actor,
  same_links_refl c.links,
  same_attributes_refl c.attributes,
)

same_option_eq : (o p : Option String) → same_option o p ≡ true → o ≡ p
same_option_eq none none h = refl
same_option_eq none (some t) h = cc
same_option_eq (some s) none h = cc
same_option_eq (some s) (some t) h = ap some ((==_iff s t).0 h)

same_links_eq : (xs ys : List Link) → same_links xs ys ≡ true → xs ≡ ys
same_links_eq [] [] h = refl
same_links_eq [] (y ∷ ys) h = cc
same_links_eq (x ∷ xs) [] h = cc
same_links_eq (x ∷ xs) (y ∷ ys) h =
    ground
      (arith, ==_iff x.rel y.rel, ==_iff x.label y.label, ==_iff x.url y.url, same_links_eq xs ys)

same_attributes_eq : (xs ys : List (String × String)) → same_attributes xs ys ≡ true → xs ≡ ys
same_attributes_eq [] [] h = refl
same_attributes_eq [] (y ∷ ys) h = cc
same_attributes_eq (x ∷ xs) [] h = cc
same_attributes_eq (x ∷ xs) (y ∷ ys) h =
    ground (arith, ==_iff x.0 y.0, ==_iff x.1 y.1, same_attributes_eq xs ys)

-- The comparison of the stored content with the new one is their equality.
same_content_iff : (c d : EventContent) → (same_content c d ≡ true) ↔ (c ≡ d)
unfolding same_content
same_content_iff c d = (
  λ h. ground (
    arith,
    ==_iff c.event_type d.event_type,
    ==_iff c.title d.title,
    same_option_eq c.summary d.summary,
    same_option_eq c.phase d.phase,
    same_option_eq c.actor d.actor,
    same_links_eq c.links d.links,
    same_attributes_eq c.attributes d.attributes,
  ),
  λ e. subst (λ d. same_content c d ≡ true) e (same_content_refl c),
)

different : (c d : EventContent) → same_content c d ≡ false → c ≢ d
different c d h e = ground (arith, h, (same_content_iff c d).1 e)

value_error_ne :
    {s t : Store} → Path (Result Fault (Unit {0}) × Store) (err value_error, s) (ok tt, t) → ⊥
value_error_ne h = cc

some_ne : {e : ProgramEvent} → some e ≡ none → ⊥
some_ne h = cc

answered : {s t : Store} → Path (Result Fault (Unit {0}) × Store) (ok tt, s) (ok tt, t) → s ≡ t
answered h = cc

found : {e f : ProgramEvent} → Path (Option ProgramEvent) (some e) (some f) → e ≡ f
found h = cc

-- Recording an event changes no event that there is; for an identity that is taken it changes
-- nothing, and raises exactly where the content is another; for one that is not taken it returns; and where it returns, the event of the
-- identity has the content.
pub record_program_event-IsImmutable :
    (now : ℕ) (pid eid : String) (content : EventContent) (at : Option ℕ) (s : Store)
    → ((p q : String) (e : ProgramEvent)
        → fetch (is_event p q) s.events ≡ some e
        → fetch (is_event p q) (record_program_event now pid eid content at s).1.events ≡ some e)
      × ((e : ProgramEvent)
          → fetch (is_event pid eid) s.events ≡ some e
          → ((e.content ≡ content) × (record_program_event now pid eid content at s ≡ (ok tt, s)))
            ⊎ ((e.content ≢ content)
                × (record_program_event now pid eid content at s ≡ (err value_error, s))))
      × ((fetch (is_event pid eid) s.events ≡ none)
          → (record_program_event now pid eid content at s).0 ≡ ok tt)
      × ((t : Store)
          → record_program_event now pid eid content at s ≡ (ok tt, t)
          → (e : ProgramEvent) × (fetch (is_event pid eid) t.events ≡ some e)
            × (e.content ≡ content))
unfolding record_program_event
record_program_event-IsImmutable now pid eid content at s =
    elim (Option-cases (fetch (is_event pid eid) s.events)) [
      | inl n ↦ (
        λ p q e f. rw n (fetch-append_before (is_event p q) s.events e _ f),
        λ e f. cc,
        λ _. rw n refl,
        λ t r.
            let e : ProgramEvent = record {
              program_id = pid;
              event_id = eid;
              content = content;
              occurred_at = or_now at now;
            } in
            (
              e,
              ap (λ t. fetch (is_event pid eid) t.events) (sym (answered (rw n at r)))
                  ∙ fetch-append_none (is_event pid eid) s.events e n
                      (ground (arith, ==_refl pid, ==_refl eid)),
              refl,
            ),
      )
      | inr (old, o) ↦ elim (Bool-cases (same_content old.content content)) [
        | inl c ↦ (
          λ p q e f. rw (o, c) f,
          λ e f. inl (
            ap (λ (e : ProgramEvent). e.content) (sym (found (sym o ∙ f)))
                ∙ (same_content_iff old.content content).0 c,
            rw (o, c) refl,
          ),
          λ f. absurd (some_ne (sym o ∙ f)),
          λ t r. (
            old,
            ap (λ t. fetch (is_event pid eid) t.events) (sym (answered (rw (o, c) at r))) ∙ o,
            (same_content_iff old.content content).0 c,
          ),
        )
        | inr c ↦ (
          λ p q e f. rw (o, c) f,
          λ e f. inr (
            subst (λ (e : ProgramEvent). e.content ≢ content) (found (sym o ∙ f))
                (different old.content content c),
            rw (o, c) refl,
          ),
          λ f. absurd (some_ne (sym o ∙ f)),
          λ t r. absurd (value_error_ne (rw (o, c) at r)),
        )
      ]
    ]
