-- ===== src/Demo/Store.antt =====
-- integrations/github-factory-demo/barista_github_factory_demo/store.py: the tables, what a method
-- may raise, and the events of a program. A method is one step, and the time of the clock is an
-- argument. A statement that raises leaves the tables as they were, and what was committed before an
-- exception stays.
use barista_apps.Prelude.{
  ℕ, zero, suc, String, Bool, true, false, ◌&&◌, Option, none, some, List, [], ◌∷◌, ◌++◌, ◌==◌,
  text_equality,
}
use barista_apps.Prelude.Result.{ok}
use barista_apps.Prelude.Action.{Action, pure, raise, assure}
use barista_apps.Prelude.Tables.{fetch}
use barista_apps.Demo.Rows.{
  Delivery, Comment, Program, Feature, External, Projection, Activity, Link, EventContent,
  ProgramEvent, Deployment, Scenario,
}

pub record Store : Type 0 where
  pub deliveries : List Delivery
  pub comments : List Comment
  pub programs : List Program
  pub features : List Feature
  pub external : List External
  pub projections : List Projection
  pub activities : List Activity
  pub events : List ProgramEvent
  pub deployments : List Deployment
  pub scenarios : List Scenario

pub data Fault : Type 0 where
  key_error value_error integrity_error type_error : Fault

abbrev pub Run : Type 0 → Type 0
Run = Action Fault Store

-- What a method reads.
abbrev pub asks : {A : Type 0} → (Store → A) → Run A
asks f s = (ok (f s), s)

abbrev pub modify : (Store → Store) → Run (Unit {0})
modify f s = (ok tt, f s)

abbrev pub expected : {A : Type 0} → Fault → Option A → Run A
expected e none = raise e
expected e (some a) = pure a

abbrev pub same_option : Option String → Option String → Bool
same_option none none = true
same_option none (some t) = false
same_option (some s) none = false
same_option (some s) (some t) = s == t

abbrev pub same_links : List Link → List Link → Bool
same_links [] [] = true
same_links [] (y ∷ ys) = false
same_links (x ∷ xs) [] = false
same_links (x ∷ xs) (y ∷ ys) =
    (x.rel == y.rel && (x.label == y.label && x.url == y.url)) && same_links xs ys

abbrev pub same_attributes : List (String × String) → List (String × String) → Bool
same_attributes [] [] = true
same_attributes [] (y ∷ ys) = false
same_attributes (x ∷ xs) [] = false
same_attributes (x ∷ xs) (y ∷ ys) = (x.0 == y.0 && x.1 == y.1) && same_attributes xs ys

-- tuple(existing)[:-1] == document[:-1]
unfoldable pub same_content : EventContent → EventContent → Bool
same_content c d =
    c.event_type == d.event_type
    && (c.title == d.title
        && (same_option c.summary d.summary
            && (same_option c.phase d.phase
                && (same_option c.actor d.actor
                    && (same_links c.links d.links && same_attributes c.attributes d.attributes)))))

abbrev pub is_event : String → String → ProgramEvent → Bool
is_event pid eid e = e.program_id == pid && e.event_id == eid

-- `occurred_at or int(time.time())`
abbrev pub or_now : Option ℕ → ℕ → ℕ
or_now none now = now
or_now (some zero) now = now
or_now (some (suc n)) now = suc n

abbrev pub recorded : ProgramEvent → Option ProgramEvent → Run (Unit {0})
recorded e none = modify (λ s. record s { events = s.events ++ e ∷ [] })
recorded e (some old) = assure (same_content old.content e.content) value_error

unfoldable pub record_program_event : ℕ → String → String → EventContent → Option ℕ → Run (Unit {0})
unfolding fetch same_content
record_program_event now pid eid content at s =
    recorded
      (record { program_id = pid; event_id = eid; content = content; occurred_at = or_now at now })
      (fetch (is_event pid eid) s.events) s
