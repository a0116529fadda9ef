-- ===== src/Storage/Actions.antt =====
-- What a chain of database actions that succeeds has done.
use merged_mining_pool.Common.{◌≡◌, refl, ap, List, [], ◌∷◌, Result, ok, err, panic}
use merged_mining_pool.Storage.{Outage, Database, Action, continue_with, ◌>>=◌, statement, outcome}

-- A chain of actions that succeeds has succeeded at its first step.
pub action-eq-ok :
    {F A B : Type 0} (m : Action F A) (f : A → Action F B) (d : Database F) {b : B}
    {d' : Database F}
    → ◌≡◌ {A = Result B × Database F} ((m >>= f) d) (ok b, d')
    → (a : A) × (e : Database F) × (m d ≡ (ok a, e)) × (f a e ≡ (ok b, d'))
action-eq-ok {F} {A} {B} m f d {b} {d'} h = cases (m d) h
  where
    cases :
        (r : Result A × Database F)
        → continue_with f r ≡ (ok b, d')
        → (a : A) × (e : Database F) × (r ≡ (ok a, e)) × (f a e ≡ (ok b, d'))
    cases (ok a, e) h = (a, e, refl, h)
    cases (err x, e) h = cc
    cases (panic, e) h = cc

-- A statement that succeeds leaves the tables.
pub statement-eq-ok :
    {F : Type 0} (d : Database F) {u : Unit {0}} {d' : Database F}
    → statement d ≡ (ok u, d')
    → (later : List Outage) × (d' ≡ record d { outages = later })
unfolding statement
statement-eq-ok {F} d {u} {d'} h = cases d.outages h
  where
    cases :
        (o : List Outage)
        → outcome o d ≡ (ok u, d')
        → (later : List Outage) × (d' ≡ record d { outages = later })
    cases [] h = (d.outages, cc)
    cases (Outage.answers ∷ later) h = (later, cc)
    cases (Outage.fails ∷ later) h = cc
    cases (Outage.breaks_off n ∷ later) h = (later, cc)

-- A result that succeeds at once is the value it was made of.
pub lift-eq-ok :
    {F A : Type 0} {a b : A} {d d' : Database F}
    → ◌≡◌ {A = Result A × Database F} (ok a, d) (ok b, d')
    → a ≡ b
lift-eq-ok {F} {A} {a} h = ap value_of h
  where
    value_of : Result A × Database F → A
    value_of (ok x, d) = x
    value_of (err e, d) = a
    value_of (panic, d) = a
