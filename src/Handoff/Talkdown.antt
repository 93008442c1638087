-- ===== src/Handoff/Talkdown.antt =====
-- Where the procedure is a talkdown, Approach keeps the aircraft until it is down.
use marshall.Prelude.{ℕ, ◌≡◌, Bool, Option, List, [], take, drop}
use marshall.Phases
use marshall.Stations.{Station}
use marshall.Airspace.{Fix, Procedure}
use marshall.Handoff.{Rule, rules, State, Profile, Verdict}
use marshall.Handoff.Safety.{loop}

-- The rows on either side of Approach's own.
abbrev before : List Rule
before = take 4 rules

abbrev after : List Rule
after = drop 6 rules

module _ {ℓ} {Place : Type ℓ} (nm_between : Place → Place → ℕ) (seats : List Station)
    (fields : List (Fix Place)) (procedures : List (Procedure Place))
    (profile : Option (Profile Place)) (me : Station) (st : State) (role : me.role ≡ "approach")
    (also : me.also ≡ []) where
  abbrev rounds : Bool → List Rule → Option Verdict
  rounds = loop nm_between seats fields procedures profile me st
