-- ===== src/Consequents.antt =====
-- What a completed match schedules:
-- rdflib-reasoning-engine/src/rdflib_reasoning/engine/rete/consequents.py.
use rdflib_reasoning.Base.{ℕ, String, Bool, true, false, Option, List, [], ◌∷◌}
use rdflib_reasoning.Base.Int.{ℤ}
use rdflib_reasoning.Base.Dict.{Dict}
use rdflib_reasoning.Rdf.{Node}
use rdflib_reasoning.Facts.{Fact}
use rdflib_reasoning.Rules.{TriplePattern}
use rdflib_reasoning.Tms.Controller.{RuleId}

pub record TripleProduction : Type 0 where
  pub rule_id : RuleId
  pub pattern : TriplePattern
  pub required_variables : List String

pub record CallbackSchedule : Type 0 where
  pub callback : String
  pub arguments : List Node
  pub required_variables : List String

pub record ContradictionSchedule : Type 0 where
  pub category : String
  pub detail : Option String
  pub arguments : List Node
  pub required_variables : List String

pub record ActionInstance : Type 0 where
  pub rule_id : RuleId
  pub bindings : Dict String Node
  pub premises : List Fact
  pub depth : ℕ
  pub salience : ℤ
  pub productions : List TripleProduction
  pub callbacks : List CallbackSchedule
  pub contradictions : List ContradictionSchedule
  pub silent : Bool
  pub bootstrap : Bool

pub data Kind : Type 0 where
  production callback contradiction mixed empty : Kind

abbrev is_nonempty {ℓ} : {A : Type ℓ} → List A → Bool
is_nonempty [] = false
is_nonempty (x ∷ xs) = true

-- `kinds_active > 1`, and then the one kind that is there.
unfoldable pub classify : Bool → Bool → Bool → Kind
classify true true c = Kind.mixed
classify true false true = Kind.mixed
classify false true true = Kind.mixed
classify true false false = Kind.production
classify false true false = Kind.callback
classify false false true = Kind.contradiction
classify false false false = Kind.empty

unfoldable pub kind : ActionInstance → Kind
unfolding classify
kind a =
    classify (is_nonempty a.productions) (is_nonempty a.callbacks) (is_nonempty a.contradictions)
