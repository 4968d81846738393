-- ===== src/Agenda.antt =====
-- The agenda: rdflib-reasoning-engine/src/rdflib_reasoning/engine/rete/agenda.py.
-- `heapq` gives out a least entry, and the layout of its list is not observed: here the entries
-- stand in the order of their insertion and `pop` takes the first least one.
pub mod Order
use Prim.Native.Nat.{compare, Ordering}
use rdflib_reasoning.Base.{
  ℕ, zero, suc, ◌+◌, Bool, true, false, Option, none, some, List, [], ◌∷◌, ◌++◌, if◌then◌else◌,
  length, map,
}
use rdflib_reasoning.Base.Int.{ℤ, neg, compare_int, then_by, is_le}
use rdflib_reasoning.Errors.{Result, ok, raise, index_error}
use rdflib_reasoning.Consequents.{ActionInstance}

pub record AgendaEntry : Type 0 where
  pub salience_rank : ℤ
  pub depth_rank : ℕ
  pub insertion_rank : ℕ
  pub action : ActionInstance

pub record Agenda : Type 0 where
  pub entries : List AgendaEntry
  pub next_insertion_rank : ℕ

abbrev pub empty_agenda : Agenda
empty_agenda = record { entries = []; next_insertion_rank = 0 }

-- `dataclass(order=True)` compares the fields in turn, but for `action`.
unfoldable pub entry_le : AgendaEntry → AgendaEntry → Bool
entry_le a b = is_le (
    then_by (compare_int a.salience_rank b.salience_rank)
      (then_by (compare a.depth_rank b.depth_rank) (compare a.insertion_rank b.insertion_rank)))

unfoldable pub entry : ActionInstance → ℕ → AgendaEntry
entry action insertion_rank = record {
  salience_rank = neg action.salience;
  depth_rank = action.depth;
  insertion_rank = insertion_rank;
  action = action;
}

unfoldable pub enqueue : ActionInstance → Agenda → Agenda
enqueue action a = record {
  entries = a.entries ++ entry action a.next_insertion_rank ∷ [];
  next_insertion_rank = suc a.next_insertion_rank;
}

unfoldable pub extend : List ActionInstance → Agenda → Agenda
extend [] a = a
extend (action ∷ actions) a = extend actions (enqueue action a)

-- `Agenda(actions)`
unfoldable pub new_agenda : List ActionInstance → Agenda
unfolding extend enqueue entry
new_agenda actions = extend actions empty_agenda

-- `heappop`: the least entry, and the entries without it.
unfoldable pub pop_min : List AgendaEntry → Option (AgendaEntry × List AgendaEntry)
pop_min [] = none
pop_min (x ∷ xs) = elim (pop_min xs) [
  | none ↦ some (x, xs)
  | some (least, rest) ↦ if entry_le x least then some (x, xs) else some (least, x ∷ rest)
]

unfoldable pub pop : Agenda → Result (Agenda × ActionInstance)
unfolding pop_min
pop a = elim (pop_min a.entries) [
  | none ↦ raise index_error
  | some (least, rest) ↦ ok (record a { entries = rest }, least.action)
]

-- `while len(self._entries) > 0`: each round takes an entry away.
unfoldable pub drain_entries : ℕ → List AgendaEntry → List AgendaEntry
drain_entries zero es = []
drain_entries (suc fuel) es = elim (pop_min es) [
  | none ↦ []
  | some (least, rest) ↦ least ∷ drain_entries fuel rest
]

unfoldable pub drain : Agenda → List ActionInstance
unfolding drain_entries
drain a = map (λ e. e.action) (drain_entries (length a.entries) a.entries)
