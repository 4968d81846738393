-- ===== src/Agenda/Order.antt =====
-- agenda.py: the order in which an agenda drains.
use Prim.Native.Nat.{compare, Ordering}
use Prim.Native.Nat.compare
use rdflib_reasoning.Base.{
  ℕ, zero, suc, ◌<◌, ◌≤◌, Memᴰ, ◌≡◌, refl, sym, ◌∙◌, ap, Bool, none, some, List, [], ◌∷◌, ◌++◌, inl,
  inr, length, map, arith, Bool-cases, Option-cases,
}
use mathlib.Core.List.{append_assoc, append-nil}
use rdflib_reasoning.Base.Int.{neg, compare_int, then_by, is_le}
use rdflib_reasoning.Base.Sorting.{insert_sorted, sort_by, length-sort_by, mem-sort_by}
use rdflib_reasoning.Consequents.{ActionInstance}
use rdflib_reasoning.Agenda.{
  Agenda, AgendaEntry, empty_agenda, entry_le, entry, enqueue, extend, new_agenda, pop_min,
  drain_entries, drain,
}

-- Whether an action comes before another or ties with it.
pub priority_le : ActionInstance → ActionInstance → Bool
priority_le a b =
    is_le (then_by (compare_int (neg a.salience) (neg b.salience)) (compare a.depth b.depth))

pop_min-none : (es : List AgendaEntry) → pop_min es ≡ none → es ≡ []
unfolding pop_min
pop_min-none [] h = refl
pop_min-none (x ∷ xs) h = elim (Option-cases (pop_min xs)) [
  | inl e ↦ cc (rw e at h)
  | inr ((least, rest), e) ↦ ground (arith, h, e)
]

pop_min-sort_by :
    (es : List AgendaEntry) {least : AgendaEntry} {rest : List AgendaEntry}
    → pop_min es ≡ some (least, rest)
    → sort_by entry_le es ≡ least ∷ sort_by entry_le rest
unfolding pop_min sort_by insert_sorted
pop_min-sort_by [] h = cc
pop_min-sort_by (x ∷ xs) h = elim (Option-cases (pop_min xs)) [
  | inl e ↦ ground (arith, h, e, pop_min-none xs e)
  | inr ((first, others), e) ↦ elim (Bool-cases (entry_le x first)) [
    | inl le ↦ ground (arith, h, e, le, pop_min-sort_by xs e)
    | inr gt ↦ ground (arith, h, e, gt, pop_min-sort_by xs e)
  ]
]

length-pop_min :
    (es : List AgendaEntry) {least : AgendaEntry} {rest : List AgendaEntry}
    → pop_min es ≡ some (least, rest)
    → length es ≡ suc (length rest)
length-pop_min es h =
    omega (
      arith,
      ap length (pop_min-sort_by es h),
      length-sort_by entry_le es,
      length-sort_by entry_le _,
    )

drain_step :
    (fuel : ℕ) (es : List AgendaEntry) {least : AgendaEntry} {rest : List AgendaEntry}
    → pop_min es ≡ some (least, rest)
    → drain_entries (suc fuel) es ≡ least ∷ drain_entries fuel rest
unfolding drain_entries
drain_step fuel es h =
    ap
      (λ o. elim o as (λ _. List AgendaEntry) [
        | none ↦ []
        | some (first, others) ↦ first ∷ drain_entries fuel others
      ])
      h

drain_entries_sorts :
    (fuel : ℕ) (es : List AgendaEntry)
    → length es ≤ fuel
    → drain_entries fuel es ≡ sort_by entry_le es
unfolding drain_entries sort_by pop_min
drain_entries_sorts zero [] h = refl
drain_entries_sorts (suc fuel) [] h = refl
drain_entries_sorts zero (x ∷ xs) h = absurd (omega (arith, h))
drain_entries_sorts (suc fuel) (x ∷ xs) h = elim (Option-cases (pop_min (x ∷ xs))) [
  | inl e ↦ cc (pop_min-none (x ∷ xs) e)
  | inr ((least, rest), e) ↦
      let enough : length rest ≤ fuel = omega (arith, h, length-pop_min (x ∷ xs) e) in
      drain_step fuel (x ∷ xs) e
      ∙ ap (λ r. least ∷ r) (drain_entries_sorts fuel rest enough)
      ∙ sym (pop_min-sort_by (x ∷ xs) e)
]

-- The entries of a run of actions, with ranks from `k` on.
ranked : List ActionInstance → ℕ → List AgendaEntry
ranked [] k = []
ranked (a ∷ rest) k = entry a k ∷ ranked rest (suc k)

entries-extend :
    (actions : List ActionInstance) (a : Agenda)
    → (extend actions a).entries ≡ a.entries ++ ranked actions a.next_insertion_rank
unfolding extend enqueue ranked
entries-extend [] a = sym (append-nil a.entries)
entries-extend (x ∷ xs) a =
    entries-extend xs (enqueue x a) ∙ append_assoc a.entries (entry x a.next_insertion_rank ∷ []) _

-- Entries of actions, each with a rank past `k`.
IsLater : ℕ → List AgendaEntry → Type 0
IsLater k es = (e : AgendaEntry) → Memᴰ e es → (r : ℕ) × (e ≡ entry e.action r) × (k < r)

compare_lt : (k r : ℕ) → k < r → compare k r ≡ Ordering.lt
compare_lt k zero h = absurd (omega (arith, h))
compare_lt zero (suc r) h = compare.zero-suc r
compare_lt (suc k) (suc r) h = compare.suc-suc k r ∙ compare_lt k r (omega (arith, h))

last_rank : (o p : Ordering) → is_le (then_by o (then_by p Ordering.lt)) ≡ is_le (then_by o p)
last_rank Ordering.lt p = refl
last_rank Ordering.gt p = refl
last_rank Ordering.eq Ordering.lt = refl
last_rank Ordering.eq Ordering.eq = refl
last_rank Ordering.eq Ordering.gt = refl

entry_le-priority_le :
    (a b : ActionInstance) (k r : ℕ) → k < r → entry_le (entry a k) (entry b r) ≡ priority_le a b
unfolding entry_le entry priority_le
entry_le-priority_le a b k r h =
    rw (compare_lt k r h)
      (last_rank (compare_int (neg a.salience) (neg b.salience)) (compare a.depth b.depth))

actions_of : List AgendaEntry → List ActionInstance
actions_of es = map (λ e. e.action) es

insert_later :
    (a : ActionInstance) (k : ℕ) (es : List AgendaEntry)
    → IsLater k es
    → actions_of (insert_sorted entry_le (entry a k) es)
      ≡ insert_sorted priority_le a (actions_of es)
unfolding insert_sorted actions_of entry IsLater
insert_later a k [] later = refl
insert_later a k (e ∷ es) later =
    let (r, same, lt) = later e (Memᴰ.head refl) in
    let step : entry_le (entry a k) e ≡ priority_le a e.action =
      ap (entry_le (entry a k)) same ∙ entry_le-priority_le a e.action k r lt in
    ground (arith, step, insert_later a k es (λ x m. later x (Memᴰ.tail m)))

ranked-IsLater : (actions : List ActionInstance) (k n : ℕ) → k < n → IsLater k (ranked actions n)
unfolding IsLater ranked entry
ranked-IsLater [] k n h e m = elim m [ ]
ranked-IsLater (a ∷ rest) k n h e (Memᴰ.head same) =
    (n, same ∙ ap (λ b. entry b n) (sym (ap (λ x. x.action) same)), h)
ranked-IsLater (a ∷ rest) k n h e (Memᴰ.tail m) =
    ranked-IsLater rest k (suc n) (omega (arith, h)) e m

sort_by-ranked :
    (actions : List ActionInstance) (k : ℕ)
    → actions_of (sort_by entry_le (ranked actions k)) ≡ sort_by priority_le actions
unfolding sort_by ranked actions_of IsLater
sort_by-ranked [] k = refl
sort_by-ranked (a ∷ rest) k =
    insert_later a k (sort_by entry_le (ranked rest (suc k)))
      (λ e m. ranked-IsLater rest k (suc k) (omega arith) e (mem-sort_by entry_le _ m))
    ∙ ap (insert_sorted priority_le a) (sort_by-ranked rest (suc k))

-- Draining a new agenda sorts its actions: a higher salience goes first, then a lower depth, and
-- actions that tie in both keep the order in which they were scheduled.
pub drain-new_agenda :
    (actions : List ActionInstance) → drain (new_agenda actions) ≡ sort_by priority_le actions
unfolding drain new_agenda actions_of
drain-new_agenda actions =
    let es : List AgendaEntry = (new_agenda actions).entries in
    ap actions_of (drain_entries_sorts (length es) es (omega arith))
    ∙ ap (λ l. actions_of (sort_by entry_le l)) (entries-extend actions empty_agenda)
    ∙ sort_by-ranked actions 0
