-- ===== src/LList/Calls.antt =====
-- src/library/llist.c: sequences of calls, beside a plain list of entries. `next` is the address that
-- malloc gives at its next call.
use rhel_fapolicyd.Base.{
  ℕ, ◌+◌, ◌-◌, ◌≡◌, refl, ap, ◌∙◌, Bool, true, false, Option, none, some, List, [], ◌∷◌, ◌++◌,
  if◌then◌else◌, length, Bytes, streq, arith,
}
use rhel_fapolicyd.LList.{
  Item, LList, create_item, list_append, list_remove, contains_from, list_contains, list_empty,
  emptied,
}
use rhel_fapolicyd.LList.Linked.{
  IsLinked, init-IsLinked, appended, append-snoc, appended-IsLinked, Below-mono,
}
use rhel_fapolicyd.LList.Removals.{remove_entry, entries, list_remove-Removed, entry_of}

abbrev pub ListEntry : Type 0
ListEntry = Bytes × Option Bytes

-- A call; an append comes with whether malloc gives memory.
pub data Call : Type 0 where
  append : Bool → Bytes → Option Bytes → Call
  remove contains : Bytes → Call
  empty : Call

pub data Answer : Type 0 where
  code : ℕ → Answer
  holds : Bool → Answer
  done : Answer

pub record Owner : Type 0 where
  pub list : LList
  pub next : ℕ

abbrev pub appended_by : Owner → Option (ℕ × LList) → Option (Owner × Answer)
appended_by o none = none
appended_by o (some (rc, l)) = some (record { list = l; next = o.next + 1 }, code rc)

abbrev pub malloc : Bool → ℕ → Option ℕ
malloc ok a = if ok then some a else none

-- `none` is a fault.
unfoldable pub call : Owner → Call → Option (Owner × Answer)
call o (append ok index payload) =
    appended_by o (list_append o.list (create_item (malloc ok o.next) index payload))
call o (remove str) = let (rc, l) = list_remove o.list str in some (record o { list = l }, code rc)
call o (contains str) = some (o, holds (list_contains o.list str))
call o empty = some (record o { list = list_empty o.list }, done)

abbrev pub answered : Answer → Option (Owner × List Answer) → Option (Owner × List Answer)
answered a none = none
answered a (some (o, as')) = some (o, a ∷ as')

unfoldable pub calls : Owner → List Call → Option (Owner × List Answer)
calls o [] = some (o, [])
calls o (c ∷ cs) = elim (call o c) [ none ↦ none | some (o', a) ↦ answered a (calls o' cs) ]

unfoldable pub has_entry : Bytes → List ListEntry → Bool
has_entry str [] = false
has_entry str ((k, v) ∷ es) = if streq str k then true else has_entry str es

-- The same call on a plain list.
unfoldable pub call_spec : List ListEntry → Call → List ListEntry × Answer
call_spec es (append ok index payload) =
    if ok then (es ++ ((index, payload) ∷ []), code 0) else (es, code 1)
call_spec es (remove str) = let left = remove_entry str es in (left, code (length es - length left))
call_spec es (contains str) = (es, holds (has_entry str es))
call_spec es empty = ([], done)

unfoldable pub calls_spec : List ListEntry → List Call → List ListEntry × List Answer
calls_spec es [] = (es, [])
calls_spec es (c ∷ cs) =
    let r = call_spec es c in let rest = calls_spec r.0 cs in (rest.0, r.1 ∷ rest.1)

abbrev pub IsSound : Owner → Type 0
IsSound o = IsLinked o.next o.list

record Refines (o : Owner) (c : Call) : Type 0 where
  out : Owner
  runs : call o c ≡ some (out, (call_spec (entries o.list.first) c).1)
  shows : entries out.list.first ≡ (call_spec (entries o.list.first) c).0
  sound : IsSound out

entries-snoc :
    (xs : List Item) (y : Item) → entries (xs ++ (y ∷ [])) ≡ entries xs ++ (entry_of y ∷ [])
entries-snoc [] y = refl
entries-snoc (x ∷ xs) y = ap (λ es. entry_of x ∷ es) (entries-snoc xs y)

length-entries : (xs : List Item) → length (entries xs) ≡ length xs
length-entries [] = refl
length-entries (x ∷ xs) = omega (arith, length-entries xs)

contains_from-has_entry :
    (xs : List Item) (str : Bytes) → contains_from xs str ≡ has_entry str (entries xs)
unfolding contains_from has_entry
contains_from-has_entry [] str = refl
contains_from-has_entry (x ∷ xs) str = rw (contains_from-has_entry xs str) refl

no_append :
    (o : Owner)
    → appended_by o (list_append o.list none) ≡ some (record o { next = o.next + 1 }, code 1)
unfolding list_append
no_append o = refl

append-Refines :
    (o : Owner) (ok : Bool) (index : Bytes) (payload : Option Bytes)
    → IsSound o
    → Refines o (append ok index payload)
unfolding call call_spec create_item
append-Refines o true index payload h =
    let item : Item = record { addr = o.next; index = index; payload = payload } in
    record {
      out = record { list = appended o.list item; next = o.next + 1 };
      runs = rw (append-snoc o.next o.list item h) refl;
      shows = entries-snoc o.list.first item;
      sound = appended-IsLinked o.next o.list item h refl;
    }
append-Refines o false index payload h = record {
  out = record o { next = o.next + 1 };
  runs = no_append o;
  shows = refl;
  sound = record {
    ends = h.ends;
    counted = h.counted;
    below = Below-mono o.next (o.next + 1) o.list.first (omega arith) h.below;
    distinct = h.distinct;
  };
}

remove-Refines : (o : Owner) (str : Bytes) → IsSound o → Refines o (remove str)
unfolding call call_spec
remove-Refines o str h =
    let r = list_remove-Removed o.next str o.list h in
    let before = length-entries o.list.first in
    let after = length-entries (list_remove o.list str).1.first in
    let size = ap length r.shown in
    let rc : (list_remove o.list str).0
        ≡ length (entries o.list.first) - length (remove_entry str (entries o.list.first)) =
      omega (arith, r.told, h.counted, r.linked.counted, before, after, size) in
    record {
      out = record o { list = (list_remove o.list str).1 };
      runs = ap (λ n. some (record o { list = (list_remove o.list str).1 }, code n)) rc;
      shows = r.shown;
      sound = r.linked;
    }

emptied-Refines :
    (o : Owner) (xs : List Item)
    → o.list.first ≡ xs
    → IsSound o
    → (entries (emptied o.list xs).first ≡ []) × IsLinked o.next (emptied o.list xs)
emptied-Refines o [] e h = (ap entries e, h)
emptied-Refines o (x ∷ xs) e h = (refl, init-IsLinked o.next)

empty-Refines : (o : Owner) → IsSound o → Refines o empty
unfolding call call_spec list_empty
empty-Refines o h =
    let (shown, linked) = emptied-Refines o o.list.first refl h in
    record {
      out = record o { list = list_empty o.list };
      runs = refl;
      shows = shown;
      sound = linked;
    }

contains-Refines : (o : Owner) (str : Bytes) → IsSound o → Refines o (contains str)
unfolding call call_spec list_contains
contains-Refines o str h = record {
  out = o;
  runs = ap (λ b. some (o, holds b)) (contains_from-has_entry o.list.first str);
  shows = refl;
  sound = h;
}

call-Refines : (o : Owner) (c : Call) → IsSound o → Refines o c
call-Refines o (append ok index payload) h = append-Refines o ok index payload h
call-Refines o (remove str) h = remove-Refines o str h
call-Refines o (contains str) h = contains-Refines o str h
call-Refines o empty h = empty-Refines o h

-- What a sequence of calls promises.
pub record Agree (o : Owner) (cs : List Call) : Type 0 where
  pub out : Owner
  pub runs : calls o cs ≡ some (out, (calls_spec (entries o.list.first) cs).1)
  pub shows : entries out.list.first ≡ (calls_spec (entries o.list.first) cs).0
  pub sound : IsSound out

-- Every sequence of appends, removals, searches and emptyings, on a list whose `last` is its end,
-- whose count is its length and whose nodes are distinct, runs with no fault; it gives the answers
-- and the entries of the same calls on a plain list, and a list of that kind.
pub calls-Agree : (o : Owner) (cs : List Call) → IsSound o → Agree o cs
unfolding calls calls_spec
calls-Agree o [] h = record { out = o; runs = refl; shows = refl; sound = h }
calls-Agree o (c ∷ cs) h =
    let first = call-Refines o c h in
    let rest = calls-Agree first.out cs first.sound in
    let es = entries o.list.first in
    record {
      out = rest.out;
      runs =
          rw (calls, first.runs, rest.runs)
            (ap (λ xs. some (rest.out, (call_spec es c).1 ∷ (calls_spec xs cs).1)) first.shows);
      shows = rest.shows ∙ ap (λ xs. (calls_spec xs cs).0) first.shows;
      sound = rest.sound;
    }
